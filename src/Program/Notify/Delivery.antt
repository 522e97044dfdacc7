-- ===== src/Program/Notify/Delivery.antt =====
-- What the sender has of the hashes that the loop synced.
use git_sync.Common.{
  ◌≡◌, refl, ◌∙◌, sym, ap, subst, arith, Bool, true, false, none, some, List, [], ◌∷◌,
  if◌then◌else◌, ◌==◌, length, Text, is_empty,
}
use git_sync.Flags.{Flags}
use git_sync.Os.{Env, Machine, Result, ok, err}
use git_sync.Main.{Next, sync}
use git_sync.Main.Metrics.{counts, count, loop_step-counts}
use git_sync.Webhook.{
  Webhook, Access, sets, notifies, send, State, send_hash, proceed_with, proceed, finish, return,
  advance, Reachable, starts, steps, gives, proceeds, advances,
}
use git_sync.Webhook.Mailbox.{run_for, advance-calling, return-calling, return-idle}
use git_sync.Webhook.Order.{newest, IsWithin, Reachable-in_order}
use git_sync.Webhook.Delivery.{advance-given, Reachable-delivers}
use git_sync.Program.Notify.{
  webhook_of, make_webhook, System, carry_on, hand_over, go_on, Turn, iterates, goes_on, Runs,
  launches, turns,
}

-- The sender was given these hashes, and no call of `Send` is under way.
record Has (sent : List Text) (s : State) : Type 0 where
  reachable : Reachable s
  given : s.given ≡ sent
  idle : s.calling ≡ []

advance-Has :
    {sent : List Text} (failed : Bool) {s : State} → Has sent s → Has sent (advance failed s)
advance-Has failed {s} h = record {
  reachable = steps h.reachable (advances failed);
  given = advance-given failed s ∙ h.given;
  idle = advance-calling failed s ∙ h.idle;
}

go_on-Has :
    {sent : List Text} (failures : List Bool) {s : State} → Has sent s → Has sent (go_on failures s)
unfolding go_on
go_on-Has [] h = h
go_on-Has (failed ∷ rest) h = go_on-Has rest (advance-Has failed h)

-- Within a call that gives a hash.
unfoldable Gives : Text → List Text → List Access → List Text → Type 0
Gives hash sent (sets h ∷ notifies ∷ []) given = (h ≡ hash) × (given ≡ sent)
Gives hash sent (notifies ∷ []) given = given ≡ hash ∷ sent
Gives hash sent [] given = given ≡ hash ∷ sent
Gives hash sent _ given = ⊥

record IsGiving (hash : Text) (sent : List Text) (s : State) : Type 0 where
  reachable : Reachable s
  gives : Gives hash sent s.calling s.given

proceed-Gives :
    (hash : Text) (sent : List Text) (calling : List Access) (s : State)
    → s.calling ≡ calling
    → Gives hash sent calling s.given
    → Gives hash sent (proceed_with calling s).calling (proceed_with calling s).given
unfolding Gives proceed_with
proceed-Gives hash sent [] s e g = rw e g
proceed-Gives hash sent (sets h ∷ notifies ∷ []) s e (same, g) = cc
proceed-Gives hash sent (notifies ∷ []) s e g = g
proceed-Gives hash sent (sets h ∷ []) s e g = absurd g
proceed-Gives hash sent (sets h ∷ sets k ∷ rest) s e g = absurd g
proceed-Gives hash sent (sets h ∷ notifies ∷ a ∷ rest) s e g = absurd g
proceed-Gives hash sent (notifies ∷ a ∷ rest) s e g = absurd g

module _ (hash : Text) (sent : List Text) where
  proceed-IsGiving : {s : State} → IsGiving hash sent s → IsGiving hash sent (proceed s)
  proceed-IsGiving {s} i = record {
    reachable = steps i.reachable proceeds;
    gives = proceed-Gives hash sent s.calling s refl i.gives;
  }

  go_on-IsGiving :
      (failures : List Bool) {s : State}
      → IsGiving hash sent s
      → IsGiving hash sent (go_on failures s)
  unfolding go_on
  go_on-IsGiving [] i = i
  go_on-IsGiving (failed ∷ rest) {s} i = go_on-IsGiving rest (record {
    reachable = steps i.reachable (advances failed);
    gives =
        subst (λ c. Gives hash sent c (advance failed s).given) (sym (advance-calling failed s))
          (subst (Gives hash sent s.calling) (sym (advance-given failed s)) i.gives);
  })

  finish-IsGiving :
      (calling : List Access) {s : State}
      → IsGiving hash sent s
      → IsGiving hash sent (finish calling s)
  unfolding finish
  finish-IsGiving [] i = i
  finish-IsGiving (a ∷ rest) i = finish-IsGiving rest (proceed-IsGiving i)

  -- Whatever turns the sender has within it, the call ends with the hash given.
  carry_on-Has :
      (during : List (List Bool)) {s : State}
      → IsGiving hash sent s
      → Has (hash ∷ sent) (carry_on during s)
  unfolding carry_on Gives
  carry_on-Has [] {s} i =
      let j = finish-IsGiving s.calling i in
      record {
        reachable = j.reachable;
        given = subst (λ c. Gives hash sent c (return s).given) (return-calling s) j.gives;
        idle = return-calling s;
      }
  carry_on-Has (failures ∷ during) i =
      carry_on-Has during (proceed-IsGiving (go_on-IsGiving failures i))

hand_over-same :
    (sent : List Text) (during : List (List Bool)) (s : State) → hand_over sent sent during s ≡ s
unfolding hand_over
hand_over-same [] during s = refl
hand_over-same (x ∷ sent) during s = ground arith

hand_over-Has :
    (hash : Text) (sent : List Text) (during : List (List Bool)) {s : State}
    → Has sent s
    → Has (hash ∷ sent) (hand_over sent (hash ∷ sent) during s)
unfolding hand_over send_hash send Gives
hand_over-Has hash sent during {s} h = rw equal_length (
    carry_on-Has hash sent during
      (record { reachable = steps h.reachable (gives hash h.idle); gives = (refl, h.given) }))
  where
    equal_length : (length sent == length sent) ≡ true
    equal_length = ground arith

-- As many hashes as there were syncs that succeeded.
record IsInStep (s : System) : Type 0 where
  has : Has s.machine.sent s.sender
  counted : length s.machine.sent ≡ s.machine.sync_success

-- What the sender has behind an iteration with these hashes sent.
module _ (sent : List Text) (earlier : List Bool) (during : List (List Bool)) (later : List Bool)
    (s : State) (h : Has sent s) where
  abbrev HasBehind : List Text → Type 0
  HasBehind sent' = Has sent' (go_on later (hand_over sent sent' during (go_on earlier s)))

  HasBehind-same : HasBehind sent
  HasBehind-same =
      go_on-Has later (rw (hand_over-same sent during (go_on earlier s)) (go_on-Has earlier h))

  HasBehind-new : (hash : Text) → HasBehind (hash ∷ sent)
  HasBehind-new hash = go_on-Has later (hand_over-Has hash sent during (go_on-Has earlier h))

configured-webhook :
    (fl : Flags) {w : Webhook} → make_webhook fl ≡ some w → is_empty fl.webhook_url ≡ false
unfolding make_webhook
configured-webhook fl h = by_url (webhook_of fl) (is_empty fl.webhook_url) h
  where
    by_url :
        (v : Webhook) {w : Webhook} (b : Bool) → (if b then none else some v) ≡ some w → b ≡ false
    by_url v b h = ground arith

module _ (env : Env) (fl : Flags) where
  -- Behind an iteration, by what its sync returned.
  iterated :
      (r : Result (Bool × Text)) (m m' : Machine) (next : Next) (earlier : List Bool)
      (during : List (List Bool)) (later : List Bool) (s : State)
      → counts m' ≡ count fl r (counts m)
      → Has m.sent s
      → length m.sent ≡ m.sync_success
      → is_empty fl.webhook_url ≡ false
      → IsInStep (record {
        machine = m';
        next = next;
        sender = go_on later (hand_over m.sent m'.sent during (go_on earlier s));
      })
  unfolding counts count
  iterated (err e) m m' next earlier during later s q h n configured = record {
    has =
        subst (HasBehind m.sent earlier during later s h) (sym (ap (λ c. c.handed) q))
          (HasBehind-same m.sent earlier during later s h);
    counted = ap (λ c. length c.handed) q ∙ (n ∙ sym (ap (λ c. c.succeeded) q));
  }
  iterated (ok (false, hash)) m m' next earlier during later s q h n configured = record {
    has =
        subst (HasBehind m.sent earlier during later s h) (sym (ap (λ c. c.handed) q))
          (HasBehind-same m.sent earlier during later s h);
    counted = ap (λ c. length c.handed) q ∙ (n ∙ sym (ap (λ c. c.succeeded) q));
  }
  iterated (ok (true, hash)) m m' next earlier during later s q h n configured = record {
    has =
        subst (HasBehind m.sent earlier during later s h) (sym handed)
          (HasBehind-new m.sent earlier during later s h hash);
    counted = ap length handed ∙ (omega (arith, n) ∙ sym (ap (λ c. c.succeeded) q));
  }
    where
      handed : m'.sent ≡ hash ∷ m.sent
      handed = ap (λ c. c.handed) q ∙ ap (λ b. if b then m.sent else hash ∷ m.sent) configured

  Turn-IsInStep :
      {s s' : System}
      → Turn env fl s s'
      → is_empty fl.webhook_url ≡ false
      → IsInStep s
      → IsInStep s'
  Turn-IsInStep {s} (iterates l next m earlier during later at step) configured i =
      iterated (sync env fl s.machine).0 s.machine m next earlier during later s.sender
        (ap (λ r. counts r.1) (sym step) ∙ loop_step-counts env fl l s.machine) i.has i.counted
        configured
  Turn-IsInStep (goes_on failed running) configured i = record {
    has = advance-Has failed i.has;
    counted = i.counted;
  }

  Runs-configured : {m : Machine} {s : System} → Runs env fl m s → is_empty fl.webhook_url ≡ false
  Runs-configured (launches w made) = configured-webhook fl made
  Runs-configured (turns r t) = Runs-configured r

  Runs-IsInStep :
      {m : Machine} {s : System} → m.sent ≡ [] → m.sync_success ≡ 0 → Runs env fl m s → IsInStep s
  Runs-IsInStep none_sent none_counted (launches w made) = record {
    has = record { reachable = starts; given = sym none_sent; idle = refl };
    counted = ap length none_sent ∙ sym none_counted;
  }
  Runs-IsInStep none_sent none_counted (turns r t) =
      Turn-IsInStep t (Runs-configured r) (Runs-IsInStep none_sent none_counted r)

  -- Where a webhook is configured, however the loop and the sender take their turns, whatever the world does
  -- and whichever requests fail: the loop has handed over as many hashes as it has counted successful
  -- syncs, those that were delivered are among them in that order, and six steps of the sender whose
  -- requests do not fail leave the newest one delivered.
  pub Runs-delivers :
      (m : Machine) (s : System)
      → m.sent ≡ []
      → m.sync_success ≡ 0
      → Runs env fl m s
      → (length s.machine.sent ≡ s.machine.sync_success)
        × IsWithin s.sender.delivered s.machine.sent
        × (newest (run_for 6 s.sender).delivered ≡ newest s.machine.sent)
  Runs-delivers m s none_sent none_counted r =
      let i = Runs-IsInStep none_sent none_counted r in
      (
        i.counted,
        subst (IsWithin s.sender.delivered) i.has.given
            (Reachable-in_order s.sender i.has.reachable).0,
        subst (λ w. newest (run_for 6 w).delivered ≡ newest w.given)
              (return-idle s.sender i.has.idle) (Reachable-delivers s.sender i.has.reachable).1
            ∙ ap newest i.has.given,
      )
