-- ===== src/Webhook/Mailbox.antt =====
-- No hash that was given is forgotten.
use git_sync.Common.{
  ◌≡◌, refl, ap, sym, subst, arith, Bool, true, false, List, [], ◌∷◌, Text, equal, equal_iff, ◌⊎◌,
  inl, inr, Bool-cases, ℕ, zero, suc,
}
use git_sync.Webhook.{
  WebhookData, get, notify, Access, sets, notifies, send, Phase, waiting, looking, sending,
  backing_off, State, send_hash, proceed_with, proceed, finish, return, advance, gives, proceeds,
  advances, Reachable, starts, steps,
}

-- The newest hash is delivered, is being sent, or wakes the sender.
unfoldable pub IsKnown : Phase → Bool → Text → Text → Type 0
IsKnown waiting full hash last_hash = (full ≡ true) ⊎ (hash ≡ last_hash)
IsKnown looking full hash last_hash = Unit
IsKnown (sending h) full hash last_hash = (full ≡ true) ⊎ (hash ≡ h)
IsKnown backing_off full hash last_hash = Unit

-- Nothing is left to do.
pub record IsSettled (s : State) : Type 0 where
  pub idle : s.phase ≡ waiting
  pub drained : s.data_.full ≡ false
  pub newest : s.data_.hash ≡ s.last_hash

filled : (d : WebhookData) → (notify d).full ≡ true
unfolding notify
filled d = ground arith

-- The goroutine goes on a number of times, with no request failing.
unfoldable pub run_for : ℕ → State → State
run_for zero s = s
run_for (suc n) s = run_for n (advance false s)

abbrev pub state : Phase → Bool → Text → Text → List Text → List Text → List Access → State
state phase full hash last_hash given delivered calling = record {
  data_ = record { full = full; hash = hash };
  phase = phase;
  last_hash = last_hash;
  given = given;
  delivered = delivered;
  calling = calling;
}

-- Within a call of `Send`, this holds until the hash is set, and again when the call returns.
unfoldable pub Knows : List Access → Phase → Bool → Text → Text → Type 0
Knows [] p full hash last_hash = IsKnown p full hash last_hash
Knows (sets _ ∷ notifies ∷ []) p full hash last_hash = IsKnown p full hash last_hash
Knows (notifies ∷ []) p full hash last_hash = Unit
Knows _ p full hash last_hash = ⊥

abbrev KnowsIn : State → Type 0
KnowsIn s = Knows s.calling s.phase s.data_.full s.data_.hash s.last_hash

give-Knows : (hash : Text) (s : State) → s.calling ≡ [] → KnowsIn s → KnowsIn (send_hash hash s)
unfolding Knows send_hash send
give-Knows hash s idle k = rw idle at k

pub notified-IsKnown :
    (p : Phase) (d : WebhookData) (last_hash : Text)
    → IsKnown p (notify d).full (notify d).hash last_hash
unfolding IsKnown
notified-IsKnown waiting d last_hash = inl (filled d)
notified-IsKnown looking d last_hash = tt
notified-IsKnown (sending h) d last_hash = inl (filled d)
notified-IsKnown backing_off d last_hash = tt

proceed-Knows :
    (calling : List Access) (s : State)
    → Knows calling s.phase s.data_.full s.data_.hash s.last_hash
    → s.calling ≡ calling
    → KnowsIn (proceed_with calling s)
unfolding Knows proceed_with
proceed-Knows [] s k e = rw e k
proceed-Knows (sets h ∷ notifies ∷ []) s k e = tt
proceed-Knows (notifies ∷ []) s k e = notified-IsKnown s.phase s.data_ s.last_hash
proceed-Knows (sets h ∷ []) s k e = absurd k
proceed-Knows (sets h ∷ sets g ∷ rest) s k e = absurd k
proceed-Knows (sets h ∷ notifies ∷ a ∷ rest) s k e = absurd k
proceed-Knows (notifies ∷ a ∷ rest) s k e = absurd k

advance-IsKnown :
    (failed : Bool) (p : Phase) (full : Bool) (hash last_hash : Text) (given delivered : List Text)
    (calling : List Access)
    → IsKnown p full hash last_hash
    → let s = advance failed (state p full hash last_hash given delivered calling) in
      IsKnown s.phase s.data_.full s.data_.hash s.last_hash
unfolding IsKnown advance get
advance-IsKnown failed waiting true hash last_hash given delivered calling k = tt
advance-IsKnown failed waiting false hash last_hash given delivered calling k = k
advance-IsKnown failed looking full hash last_hash given delivered calling k =
    elim (Bool-cases (equal hash last_hash)) [
      | inl e ↦ rw e (inr ((equal_iff hash last_hash).0 e))
      | inr e ↦ rw e (inr refl)
    ]
advance-IsKnown true (sending h) full hash last_hash given delivered calling k = tt
advance-IsKnown false (sending h) full hash last_hash given delivered calling k = k
advance-IsKnown failed backing_off full hash last_hash given delivered calling k = tt

Knows-map :
    (calling : List Access) (p : Phase) (full : Bool) (hash last_hash : Text) (s : State)
    → (IsKnown p full hash last_hash → IsKnown s.phase s.data_.full s.data_.hash s.last_hash)
    → Knows calling p full hash last_hash
    → Knows calling s.phase s.data_.full s.data_.hash s.last_hash
unfolding Knows
Knows-map [] p full hash last_hash s f k = f k
Knows-map (sets h ∷ notifies ∷ []) p full hash last_hash s f k = f k
Knows-map (notifies ∷ []) p full hash last_hash s f k = tt
Knows-map (sets h ∷ []) p full hash last_hash s f k = k
Knows-map (sets h ∷ sets g ∷ rest) p full hash last_hash s f k = k
Knows-map (sets h ∷ notifies ∷ a ∷ rest) p full hash last_hash s f k = k
Knows-map (notifies ∷ a ∷ rest) p full hash last_hash s f k = k

pub advance-calling : (failed : Bool) (s : State) → (advance failed s).calling ≡ s.calling
unfolding advance
advance-calling failed s = by_phase s.phase
  where
    by_phase : (p : Phase) → (advance failed (record s { phase = p })).calling ≡ s.calling
    by_phase waiting = ground arith
    by_phase looking = ground arith
    by_phase (sending h) = ground arith
    by_phase backing_off = refl

advance-Knows :
    (failed : Bool) (p : Phase) (full : Bool) (hash last_hash : Text) (given delivered : List Text)
    (calling : List Access)
    → Knows calling p full hash last_hash
    → KnowsIn (advance failed (state p full hash last_hash given delivered calling))
advance-Knows failed p full hash last_hash given delivered calling k =
    let s = advance failed (state p full hash last_hash given delivered calling) in
    subst (λ c. Knows c s.phase s.data_.full s.data_.hash s.last_hash)
      (sym (advance-calling failed (state p full hash last_hash given delivered calling)))
      (Knows-map calling p full hash last_hash s
        (advance-IsKnown failed p full hash last_hash given delivered calling) k)

pub Reachable-Knows : {s : State} → Reachable s → KnowsIn s
unfolding IsKnown Knows
Reachable-Knows starts = inr refl
Reachable-Knows (steps {s} r (gives hash idle)) = give-Knows hash s idle (Reachable-Knows r)
Reachable-Knows (steps {s} r proceeds) = proceed-Knows s.calling s (Reachable-Knows r) refl
Reachable-Knows (steps {s} r (advances failed)) =
    advance-Knows failed s.phase s.data_.full s.data_.hash s.last_hash s.given s.delivered s.calling
      (Reachable-Knows r)

-- A call that returns is over, and leaves a state that can be reached.
finish-calling :
    (calling : List Access) (s : State) → s.calling ≡ calling → (finish calling s).calling ≡ []
unfolding finish proceed_with
finish-calling [] s e = e
finish-calling (sets h ∷ rest) s e = rw e (finish-calling rest _ refl)
finish-calling (notifies ∷ rest) s e = rw e (finish-calling rest _ refl)

pub return-calling : (s : State) → (return s).calling ≡ []
return-calling s = finish-calling s.calling s refl

pub return-idle : (s : State) → s.calling ≡ [] → return s ≡ s
unfolding finish
return-idle s e = ap (λ c. finish c s) e

finish-Reachable : (calling : List Access) (s : State) → Reachable s → Reachable (finish calling s)
unfolding finish
finish-Reachable [] s r = r
finish-Reachable (a ∷ rest) s r = finish-Reachable rest (proceed s) (steps r proceeds)

pub return-Reachable : (s : State) → Reachable s → Reachable (return s)
return-Reachable s = finish-Reachable s.calling s

module _ (given delivered : List Text) (calling : List Access) where
  from_idle :
      (n : ℕ) (hash : Text)
      → IsSettled (run_for n (state waiting false hash hash given delivered calling))
  unfolding run_for advance
  from_idle zero hash = record { idle = refl; drained = refl; newest = refl }
  from_idle (suc n) hash = from_idle n hash

from_looking :
    (n : ℕ) (hash last_hash : Text) (given delivered : List Text) (calling : List Access)
    → IsSettled (run_for (suc (suc n)) (state looking false hash last_hash given delivered calling))
unfolding run_for advance get
from_looking n hash last_hash given delivered calling = elim (Bool-cases (equal hash last_hash)) [
  | inl e ↦
      rw (e, (equal_iff hash last_hash).0 e) (from_idle given delivered calling (suc n) last_hash)
  | inr e ↦ rw e (from_idle given (hash ∷ delivered) calling n hash)
]

from_looking_full :
    (n : ℕ) (hash last_hash : Text) (given delivered : List Text) (calling : List Access)
    → IsSettled (
        run_for
          (suc (suc (suc (suc (suc n)))))
          (state looking true hash last_hash given delivered calling))
unfolding run_for advance get
from_looking_full n hash last_hash given delivered calling =
    elim (Bool-cases (equal hash last_hash)) [
      | inl e ↦ rw e (from_looking (suc n) hash last_hash given delivered calling)
      | inr e ↦ rw e (from_looking n hash hash given (hash ∷ delivered) calling)
    ]

settles :
    (p : Phase) (full : Bool) (hash last_hash : Text) (given delivered : List Text)
    (calling : List Access)
    → IsKnown p full hash last_hash
    → IsSettled (run_for 6 (state p full hash last_hash given delivered calling))
unfolding IsKnown advance get run_for
settles waiting true hash last_hash given delivered calling k =
    from_looking 3 hash last_hash given delivered calling
settles waiting false hash last_hash given delivered calling (inl e) = ground arith
settles waiting false hash last_hash given delivered calling (inr e) =
    rw e (from_idle given delivered calling 6 last_hash)
settles looking true hash last_hash given delivered calling k =
    from_looking_full 1 hash last_hash given delivered calling
settles looking false hash last_hash given delivered calling k =
    from_looking 4 hash last_hash given delivered calling
settles (sending h) true hash last_hash given delivered calling k =
    from_looking 2 hash h given (h ∷ delivered) calling
settles (sending h) false hash last_hash given delivered calling (inl e) = ground arith
settles (sending h) false hash last_hash given delivered calling (inr e) =
    rw e (from_idle given (h ∷ delivered) calling 5 h)
settles backing_off true hash last_hash given delivered calling k =
    from_looking_full 0 hash last_hash given delivered calling
settles backing_off false hash last_hash given delivered calling k =
    from_looking 3 hash last_hash given delivered calling

idle-settles : (s : State) → s.calling ≡ [] → KnowsIn s → IsSettled (run_for 6 s)
unfolding Knows
idle-settles s e k =
    settles s.phase s.data_.full s.data_.hash s.last_hash s.given s.delivered s.calling
      (subst (λ c. Knows c s.phase s.data_.full s.data_.hash s.last_hash) e k)

pub Reachable-settles : (s : State) → Reachable s → IsSettled (run_for 6 (return s))
Reachable-settles s r =
    let back = return s in
    idle-settles back (return-calling s) (Reachable-Knows (return-Reachable s r))
