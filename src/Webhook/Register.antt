-- ===== src/Webhook/Register.antt =====
-- What the mailbox and the sender promise together, with the channel and the phases forgotten: a
-- register that holds one hash, from which one delivery at a time is made.
use git_sync.Common.{
  ◌≡◌, refl, sym, ◌∙◌, ap, subst, arith, ◌↔◌, Bool, true, false, Option, none, some, List, [], ◌∷◌,
  inl, inr, Text, equal, equal_iff, Bool-cases,
}
use git_sync.Webhook.{
  get, Phase, waiting, looking, sending, backing_off, State, start, set, notify, Access, sets,
  notifies, send, send_hash, proceed_with, proceed, finish, return, advance, gives, proceeds,
  advances, Reachable, starts, steps,
}
use git_sync.Webhook.Mailbox.{
  state, IsKnown, Knows, Reachable-Knows, notified-IsKnown, return-calling, return-Reachable,
}
use git_sync.Webhook.Order.{newest, notify-hash, Reachable-IsOrdered}

pub record Register : Type 0 where
  pub value : Text
  pub in_flight : Option Text
  pub delivered : List Text

-- A hash is written over the one before; the value is sent, if it is not what was delivered last; it
-- arrives, or is lost.
pub data Change (r : Register) : Register → Type 0 where
  written : (hash : Text) → Change r (record r { value = hash })
  begun :
      r.in_flight ≡ none
      → equal r.value (newest r.delivered) ≡ false
      → Change r (record r { in_flight = some r.value })
  arrived :
      (hash : Text)
      → r.in_flight ≡ some hash
      → Change r (record r { in_flight = none; delivered = hash ∷ r.delivered })
  lost : (hash : Text) → r.in_flight ≡ some hash → Change r (record r { in_flight = none })

abbrev pub empty_register : Register
empty_register = record { value = []; in_flight = none; delivered = [] }

pub data Reaches : Register → Type 0 where
  begins : Reaches empty_register
  changes : {r r' : Register} → Reaches r → Change r r' → Reaches r'

unfoldable pub under_way : Phase → Option Text
under_way (sending hash) = some hash
under_way _ = none

-- What the register shows of a state.
abbrev pub view : State → Register
view s = record { value = s.data_.hash; in_flight = under_way s.phase; delivered = s.delivered }

advance-Reaches :
    (failed : Bool) (p : Phase) (full : Bool) (hash last_hash : Text) (given delivered : List Text)
    (calling : List Access)
    → last_hash ≡ newest delivered
    → Reaches (view (state p full hash last_hash given delivered calling))
    → Reaches (view (advance failed (state p full hash last_hash given delivered calling)))
unfolding advance get under_way
advance-Reaches failed waiting true hash last_hash given delivered calling e r = r
advance-Reaches failed waiting false hash last_hash given delivered calling e r = r
advance-Reaches failed looking full hash last_hash given delivered calling e r =
    elim (Bool-cases (equal hash last_hash)) [
      | inl same ↦ rw same r
      | inr new ↦ rw new (changes r (begun refl (subst (λ l. equal hash l ≡ false) e new)))
    ]
advance-Reaches true (sending h) full hash last_hash given delivered calling e r =
    changes r (lost h refl)
advance-Reaches false (sending h) full hash last_hash given delivered calling e r =
    changes r (arrived h refl)
advance-Reaches failed backing_off full hash last_hash given delivered calling e r = r

proceed-Reaches :
    (calling : List Access) (s : State) → Reaches (view s) → Reaches (view (proceed_with calling s))
unfolding proceed_with set
proceed-Reaches [] s r = r
proceed-Reaches (sets hash ∷ rest) s r = changes r (written hash)
proceed-Reaches (notifies ∷ rest) s r =
    subst (λ h. Reaches (record (view s) { value = h })) (sym (notify-hash s.data_)) r

Reachable-Reaches : {s : State} → Reachable s → Reaches (view s)
unfolding under_way send_hash
Reachable-Reaches starts = begins
Reachable-Reaches (steps {s} r (gives hash idle)) = Reachable-Reaches r
Reachable-Reaches (steps {s} r proceeds) = proceed-Reaches s.calling s (Reachable-Reaches r)
Reachable-Reaches (steps {s} r (advances failed)) =
    advance-Reaches failed s.phase s.data_.full s.data_.hash s.last_hash s.given s.delivered
      s.calling (Reachable-IsOrdered r).last (Reachable-Reaches r)

-- A state that can be reached and shows this.
pub Shows : Register → Type 0
Shows r = (s : State) × Reachable s × (view s ≡ r)

advanced : {s : State} → Reachable s → Reachable (advance false s)
advanced r = steps r (advances false)

same : (a b : Text) → a ≡ b → equal a b ≡ false → ⊥
same a b e h = ground (arith, equal_iff a b)

the_same : {h : Text} (g : Text) → some g ≡ some h → g ≡ h
the_same g e = ground arith

-- The sender gets to send a value that is new.
begun-Shows :
    (p : Phase) (full : Bool) (hash last_hash : Text) (given delivered : List Text)
    (calling : List Access)
    → Reachable (state p full hash last_hash given delivered calling)
    → IsKnown p full hash last_hash
    → under_way p ≡ none
    → equal hash last_hash ≡ false
    → Shows (record { value = hash; in_flight = some hash; delivered = delivered })
unfolding Shows IsKnown under_way advance get
begun-Shows waiting true hash last_hash given delivered calling r k idle new =
    (_, advanced (advanced r), rw new refl)
begun-Shows waiting false hash last_hash given delivered calling r (inl k) idle new = ground arith
begun-Shows waiting false hash last_hash given delivered calling r (inr k) idle new =
    absurd (same hash last_hash k new)
begun-Shows looking full hash last_hash given delivered calling r k idle new =
    (_, advanced r, rw new refl)
begun-Shows (sending h) full hash last_hash given delivered calling r k idle new = ground arith
begun-Shows backing_off full hash last_hash given delivered calling r k idle new =
    (_, advanced (advanced r), rw new refl)

module _ (full : Bool) (hash last_hash : Text) (given delivered : List Text) (calling : List Access)
    (h : Text) where
  arrived-Shows :
      (p : Phase)
      → Reachable (state p full hash last_hash given delivered calling)
      → under_way p ≡ some h
      → Shows (record { value = hash; in_flight = none; delivered = h ∷ delivered })
  unfolding Shows under_way advance
  arrived-Shows waiting r e = ground arith
  arrived-Shows looking r e = ground arith
  arrived-Shows (sending g) r e = (
    _,
    steps r (advances false),
    ap (λ l. record { value = hash; in_flight = none; delivered = l ∷ delivered }) (the_same g e),
  )
  arrived-Shows backing_off r e = ground arith

  lost-Shows :
      (p : Phase)
      → Reachable (state p full hash last_hash given delivered calling)
      → under_way p ≡ some h
      → Shows (record { value = hash; in_flight = none; delivered = delivered })
  unfolding Shows under_way advance
  lost-Shows waiting r e = ground arith
  lost-Shows looking r e = ground arith
  lost-Shows (sending g) r e = (_, steps r (advances true), refl)
  lost-Shows backing_off r e = ground arith

-- Where a call of `Send` has yet to wake the sender, it does so first.
known-Shows :
    (calling : List Access) (s : State)
    → s.calling ≡ calling
    → Reachable s
    → Knows calling s.phase s.data_.full s.data_.hash s.last_hash
    → under_way s.phase ≡ none
    → equal s.data_.hash s.last_hash ≡ false
    → Shows
        (record { value = s.data_.hash; in_flight = some s.data_.hash; delivered = s.delivered })
unfolding Knows proceed_with
known-Shows [] s e r k idle new =
    begun-Shows s.phase s.data_.full s.data_.hash s.last_hash s.given s.delivered s.calling r k idle
      new
known-Shows (sets h ∷ notifies ∷ []) s e r k idle new =
    begun-Shows s.phase s.data_.full s.data_.hash s.last_hash s.given s.delivered s.calling r k idle
      new
known-Shows (notifies ∷ []) s e r k idle new =
    subst (λ h. Shows (record { value = h; in_flight = some h; delivered = s.delivered }))
      (notify-hash s.data_)
      (begun-Shows s.phase (notify s.data_).full (notify s.data_).hash s.last_hash s.given
        s.delivered [] (subst (λ c. Reachable (proceed_with c s)) e (steps r proceeds))
        (notified-IsKnown s.phase s.data_ s.last_hash) idle
        (subst (λ h. equal h s.last_hash ≡ false) (sym (notify-hash s.data_)) new))
known-Shows (sets h ∷ []) s e r k idle new = absurd k
known-Shows (sets h ∷ sets g ∷ rest) s e r k idle new = absurd k
known-Shows (sets h ∷ notifies ∷ a ∷ rest) s e r k idle new = absurd k
known-Shows (notifies ∷ a ∷ rest) s e r k idle new = absurd k

-- A call of `Send` only touches the value.
proceed-view :
    (calling : List Access) (s : State) (hash : Text)
    → record (view (proceed_with calling s)) { value = hash } ≡ record (view s) { value = hash }
unfolding proceed_with
proceed-view [] s hash = refl
proceed-view (sets h ∷ rest) s hash = refl
proceed-view (notifies ∷ rest) s hash = refl

finish-view :
    (calling : List Access) (s : State) (hash : Text)
    → record (view (finish calling s)) { value = hash } ≡ record (view s) { value = hash }
unfolding finish
finish-view [] s hash = refl
finish-view (a ∷ rest) s hash = finish-view rest (proceed s) hash ∙ proceed-view s.calling s hash

-- Each change can be made by the mailbox and the sender.
Change-Shows : {v r : Register} → Change v r → (s : State) → Reachable s → view s ≡ v → Shows r
unfolding Shows send_hash send proceed_with set
Change-Shows (written hash) s r e = (
  proceed (send_hash hash (return s)),
  steps (steps (return-Reachable s r) (gives hash (return-calling s))) proceeds,
  finish-view s.calling s hash ∙ ap {A = Register} (λ w. record w { value = hash }) e,
)
Change-Shows (begun idle new) s r e =
    subst (λ w. Shows (record w { in_flight = some w.value })) e
      (known-Shows s.calling s refl r (Reachable-Knows r)
        (subst (λ w. w.in_flight ≡ none) (sym e) idle)
        (subst (λ l. equal s.data_.hash l ≡ false) (sym (Reachable-IsOrdered r).last)
          (subst (λ w. equal w.value (newest w.delivered) ≡ false) (sym e) new)))
Change-Shows (arrived h sends) s r e =
    subst (λ w. Shows (record w { in_flight = none; delivered = h ∷ w.delivered })) e
      (arrived-Shows s.data_.full s.data_.hash s.last_hash s.given s.delivered s.calling h s.phase r
        (subst (λ w. w.in_flight ≡ some h) (sym e) sends))
Change-Shows (lost h sends) s r e =
    subst (λ w. Shows (record w { in_flight = none })) e
      (lost-Shows s.data_.full s.data_.hash s.last_hash s.given s.delivered s.calling h s.phase r
        (subst (λ w. w.in_flight ≡ some h) (sym e) sends))

Reaches-Shows : {r : Register} → Reaches r → Shows r
unfolding Shows under_way
Reaches-Shows begins = (start, starts, refl)
Reaches-Shows (changes reached c) = let (s, r, e) = Reaches-Shows reached in Change-Shows c s r e

-- With the channel and the phases forgotten, what an interleaving of the main loop and the sender can
-- show is exactly what the register can come to: one hash, written over the one before, from which
-- one delivery at a time is begun, of a value that is not what was delivered last.
pub Reachable-refines : (r : Register) → Reaches r ↔ Shows r
unfolding Shows
Reachable-refines r =
    (Reaches-Shows, λ (s, reachable, e). subst Reaches e (Reachable-Reaches reachable))
