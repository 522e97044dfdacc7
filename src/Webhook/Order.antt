-- ===== src/Webhook/Order.antt =====
-- What is delivered, of what was given.
use git_sync.Common.{
  ◌≡◌, refl, arith, Bool, true, false, List, [], ◌∷◌, Text, equal, equal_refl, inl, inr, Bool-cases,
  ◌∙◌, sym, subst,
}
use git_sync.Webhook.Mailbox.{state}
use git_sync.Webhook.{
  WebhookData, get, set, notify, Access, sets, notifies, Phase, waiting, looking, sending,
  backing_off, State, send_hash, proceed_with, advance, gives, proceeds, advances, Reachable,
  starts, steps,
}

-- The hashes of the one list stand in the other, in the same order.
pub data IsWithin : List Text → List Text → Type 0 where
  empty : IsWithin [] []
  skip : {x : Text} {xs ys : List Text} → IsWithin xs ys → IsWithin xs (x ∷ ys)
  keep : {x : Text} {xs ys : List Text} → IsWithin xs ys → IsWithin (x ∷ xs) (x ∷ ys)

-- The first hash, and the empty one if there is none.
unfoldable pub newest : List Text → Text
newest [] = []
newest (x ∷ _) = x

-- No hash is the same as the one delivered just before, and the first is not empty.
pub IsFresh : List Text → Type 0
unfolding newest
IsFresh [] = Unit
IsFresh (x ∷ xs) = (equal x (newest xs) ≡ false) × IsFresh xs

-- With the hash that is being sent.
pub on_the_way : Phase → List Text → List Text
on_the_way (sending h) xs = h ∷ xs
on_the_way _ xs = xs

pub record IsOrdered (s : State) : Type 0 where
  pub within : IsWithin (on_the_way s.phase s.delivered) s.given
  pub fresh : IsFresh (on_the_way s.phase s.delivered)
  pub latest : s.data_.hash ≡ newest s.given
  pub last : s.last_hash ≡ newest s.delivered

clash : {b : Bool} → b ≡ true → b ≡ false → ⊥
clash p q = ground arith

extend :
    (xs ys : List Text)
    → equal (newest ys) (newest xs) ≡ false
    → IsWithin xs ys
    → IsWithin (newest ys ∷ xs) ys
unfolding newest
extend xs ys h empty = absurd (clash (equal_refl []) h)
extend xs (y ∷ ys) h (skip w) = keep w
extend (x ∷ xs) (y ∷ ys) h (keep w) = absurd (clash (equal_refl x) h)

pub notify-hash : (d : WebhookData) → (notify d).hash ≡ d.hash
unfolding notify
notify-hash d = ground arith

shrink : {x : Text} {xs ys : List Text} → IsWithin (x ∷ xs) ys → IsWithin xs ys
shrink (skip w) = skip (shrink w)
shrink (keep w) = skip w

give-IsOrdered : (hash : Text) (s : State) → IsOrdered s → IsOrdered (send_hash hash s)
unfolding send_hash
give-IsOrdered hash s o = record {
  within = o.within;
  fresh = o.fresh;
  latest = o.latest;
  last = o.last;
}

proceed-IsOrdered :
    (calling : List Access) (s : State) → IsOrdered s → IsOrdered (proceed_with calling s)
unfolding newest proceed_with set
proceed-IsOrdered [] s o = o
proceed-IsOrdered (sets hash ∷ rest) s o = record {
  within = skip o.within;
  fresh = o.fresh;
  latest = refl;
  last = o.last;
}
proceed-IsOrdered (notifies ∷ rest) s o = record {
  within = o.within;
  fresh = o.fresh;
  latest = notify-hash s.data_ ∙ o.latest;
  last = o.last;
}

looking-IsOrdered :
    (full : Bool) (hash last_hash : Text) (given delivered : List Text) (calling : List Access)
    → IsOrdered (state looking full hash last_hash given delivered calling)
    → equal hash last_hash ≡ false
    → IsOrdered (state (sending hash) full hash last_hash given delivered calling)
unfolding on_the_way IsFresh
looking-IsOrdered full hash last_hash given delivered calling o h = record {
  within =
      subst (λ x. IsWithin (x ∷ delivered) given) (sym o.latest)
        (extend delivered given new o.within);
  fresh = (subst (λ x. equal hash x ≡ false) o.last h, o.fresh);
  latest = o.latest;
  last = o.last;
}
  where
    new : equal (newest given) (newest delivered) ≡ false
    new =
        subst (λ x. equal x (newest delivered) ≡ false) o.latest
          (subst (λ x. equal hash x ≡ false) o.last h)

advance-IsOrdered :
    (failed : Bool) (p : Phase) (full : Bool) (hash last_hash : Text) (given delivered : List Text)
    (calling : List Access)
    → IsOrdered (state p full hash last_hash given delivered calling)
    → IsOrdered (advance failed (state p full hash last_hash given delivered calling))
unfolding newest advance on_the_way get IsFresh
advance-IsOrdered failed waiting true hash last_hash given delivered calling o = record {
  within = o.within;
  fresh = o.fresh;
  latest = o.latest;
  last = o.last;
}
advance-IsOrdered failed waiting false hash last_hash given delivered calling o = o
advance-IsOrdered failed looking full hash last_hash given delivered calling o =
    elim (Bool-cases (equal hash last_hash)) [
      | inl e ↦
          rw e (record { within = o.within; fresh = o.fresh; latest = o.latest; last = o.last })
      | inr e ↦ rw e (looking-IsOrdered full hash last_hash given delivered calling o e)
    ]
advance-IsOrdered true (sending h) full hash last_hash given delivered calling o = record {
  within = shrink o.within;
  fresh = o.fresh.1;
  latest = o.latest;
  last = o.last;
}
advance-IsOrdered false (sending h) full hash last_hash given delivered calling o = record {
  within = o.within;
  fresh = o.fresh;
  latest = o.latest;
  last = refl;
}
advance-IsOrdered failed backing_off full hash last_hash given delivered calling o = record {
  within = o.within;
  fresh = o.fresh;
  latest = o.latest;
  last = o.last;
}

pub Reachable-IsOrdered : {s : State} → Reachable s → IsOrdered s
unfolding newest on_the_way IsFresh
Reachable-IsOrdered starts = record { within = empty; fresh = tt; latest = refl; last = refl }
Reachable-IsOrdered (steps {s} r (gives hash idle)) = give-IsOrdered hash s (Reachable-IsOrdered r)
Reachable-IsOrdered (steps {s} r proceeds) = proceed-IsOrdered s.calling s (Reachable-IsOrdered r)
Reachable-IsOrdered (steps {s} r (advances failed)) =
    advance-IsOrdered failed s.phase s.data_.full s.data_.hash s.last_hash s.given s.delivered
      s.calling (Reachable-IsOrdered r)

on_the_way-within : (p : Phase) {xs ys : List Text} → IsWithin (on_the_way p xs) ys → IsWithin xs ys
unfolding on_the_way
on_the_way-within waiting w = w
on_the_way-within looking w = w
on_the_way-within (sending h) w = shrink w
on_the_way-within backing_off w = w

on_the_way-IsFresh : (p : Phase) (xs : List Text) → IsFresh (on_the_way p xs) → IsFresh xs
unfolding on_the_way IsFresh
on_the_way-IsFresh waiting xs f = f
on_the_way-IsFresh looking xs f = f
on_the_way-IsFresh (sending h) xs f = f.1
on_the_way-IsFresh backing_off xs f = f

-- In every state that an interleaving of the main loop and the sender can reach, the hashes that were
-- delivered were given, in the same order, and none of them is the one before again, nor is the first
-- one empty.
pub Reachable-in_order :
    (s : State) → Reachable s → IsWithin s.delivered s.given × IsFresh s.delivered
Reachable-in_order s r =
    let o = Reachable-IsOrdered r in
    (on_the_way-within s.phase o.within, on_the_way-IsFresh s.phase s.delivered o.fresh)
