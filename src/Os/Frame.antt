-- ===== src/Os/Frame.antt =====
-- Relations between the machine before and after: what holds of each step holds of the steps in a
-- row, whatever the errors.
use git_sync.Common.{Bool, true, false, if◌then◌else◌}
use git_sync.Os.{Machine, Failure, Result, ok, err, Io, ◌>>=◌, pure, fail, attempt, or_else, defer}

-- A relation that a sequence of steps inherits.
pub record IsFrame (R : Machine → Machine → Type 0) : Type 0 where
  pub same : (m : Machine) → R m m
  pub trans : (m m' m'' : Machine) → R m m' → R m' m'' → R m m''

pub record Keeps {ℓ} {A : Type ℓ} (R : Machine → Machine → Type 0) (x : Io A) : Type 0 where
  pub keeps : (m : Machine) → R m (x m).1

module _ {R : Machine → Machine → Type 0} (frame : IsFrame R) where
  pub Keeps-pure {ℓ} : {A : Type ℓ} (a : A) → Keeps R (pure a)
  unfolding pure
  Keeps-pure a = record { keeps = λ m. frame.same m }

  pub Keeps-fail {ℓ} : {A : Type ℓ} (e : Failure) → Keeps {A = A} R (fail e)
  unfolding fail
  Keeps-fail e = record { keeps = λ m. frame.same m }

  pub Keeps-bind {ℓ κ} :
      {A : Type ℓ} {B : Type κ} {x : Io A} {f : A → Io B}
      → Keeps R x
      → ((a : A) → Keeps R (f a))
      → Keeps R (x >>= f)
  unfolding ◌>>=◌
  Keeps-bind {A} {x} {f} hx hf = record { keeps = λ m. from m (x m) (hx.keeps m) }
    where
      from : (m : Machine) (p : Result A × Machine) → R m p.1 → R m (◌>>=◌ (λ _. p) f m).1
      from m (ok a, m') h = frame.trans m m' _ h ((hf a).keeps m')
      from m (err e, m') h = h

  pub Keeps-attempt {ℓ} : {A : Type ℓ} {x : Io A} → Keeps R x → Keeps R (attempt x)
  unfolding attempt
  Keeps-attempt hx = record { keeps = λ m. hx.keeps m }

  pub Keeps-or_else {ℓ} :
      {A : Type ℓ} {x : Io A} {handle : Failure → Io A}
      → Keeps R x
      → ((e : Failure) → Keeps R (handle e))
      → Keeps R (or_else x handle)
  unfolding or_else
  Keeps-or_else {A} {x} {handle} hx hh = record { keeps = λ m. from m (x m) (hx.keeps m) }
    where
      from : (m : Machine) (p : Result A × Machine) → R m p.1 → R m (or_else (λ _. p) handle m).1
      from m (ok a, m') h = h
      from m (err e, m') h = frame.trans m m' _ h ((hh e).keeps m')

  pub Keeps-defer {ℓ κ} :
      {A : Type ℓ} {B : Type κ} {y : Io B} {x : Io A} → Keeps R y → Keeps R x → Keeps R (defer y x)
  unfolding defer
  Keeps-defer {y} {x} hy hx = record {
    keeps = λ m. frame.trans m (x m).1 _ (hx.keeps m) (hy.keeps (x m).1);
  }

  pub Keeps-if {ℓ} :
      {A : Type ℓ} (b : Bool) {x y : Io A} → Keeps R x → Keeps R y → Keeps R (if b then x else y)
  Keeps-if true hx hy = hx
  Keeps-if false hx hy = hy
