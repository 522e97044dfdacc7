-- ===== src/Os/Hoare.antt =====
-- Conditions before and after a function, one for its success and one for its errors.
use git_sync.Common.{Bool, true, false, if◌then◌else◌}
use git_sync.Os.{Machine, Failure, Result, ok, err, Io, ◌>>=◌, pure, fail, attempt, or_else, defer}
use git_sync.Os.Frame.{Keeps}

abbrev pub After {ℓ} :
    {A : Type ℓ} → (A → Machine → Type 0) → (Machine → Type 0) → Result A × Machine → Type 0
After Q E (ok a, m) = Q a m
After Q E (err e, m) = E m

pub record Leads {ℓ} {A : Type ℓ} (P : Machine → Type 0) (x : Io A) (Q : A → Machine → Type 0)
    (E : Machine → Type 0) : Type 0 where
  pub leads : (m : Machine) → P m → After Q E (x m)

-- No condition.
abbrev pub Any : Machine → Type 0
Any m = Unit

pub any-Leads {ℓ} : {A : Type ℓ} (x : Io A) → Leads Any x (λ _. Any) Any
any-Leads {A} x = record { leads = λ m _. from (x m) }
  where
    from : (r : Result A × Machine) → After {A = A} (λ _. Any) Any r
    from (ok a, m) = tt
    from (err e, m) = tt

module _ {P E : Machine → Type 0} where
  pub Leads-pure {ℓ} :
      {A : Type ℓ} {Q : A → Machine → Type 0} (a : A)
      → ((m : Machine) → P m → Q a m)
      → Leads P (pure a) Q E
  unfolding pure
  Leads-pure a h = record { leads = h }

  pub Leads-fail {ℓ} :
      {A : Type ℓ} {Q : A → Machine → Type 0} (e : Failure)
      → ((m : Machine) → P m → E m)
      → Leads P (fail e) Q E
  unfolding fail
  Leads-fail e h = record { leads = h }

  pub Leads-bind {ℓ κ} :
      {A : Type ℓ} {B : Type κ} (Q : A → Machine → Type 0) {R : B → Machine → Type 0} {x : Io A}
      {f : A → Io B}
      → Leads P x Q E
      → ((a : A) → Leads (Q a) (f a) R E)
      → Leads P (x >>= f) R E
  unfolding ◌>>=◌
  Leads-bind {A} Q {R} {x} {f} hx hf = record { leads = λ m p. from (x m) (hx.leads m p) }
    where
      from : (r : Result A × Machine) → After Q E r → After R E (◌>>=◌ (λ _. r) f r.1)
      from (ok a, m) h = (hf a).leads m h
      from (err e, m) h = h

  -- A wrapped error.
  pub Leads-or_else {ℓ} :
      {A : Type ℓ} {Q : A → Machine → Type 0} (E' : Machine → Type 0) {x : Io A}
      {handle : Failure → Io A}
      → Leads P x Q E'
      → ((e : Failure) → Leads E' (handle e) Q E)
      → Leads P (or_else x handle) Q E
  unfolding or_else
  Leads-or_else {A} {Q} E' {x} {handle} hx hh = record { leads = λ m p. from (x m) (hx.leads m p) }
    where
      from : (r : Result A × Machine) → After Q E' r → After Q E (or_else (λ _. r) handle r.1)
      from (ok a, m) h = h
      from (err e, m) h = (hh e).leads m h

  -- A function that keeps a relation carries a condition across.
  pub Keeps-Leads {ℓ} :
      {A : Type ℓ} {R : Machine → Machine → Type 0} {Q : A → Machine → Type 0} {x : Io A}
      → Keeps R x
      → ((a : A) (m m' : Machine) → R m m' → P m → Q a m')
      → ((m m' : Machine) → R m m' → P m → E m')
      → Leads P x Q E
  Keeps-Leads {A} {R} {Q} {x} k good bad = record { leads = λ m p. from m (x m) p (k.keeps m) }
    where
      from : (m : Machine) (r : Result A × Machine) → P m → R m r.1 → After Q E r
      from m (ok a, m') p h = good a m m' h p
      from m (err e, m') p h = bad m m' h p

  pub Leads-if {ℓ} :
      {A : Type ℓ} {Q : A → Machine → Type 0} (b : Bool) {x y : Io A}
      → Leads P x Q E
      → Leads P y Q E
      → Leads P (if b then x else y) Q E
  Leads-if true hx hy = hx
  Leads-if false hx hy = hy

  -- Less is asked than is known.
  pub Leads-weaken {ℓ} :
      {A : Type ℓ} {P' : Machine → Type 0} {Q : A → Machine → Type 0} {x : Io A}
      → ((m : Machine) → P' m → P m)
      → Leads P x Q E
      → Leads P' x Q E
  Leads-weaken h hx = record { leads = λ m p. hx.leads m (h m p) }

  pub Leads-attempt {ℓ} :
      {A : Type ℓ} {Q : A → Machine → Type 0} {E' : Machine → Type 0} {x : Io A}
      → Leads P x Q E
      → Leads P (attempt x) (λ r m. After Q E (r, m)) E'
  unfolding attempt
  Leads-attempt hx = record { leads = λ m p. hx.leads m p }

  -- The deferred call keeps each of the conditions.
  pub Leads-defer {ℓ κ} :
      {A : Type ℓ} {B : Type κ} {Q : A → Machine → Type 0} {y : Io B} {x : Io A}
      → Leads P x Q E
      → ((a : A) → Leads (Q a) y (λ _. Q a) (Q a))
      → Leads E y (λ _. E) E
      → Leads P (defer y x) Q E
  unfolding defer
  Leads-defer {A} {B} {Q} {y} {x} hx good bad = record { leads = λ m p. from (x m) (hx.leads m p) }
    where
      behind : (K : Machine → Type 0) (r : Result B × Machine) → After (λ _. K) K r → K r.1
      behind K (ok b, m) h = h
      behind K (err e, m) h = h

      from : (r : Result A × Machine) → After Q E r → After Q E (r.0, (y r.1).1)
      from (ok a, m) h = behind (Q a) (y m) ((good a).leads m h)
      from (err e, m) h = behind E (y m) (bad.leads m h)
