-- ===== src/Os/Runs.antt =====
-- Runs of a function step by step, from one state to the next.
use git_sync.Common.{List, [], ◌∷◌, ◌≡◌, ap}
use git_sync.Os.{Call, History, Machine, Failure, Result, ok, err, Io, ◌>>=◌, attempt}

module _ {ℓ κ} {A : Type ℓ} {B : Type κ} (x : Io A) (f : A → Io B) {m m' : Machine} where
  pub bind-ok : {a : A} → x m ≡ (ok a, m') → (x >>= f) m ≡ f a m'
  unfolding ◌>>=◌
  bind-ok h = ap (λ r. ◌>>=◌ (λ _. r) f m) h

  pub bind-err : {e : Failure} → x m ≡ (err e, m') → (x >>= f) m ≡ (err e, m')
  unfolding ◌>>=◌
  bind-err h = ap (λ r. ◌>>=◌ (λ _. r) f m) h

-- What two functions do alike from one state is not told apart behind them.
pub bind-run {ℓ κ} :
    {A : Type ℓ} {B : Type κ} (x y : Io A) (f : A → Io B) {m : Machine}
    → x m ≡ y m
    → (x >>= f) m ≡ (y >>= f) m
unfolding ◌>>=◌
bind-run x y f {m} h = ap (λ r. ◌>>=◌ (λ _. r) f m) h

module _ {ℓ} {A : Type ℓ} (x : Io A) {m m' : Machine} where
  pub attempt-any : {r : Result A} → x m ≡ (r, m') → attempt x m ≡ (ok r, m')
  unfolding attempt
  attempt-any h = ap (λ s. attempt (λ _. s) m) h

-- What a function did, by its result and the machine behind it.
pub in_full {ℓ} : {A : Type ℓ} {r : Result A × Machine} {x : Result A} → r.0 ≡ x → r ≡ (x, r.1)
in_full {r} e = ap (λ y. (y, r.1)) e

-- The calls of a history, the last one first.
unfoldable pub calls : History → List Call
calls [] = []
calls (e ∷ h) = e.call ∷ calls h
