-- ===== src/Common/Int.antt =====
-- Signed integers over the native numbers, with what the program does with its `int`s: tests and
-- printing. Its values are configuration and counters, far from the bounds of 64 bits.
pub mod Digits
use Prim.Native.Nat.{ℕ, zero, suc, ◌+◌, ◌/◌, ◌%◌}
use mathlib.Core.Bool.{Bool, true, false}
use mathlib.Core.List.{[], ◌∷◌}
use git_sync.Common.Tests.{ltb, ◌==◌, if◌then◌else◌}
use git_sync.Common.Strings.{Text}

-- `negsuc n` is -(n + 1).
pub data ℤ : Type 0 where
  pos : ℕ → ℤ
  negsuc : ℕ → ℤ

-- `a < b`
abbrev pub ltb_ℤ : ℤ → ℤ → Bool
ltb_ℤ (pos a) (pos b) = ltb a b
ltb_ℤ (pos a) (negsuc b) = false
ltb_ℤ (negsuc a) (pos b) = true
ltb_ℤ (negsuc a) (negsuc b) = ltb b a

abbrev pub eq_ℤ : ℤ → ℤ → Bool
eq_ℤ (pos a) (pos b) = a == b
eq_ℤ (pos a) (negsuc b) = false
eq_ℤ (negsuc a) (pos b) = false
eq_ℤ (negsuc a) (negsuc b) = a == b

-- The digits of `n`, to the base `b`, in front of `acc`. A number has at most as many digits as
-- its successor counts.
digits_onto : ℕ → ℕ → ℕ → Text → Text
digits_onto zero b n acc = acc
digits_onto (suc fuel) b n acc =
    let more = digits_onto fuel b (n / b) ((b'0' + n % b) ∷ acc) in
    if n / b == 0 then (b'0' + n % b) ∷ acc else more

abbrev signed : (ℕ → Text) → ℤ → Text
signed print (pos n) = print n
signed print (negsuc n) = b'-' ∷ print (suc n)

-- `strconv.Itoa`
unfoldable pub itoa : ℤ → Text
unfolding digits_onto
itoa = signed (λ n. digits_onto (suc n) 10 n [])

-- `%#o`
unfoldable pub octal : ℤ → Text
unfolding digits_onto
octal = signed (λ n. if n == 0 then b'0' ∷ [] else b'0' ∷ digits_onto (suc n) 8 n [])
