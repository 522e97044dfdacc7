-- ===== src/Common/Int/Digits.antt =====
-- What `strconv.Itoa` prints: digits, of which the first is only 0 for the number 0.
use Prim.Native.Nat.{ℕ, zero, suc, ◌+◌, ◌*◌, ◌/◌, ◌%◌, ◌≤◌, ◌<◌}
use mathlib.Core.Path.{◌≡◌, refl, ap, ◌∙◌}
use mathlib.Core.Logic.{inl, inr}
use mathlib.Core.Bool.{false}
use mathlib.Core.List.{[], ◌∷◌}
use native.Mathlib.Omega.{arith}
use git_sync.Common.Tests.{◌==◌, Bool-cases, ==_iff}
use git_sync.Common.Lists.{All}
use git_sync.Common.Strings.{Text}
use git_sync.Common.Int.{pos, negsuc, itoa, digits_onto}

abbrev pub IsDigit : ℕ → Type 0
IsDigit c = (b'0' ≤ c) × (c < b'0' + 10)

-- The digits of `n` in base 10.
unfoldable pub decimal : ℕ → Text
unfolding digits_onto
decimal n = digits_onto (suc n) 10 n []

pub itoa-pos : (n : ℕ) → itoa (pos n) ≡ decimal n
unfolding itoa decimal
itoa-pos n = refl

pub itoa-negsuc : (n : ℕ) → itoa (negsuc n) ≡ b'-' ∷ decimal (suc n)
unfolding itoa decimal
itoa-negsuc n = refl

digits_onto-IsDigit :
    (fuel n : ℕ) (acc : Text) → All IsDigit acc → All IsDigit (digits_onto fuel 10 n acc)
unfolding digits_onto
digits_onto-IsDigit zero n acc h = h
digits_onto-IsDigit (suc fuel) n acc h = elim (Bool-cases (n / 10 == 0)) [
  | inl e ↦ rw e ((omega arith, omega arith), h)
  | inr e ↦ rw e (digits_onto-IsDigit fuel (n / 10) _ ((omega arith, omega arith), h))
]

pub decimal-IsDigit : (n : ℕ) → All IsDigit (decimal n)
unfolding decimal
decimal-IsDigit n = digits_onto-IsDigit (suc n) n [] tt

-- A first digit, and what it stands in front of.
pub record Headed (s : Text) : Type 0 where
  pub head : ℕ
  pub tail : Text
  pub is_cons : s ≡ head ∷ tail
  pub not_zero : b'0' < head
  pub is_digit : head < b'0' + 10

digits_onto-Headed :
    (fuel n : ℕ) (acc : Text) → 0 < n → n ≤ fuel → Headed (digits_onto (suc fuel) 10 n acc)
unfolding digits_onto
digits_onto-Headed zero n acc p h = absurd (omega arith)
digits_onto-Headed (suc fuel) n acc p h = elim (Bool-cases (n / 10 == 0)) [
  | inl e ↦ rw e (record {
    head = b'0' + n % 10;
    tail = acc;
    is_cons = refl;
    not_zero = above ((==_iff _ _).0 e);
    is_digit = omega arith;
  })
  | inr e ↦ rw e (digits_onto-Headed fuel (n / 10) _ (not_small e) (omega arith))
]
  where
    above : n / 10 ≡ 0 → b'0' < b'0' + n % 10
    above q = omega arith

    not_small : (n / 10 == 0) ≡ false → 0 < n / 10
    not_small q = ground arith

pub decimal-Headed : (n : ℕ) → Headed (decimal (suc n))
unfolding decimal
decimal-Headed n = digits_onto-Headed (suc n) (suc n) [] (omega arith) (omega arith)

-- Whatever takes one digit after the other and works as a place value does, reads the number.
module _ {ℓ} {X : Type ℓ} (read : ℕ → Text → X)
    (step : (n d : ℕ) (s : Text) → d < 10 → read n ((b'0' + d) ∷ s) ≡ read (n * 10 + d) s) where
  read-digits_onto :
      (fuel n : ℕ) (acc : Text) → n < fuel → read 0 (digits_onto fuel 10 n acc) ≡ read n acc
  unfolding digits_onto
  read-digits_onto zero n acc h = absurd (omega arith)
  read-digits_onto (suc fuel) n acc h = elim (Bool-cases (n / 10 == 0)) [
    | inl e ↦
        rw e
          (step 0 (n % 10) acc (omega arith) ∙ ap (λ k. read k acc) (last_digit ((==_iff _ _).0 e)))
    | inr e ↦ rw e (
        read-digits_onto fuel (n / 10) _ (shorter (not_small e))
        ∙ (step (n / 10) (n % 10) acc (omega arith) ∙ ap (λ k. read k acc) (omega arith)))
  ]
    where
      last_digit : n / 10 ≡ 0 → 0 * 10 + n % 10 ≡ n
      last_digit q = omega arith

      not_small : (n / 10 == 0) ≡ false → 0 < n / 10
      not_small q = ground arith

      shorter : 0 < n / 10 → n / 10 < fuel
      shorter q = omega arith

  pub read-decimal : (n : ℕ) → read 0 (decimal n) ≡ read n []
  unfolding decimal
  read-decimal n = read-digits_onto (suc n) n [] (omega arith)
