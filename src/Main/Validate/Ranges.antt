-- ===== src/Main/Validate/Ranges.antt =====
-- What the options' texts and numbers mean, against the tests of the guards.
use git_sync.Common.{
  ◌≡◌, refl, ap, arith, true, false, [], ◌∷◌, ◌==◌, ℕ, ◌+◌, zero, suc, ℤ, pos, negsuc, ltb_ℤ, ltb,
  Text, codes, equal, equal_iff, is_empty, contains, has_prefix, All, ◌⊎◌, inl, inr, ◌↔◌,
  Bool-cases,
}
use git_sync.Flags.{submodules_recursive, submodules_shallow, submodules_off}
use git_sync.Main.Validate.{is_submodules_mode}

-- A text that is given, or left out.
abbrev pub Given : Text → Type 0
Given s = s ≡ [] → ⊥

abbrev pub Absent : Text → Type 0
Absent s = s ≡ []

abbrev pub IsNatural : ℤ → Type 0
IsNatural z = (n : ℕ) × (z ≡ pos n)

-- At least this many nanoseconds.
abbrev pub IsAtLeast : ℕ → ℤ → Type 0
IsAtLeast least z = (n : ℕ) × (z ≡ pos (least + n))

pub empty-Absent : (s : Text) → is_empty s ≡ true → Absent s
empty-Absent [] h = refl
empty-Absent (c ∷ s) h = ground arith

pub empty-Given : (s : Text) → is_empty s ≡ false → Given s
empty-Given [] h e = ground arith
empty-Given (c ∷ s) h e = cc

pub Absent-empty : (s : Text) → Absent s → is_empty s ≡ true
Absent-empty s h = rw h refl

pub Given-empty : (s : Text) → Given s → is_empty s ≡ false
Given-empty [] h = absurd (h refl)
Given-empty (c ∷ s) h = refl

pub natural_iff : (z : ℤ) → (ltb_ℤ z (pos 0) ≡ false) ↔ IsNatural z
natural_iff (pos n) = (λ _. (n, refl), λ _. ground arith)
natural_iff (negsuc n) = (λ h. ground arith, λ (k, e). cc)

split_at : (a b : ℕ) → ltb b a ≡ false → (n : ℕ) × (b ≡ a + n)
split_at zero b h = (b, omega arith)
split_at (suc a) zero h = ground arith
split_at (suc a) (suc b) h = let (n, e) = split_at a b (ground arith) in (n, omega (arith, e))

pub least_iff : (least : ℕ) (z : ℤ) → (ltb_ℤ z (pos least) ≡ false) ↔ IsAtLeast least z
least_iff least (pos n) =
    (λ h. let (k, e) = split_at least n h in (k, ap pos e), λ (k, e). ground (arith, e))
least_iff least (negsuc n) = (λ h. ground arith, λ (k, e). cc)

pub code_iff : (z : ℤ) → (ltb_ℤ z (negsuc 0) ≡ false) ↔ ((z ≡ negsuc 0) ⊎ IsNatural z)
code_iff (pos n) = (λ _. inr (n, refl), λ _. refl)
code_iff (negsuc zero) = (λ _. inl refl, λ _. ground arith)
code_iff (negsuc (suc n)) =
    (λ h. ground arith, λ e. elim e [ inl q ↦ ground (arith, q) | inr q ↦ cc (q.1) ])

pub leaf_iff : (s : Text) → (contains s (codes "/") ≡ false) ↔ All (λ c. (c == b'/') ≡ false) s
unfolding contains has_prefix
leaf_iff [] = (λ _. tt, λ _. refl)
leaf_iff (c ∷ s) =
    let (to, back) = leaf_iff s in
    (λ h. (ground arith, to (ground arith)), λ (h, k). ground (arith, h, back k))

pub mode_iff :
    (s : Text)
    → (is_submodules_mode s ≡ true)
      ↔ ((s ≡ submodules_recursive) ⊎ ((s ≡ submodules_shallow) ⊎ (s ≡ submodules_off)))
mode_iff s = (to, back)
  where
    to :
        is_submodules_mode s ≡ true
        → (s ≡ submodules_recursive) ⊎ ((s ≡ submodules_shallow) ⊎ (s ≡ submodules_off))
    to h = elim (Bool-cases (equal s submodules_recursive)) [
      | inl a ↦ inl ((equal_iff s submodules_recursive).0 a)
      | inr a ↦ elim (Bool-cases (equal s submodules_shallow)) [
        | inl b ↦ inr (inl ((equal_iff s submodules_shallow).0 b))
        | inr b ↦ inr (inr ((equal_iff s submodules_off).0 (rw (a, b) at h)))
      ]
    ]

    back :
        (s ≡ submodules_recursive) ⊎ ((s ≡ submodules_shallow) ⊎ (s ≡ submodules_off))
        → is_submodules_mode s ≡ true
    back (inl e) = ground (arith, (equal_iff s submodules_recursive).1 e)
    back (inr (inl e)) = ground (arith, (equal_iff s submodules_shallow).1 e)
    back (inr (inr e)) = ground (arith, (equal_iff s submodules_off).1 e)
