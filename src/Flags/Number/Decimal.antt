-- ===== src/Flags/Number/Decimal.antt =====
-- Numbers that `strconv.Itoa` printed are read back.
use git_sync.Common.{
  ◌≡◌, refl, ◌∙◌, sym, ap, subst, arith, ℕ, zero, suc, ◌+◌, ◌*◌, ◌<◌, false, some, [], ◌∷◌, ℤ, pos,
  negsuc, itoa, Text, codes, contains, has_prefix, All,
}
use git_sync.Common.Int.Digits.{
  decimal, IsDigit, decimal-IsDigit, decimal-Headed, read-decimal, itoa-pos, itoa-negsuc,
}
use git_sync.Flags.Number.{
  parse_int, parse_uint, read_digits, digit_value, split_base, to_positive, to_negative, int_limit,
}

digit_value-digit : (d : ℕ) → d < 10 → digit_value (b'0' + d) ≡ some d
unfolding digit_value
digit_value-digit d h = ground arith

read_digits-digit :
    (n d : ℕ) (s : Text)
    → d < 10
    → read_digits 10 n ((b'0' + d) ∷ s) ≡ read_digits 10 (n * 10 + d) s
unfolding read_digits
read_digits-digit n d s h = rw (digit_value-digit d h) (ground arith)

no_underscore : (s : Text) → All IsDigit s → contains s (codes "_") ≡ false
unfolding contains has_prefix
no_underscore [] h = refl
no_underscore (c ∷ s) h = ground (arith, no_underscore s h.1)

-- A number without a prefix is a decimal one.
split_base-decimal : (c : ℕ) (s : Text) → b'0' < c → split_base (c ∷ s) ≡ (10, c ∷ s)
unfolding split_base
split_base-decimal c [] h = ground arith
split_base-decimal c (l ∷ []) h = ground arith
split_base-decimal c (l ∷ d ∷ s) h = ground arith

parse_uint-cons :
    (c : ℕ) (s : Text)
    → b'0' < c
    → All IsDigit (c ∷ s)
    → parse_uint (c ∷ s) ≡ read_digits 10 0 (c ∷ s)
unfolding parse_uint
parse_uint-cons c s p h = rw (no_underscore (c ∷ s) h, split_base-decimal c s p) refl

parse_uint-decimal : (n : ℕ) → parse_uint (decimal n) ≡ some n
unfolding parse_uint decimal contains read_digits split_base
parse_uint-decimal zero = refl
parse_uint-decimal (suc n) =
    let h = decimal-Headed n in
    let all = decimal-IsDigit (suc n) in
    ap parse_uint h.is_cons
    ∙ (parse_uint-cons h.head h.tail h.not_zero (subst (All IsDigit) h.is_cons all)
        ∙ (ap (read_digits 10 0) (sym h.is_cons)
            ∙ (read-decimal (read_digits 10) read_digits-digit (suc n) ∙ refl)))

-- A first digit is no sign.
parse_int-digit :
    (c : ℕ) (s : Text) → IsDigit c → parse_int (c ∷ s) ≡ to_positive (parse_uint (c ∷ s))
unfolding parse_int
parse_int-digit c s h = ground arith

parse_int-decimal : (n : ℕ) → n < int_limit → parse_int (decimal n) ≡ some (pos n)
unfolding to_positive decimal
parse_int-decimal zero h =
    parse_int-digit b'0' [] (omega arith, omega arith) ∙ ap to_positive (parse_uint-decimal 0)
parse_int-decimal (suc n) h =
    let f = decimal-Headed n in
    ap parse_int f.is_cons
    ∙ (parse_int-digit f.head f.tail (omega (arith, f.not_zero, f.is_digit), f.is_digit)
        ∙ (ap (λ s. to_positive (parse_uint s)) (sym f.is_cons)
            ∙ (ap to_positive (parse_uint-decimal (suc n)) ∙ in_range (suc n) h)))
  where
    in_range : (n : ℕ) → n < int_limit → to_positive (some n) ≡ some (pos n)
    in_range n h = ground arith

parse_int-minus : (s : Text) → parse_int (b'-' ∷ s) ≡ to_negative (parse_uint s)
unfolding parse_int
parse_int-minus s = refl

-- The range of an `int64`.
unfoldable pub IsInt : ℤ → Type 0
IsInt (pos n) = n < int_limit
IsInt (negsuc n) = n < int_limit

pub parse_int-itoa : (i : ℤ) → IsInt i → parse_int (itoa i) ≡ some i
unfolding IsInt to_negative
parse_int-itoa (pos n) h = ap parse_int (itoa-pos n) ∙ parse_int-decimal n h
parse_int-itoa (negsuc n) h =
    ap parse_int (itoa-negsuc n)
    ∙ (parse_int-minus (decimal (suc n))
        ∙ (ap to_negative (parse_uint-decimal (suc n)) ∙ ground arith))
