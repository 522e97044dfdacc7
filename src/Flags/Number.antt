-- ===== src/Flags/Number.antt =====
-- `strconv.ParseBool` and `strconv.ParseInt(s, 0, 0)` of Go's library on a machine of 64 bits, which
-- the flags of cmd/git-sync/main.go are read with. The two errors of a number, a wrong form and a
-- value out of range, lead to the same there.
pub mod Decimal
use git_sync.Common.{
  ℕ, zero, suc, ◌+◌, ◌-◌, ◌*◌, ◌^◌, Bool, true, false, not, ◌&&◌, ◌||◌, Option, none, some, [], ◌∷◌,
  if◌then◌else◌, ltb, leb, ◌==◌, ℤ, pos, negsuc, Text, codes, equal, contains,
}

unfoldable pub parse_bool : Text → Option Bool
unfolding equal
parse_bool s =
    if equal s (codes "1")
      || (equal s (codes "t")
          || (equal s (codes "T")
              || (equal s (codes "true") || (equal s (codes "TRUE") || equal s (codes "True")))))
    then some true
    else if equal s (codes "0")
        || (equal s (codes "f")
            || (equal s (codes "F")
                || (equal s (codes "false")
                    || (equal s (codes "FALSE") || equal s (codes "False")))))
    then some false
    else none

-- A letter in lower case.
unfoldable pub lower : ℕ → ℕ
lower c = if leb b'A' c && leb c b'Z' then c + 32 else c

unfoldable pub is_digit : ℕ → Bool
is_digit c = leb b'0' c && leb c b'9'

-- The value of a digit, of any base up to 36.
unfoldable pub digit_value : ℕ → Option ℕ
unfolding lower is_digit
digit_value c =
    if is_digit c
    then some (c - b'0')
    else if leb b'a' (lower c) && leb (lower c) b'z'
    then some (lower c - b'a' + 10)
    else none

-- The loop of `ParseUint` over the digits, with what is read so far.
unfoldable pub read_digits : ℕ → ℕ → Text → Option ℕ
read_digits base n [] = some n
read_digits base n (c ∷ s) =
    let skipped = read_digits base n s in
    if c == b'_' then skipped else elim (digit_value c) [
      | none ↦ none
      | some d ↦ (let rest = read_digits base (n * base + d) s in if leb base d then none else rest)
    ]

-- The loop of `underscoreOK`, with the kind of the last character: a digit by `0`, an underscore by
-- `_`, any other by `!`, and `^` at the start.
unfoldable pub separates : Bool → ℕ → Text → Bool
separates hex last [] = not (last == b'_')
separates hex last (c ∷ s) =
    let digit = separates hex b'0' s in
    if is_digit c || (hex && (leb b'a' (lower c) && leb (lower c) b'f'))
    then digit
    else if c == b'_'
    then (let rest = separates hex b'_' s in if last == b'0' then rest else false)
    else (let rest = separates hex b'!' s in if last == b'_' then false else rest)

-- `underscoreOK`, on a text without a sign.
unfoldable pub underscore_ok : Text → Bool
unfolding separates lower
underscore_ok (zero_ ∷ c ∷ s) =
    if zero_ == b'0' && (lower c == b'b' || (lower c == b'o' || lower c == b'x'))
    then separates (lower c == b'x') b'0' s
    else separates false b'^' (zero_ ∷ c ∷ s)
underscore_ok s = separates false b'^' s

-- The base that the prefix of a number says, and the digits behind it.
unfoldable pub split_base : Text → ℕ × Text
unfolding lower
split_base (c ∷ l ∷ d ∷ s) =
    if not (c == b'0')
    then (10, c ∷ l ∷ d ∷ s)
    else if lower l == b'b'
    then (2, d ∷ s)
    else if lower l == b'o'
    then (8, d ∷ s)
    else if lower l == b'x'
    then (16, d ∷ s)
    else (8, l ∷ d ∷ s)
split_base (c ∷ s) = if c == b'0' then (8, s) else (10, c ∷ s)
split_base [] = (10, [])

-- `ParseUint(s, 0, 64)`, but for the bound.
unfoldable pub parse_uint : Text → Option ℕ
parse_uint [] = none
parse_uint (c ∷ s) =
    if not (contains (c ∷ s) (codes "_")) || underscore_ok (c ∷ s)
    then read_digits (split_base (c ∷ s)).0 0 (split_base (c ∷ s)).1
    else none

abbrev pub int_limit : ℕ
int_limit = 2 ^ 63

-- -n
abbrev pub negate : ℕ → ℤ
negate zero = pos 0
negate (suc n) = negsuc n

unfoldable pub to_positive : Option ℕ → Option ℤ
to_positive none = none
to_positive (some n) = if ltb n int_limit then some (pos n) else none

unfoldable pub to_negative : Option ℕ → Option ℤ
to_negative none = none
to_negative (some n) = if leb n int_limit then some (negate n) else none

unfoldable pub parse_int : Text → Option ℤ
parse_int [] = none
parse_int (c ∷ s) =
    if c == b'+'
    then to_positive (parse_uint s)
    else if c == b'-'
    then to_negative (parse_uint s)
    else to_positive (parse_uint (c ∷ s))
