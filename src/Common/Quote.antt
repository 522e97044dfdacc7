-- ===== src/Common/Quote.antt =====
-- `strconv.Quote`, which `%q` prints with, for texts whose characters from U+0080 on are all
-- printable: those stand for themselves.
use Prim.Native.Nat.{ℕ, ◌+◌, ◌-◌, ◌/◌, ◌%◌}
use mathlib.Core.Bool.{◌||◌}
use mathlib.Core.List.{[], ◌∷◌, ◌++◌}
use git_sync.Common.Tests.{ltb, ◌==◌, if◌then◌else◌}
use git_sync.Common.Strings.{Text}

hex_digit : ℕ → ℕ
hex_digit d = if ltb d 10 then b'0' + d else b'a' + (d - 10)

abbrev escape_as : ℕ → Text
escape_as c = b'\\' ∷ c ∷ []

unfoldable pub quote_rune : ℕ → Text
unfolding hex_digit
quote_rune r =
    if r == b'"' || r == b'\\'
    then escape_as r
    else if r == 7
    then escape_as b'a'
    else if r == 8
    then escape_as b'b'
    else if r == 12
    then escape_as b'f'
    else if r == b'\n'
    then escape_as b'n'
    else if r == 13
    then escape_as b'r'
    else if r == b'\t'
    then escape_as b't'
    else if r == 11
    then escape_as b'v'
    else if ltb r 32 || r == 127
    then b'\\' ∷ b'x' ∷ hex_digit (r / 16) ∷ hex_digit (r % 16) ∷ []
    else r ∷ []

quote_runes : Text → Text
quote_runes [] = b'"' ∷ []
quote_runes (r ∷ s) = quote_rune r ++ quote_runes s

unfoldable pub quote : Text → Text
unfolding quote_runes quote_rune
quote s = b'"' ∷ quote_runes s
