-- ===== src/GitConfig/Grammar/Complete.antt =====
-- What has the syntax of `--git-config` is read.
use git_sync.Common.{
  ℕ, zero, suc, ◌<◌, ◌≤◌, ◌≡◌, refl, ◌∙◌, arith, true, false, List, [], ◌∷◌, ◌++◌, append-nil,
  append_assoc, length, ◌==◌, Text,
}
use git_sync.GitConfig.{
  Runes, KeyVal, ok, unescape, key_loop, parse_key, close_quote, qval_loop, parse_qval, val_loop,
  parse_val, parse_value, parse_loop, parse_git_configs,
}
use git_sync.GitConfig.Grammar.{
  StandsFor, Key, colon, rune, Quoted, last, comma, escaped, Plain, Value, quoted, plain, Configs,
  none, pair,
}

-- The runes behind are no more than the runes before.
Key-length : {ch rest : Runes} {k : Text} → Key ch k rest → length rest ≤ length ch
Key-length (colon c h) = omega arith
Key-length (rune c h r) = omega (arith, Key-length r)

Quoted-length : {ch rest : Runes} {v : Text} → Quoted ch v rest → length rest ≤ length ch
Quoted-length (last c h) = omega arith
Quoted-length (comma c d h h') = omega arith
Quoted-length (escaped b c h s r) = omega (arith, Quoted-length r)
Quoted-length (rune c h h' r) = omega (arith, Quoted-length r)

Plain-length : {ch rest : Runes} {v : Text} → Plain ch v rest → length rest ≤ length ch
Plain-length last = omega arith
Plain-length (comma c h) = omega arith
Plain-length (escaped b c h s r) = omega (arith, Plain-length r)
Plain-length (rune c h h' r) = omega (arith, Plain-length r)

Value-length : {ch rest : Runes} {v : Text} → Value ch v rest → length rest ≤ length ch
Value-length (quoted c h r) = omega (arith, Quoted-length r)
Value-length (plain c h r) = omega (arith, Plain-length r)

unescape-StandsFor : (c e : ℕ) (ch : Runes) → StandsFor c e → unescape (c ∷ ch) ≡ ok (e, ch)
unfolding unescape
unescape-StandsFor c e ch h = ground arith

key_loop-Key :
    (buf : Text) {ch rest : Runes} {k : Text}
    → Key ch k rest
    → key_loop buf ch ≡ ok (buf ++ k, rest)
unfolding key_loop
key_loop-Key buf (colon c h) = rw (h, append-nil) refl
key_loop-Key buf (rune c {k = k} h r) = rw h (key_loop-Key (buf ++ c ∷ []) r ∙ rw append_assoc refl)

-- A rune is not two.
no_backslash : (c d : ℕ) → (c == d) ≡ true → (d == b'\\') ≡ false → (c == b'\\') ≡ false
no_backslash c d h k = ground arith

qval_loop-Quoted :
    (buf : Text) {ch rest : Runes} {v : Text}
    → Quoted ch v rest
    → qval_loop buf ch ≡ ok (buf ++ v, rest)
unfolding qval_loop close_quote
qval_loop-Quoted buf (last c h) = rw (no_backslash c b'"' h refl, h, append-nil) refl
qval_loop-Quoted buf (comma c d h h') = rw (no_backslash c b'"' h refl, h, h', append-nil) refl
qval_loop-Quoted buf (escaped b c {e} {ch} h s r) =
    rw (h, unescape-StandsFor c e ch s) (qval_loop-Quoted (buf ++ e ∷ []) r ∙ rw append_assoc refl)
qval_loop-Quoted buf (rune c h h' r) =
    rw (h, h') (qval_loop-Quoted (buf ++ c ∷ []) r ∙ rw append_assoc refl)

val_loop-Plain :
    (buf : Text) {ch rest : Runes} {v : Text}
    → Plain ch v rest
    → val_loop buf ch ≡ ok (buf ++ v, rest)
unfolding val_loop
val_loop-Plain buf last = rw append-nil refl
val_loop-Plain buf (comma c h) = rw (no_backslash c b',' h refl, h, append-nil) refl
val_loop-Plain buf (escaped b c {e} {ch} h s r) =
    rw (h, unescape-StandsFor c e ch s) (val_loop-Plain (buf ++ e ∷ []) r ∙ rw append_assoc refl)
val_loop-Plain buf (rune c h h' r) =
    rw (h, h') (val_loop-Plain (buf ++ c ∷ []) r ∙ rw append_assoc refl)

parse_value-Value :
    (k : Text) {ch rest : Runes} {v : Text} → Value ch v rest → parse_value k ch ≡ ok (v, rest)
unfolding parse_value parse_qval parse_val
parse_value-Value k (quoted c h r) = rw (h, qval_loop-Quoted [] r) refl
parse_value-Value k (plain c h r) = rw (h, val_loop-Plain (c ∷ []) r) refl

parse_loop-Configs :
    (fuel : ℕ) (result : List KeyVal) {ch : Runes} {kvs : List KeyVal}
    → Configs ch kvs
    → length ch < fuel
    → parse_loop fuel result ch ≡ ok (result ++ kvs)
unfolding parse_loop parse_key
parse_loop-Configs zero result r h = absurd (omega arith)
parse_loop-Configs (suc fuel) result none h = rw append-nil refl
parse_loop-Configs (suc fuel) result (pair c {k = k} {v = v} key value r) h =
    rw (key_loop-Key (c ∷ []) key, parse_value-Value (c ∷ k) value)
      (parse_loop-Configs fuel (result ++ (record { key = c ∷ k; val = v }) ∷ []) r
          (omega (arith, Key-length key, Value-length value))
        ∙ rw append_assoc refl)

pub Configs-parse : {s : Text} {kvs : List KeyVal} → Configs s kvs → parse_git_configs s ≡ ok kvs
unfolding parse_git_configs
Configs-parse {s} r = parse_loop-Configs (suc (length s)) [] r (omega arith)
