-- ===== src/GitConfig.antt =====
-- The `--git-config` flag, cmd/git-sync/main.go: `parseGitConfigs`, the functions that it calls
-- for keys, plain and quoted values and escapes, and the type `keyVal`. The channel that the
-- source reads runes from is the list of the runes that it has not yet delivered: a receive takes
-- the head, and the empty list is the closed channel. The order of the producer's sends is the
-- order of the list; its unused `stop` channel has no counterpart.
pub mod RoundTrip
pub mod Fuel
pub mod FirstRune
pub mod Grammar
use git_sync.Common.{ℕ, zero, suc, List, [], ◌∷◌, ◌++◌, length, ◌==◌, if◌then◌else◌, Text}

abbrev pub Runes : Type 0
Runes = List ℕ

pub record KeyVal : Type 0 where
  pub key : Text
  pub val : Text

-- The errors, with the values that their messages show. `no_fuel` is the model's own.
pub data ParseError : Type 0 where
  end_of_key : Text → ParseError
  no_value : Text → ParseError
  in_key : Text → ParseError → ParseError
  end_of_value : Text → ParseError
  trailing : ℕ → ParseError
  end_of_escape : ParseError
  unsupported_escape : ℕ → ParseError
  no_fuel : ParseError

pub data Result {ℓ} (A : Type ℓ) : Type ℓ where
  ok : A → Result A
  err : ParseError → Result A

infixl 5 ◌>>=◌
abbrev pub ◌>>=◌ {ℓ κ} : {A : Type ℓ} {B : Type κ} → Result A → (A → Result B) → Result B
result >>= next = elim result [ ok a ↦ next a | err e ↦ err e ]

-- `fmt.Errorf("key %q: %v", key, err)` round an error.
abbrev pub under_key {ℓ} : {A : Type ℓ} → Text → Result A → Result A
under_key k (ok a) = ok a
under_key k (err e) = err (in_key k e)

pub unescape : Runes → Result (ℕ × Runes)
unescape [] = err end_of_escape
unescape (r ∷ ch) =
    if r == b'n'
    then ok (b'\n', ch)
    else if r == b't'
    then ok (b'\t', ch)
    else if r == b'"'
    then ok (r, ch)
    else if r == b','
    then ok (r, ch)
    else if r == b'\\'
    then ok (r, ch)
    else err (unsupported_escape r)

-- The loop of `parseGitConfigKey`.
pub key_loop : Text → Runes → Result (Text × Runes)
key_loop buf [] = err (end_of_key buf)
key_loop buf (r ∷ ch) =
    let more = key_loop (buf ++ r ∷ []) ch in if r == b':' then ok (buf, ch) else more

unfoldable pub parse_key : ℕ → Runes → Result (Text × Runes)
unfolding key_loop
parse_key r ch = key_loop (r ∷ []) ch

-- Behind the closing quote.
pub close_quote : Text → Runes → Result (Text × Runes)
close_quote buf [] = ok (buf, [])
close_quote buf (r ∷ ch) = if r == b',' then ok (buf, ch) else err (trailing r)

-- The loop of `parseGitConfigQVal`. The second function is the rest of the loop from a call of
-- `unescape` on, which takes one rune.
unfoldable mutual
  pub qval_loop : Text → Runes → Result (Text × Runes)
  qval_loop buf [] = err (end_of_value buf)
  qval_loop buf (r ∷ ch) =
      let escaped = qval_escape buf ch in
      let more = qval_loop (buf ++ r ∷ []) ch in
      if r == b'\\' then escaped else if r == b'"' then close_quote buf ch else more

  pub qval_escape : Text → Runes → Result (Text × Runes)
  qval_escape buf [] = unescape [] >>= λ _. err end_of_escape
  qval_escape buf (r ∷ ch) = unescape (r ∷ ch) >>= λ (e, _). qval_loop (buf ++ e ∷ []) ch

unfoldable pub parse_qval : Runes → Result (Text × Runes)
unfolding qval_loop close_quote unescape
parse_qval ch = qval_loop [] ch

-- The loop of `parseGitConfigVal`, in the same two parts.
unfoldable mutual
  pub val_loop : Text → Runes → Result (Text × Runes)
  val_loop buf [] = ok (buf, [])
  val_loop buf (r ∷ ch) =
      let escaped = val_escape buf ch in
      let more = val_loop (buf ++ r ∷ []) ch in
      if r == b'\\' then escaped else if r == b',' then ok (buf, ch) else more

  pub val_escape : Text → Runes → Result (Text × Runes)
  val_escape buf [] = unescape [] >>= λ _. err end_of_escape
  val_escape buf (r ∷ ch) = unescape (r ∷ ch) >>= λ (e, _). val_loop (buf ++ e ∷ []) ch

unfoldable pub parse_val : ℕ → Runes → Result (Text × Runes)
unfolding val_loop unescape
parse_val r ch = val_loop (r ∷ []) ch

-- The second half of the loop's body: peek, and read a quoted or a plain value.
pub parse_value : Text → Runes → Result (Text × Runes)
parse_value key [] = err (no_value key)
parse_value key (r ∷ ch) =
    if r == b'"' then under_key key (parse_qval ch) else under_key key (parse_val r ch)

-- The loop of `parseGitConfigs`, one unit of fuel to a round.
pub parse_loop : ℕ → List KeyVal → Runes → Result (List KeyVal)
parse_loop zero result ch = err no_fuel
parse_loop (suc fuel) result [] = ok result
parse_loop (suc fuel) result (r ∷ ch) = parse_key r ch >>= λ (k, ch').
    parse_value k ch' >>= λ (v, ch'').
    parse_loop fuel (result ++ (record { key = k; val = v }) ∷ []) ch''

unfoldable pub parse_git_configs : Text → Result (List KeyVal)
unfolding parse_loop parse_value parse_key parse_qval parse_val close_quote unescape
parse_git_configs configs_flag = parse_loop (suc (length configs_flag)) [] configs_flag
