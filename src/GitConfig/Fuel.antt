-- ===== src/GitConfig/Fuel.antt =====
-- `parse_git_configs` has fuel enough: each round takes at least one rune.
use git_sync.Common.{
  ℕ, zero, suc, ◌<◌, ◌≤◌, ◌≡◌, ◌≢◌, Bool, true, false, List, [], ◌∷◌, ◌++◌, length, arith, ◌==◌,
  if◌then◌else◌, Text,
}
use git_sync.GitConfig.{
  Runes, KeyVal, ParseError, no_fuel, Result, ok, err, ◌>>=◌, under_key, unescape, key_loop,
  parse_key, close_quote, qval_loop, qval_escape, parse_qval, val_loop, val_escape, parse_val,
  parse_value, parse_loop, parse_git_configs,
}

-- What is left is no longer than what was given, and fuel is not what failed.
abbrev Shrinks : {A : Type 0} → Runes → Result (A × Runes) → Type 0
Shrinks ch (ok r) = length r.1 ≤ length ch
Shrinks ch (err e) = e ≢ no_fuel

module _ {A : Type 0} where
  if-Shrinks :
      (b : Bool) (ch : Runes) (x y : Result (A × Runes))
      → Shrinks ch x
      → Shrinks ch y
      → Shrinks ch (if b then x else y)
  if-Shrinks true ch x y hx hy = hx
  if-Shrinks false ch x y hx hy = hy

  Shrinks-cons : (r : ℕ) (ch : Runes) (x : Result (A × Runes)) → Shrinks ch x → Shrinks (r ∷ ch) x
  Shrinks-cons r ch (ok _) h = omega arith
  Shrinks-cons r ch (err _) h = h

  under_key-Shrinks :
      (k : Text) (ch : Runes) (x : Result (A × Runes)) → Shrinks ch x → Shrinks ch (under_key k x)
  under_key-Shrinks k ch (ok _) h = h
  under_key-Shrinks k ch (err _) h = λ e. cc

unescape-Shrinks : (ch : Runes) → Shrinks ch (unescape ch)
unfolding unescape
unescape-Shrinks [] = ground arith
unescape-Shrinks (r ∷ ch) = ground arith

key_loop-Shrinks : (buf : Text) (ch : Runes) → Shrinks ch (key_loop buf ch)
unfolding key_loop
key_loop-Shrinks buf [] = ground arith
key_loop-Shrinks buf (r ∷ ch) =
    if-Shrinks (r == b':') (r ∷ ch) _ _ (omega arith)
      (Shrinks-cons r ch _ (key_loop-Shrinks (buf ++ r ∷ []) ch))

close_quote-Shrinks : (buf : Text) (ch : Runes) → Shrinks ch (close_quote buf ch)
unfolding close_quote
close_quote-Shrinks buf [] = omega arith
close_quote-Shrinks buf (r ∷ ch) = ground arith

-- A call of `unescape` on a rune, and what follows it.
escape-Shrinks :
    (ch : Runes) (m : Result (ℕ × Runes)) (f : ℕ → Result (Text × Runes))
    → ((e : ParseError) → m ≡ err e → e ≢ no_fuel)
    → ((e : ℕ) → Shrinks ch (f e))
    → Shrinks ch (m >>= λ (e, _). f e)
escape-Shrinks ch (ok (e, _)) f fails h = h e
escape-Shrinks ch (err e) f fails h = fails e cc

unescape-ne-no_fuel : (ch : Runes) (e : ParseError) → unescape ch ≡ err e → e ≢ no_fuel
unescape-ne-no_fuel ch e h = rw h at (unescape-Shrinks ch)

mutual
  unfolding qval_loop

  qval_loop-Shrinks : (buf : Text) (ch : Runes) → Shrinks ch (qval_loop buf ch)
  qval_loop-Shrinks buf [] = λ e. cc
  qval_loop-Shrinks buf (r ∷ ch) =
      if-Shrinks (r == b'\\') (r ∷ ch) _ _ (Shrinks-cons r ch _ (qval_escape-Shrinks buf ch)) (
        if-Shrinks (r == b'"') (r ∷ ch) _ _ (Shrinks-cons r ch _ (close_quote-Shrinks buf ch))
          (Shrinks-cons r ch _ (qval_loop-Shrinks (buf ++ r ∷ []) ch)))

  qval_escape-Shrinks : (buf : Text) (ch : Runes) → Shrinks ch (qval_escape buf ch)
  qval_escape-Shrinks buf [] =
      escape-Shrinks [] (unescape []) _ (unescape-ne-no_fuel []) (λ _ e. cc)
  qval_escape-Shrinks buf (r ∷ ch) = Shrinks-cons r ch _ (
      escape-Shrinks ch (unescape (r ∷ ch)) _ (unescape-ne-no_fuel (r ∷ ch))
        (λ e. qval_loop-Shrinks (buf ++ e ∷ []) ch))

mutual
  unfolding val_loop

  val_loop-Shrinks : (buf : Text) (ch : Runes) → Shrinks ch (val_loop buf ch)
  val_loop-Shrinks buf [] = omega arith
  val_loop-Shrinks buf (r ∷ ch) =
      if-Shrinks (r == b'\\') (r ∷ ch) _ _ (Shrinks-cons r ch _ (val_escape-Shrinks buf ch)) (
        if-Shrinks (r == b',') (r ∷ ch) _ _ (omega arith)
          (Shrinks-cons r ch _ (val_loop-Shrinks (buf ++ r ∷ []) ch)))

  val_escape-Shrinks : (buf : Text) (ch : Runes) → Shrinks ch (val_escape buf ch)
  val_escape-Shrinks buf [] = escape-Shrinks [] (unescape []) _ (unescape-ne-no_fuel []) (λ _ e. cc)
  val_escape-Shrinks buf (r ∷ ch) = Shrinks-cons r ch _ (
      escape-Shrinks ch (unescape (r ∷ ch)) _ (unescape-ne-no_fuel (r ∷ ch))
        (λ e. val_loop-Shrinks (buf ++ e ∷ []) ch))

parse_value-Shrinks : (key : Text) (ch : Runes) → Shrinks ch (parse_value key ch)
unfolding parse_value parse_qval parse_val
parse_value-Shrinks key [] = λ e. cc
parse_value-Shrinks key (r ∷ ch) =
    if-Shrinks (r == b'"') (r ∷ ch) _ _
      (under_key-Shrinks key (r ∷ ch) _ (Shrinks-cons r ch _ (qval_loop-Shrinks [] ch)))
      (under_key-Shrinks key (r ∷ ch) _ (Shrinks-cons r ch _ (val_loop-Shrinks (r ∷ []) ch)))

-- The loop goes on below a step that shrinks the rest.
bind-ne-no_fuel :
    {A B : Type 0} (ch : Runes) (m : Result (A × Runes)) (f : A × Runes → Result B)
    → Shrinks ch m
    → ((a : A) (rest : Runes) → length rest ≤ length ch → f (a, rest) ≢ err no_fuel)
    → (m >>= f) ≢ err no_fuel
bind-ne-no_fuel ch (ok (a, rest)) f h next = next a rest h
bind-ne-no_fuel ch (err e) f h next = λ q. h (cc q)

parse_loop-ne-no_fuel :
    (fuel : ℕ) (result : List KeyVal) (ch : Runes)
    → length ch < fuel
    → parse_loop fuel result ch ≢ err no_fuel
unfolding parse_loop
parse_loop-ne-no_fuel zero result ch h = absurd (omega arith)
parse_loop-ne-no_fuel (suc fuel) result [] h = λ e. cc
parse_loop-ne-no_fuel (suc fuel) result (r ∷ ch) h =
    bind-ne-no_fuel ch (parse_key r ch) _ (unfold parse_key in key_loop-Shrinks (r ∷ []) ch)
      λ k ch' le.
        bind-ne-no_fuel ch' (parse_value k ch') _ (parse_value-Shrinks k ch')
          λ v ch'' le'. parse_loop-ne-no_fuel fuel _ ch'' (omega arith)

-- The parse of any flag ends with a list of pairs or with one of the errors of the source: the
-- fuel, one more than the number of runes, is never used up.
pub parse_git_configs-ne-no_fuel :
    (configs_flag : Text) → parse_git_configs configs_flag ≢ err no_fuel
unfolding parse_git_configs
parse_git_configs-ne-no_fuel s = parse_loop-ne-no_fuel (suc (length s)) [] s (omega arith)
