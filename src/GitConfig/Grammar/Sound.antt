-- ===== src/GitConfig/Grammar/Sound.antt =====
-- What is read has the syntax of `--git-config`.
use git_sync.Common.{
  ℕ, zero, suc, ◌≡◌, refl, ◌∙◌, sym, subst, ◌↔◌, arith, inl, inr, Bool-cases, Bool, true, false,
  List, [], ◌∷◌, ◌++◌, append-nil, append_assoc, length, ◌==◌, if◌then◌else◌, Text,
}
use git_sync.GitConfig.{
  Runes, KeyVal, Result, ok, err, ◌>>=◌, unescape, key_loop, parse_key, close_quote, qval_loop,
  qval_escape, parse_qval, val_loop, val_escape, parse_val, parse_value, parse_loop,
  parse_git_configs,
}
use git_sync.GitConfig.FirstRune.{step-read, under_key-eq-ok}
use git_sync.GitConfig.Grammar.Complete.{Configs-parse}
use git_sync.GitConfig.Grammar.{
  StandsFor, Key, colon, rune, Quoted, last, comma, escaped, Plain, Value, quoted, plain, Configs,
  none, pair,
}

-- A successful result that goes on from `buf` with what the runes stand for.
abbrev Reads : (Runes → Text → Runes → Type 0) → Text → Runes → Result (Text × Runes) → Type 0
Reads R buf ch (ok r) = (v : Text) × (r.0 ≡ buf ++ v) × R ch v r.1
Reads R buf ch (err e) = Unit

module _ (R : Runes → Text → Runes → Type 0) where
  Reads-cons :
      (buf : Text) (e : ℕ) (before ch : Runes)
      → ((v : Text) (rest : Runes) → R ch v rest → R before (e ∷ v) rest)
      → (x : Result (Text × Runes)) → Reads R (buf ++ e ∷ []) ch x
      → Reads R buf before x
  Reads-cons buf e before ch longer (ok (w, rest)) (v, q, r) =
      (e ∷ v, q ∙ append_assoc buf (e ∷ []) v, longer v rest r)
  Reads-cons buf e before ch longer (err _) _ = tt

  Reads-end : (buf : Text) (ch rest : Runes) → R ch [] rest → Reads R buf ch (ok (buf, rest))
  Reads-end buf ch rest r = ([], sym (append-nil buf), r)

  -- An escape, and what follows it.
  Reads-escape :
      (buf : Text) (c : ℕ) (before ch : Runes) (m : Result (ℕ × Runes))
      → ((a : ℕ × Runes) → m ≡ ok a → StandsFor c a.0)
      → ((e : ℕ) → StandsFor c e → (v : Text) (rest : Runes) → R ch v rest → R before (e ∷ v) rest)
      → (f : ℕ → Result (Text × Runes)) → ((e : ℕ) → Reads R (buf ++ e ∷ []) ch (f e))
      → Reads R buf before (m >>= λ (e, _). f e)
  Reads-escape buf c before ch (ok (e, l)) stands longer f h =
      Reads-cons buf e before ch (longer e (stands (e, l) refl)) (f e) (h e)
  Reads-escape buf c before ch (err _) stands longer f h = tt

  if-Reads :
      (b : Bool) (buf : Text) (ch : Runes) (x y : Result (Text × Runes))
      → (b ≡ true → Reads R buf ch x)
      → (b ≡ false → Reads R buf ch y)
      → Reads R buf ch (if b then x else y)
  if-Reads true buf ch x y hx hy = hx refl
  if-Reads false buf ch x y hx hy = hy refl

StandsFor-unescape :
    (c : ℕ) (ch : Runes) (a : ℕ × Runes) → unescape (c ∷ ch) ≡ ok a → StandsFor c a.0
unfolding unescape
StandsFor-unescape c ch (e, l) h = ground arith

key_loop-Reads : (buf : Text) (ch : Runes) → Reads Key buf ch (key_loop buf ch)
unfolding key_loop
key_loop-Reads buf [] = tt
key_loop-Reads buf (c ∷ ch) =
    if-Reads Key (c == b':') buf (c ∷ ch) _ _ (λ e. Reads-end Key buf (c ∷ ch) ch (colon c e))
      λ n.
        Reads-cons Key buf c (c ∷ ch) ch (λ v rest r. rune c n r) _
          (key_loop-Reads (buf ++ c ∷ []) ch)

close_quote-Reads :
    (buf : Text) (c : ℕ) (ch : Runes)
    → (c == b'"') ≡ true
    → Reads Quoted buf (c ∷ ch) (close_quote buf ch)
unfolding close_quote
close_quote-Reads buf c [] h = Reads-end Quoted buf (c ∷ []) [] (last c h)
close_quote-Reads buf c (d ∷ ch) h =
    if-Reads Quoted (d == b',') buf (c ∷ d ∷ ch) _ _
      (λ e. Reads-end Quoted buf (c ∷ d ∷ ch) ch (comma c d h e)) λ _. tt

mutual
  unfolding qval_loop unescape

  qval_loop-Reads : (buf : Text) (ch : Runes) → Reads Quoted buf ch (qval_loop buf ch)
  qval_loop-Reads buf [] = tt
  qval_loop-Reads buf (c ∷ ch) =
      if-Reads Quoted (c == b'\\') buf (c ∷ ch) _ _ (λ e. qval_escape-Reads buf c ch e)
        λ n.
          if-Reads Quoted (c == b'"') buf (c ∷ ch) _ _ (λ e. close_quote-Reads buf c ch e)
            λ k.
              Reads-cons Quoted buf c (c ∷ ch) ch (λ v rest r. rune c n k r) _
                (qval_loop-Reads (buf ++ c ∷ []) ch)

  qval_escape-Reads :
      (buf : Text) (b : ℕ) (ch : Runes)
      → (b == b'\\') ≡ true
      → Reads Quoted buf (b ∷ ch) (qval_escape buf ch)
  qval_escape-Reads buf b [] h = tt
  qval_escape-Reads buf b (c ∷ ch) h =
      Reads-escape Quoted buf c (b ∷ c ∷ ch) ch (unescape (c ∷ ch)) (StandsFor-unescape c ch)
        (λ e s v rest r. escaped b c h s r) (λ e. qval_loop (buf ++ e ∷ []) ch)
        λ e. qval_loop-Reads (buf ++ e ∷ []) ch

mutual
  unfolding val_loop unescape

  val_loop-Reads : (buf : Text) (ch : Runes) → Reads Plain buf ch (val_loop buf ch)
  val_loop-Reads buf [] = Reads-end Plain buf [] [] last
  val_loop-Reads buf (c ∷ ch) =
      if-Reads Plain (c == b'\\') buf (c ∷ ch) _ _ (λ e. val_escape-Reads buf c ch e)
        λ n.
          if-Reads Plain (c == b',') buf (c ∷ ch) _ _
            (λ e. Reads-end Plain buf (c ∷ ch) ch (comma c e))
            λ k.
              Reads-cons Plain buf c (c ∷ ch) ch (λ v rest r. rune c n k r) _
                (val_loop-Reads (buf ++ c ∷ []) ch)

  val_escape-Reads :
      (buf : Text) (b : ℕ) (ch : Runes)
      → (b == b'\\') ≡ true
      → Reads Plain buf (b ∷ ch) (val_escape buf ch)
  val_escape-Reads buf b [] h = tt
  val_escape-Reads buf b (c ∷ ch) h =
      Reads-escape Plain buf c (b ∷ c ∷ ch) ch (unescape (c ∷ ch)) (StandsFor-unescape c ch)
        (λ e s v rest r. escaped b c h s r) (λ e. val_loop (buf ++ e ∷ []) ch)
        λ e. val_loop-Reads (buf ++ e ∷ []) ch

-- A key is read behind its first rune.
parse_key-Key :
    (c : ℕ) (ch : Runes) (a : Text × Runes)
    → parse_key c ch ≡ ok a
    → (k : Text) × (a.0 ≡ c ∷ k) × Key ch k a.1
unfolding parse_key
parse_key-Key c ch a h = subst (Reads Key (c ∷ []) ch) h (key_loop-Reads (c ∷ []) ch)

parse_value-Value :
    (k : Text) (ch : Runes) (a : Text × Runes) → parse_value k ch ≡ ok a → Value ch a.0 a.1
unfolding parse_value parse_qval parse_val
parse_value-Value k [] a h = cc
parse_value-Value k (c ∷ ch) a h = elim (Bool-cases (c == b'"')) [
  | inl e ↦
      let (v, q, r) =
        subst (Reads Quoted [] ch) (under_key-eq-ok k _ (rw e at h)) (qval_loop-Reads [] ch) in
      subst (λ w. Value (c ∷ ch) w a.1) (sym q) (quoted c e r)
  | inr n ↦
      let (v, q, r) =
        subst (Reads Plain (c ∷ []) ch) (under_key-eq-ok k _ (rw n at h))
          (val_loop-Reads (c ∷ []) ch) in
      subst (λ w. Value (c ∷ ch) w a.1) (sym q) (plain c n r)
]

parse_loop-Configs :
    (fuel : ℕ) (result : List KeyVal) (ch : Runes) {kvs : List KeyVal}
    → parse_loop fuel result ch ≡ ok kvs
    → (more : List KeyVal) × (kvs ≡ result ++ more) × Configs ch more
unfolding parse_loop
parse_loop-Configs zero result ch h = cc
parse_loop-Configs (suc fuel) result [] h = ([], cc (append-nil result), none)
parse_loop-Configs (suc fuel) result (c ∷ ch) h =
    let (a, h', keyed) = step-read (parse_key c ch) h in
    let (v, h'', valued) = step-read (parse_value a.0 a.1) h' in
    let (k, q, key) = parse_key-Key c ch a keyed in
    let kv : KeyVal = record { key = a.0; val = v.0 } in
    let (more, e, rest) = parse_loop-Configs fuel (result ++ kv ∷ []) v.1 h'' in
    (
      kv ∷ more,
      e ∙ append_assoc result (kv ∷ []) more,
      subst (λ w. Configs (c ∷ ch) ((record { key = w; val = v.0 }) ∷ more)) (sym q)
          (pair c key (parse_value-Value a.0 a.1 v valued) rest),
    )

-- A flag is accepted, and gives these pairs, exactly if its runes stand for them in the syntax: keys up to
-- a colon, each with a value that is quoted up to a quote or plain up to a comma, with the five escapes in
-- both.
pub parse_git_configs_iff :
    (s : Text) (kvs : List KeyVal) → (parse_git_configs s ≡ ok kvs) ↔ Configs s kvs
unfolding parse_git_configs
parse_git_configs_iff s kvs = (sound, Configs-parse)
  where
    sound : parse_git_configs s ≡ ok kvs → Configs s kvs
    sound h =
        let (more, e, r) = parse_loop-Configs (suc (length s)) [] s h in subst (Configs s) (sym e) r
