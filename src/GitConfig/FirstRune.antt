-- ===== src/GitConfig/FirstRune.antt =====
-- What `parse_git_configs` does with the first rune of a plain value: `parseGitConfigVal` appends
-- it before its loop begins.
use git_sync.Common.{
  ℕ, zero, suc, ◌≡◌, refl, ◌∙◌, sym, Bool, true, false, List, [], ◌∷◌, ◌++◌, append-nil,
  append_assoc, length, ◌==◌, if◌then◌else◌, Text,
}
use git_sync.GitConfig.{
  Runes, KeyVal, Result, ok, err, ◌>>=◌, under_key, unescape, parse_key, val_loop, val_escape,
  parse_val, parse_value, parse_loop, parse_git_configs,
}
use git_sync.GitConfig.RoundTrip.{IsKey, key_loop-append}

-- A successful result that starts with `buf`.
abbrev Extends : Text → Result (Text × Runes) → Type 0
Extends buf (ok r) = (w : Text) × (r.0 ≡ buf ++ w)
Extends buf (err e) = Unit

if-Extends :
    (b : Bool) (buf : Text) (x y : Result (Text × Runes))
    → Extends buf x
    → Extends buf y
    → Extends buf (if b then x else y)
if-Extends true buf x y hx hy = hx
if-Extends false buf x y hx hy = hy

Extends-concat :
    (buf : Text) (c : ℕ) (x : Result (Text × Runes)) → Extends (buf ++ c ∷ []) x → Extends buf x
Extends-concat buf c (ok _) (w, e) = (c ∷ w, e ∙ append_assoc buf (c ∷ []) w)
Extends-concat buf c (err _) _ = tt

escape-Extends :
    (buf : Text) (m : Result (ℕ × Runes)) (f : ℕ → Result (Text × Runes))
    → ((e : ℕ) → Extends buf (f e))
    → Extends buf (m >>= λ (e, _). f e)
escape-Extends buf (ok (e, _)) f h = h e
escape-Extends buf (err _) f h = tt

mutual
  unfolding val_loop

  val_loop-Extends : (buf : Text) (ch : Runes) → Extends buf (val_loop buf ch)
  val_loop-Extends buf [] = ([], sym (append-nil buf))
  val_loop-Extends buf (r ∷ ch) = if-Extends (r == b'\\') buf _ _ (val_escape-Extends buf ch) (
      if-Extends (r == b',') buf _ _ ([], sym (append-nil buf))
        (Extends-concat buf r _ (val_loop-Extends (buf ++ r ∷ []) ch)))

  val_escape-Extends : (buf : Text) (ch : Runes) → Extends buf (val_escape buf ch)
  val_escape-Extends buf [] = escape-Extends buf (unescape []) _ (λ _. tt)
  val_escape-Extends buf (r ∷ ch) =
      escape-Extends buf (unescape (r ∷ ch)) _
        (λ e. Extends-concat buf e _ (val_loop-Extends (buf ++ e ∷ []) ch))

-- What a step of the parser read, if the steps behind it succeed.
pub step-read :
    {A B : Type 0} {next : A → Result B} {b : B} (step : Result A)
    → (step >>= next) ≡ ok b
    → (a : A) × (next a ≡ ok b) × (step ≡ ok a)
step-read (ok a) h = (a, h, refl)
step-read (err e) h = cc

-- The loop only appends to the pairs that it has.
parse_loop-append :
    (fuel : ℕ) (result : List KeyVal) (ch : Runes) {kvs : List KeyVal}
    → parse_loop fuel result ch ≡ ok kvs
    → (more : List KeyVal) × (kvs ≡ result ++ more)
unfolding parse_loop
parse_loop-append zero result ch h = cc
parse_loop-append (suc fuel) result [] h = ([], cc (append-nil result))
parse_loop-append (suc fuel) result (r ∷ ch) h =
    let (a, h', _) = step-read (parse_key r ch) h in
    let (v, h'', _) = step-read (parse_value a.0 a.1) h' in
    let kv : KeyVal = record { key = a.0; val = v.0 } in
    let (more, e) = parse_loop-append fuel (result ++ kv ∷ []) v.1 h'' in
    (kv ∷ more, e ∙ append_assoc result (kv ∷ []) more)

pub under_key-eq-ok :
    {A : Type 0} (k : Text) (m : Result A) {a : A} → under_key k m ≡ ok a → m ≡ ok a
under_key-eq-ok k (ok _) h = h
under_key-eq-ok k (err _) h = cc

abbrev pub KeepsFirst : Text → ℕ → List KeyVal → Type 0
KeepsFirst k r kvs =
    (w : Text) × (more : List KeyVal) × (kvs ≡ (record { key = k; val = r ∷ w }) ∷ more)

parse_value-keeps_first :
    (k : Text) (r : ℕ) (rest : Runes) {v : Text × Runes}
    → (r == b'"') ≡ false
    → parse_value k (r ∷ rest) ≡ ok v
    → (w : Text) × (v.0 ≡ r ∷ w)
unfolding parse_value parse_val
parse_value-keeps_first k r rest q e =
    let read = under_key-eq-ok k (val_loop (r ∷ []) rest) (rw q at e) in
    rw read at (val_loop-Extends (r ∷ []) rest)

parse_loop-KeepsFirst :
    (fuel c : ℕ) (k : Text) (r : ℕ) (rest : Runes) {kvs : List KeyVal}
    → IsKey (c ∷ k)
    → (r == b'"') ≡ false
    → parse_loop (suc fuel) [] (c ∷ (k ++ (b':' ∷ r ∷ rest))) ≡ ok kvs
    → KeepsFirst (c ∷ k) r kvs
unfolding parse_loop parse_key
parse_loop-KeepsFirst fuel c k r rest h q e =
    let keyed = rw (key_loop-append k (c ∷ []) (r ∷ rest) h) at e in
    let (v, e', read) = step-read (parse_value (c ∷ k) (r ∷ rest)) keyed in
    let (w, first) = parse_value-keeps_first (c ∷ k) r rest q read in
    let (more, e'') = parse_loop-append fuel _ v.1 e' in (w, more, cc)

-- If a flag whose first key is not empty and holds no colon behind its first rune is accepted, and
-- its first value does not begin with a quote, then the first pair has that key, and its value
-- begins with the rune behind the colon as it stands, also where that rune is a `\` or a comma.
pub parse_git_configs-KeepsFirst :
    (k : Text) (r : ℕ) (rest : Runes) {kvs : List KeyVal}
    → IsKey k
    → (r == b'"') ≡ false
    → parse_git_configs (k ++ (b':' ∷ r ∷ rest)) ≡ ok kvs
    → KeepsFirst k r kvs
unfolding parse_git_configs
parse_git_configs-KeepsFirst [] r rest h q e = absurd h
parse_git_configs-KeepsFirst (c ∷ k) r rest h q e =
    parse_loop-KeepsFirst (length (c ∷ (k ++ (b':' ∷ r ∷ rest)))) c k r rest h q e
