-- ===== src/GitConfig/RoundTrip.antt =====
-- A printer for `--git-config` flags, and the proof that `parse_git_configs` reads back what it
-- prints. The printer is the specification of the two notations for values: the source has none.
use git_sync.Common.{
  ℕ, zero, suc, ◌<◌, ◌≤◌, ◌≡◌, refl, ap, ◌⊎◌, ◌||◌, ◌∙◌, true, false, Option, none, some, List, [],
  ◌∷◌, ◌++◌, append-nil, append_assoc, length, length-append, All, arith, ◌==◌, if◌then◌else◌, Text,
  Bool-cases, inl, inr,
}
use git_sync.GitConfig.{
  Runes, KeyVal, ok, under_key, unescape, key_loop, parse_key, close_quote, qval_loop, parse_qval,
  val_loop, parse_val, parse_value, parse_loop, parse_git_configs,
}

pub data Style : Type 0 where
  quoted plain : Style

-- A quoted value behind its opening quote: `\` and `"` are escaped.
abbrev quote_body : Text → Runes → Runes
quote_body [] rest = b'"' ∷ rest
quote_body (r ∷ v) rest =
    let more = quote_body v rest in
    if r == b'\\' then b'\\' ∷ r ∷ more else if r == b'"' then b'\\' ∷ r ∷ more else r ∷ more

-- A plain value behind its first rune: `\` and `,` are escaped.
abbrev plain_body : Text → Runes → Runes
plain_body [] rest = rest
plain_body (r ∷ v) rest =
    let more = plain_body v rest in
    if r == b'\\' then b'\\' ∷ r ∷ more else if r == b',' then b'\\' ∷ r ∷ more else r ∷ more

abbrev print_val : Style → Text → Runes → Runes
print_val quoted v rest = b'"' ∷ quote_body v rest
print_val plain [] rest = rest
print_val plain (r ∷ v) rest = r ∷ plain_body v rest

abbrev print_pair : Style → KeyVal → Runes → Runes
print_pair style kv rest = kv.key ++ (b':' ∷ print_val style kv.val rest)

-- The pairs, each in its own style, with commas between them.
abbrev pub print_configs : List (Style × KeyVal) → Text
print_configs [] = []
print_configs ((style, kv) ∷ []) = print_pair style kv []
print_configs ((style, kv) ∷ p ∷ ps) = print_pair style kv (b',' ∷ print_configs (p ∷ ps))

abbrev pub pairs : List (Style × KeyVal) → List KeyVal
pairs [] = []
pairs ((_, kv) ∷ ps) = kv ∷ pairs ps

-- At least one rune, and no colon behind the first.
abbrev pub IsKey : Text → Type 0
IsKey [] = ⊥
IsKey (r ∷ k) = All (λ c. (c == b':') ≡ false) k

-- A plain value is not empty and does not begin with a quote. Any value can be quoted.
abbrev pub Fits : Style → Text → Type 0
Fits quoted v = Unit
Fits plain [] = ⊥
Fits plain (r ∷ v) = (r == b'"') ≡ false

abbrev pub CanPrint : Style × KeyVal → Type 0
CanPrint (style, kv) = IsKey kv.key × Fits style kv.val

pub key_loop-append :
    (k buf : Text) (rest : Runes)
    → All (λ c. (c == b':') ≡ false) k
    → key_loop buf (k ++ (b':' ∷ rest)) ≡ ok (buf ++ k, rest)
unfolding key_loop
key_loop-append [] buf rest h = rw append-nil
key_loop-append (c ∷ k) buf rest h =
    rw (h.0) (key_loop-append k (buf ++ c ∷ []) rest h.1 ∙ rw append_assoc)

qval_loop-escaped :
    (c : ℕ) (buf : Text) (ch : Runes)
    → unescape (c ∷ ch) ≡ ok (c, ch)
    → qval_loop buf (b'\\' ∷ c ∷ ch) ≡ qval_loop (buf ++ c ∷ []) ch
unfolding qval_loop
qval_loop-escaped c buf ch h = rw h

val_loop-escaped :
    (c : ℕ) (buf : Text) (ch : Runes)
    → unescape (c ∷ ch) ≡ ok (c, ch)
    → val_loop buf (b'\\' ∷ c ∷ ch) ≡ val_loop (buf ++ c ∷ []) ch
unfolding val_loop
val_loop-escaped c buf ch h = rw h

unescape-special :
    (c : ℕ) (ch : Runes)
    → (c == b'\\' || c == b'"' || c == b',') ≡ true
    → unescape (c ∷ ch) ≡ ok (c, ch)
unfolding unescape
unescape-special c ch h = ground arith

qval_loop-cons :
    (c : ℕ) (buf : Text) (ch : Runes)
    → (c == b'\\') ≡ false
    → (c == b'"') ≡ false
    → qval_loop buf (c ∷ ch) ≡ qval_loop (buf ++ c ∷ []) ch
unfolding qval_loop
qval_loop-cons c buf ch h h' = rw (h, h')

val_loop-cons :
    (c : ℕ) (buf : Text) (ch : Runes)
    → (c == b'\\') ≡ false
    → (c == b',') ≡ false
    → val_loop buf (c ∷ ch) ≡ val_loop (buf ++ c ∷ []) ch
unfolding val_loop
val_loop-cons c buf ch h h' = rw (h, h')

qval_loop-quote_body :
    (v buf : Text) (rest : Runes) → qval_loop buf (quote_body v rest) ≡ close_quote (buf ++ v) rest
qval_loop-quote_body [] buf rest = rw append-nil (unfold qval_loop in refl)
qval_loop-quote_body (c ∷ v) buf rest =
    step (Bool-cases (c == b'\\')) (Bool-cases (c == b'"'))
    ∙ qval_loop-quote_body v (buf ++ c ∷ []) rest
    ∙ rw append_assoc
  where
    step :
        ((c == b'\\') ≡ true) ⊎ ((c == b'\\') ≡ false)
        → ((c == b'"') ≡ true) ⊎ ((c == b'"') ≡ false)
        → qval_loop buf (quote_body (c ∷ v) rest) ≡ qval_loop (buf ++ c ∷ []) (quote_body v rest)
    step (inl e) q = rw e (qval_loop-escaped c buf _ (unescape-special c _ (ground arith)))
    step (inr e) (inl q) =
        rw (e, q) (qval_loop-escaped c buf _ (unescape-special c _ (ground arith)))
    step (inr e) (inr q) = rw (e, q) (qval_loop-cons c buf _ e q)

-- What a comma or the end of the flag leaves for the next round.
abbrev behind : Option Runes → Runes
behind none = []
behind (some ch) = b',' ∷ ch

abbrev left : Option Runes → Runes
left none = []
left (some ch) = ch

val_loop-plain_body :
    (v buf : Text) (o : Option Runes)
    → val_loop buf (plain_body v (behind o)) ≡ ok (buf ++ v, left o)
val_loop-plain_body [] buf none = rw append-nil (unfold val_loop in refl)
val_loop-plain_body [] buf (some ch) = rw append-nil (unfold val_loop in refl)
val_loop-plain_body (c ∷ v) buf o =
    step (Bool-cases (c == b'\\')) (Bool-cases (c == b','))
    ∙ val_loop-plain_body v (buf ++ c ∷ []) o
    ∙ rw append_assoc
  where
    step :
        ((c == b'\\') ≡ true) ⊎ ((c == b'\\') ≡ false)
        → ((c == b',') ≡ true) ⊎ ((c == b',') ≡ false)
        → val_loop buf (plain_body (c ∷ v) (behind o))
          ≡ val_loop (buf ++ c ∷ []) (plain_body v (behind o))
    step (inl e) q = rw e (val_loop-escaped c buf _ (unescape-special c _ (ground arith)))
    step (inr e) (inl q) =
        rw (e, q) (val_loop-escaped c buf _ (unescape-special c _ (ground arith)))
    step (inr e) (inr q) = rw (e, q) (val_loop-cons c buf _ e q)

close_quote-behind : (v : Text) (o : Option Runes) → close_quote v (behind o) ≡ ok (v, left o)
unfolding close_quote
close_quote-behind v none = refl
close_quote-behind v (some ch) = refl

parse_value-print_val :
    (style : Style) (v key : Text) (o : Option Runes)
    → Fits style v
    → parse_value key (print_val style v (behind o)) ≡ ok (v, left o)
unfolding parse_value parse_qval parse_val
parse_value-print_val quoted v key o h =
    ap (under_key key) (qval_loop-quote_body v [] (behind o) ∙ close_quote-behind v o)
parse_value-print_val plain [] key o h = absurd h
parse_value-print_val plain (r ∷ v) key o h = rw (h, val_loop-plain_body v (r ∷ []) o)

-- One round of the loop reads one printed pair.
parse_loop-print_pair :
    (k v : Text) (fuel : ℕ) (result : List KeyVal) (style : Style) (o : Option Runes)
    → IsKey k
    → Fits style v
    → parse_loop (suc fuel) result (print_pair style (record { key = k; val = v }) (behind o))
      ≡ parse_loop fuel (result ++ (record { key = k; val = v }) ∷ []) (left o)
unfolding parse_loop parse_key
parse_loop-print_pair [] v fuel result style o h f = absurd h
parse_loop-print_pair (r ∷ k) v fuel result style o h f =
    rw (key_loop-append k (r ∷ []) (print_val style v (behind o)) h)
      (rw (parse_value-print_val style v (r ∷ k) o f))

quote_body-length : (v : Text) (rest : Runes) → length rest ≤ length (quote_body v rest)
quote_body-length [] rest = omega arith
quote_body-length (c ∷ v) rest = ground (arith, quote_body-length v rest)

plain_body-length : (v : Text) (rest : Runes) → length rest ≤ length (plain_body v rest)
plain_body-length [] rest = omega arith
plain_body-length (c ∷ v) rest = ground (arith, plain_body-length v rest)

print_val-length :
    (style : Style) (v : Text) (rest : Runes) → length rest ≤ length (print_val style v rest)
print_val-length quoted v rest = omega (arith, quote_body-length v rest)
print_val-length plain [] rest = omega arith
print_val-length plain (c ∷ v) rest = omega (arith, plain_body-length v rest)

print_pair-length :
    (style : Style) (kv : KeyVal) (rest : Runes) → length rest < length (print_pair style kv rest)
print_pair-length style kv rest = omega (
  arith,
  length-append kv.key (b':' ∷ print_val style kv.val rest),
  print_val-length style kv.val rest,
)

parse_loop-print_configs :
    (fuel : ℕ) (result : List KeyVal) (ps : List (Style × KeyVal))
    → All CanPrint ps
    → length (print_configs ps) < fuel
    → parse_loop fuel result (print_configs ps) ≡ ok (result ++ pairs ps)
parse_loop-print_configs zero result ps h lt = absurd (omega arith)
parse_loop-print_configs (suc fuel) result [] h lt = rw append-nil (unfold parse_loop in refl)
parse_loop-print_configs (suc zero) result ((style, kv) ∷ []) h lt =
    absurd (omega (arith, print_pair-length style kv []))
parse_loop-print_configs (suc (suc fuel)) result ((style, kv) ∷ []) h lt =
    parse_loop-print_pair kv.key kv.val (suc fuel) result style none h.0.0 h.0.1
    ∙ (unfold parse_loop in refl)
parse_loop-print_configs (suc fuel) result ((style, kv) ∷ p ∷ ps) h lt =
    parse_loop-print_pair kv.key kv.val fuel result style (some (print_configs (p ∷ ps))) h.0.0
      h.0.1
    ∙ parse_loop-print_configs fuel (result ++ kv ∷ []) (p ∷ ps) h.1
        (omega (arith, print_pair-length style kv (b',' ∷ print_configs (p ∷ ps))))
    ∙ rw append_assoc

-- Every list of pairs whose keys are not empty and hold no colon behind their first rune is read
-- back from its printed form, in order, where each value is either quoted, with `\` and `"`
-- escaped, or, if it is not empty and does not begin with a quote, plain, with `\` and `,` escaped
-- behind its first rune.
pub parse_git_configs-print_configs :
    (ps : List (Style × KeyVal))
    → All CanPrint ps
    → parse_git_configs (print_configs ps) ≡ ok (pairs ps)
unfolding parse_git_configs
parse_git_configs-print_configs ps h =
    parse_loop-print_configs (suc (length (print_configs ps))) [] ps h (omega arith)
