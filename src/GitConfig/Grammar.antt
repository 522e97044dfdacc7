-- ===== src/GitConfig/Grammar.antt =====
-- The syntax of `--git-config` that `parse_git_configs` accepts, as relations between the runes, what they
-- stand for, and the runes behind them.
pub mod Sound
pub mod Complete
use git_sync.Common.{ℕ, ◌≡◌, ◌⊎◌, ◌||◌, ◌==◌, true, false, List, [], ◌∷◌, Text}
use git_sync.GitConfig.{Runes, KeyVal}

-- A rune behind a `\`, and what it stands for.
abbrev pub StandsFor : ℕ → ℕ → Type 0
StandsFor c e =
    ((c ≡ b'n') × (e ≡ b'\n'))
    ⊎ (((c ≡ b't') × (e ≡ b'\t')) ⊎ (((c == b'"' || c == b',' || c == b'\\') ≡ true) × (e ≡ c)))

-- A key behind its first rune, with the colon.
pub data Key : Runes → Text → Runes → Type 0 where
  colon : (c : ℕ) {ch : Runes} → (c == b':') ≡ true → Key (c ∷ ch) [] ch
  rune :
      (c : ℕ) {ch rest : Runes} {k : Text}
      → (c == b':') ≡ false
      → Key ch k rest
      → Key (c ∷ ch) (c ∷ k) rest

-- A quoted value behind its opening quote, with the comma behind it if there is one.
pub data Quoted : Runes → Text → Runes → Type 0 where
  last : (c : ℕ) → (c == b'"') ≡ true → Quoted (c ∷ []) [] []
  comma :
      (c d : ℕ) {ch : Runes} → (c == b'"') ≡ true → (d == b',') ≡ true → Quoted (c ∷ d ∷ ch) [] ch
  escaped :
      (b c : ℕ) {e : ℕ} {ch rest : Runes} {v : Text}
      → (b == b'\\') ≡ true
      → StandsFor c e
      → Quoted ch v rest
      → Quoted (b ∷ c ∷ ch) (e ∷ v) rest
  rune :
      (c : ℕ) {ch rest : Runes} {v : Text}
      → (c == b'\\') ≡ false
      → (c == b'"') ≡ false
      → Quoted ch v rest
      → Quoted (c ∷ ch) (c ∷ v) rest

-- A plain value behind its first rune, likewise.
pub data Plain : Runes → Text → Runes → Type 0 where
  last : Plain [] [] []
  comma : (c : ℕ) {ch : Runes} → (c == b',') ≡ true → Plain (c ∷ ch) [] ch
  escaped :
      (b c : ℕ) {e : ℕ} {ch rest : Runes} {v : Text}
      → (b == b'\\') ≡ true
      → StandsFor c e
      → Plain ch v rest
      → Plain (b ∷ c ∷ ch) (e ∷ v) rest
  rune :
      (c : ℕ) {ch rest : Runes} {v : Text}
      → (c == b'\\') ≡ false
      → (c == b',') ≡ false
      → Plain ch v rest
      → Plain (c ∷ ch) (c ∷ v) rest

pub data Value : Runes → Text → Runes → Type 0 where
  quoted :
      (c : ℕ) {ch rest : Runes} {v : Text}
      → (c == b'"') ≡ true
      → Quoted ch v rest
      → Value (c ∷ ch) v rest
  -- The first rune of a plain value is any but a quote, and stands for itself.
  plain :
      (c : ℕ) {ch rest : Runes} {v : Text}
      → (c == b'"') ≡ false
      → Plain ch v rest
      → Value (c ∷ ch) (c ∷ v) rest

pub data Configs : Runes → List KeyVal → Type 0 where
  none : Configs [] []
  pair :
      (c : ℕ) {ch behind rest : Runes} {k v : Text} {kvs : List KeyVal}
      → Key ch k behind
      → Value behind v rest
      → Configs rest kvs
      → Configs (c ∷ ch) ((record { key = c ∷ k; val = v }) ∷ kvs)
