-- ===== src/Main/Validate/Dest.antt =====
-- The default of `--dest`.
use git_sync.Common.{
  ◌≡◌, refl, arith, ℕ, ◌==◌, true, false, List, [], ◌∷◌, Text, codes, contains, has_prefix, split,
  prepend, is_empty, All, Bool-cases, inl, inr,
}
use git_sync.Flags.{Flags}
use git_sync.Main.Validate.{fill_dest, last_of}

abbrev IsLeaf : Text → Type 0
IsLeaf s = contains s (codes "/") ≡ false

prepended :
    (x : ℕ) (ss : List Text) → (x == b'/') ≡ false → All IsLeaf ss → All IsLeaf (prepend x ss)
unfolding contains has_prefix
prepended x [] h k = ground arith
prepended x (s ∷ ss) h k = (ground arith, k.1)

split-IsLeaf : (s : Text) → All IsLeaf (split b'/' s)
unfolding split contains has_prefix
split-IsLeaf [] = (refl, tt)
split-IsLeaf (x ∷ s) = elim (Bool-cases (x == b'/')) [
  | inl e ↦ rw e (refl, split-IsLeaf s)
  | inr e ↦ rw e (prepended x (split b'/' s) e (split-IsLeaf s))
]

last_of-IsLeaf : (s : Text) (ss : List Text) → IsLeaf s → All IsLeaf ss → IsLeaf (last_of s ss)
last_of-IsLeaf s [] h k = h
last_of-IsLeaf s (t ∷ ss) h k = last_of-IsLeaf t ss k.0 k.1

-- The default of `--dest` is a leaf name.
pub fill_dest-IsLeaf :
    (fl : Flags) → is_empty fl.dest ≡ true → contains (fill_dest fl).dest (codes "/") ≡ false
unfolding fill_dest contains has_prefix
fill_dest-IsLeaf fl h = rw h (last_of-IsLeaf [] _ refl (split-IsLeaf _))
