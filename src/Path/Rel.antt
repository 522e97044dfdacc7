-- ===== src/Path/Rel.antt =====
-- A directory and a plain name in it: `Rel` takes back what `Join` puts together.
use mathlib.Core.List.{foldl, foldl-append, reverse-cons}
use git_sync.Common.{
  ◌≡◌, refl, ap, ◌∙◌, Bool, true, false, some, List, [], ◌∷◌, ◌++◌, All, ◌==◌, Text, codes, equal,
  equal_refl, is_empty, split, join,
}
use git_sync.Path.{
  up, push_part, is_rooted, clean_path, equal_parts, rel_parts, rel_clean, clean, join_path, rel,
}
use git_sync.Path.Clean.{split-no_slash, split-append, clean_path-clean}

-- A name that stands for itself in a path.
pub record IsName (name : Text) : Type 0 where
  pub not_empty : is_empty name ≡ false
  pub no_slash : All (λ c. (c == b'/') ≡ false) name
  pub not_here : equal name (codes ".") ≡ false
  pub not_up : equal name up ≡ false

push_part-IsName :
    {name : Text} (rooted : Bool) (ps : List Text)
    → IsName name
    → push_part rooted ps name ≡ name ∷ ps
unfolding push_part
push_part-IsName rooted ps n = rw (n.not_empty, n.not_here, n.not_up)

is_rooted-append :
    (root rest : Text) → is_empty root ≡ false → is_rooted (root ++ rest) ≡ is_rooted root
is_rooted-append [] rest h = cc
is_rooted-append (c ∷ root) rest h = refl

-- The parts of a name behind a directory's own.
clean_path-child :
    (root name : Text)
    → is_empty root ≡ false
    → IsName name
    → clean_path (root ++ (b'/' ∷ name))
      ≡ record { rooted = is_rooted root; parts = (clean_path root).parts ++ name ∷ [] }
unfolding clean_path
clean_path-child root name h n =
    rw (is_rooted-append root (b'/' ∷ name) h, split-append, split-no_slash b'/' name n.no_slash)
      (rw (foldl-append, push_part-IsName _ _ n)
        (ap (λ ps. record { rooted = is_rooted root; parts = ps })
          (reverse-cons name (foldl (push_part (is_rooted root)) [] (split b'/' root)))))

equal_parts-concat : (ps : List Text) (p : Text) → equal_parts ps (ps ++ p ∷ []) ≡ false
unfolding equal_parts
equal_parts-concat [] p = refl
equal_parts-concat (q ∷ ps) p = rw (equal_refl, equal_parts-concat ps p)

rel_parts-concat : (ps : List Text) (p : Text) → rel_parts ps (ps ++ p ∷ []) ≡ some p
unfolding rel_parts join
rel_parts-concat [] p = refl
rel_parts-concat (q ∷ ps) p = rw (equal_refl, rel_parts-concat ps p)

equal_parts-concat_nil : (ps : List Text) (p : Text) → equal_parts (ps ++ p ∷ []) [] ≡ false
unfolding equal_parts
equal_parts-concat_nil [] p = refl
equal_parts-concat_nil (q ∷ ps) p = refl

-- The body of `Rel` with the recursions shut.
rel_clean-open :
    (rooted : Bool) (ps qs : List Text)
    → equal_parts ps qs ≡ false
    → equal_parts qs [] ≡ false
    → rel_clean (record { rooted = rooted; parts = ps }) (record { rooted = rooted; parts = qs })
      ≡ rel_parts ps qs
unfolding rel_clean
rel_clean-open true ps qs h h' = rw h
rel_clean-open false ps qs h h' = rw h (rw h')

-- The path of `name` relative to `root`, where it is joined to `root`, is `name` itself: for every
-- root that is not empty, and every name that is not empty, is not `.` or `..` and holds no slash.
pub rel-join_path :
    (root name : Text)
    → is_empty root ≡ false
    → IsName name
    → rel root (join_path root name) ≡ some name
rel-join_path [] name h n = cc
rel-join_path (c ∷ root) name h n = cleaned ∙ ap (rel_clean (clean_path base)) joined ∙ settled
  where
    base : Text
    base = c ∷ root

    ps : List Text
    ps = (clean_path base).parts

    cleaned :
        rel base (join_path base name)
        ≡ rel_clean (clean_path base) (clean_path (clean (base ++ (b'/' ∷ name))))
    cleaned = unfold rel join_path in refl

    split_up : clean_path base ≡ record { rooted = is_rooted base; parts = ps }
    split_up = unfold clean_path in refl

    joined :
        clean_path (clean (base ++ (b'/' ∷ name)))
        ≡ record { rooted = is_rooted base; parts = ps ++ name ∷ [] }
    joined = clean_path-clean (base ++ (b'/' ∷ name)) ∙ clean_path-child base name h n

    settled :
        rel_clean (clean_path base) (record { rooted = is_rooted base; parts = ps ++ name ∷ [] })
        ≡ some name
    settled =
        ap (λ b. rel_clean b (record { rooted = is_rooted base; parts = ps ++ name ∷ [] })) split_up
        ∙ rel_clean-open (is_rooted base) ps (ps ++ name ∷ []) (equal_parts-concat ps name)
            (equal_parts-concat_nil ps name)
        ∙ rel_parts-concat ps name
