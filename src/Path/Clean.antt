-- ===== src/Path/Clean.antt =====
-- `Clean` is idempotent.
use mathlib.Core.List.{reverse, foldl, foldl-append, reverse-cons}
use git_sync.Common.{
  ℕ, ◌≡◌, refl, ap, ◌∙◌, inl, inr, Bool, true, false, ◌||◌, List, [], ◌∷◌, ◌++◌, All, arith, ◌==◌,
  Bool-cases, Text, codes, equal, is_empty, split, join,
}
use git_sync.Path.{up, slash, go_up, push_part, is_rooted, clean_path, render, clean}

abbrev pub NoSlash : Text → Type 0
NoSlash = All (λ c. (c == b'/') ≡ false)

pub split-no_slash : (c : ℕ) (s : Text) → All (λ x. (x == c) ≡ false) s → split c s ≡ s ∷ []
unfolding split
split-no_slash c [] h = refl
split-no_slash c (x ∷ s) h = rw (h.0, split-no_slash c s h.1)

pub split-cons : (c : ℕ) (s : Text) → (p : Text) × (ps : List Text) × (split c s ≡ p ∷ ps)
unfolding split
split-cons c [] = ([], [], refl)
split-cons c (x ∷ s) = elim (Bool-cases (x == c)) [
  | inl e ↦ ([], split c s, rw e)
  | inr e ↦ let (p, ps, q) = split-cons c s in (x ∷ p, ps, rw (e, q))
]

pub split-append : (c : ℕ) (a b : Text) → split c (a ++ (c ∷ b)) ≡ split c a ++ split c b
unfolding split
split-append c [] b = ground arith
split-append c (x ∷ a) b =
    let (p, ps, q) = split-cons c a in
    elim (Bool-cases (x == c)) [
      | inl e ↦ rw (e, split-append c a b)
      | inr e ↦ rw (e, split-append c a b, q)
    ]

-- A stack of parts that stays when it is pushed again, part by part.
abbrev Settled : Bool → List Text → Type 0
Settled rooted [] = Unit
Settled rooted (p ∷ ps) =
    (push_part rooted ps p ≡ p ∷ ps) × (is_empty p ≡ false) × NoSlash p × Settled rooted ps

up-NoSlash : NoSlash up
up-NoSlash = (refl, (refl, tt))

push_part-up : (rooted : Bool) (ps : List Text) → push_part rooted ps up ≡ go_up rooted ps
unfolding push_part equal
push_part-up rooted ps = refl

go_up-Settled :
    (rooted : Bool) (ps : List Text) → Settled rooted ps → Settled rooted (go_up rooted ps)
go_up-Settled true [] h = unfold go_up in tt
go_up-Settled false [] h = unfold go_up in (push_part-up false [], refl, up-NoSlash, tt)
go_up-Settled rooted (p ∷ ps) h = elim (Bool-cases (equal p up)) [
  | inl e ↦ rw (go_up-keeps e) ((push_part-up rooted (p ∷ ps) ∙ go_up-keeps e), refl, up-NoSlash, h)
  | inr e ↦ rw (go_up-drops e) (h.3)
]
  where
    go_up-keeps : equal p up ≡ true → go_up rooted (p ∷ ps) ≡ up ∷ p ∷ ps
    go_up-keeps e = unfold go_up in rw e

    go_up-drops : equal p up ≡ false → go_up rooted (p ∷ ps) ≡ ps
    go_up-drops e = unfold go_up in rw e

push_part-Settled :
    (rooted : Bool) (ps : List Text) (p : Text)
    → NoSlash p
    → Settled rooted ps
    → Settled rooted (push_part rooted ps p)
push_part-Settled rooted ps p n h = elim (Bool-cases (is_empty p || equal p (codes "."))) [
  | inl e ↦ rw (skips e) h
  | inr e ↦ elim (Bool-cases (equal p up)) [
    | inl f ↦ rw (climbs e f) (go_up-Settled rooted ps h)
    | inr f ↦ rw (stays e f) (stays e f, ground arith, n, h)
  ]
]
  where
    skips : (is_empty p || equal p (codes ".")) ≡ true → push_part rooted ps p ≡ ps
    skips e = unfold push_part in rw e

    climbs :
        (is_empty p || equal p (codes ".")) ≡ false
        → equal p up ≡ true
        → push_part rooted ps p ≡ go_up rooted ps
    climbs e f = unfold push_part in rw (e, f)

    stays :
        (is_empty p || equal p (codes ".")) ≡ false
        → equal p up ≡ false
        → push_part rooted ps p ≡ p ∷ ps
    stays e f = unfold push_part in rw (e, f)

foldl-Settled :
    (rooted : Bool) (todo ps : List Text)
    → All NoSlash todo
    → Settled rooted ps
    → Settled rooted (foldl (push_part rooted) ps todo)
foldl-Settled rooted [] ps n h = h
foldl-Settled rooted (p ∷ todo) ps n h =
    foldl-Settled rooted todo (push_part rooted ps p) n.1 (push_part-Settled rooted ps p n.0 h)

-- The pieces of a split hold no separator.
split-no_slashes : (s : Text) → All NoSlash (split b'/' s)
unfolding split
split-no_slashes [] = (tt, tt)
split-no_slashes (x ∷ s) =
    let (p, ps, q) = split-cons b'/' s in
    let rest : All NoSlash (p ∷ ps) = rw q at (split-no_slashes s) in
    elim (Bool-cases (x == b'/')) [
      | inl e ↦ rw e (tt, split-no_slashes s)
      | inr e ↦ rw (e, q) ((e, rest.0), rest.1)
    ]

foldl-reverse :
    (rooted : Bool) (ps : List Text)
    → Settled rooted ps
    → foldl (push_part rooted) [] (reverse ps) ≡ ps
foldl-reverse rooted [] h = refl
foldl-reverse rooted (p ∷ ps) h = rw (reverse-cons, foldl-append, foldl-reverse rooted ps h.3) (h.0)

split-join :
    (p : Text) (ps : List Text) → All NoSlash (p ∷ ps) → split b'/' (join slash (p ∷ ps)) ≡ p ∷ ps
unfolding join
split-join p [] h = split-no_slash b'/' p h.0
split-join p (q ∷ ps) h =
    split-append b'/' p (join slash (q ∷ ps)) ∙ rw (split-no_slash b'/' p h.0, split-join q ps h.1)

abbrev IsPart : Text → Type 0
IsPart p = (is_empty p ≡ false) × NoSlash p

is_rooted-join : (p : Text) (ps : List Text) → IsPart p → is_rooted (join slash (p ∷ ps)) ≡ false
unfolding join
is_rooted-join [] ps h = cc
is_rooted-join (c ∷ p) [] h = h.1.0
is_rooted-join (c ∷ p) (_ ∷ _) h = h.1.0

All-NoSlash : (ps : List Text) → All IsPart ps → All NoSlash ps
All-NoSlash [] h = tt
All-NoSlash (p ∷ ps) h = (h.0.1, All-NoSlash ps h.1)

split-slash : (s : Text) → split b'/' (b'/' ∷ s) ≡ [] ∷ split b'/' s
unfolding split
split-slash s = refl

push_part-nil : push_part true [] [] ≡ []
unfolding push_part
push_part-nil = refl

clean_path-render_root :
    (rooted : Bool)
    → clean_path (render (record { rooted = rooted; parts = [] }))
      ≡ record { rooted = rooted; parts = [] }
unfolding clean_path render split join equal
clean_path-render_root true = refl
clean_path-render_root false = refl

clean_path-render_parts :
    (rooted : Bool) (ps : List Text)
    → All IsPart ps
    → clean_path (render (record { rooted = rooted; parts = ps }))
      ≡ record { rooted = rooted; parts = reverse (foldl (push_part rooted) [] ps) }
unfolding clean_path render
clean_path-render_parts rooted [] h = clean_path-render_root rooted
clean_path-render_parts true (p ∷ ps) h =
    rw (split-slash, split-join p ps (All-NoSlash (p ∷ ps) h)) (rw push_part-nil)
clean_path-render_parts false (p ∷ ps) h =
    rw (is_rooted-join p ps h.0, split-join p ps (All-NoSlash (p ∷ ps) h))

All-concat {ℓ κ} :
    {A : Type ℓ} (P : A → Type κ) (xs : List A) (x : A) → All P xs → P x → All P (xs ++ x ∷ [])
All-concat P [] x h hx = (hx, tt)
All-concat P (y ∷ xs) x h hx = (h.0, All-concat P xs x h.1 hx)

Settled-parts : (rooted : Bool) (ps : List Text) → Settled rooted ps → All IsPart (reverse ps)
Settled-parts rooted [] h = tt
Settled-parts rooted (p ∷ ps) h =
    rw reverse-cons (All-concat IsPart (reverse ps) p (Settled-parts rooted ps h.3) (h.1, h.2))

abbrev stack : Text → List Text
stack path = foldl (push_part (is_rooted path)) [] (split b'/' path)

stack-Settled : (path : Text) → Settled (is_rooted path) (stack path)
stack-Settled path = foldl-Settled (is_rooted path) (split b'/' path) [] (split-no_slashes path) tt

-- A cleaned path is read back from the text that it is rendered to.
pub clean_path-clean : (path : Text) → clean_path (clean path) ≡ clean_path path
clean_path-clean path = rw (unfolded path) (
    clean_path-render_parts (is_rooted path) (reverse (stack path))
      (Settled-parts _ (stack path) (stack-Settled path))
    ∙ rw (foldl-reverse (is_rooted path) (stack path) (stack-Settled path))
        (unfold clean_path in refl))
  where
    unfolded :
        (path : Text)
        → clean path ≡ render (record { rooted = is_rooted path; parts = reverse (stack path) })
    unfolded path = unfold clean clean_path in refl

-- `Clean` is idempotent.
pub clean_idem : (path : Text) → clean (clean path) ≡ clean path
clean_idem path = unfold clean in ap render (clean_path-clean path)
