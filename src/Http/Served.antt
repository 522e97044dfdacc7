-- ===== src/Http/Served.antt =====
-- Which handler answers which path.
use git_sync.Common.{
  ◌≡◌, refl, ◌∙◌, ap, subst, equal_iff, equal_refl, Bool-cases, inl, inr, ◌==◌, arith, Bool, true,
  false, not, ◌&&◌, some, none, List, [], ◌∷◌, ◌++◌, if◌then◌else◌, Text, codes, equal, has_prefix,
}
use git_sync.Flags.{Flags}
use git_sync.Os.{Machine}
use git_sync.Program.{health}
use git_sync.Http.{
  is_some, Route, routes, exact, longest, find_handler, ends_in_slash, clean_url, Answer,
  metrics_page, index_page, profile_page, status, redirect, answer_by, serve,
}

-- The pages of pprof, by their paths.
pub profile_for : Text → Answer → Answer
profile_for path other =
    if equal (codes "/debug/pprof/cmdline") path
    then profile_page (codes "cmdline")
    else if equal (codes "/debug/pprof/profile") path
    then profile_page (codes "profile")
    else if equal (codes "/debug/pprof/symbol") path
    then profile_page (codes "symbol")
    else if equal (codes "/debug/pprof/trace") path
    then profile_page (codes "trace")
    else if has_prefix path (codes "/debug/pprof/")
    then index_page
    else if equal (codes "/debug/pprof") path
    then redirect (codes "/debug/pprof/")
    else other

-- The page of a path, without regard to routes.
pub expected : Flags → Machine → Text → Answer
unfolding profile_for
expected fl m path =
    let page = if fl.http_pprof then profile_for path (status (health m)) else status (health m) in
    if fl.http_metrics && equal (codes "/metrics") path then metrics_page else page

-- A text is this one, or it is compared with it in vain.
split_on : (P : Text → Type 0) (q path : Text) → P q → (equal q path ≡ false → P path) → P path
split_on P q path h rest = elim (Bool-cases (equal q path)) [
  | inl e ↦ subst P ((equal_iff q path).0 e) h
  | inr n ↦ rest n
]

ends-append : (s : Text) → ends_in_slash (s ++ codes "/") ≡ true
ends-append [] = refl
ends-append (c ∷ []) = refl
ends-append (c ∷ d ∷ s) = ends-append (d ∷ s)

-- No text that ends otherwise is one with a slash behind it.
slashless : (q path : Text) → ends_in_slash q ≡ false → equal q (path ++ codes "/") ≡ false
slashless q path h = elim (Bool-cases (equal q (path ++ codes "/"))) [
  | inl e ↦
      absurd
        (clash (subst (λ s. ends_in_slash s ≡ false) ((equal_iff q _).0 e) h) (ends-append path))
  | inr n ↦ n
]
  where
    clash : {b : Bool} → b ≡ false → b ≡ true → ⊥
    clash a b = ground arith

equal-slash : (q path : Text) → equal (q ++ codes "/") (path ++ codes "/") ≡ equal q path
unfolding equal
equal-slash [] [] = refl
equal-slash [] (c ∷ []) = ground arith
equal-slash [] (c ∷ d ∷ path) = ground arith
equal-slash (c ∷ []) [] = ground arith
equal-slash (c ∷ d ∷ q) [] = ground arith
equal-slash (c ∷ q) (d ∷ path) = ap (λ b. c == d && b) (equal-slash q path)

not_empty : (path : Text) → has_prefix path (codes "/") ≡ true → equal [] path ≡ false
unfolding equal has_prefix
not_empty [] h = ground arith
not_empty (c ∷ path) h = refl

four :
    (P : Bool → Bool → Type 0)
    → P true true
    → P true false
    → P false true
    → P false false
    → (b c : Bool) → P b c
four P tt' tf ft ff true true = tt'
four P tt' tf ft ff true false = tf
four P tt' tf ft ff false true = ft
four P tt' tf ft ff false false = ff

module _ (fl : Flags) (m : Machine) where
  abbrev with_flags : Bool → Bool → Flags
  with_flags b c = record fl { http_metrics = b; http_pprof = c }

  -- A path that needs no cleaning.
  serve_clean : List Route → Text → Answer
  serve_clean rs path =
      if not (is_some (exact path rs))
        && (is_some (exact (path ++ codes "/") rs) && not (ends_in_slash path))
      then redirect (path ++ codes "/")
      else answer_by m (find_handler path rs)

  serve-clean :
      (fl' : Flags) (path : Text)
      → clean_url path ≡ path
      → serve fl' m path ≡ serve_clean (routes fl') path
  unfolding serve serve_clean
  serve-clean fl' path h = rw (h, equal_refl) refl

  abbrev IsServed : Bool → Bool → Text → Type 0
  IsServed b c path =
      has_prefix path (codes "/") ≡ true
      → serve_clean (routes (with_flags b c)) path ≡ expected (with_flags b c) m path

  -- A path that a route, or a redirect, is for.
  at_path :
      (q : Text)
      → serve_clean (routes (with_flags true true)) q ≡ expected (with_flags true true) m q
      → serve_clean (routes (with_flags true false)) q ≡ expected (with_flags true false) m q
      → serve_clean (routes (with_flags false true)) q ≡ expected (with_flags false true) m q
      → serve_clean (routes (with_flags false false)) q ≡ expected (with_flags false false) m q
      → (b c : Bool) → IsServed b c q
  at_path q h1 h2 h3 h4 = four (λ b c. IsServed b c q) (λ _. h1) (λ _. h2) (λ _. h3) (λ _. h4)

  -- A path that none is for.
  module _ (path : Text) (n1 : equal (codes "/metrics") path ≡ false)
      (n2 : equal (codes "/debug/pprof/cmdline") path ≡ false)
      (n3 : equal (codes "/debug/pprof/profile") path ≡ false)
      (n4 : equal (codes "/debug/pprof/symbol") path ≡ false)
      (n5 : equal (codes "/debug/pprof/trace") path ≡ false)
      (n6 : equal (codes "/debug/pprof/") path ≡ false)
      (n7 : equal (codes "/debug/pprof") path ≡ false) (n8 : equal (codes "/") path ≡ false)
      (rooted : has_prefix path (codes "/") ≡ true) where
    no_redirect : (b c : Bool) → exact (path ++ codes "/") (routes (with_flags b c)) ≡ none
    unfolding routes exact
    no_redirect =
        four (λ b c. exact (path ++ codes "/") (routes (with_flags b c)) ≡ none)
          (rw (s1, s2, s3, s4, s5, s6, s8) refl) (rw (s1, s8) refl)
          (rw (s2, s3, s4, s5, s6, s8) refl) (rw s8 refl)
      where
        s1 : equal (codes "/metrics") (path ++ codes "/") ≡ false
        s1 = slashless (codes "/metrics") path refl

        s2 : equal (codes "/debug/pprof/cmdline") (path ++ codes "/") ≡ false
        s2 = slashless (codes "/debug/pprof/cmdline") path refl

        s3 : equal (codes "/debug/pprof/profile") (path ++ codes "/") ≡ false
        s3 = slashless (codes "/debug/pprof/profile") path refl

        s4 : equal (codes "/debug/pprof/symbol") (path ++ codes "/") ≡ false
        s4 = slashless (codes "/debug/pprof/symbol") path refl

        s5 : equal (codes "/debug/pprof/trace") (path ++ codes "/") ≡ false
        s5 = slashless (codes "/debug/pprof/trace") path refl

        s6 : equal (codes "/debug/pprof/") (path ++ codes "/") ≡ false
        s6 = equal-slash (codes "/debug/pprof") path ∙ n7

        s8 : equal (codes "/") (path ++ codes "/") ≡ false
        s8 = equal-slash [] path ∙ not_empty path rooted

    no_route : (b c : Bool) → exact path (routes (with_flags b c)) ≡ none
    unfolding routes exact
    no_route =
        four (λ b c. exact path (routes (with_flags b c)) ≡ none)
          (rw (n1, n2, n3, n4, n5, n6, n8) refl) (rw (n1, n8) refl)
          (rw (n2, n3, n4, n5, n6, n8) refl) (rw n8 refl)

    -- The handler of the longest pattern.
    by_longest : List Route → Answer
    by_longest rs = answer_by m (elim (longest path rs) [ none ↦ none | some r ↦ some r.handler ])

    by_prefix :
        (b c : Bool) → by_longest (routes (with_flags b c)) ≡ expected (with_flags b c) m path
    unfolding by_longest routes longest expected profile_for answer_by
    by_prefix =
        four (λ b c. by_longest (routes (with_flags b c)) ≡ expected (with_flags b c) m path)
          (elim (Bool-cases (has_prefix path (codes "/debug/pprof/"))) [
            | inl e ↦ rw (e, rooted, n1, n2, n3, n4, n5) refl
            | inr e ↦ rw (e, rooted, n1, n2, n3, n4, n5, n7) refl
          ])
          (rw (rooted, n1) refl)
          (elim (Bool-cases (has_prefix path (codes "/debug/pprof/"))) [
            | inl e ↦ rw (e, rooted, n2, n3, n4, n5) refl
            | inr e ↦ rw (e, rooted, n2, n3, n4, n5, n7) refl
          ])
          (rw rooted refl)

    find_handler-longest :
        (rs : List Route)
        → exact path rs ≡ none
        → answer_by m (find_handler path rs) ≡ by_longest rs
    unfolding find_handler by_longest
    find_handler-longest rs h =
        ap
          (λ o. answer_by m (elim o [
            | some k ↦ some k
            | none ↦ elim (longest path rs) [ none ↦ none | some r ↦ some r.handler ]
          ]))
          h

    no_exact :
        (rs : List Route)
        → exact path rs ≡ none
        → exact (path ++ codes "/") rs ≡ none
        → serve_clean rs path ≡ answer_by m (find_handler path rs)
    unfolding serve_clean
    no_exact rs h k = rw (h, k) refl

    elsewhere :
        (b c : Bool) → serve_clean (routes (with_flags b c)) path ≡ expected (with_flags b c) m path
    elsewhere b c =
        no_exact _ (no_route b c) (no_redirect b c)
        ∙ (find_handler-longest _ (no_route b c) ∙ by_prefix b c)

  by_flags : (b c : Bool) (path : Text) → IsServed b c path
  unfolding serve_clean routes exact longest find_handler answer_by expected equal has_prefix
  by_flags b c path =
      split_on (IsServed b c) (codes "/metrics") path
        (at_path (codes "/metrics") refl refl refl refl b c)
        λ n1.
          split_on (IsServed b c) (codes "/debug/pprof/cmdline") path
            (at_path (codes "/debug/pprof/cmdline") refl refl refl refl b c)
            λ n2.
              split_on (IsServed b c) (codes "/debug/pprof/profile") path
                (at_path (codes "/debug/pprof/profile") refl refl refl refl b c)
                λ n3.
                  split_on (IsServed b c) (codes "/debug/pprof/symbol") path
                    (at_path (codes "/debug/pprof/symbol") refl refl refl refl b c)
                    λ n4.
                      split_on (IsServed b c) (codes "/debug/pprof/trace") path
                        (at_path (codes "/debug/pprof/trace") refl refl refl refl b c)
                        λ n5.
                          split_on (IsServed b c) (codes "/debug/pprof/") path
                            (at_path (codes "/debug/pprof/") refl refl refl refl b c)
                            λ n6.
                              split_on (IsServed b c) (codes "/debug/pprof") path
                                (at_path (codes "/debug/pprof") refl refl refl refl b c)
                                λ n7.
                                  split_on (IsServed b c) (codes "/") path
                                    (at_path (codes "/") refl refl refl refl b c)
                                    λ n8.
                                      (λ rooted. elsewhere path n1 n2 n3 n4 n5 n6 n7 n8 rooted b c)

-- For all flags: a path that begins with a slash and is clean is answered with the page that its
-- description without routes gives: the metrics and the pages of pprof where their flags are set, a
-- redirect from the index of pprof without its slash, and for every other path the state of the
-- repository, 200 or 503.
pub serve-expected :
    (fl : Flags) (m : Machine) (path : Text)
    → clean_url path ≡ path
    → has_prefix path (codes "/") ≡ true
    → serve fl m path ≡ expected fl m path
serve-expected fl m path clean rooted =
    serve-clean fl m fl path clean ∙ by_flags fl m fl.http_metrics fl.http_pprof path rooted
