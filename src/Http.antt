-- ===== src/Http.antt =====
-- The handlers of the HTTP endpoint in `main` of cmd/git-sync/main.go, and how Go's `http.ServeMux`
-- finds one for a path. What the handlers of Prometheus and of pprof answer is left out.
pub mod Served
use git_sync.Common.{
  ℕ, Bool, true, false, not, ◌&&◌, ◌||◌, Option, none, some, List, [], ◌∷◌, ◌++◌, if◌then◌else◌,
  ◌==◌, ltb, length, Text, codes, equal, has_prefix, is_empty,
}
use git_sync.Path.{clean}
use git_sync.Flags.{Flags}
use git_sync.Os.{Machine}
use git_sync.Program.{health}

pub data Handler : Type 0 where
  prometheus : Handler
  -- `pprof.Index`, or one of the profiles by its name
  index : Handler
  profile : Text → Handler
  readiness : Handler

pub record Route : Type 0 where
  pub pattern : Text
  pub handler : Handler

abbrev route : Text → Handler → Route
route pattern handler = record { pattern = pattern; handler = handler }

unfoldable pub routes : Flags → List Route
routes fl =
    (if fl.http_metrics then route (codes "/metrics") prometheus ∷ [] else [])
    ++ ((if fl.http_pprof
          then route (codes "/debug/pprof/") index
            ∷ route (codes "/debug/pprof/cmdline") (profile (codes "cmdline"))
            ∷ route (codes "/debug/pprof/profile") (profile (codes "profile"))
            ∷ route (codes "/debug/pprof/symbol") (profile (codes "symbol"))
            ∷ route (codes "/debug/pprof/trace") (profile (codes "trace"))
            ∷ []
          else [])
        ++ route (codes "/") readiness ∷ [])

-- The pattern that is the path itself.
unfoldable pub exact : Text → List Route → Option Handler
exact path [] = none
exact path (r ∷ rs) = if equal r.pattern path then some r.handler else exact path rs

abbrev pub ends_in_slash : Text → Bool
ends_in_slash [] = false
ends_in_slash (c ∷ []) = c == b'/'
ends_in_slash (c ∷ d ∷ s) = ends_in_slash (d ∷ s)

-- The longer of two patterns; the first of two that are as long.
abbrev longer : Route → Option Route → Route
longer r none = r
longer r (some r') = if ltb (length r.pattern) (length r'.pattern) then r' else r

-- The longest pattern that ends in a slash and that the path begins with.
unfoldable pub longest : Text → List Route → Option Route
longest path [] = none
longest path (r ∷ rs) =
    let best = longest path rs in
    if ends_in_slash r.pattern && has_prefix path r.pattern then some (longer r best) else best

unfoldable pub find_handler : Text → List Route → Option Handler
find_handler path rs = elim (exact path rs) [
  | some h ↦ some h
  | none ↦ elim (longest path rs) [ none ↦ none | some r ↦ some r.handler ]
]

-- `cleanPath`
unfoldable pub clean_url : Text → Text
clean_url [] = codes "/"
clean_url (c ∷ p) =
    let rooted = if c == b'/' then c ∷ p else b'/' ∷ c ∷ p in
    let np = clean rooted in
    if ends_in_slash rooted && not (equal np (codes "/")) then np ++ codes "/" else np

abbrev pub is_some {ℓ} : {A : Type ℓ} → Option A → Bool
is_some none = false
is_some (some _) = true

-- What a request is answered with: by a handler of a library, a status of the handler of the readiness,
-- or a redirect.
pub data Answer : Type 0 where
  metrics_page : Answer
  index_page : Answer
  profile_page : Text → Answer
  status : ℕ → Answer
  redirect : Text → Answer
  not_found : Answer

unfoldable pub answer_by : Machine → Option Handler → Answer
answer_by m none = not_found
answer_by m (some prometheus) = metrics_page
answer_by m (some index) = index_page
answer_by m (some (profile name)) = profile_page name
answer_by m (some readiness) = status (health m)

-- `ServeMux.Handler`: a path without the slash of a pattern, and then one that is not clean, is
-- redirected.
unfoldable pub serve : Flags → Machine → Text → Answer
serve fl m path =
    let p = clean_url path in
    if not (is_some (exact p (routes fl)))
      && (is_some (exact (p ++ codes "/") (routes fl)) && not (ends_in_slash p))
    then redirect (p ++ codes "/")
    else if not (equal p path)
    then redirect p
    else answer_by m (find_handler path (routes fl))
