-- ===== src/Sync/Hook.antt =====
-- The end of `addWorktreeAndSwap`: the hook and the removal of the old worktree, behind the flip.
use git_sync.Common.{◌≡◌, refl, ◌∙◌, subst, arith, Bool, true, false, ◌↔◌, Text}
use git_sync.Flags.{Flags}
use git_sync.Os.{Env, Machine, Result, ok, err, pure, fail, perform}
use git_sync.Os.Runs.{bind-ok, attempt-any}
use git_sync.Worktree.{
  set_repo_ready, update_symlink, saved_errors, run_hook, clean_up_old, swap_and_clean_up,
}
use git_sync.Worktree.Safe.{Keeps-run_hook}
use git_sync.Sync.{count_askpass}
use git_sync.Sync.Every.{IsEveryFrame, every_frame, quiet, Keeps-clean_up_old}

abbrev StaysReady : Machine → Machine → Type 0
StaysReady m m' = m.repo_ready ≡ true → m'.repo_ready ≡ true

StaysReady-IsEveryFrame : (env : Env) → IsEveryFrame env StaysReady
unfolding perform count_askpass
StaysReady-IsEveryFrame env =
    every_frame env (record { same = λ m s. s; trans = λ m m' m'' a b s. b (a s) }) (λ c m s. s)
      counted
  where
    counted : (b : Bool) (m : Machine) → StaysReady m (count_askpass b m).1
    counted true m s = s
    counted false m s = s

module _ (env : Env) (fl : Flags) where
  saved_errors-machine : (a b : Result (Unit {0})) (m : Machine) → (saved_errors env fl a b m).1 ≡ m
  unfolding saved_errors pure fail
  saved_errors-machine a (err e) m = refl
  saved_errors-machine (err e) (ok _) m = refl
  saved_errors-machine (ok _) (ok _) m = refl

  saved_errors_iff :
      (a b : Result (Unit {0})) (m : Machine)
      → ((saved_errors env fl a b m).0 ≡ ok tt) ↔ ((a ≡ ok tt) × (b ≡ ok tt))
  unfolding saved_errors pure fail
  saved_errors_iff a (err e) m = (λ h. ground arith, λ h. h.1)
  saved_errors_iff (err e) (ok _) m = (λ h. ground arith, λ h. h.0)
  saved_errors_iff (ok _) (ok _) m = (λ h. (refl, refl), λ h. refl)

  whole :
      (git_root dest dir old : Text) (m flipped hooked cleaned : Machine)
      (hook cleanup : Result (Unit {0}))
      → update_symlink env fl git_root dest dir m ≡ (ok old, flipped)
      → run_hook env fl dir (set_repo_ready flipped).1 ≡ (hook, hooked)
      → clean_up_old env fl git_root old hooked ≡ (cleanup, cleaned)
      → swap_and_clean_up env fl git_root dest dir m ≡ saved_errors env fl hook cleanup cleaned
  unfolding swap_and_clean_up set_repo_ready
  whole git_root dest dir old m flipped hooked cleaned hook cleanup u h c =
      bind-ok _ _ u
      ∙ bind-ok _ _ refl
      ∙ bind-ok _ _ (attempt-any _ h)
      ∙ bind-ok _ _ (attempt-any _ c)

  -- Behind a symlink that was replaced, the repository is ready whatever comes, the old worktree is
  -- cleaned up whether the hook succeeds or not, and nothing is done behind that; the end is without an
  -- error exactly if both were.
  pub swap_and_clean_up-ends :
      (git_root dest dir old : Text) (m flipped hooked cleaned : Machine)
      (hook cleanup : Result (Unit {0}))
      → update_symlink env fl git_root dest dir m ≡ (ok old, flipped)
      → run_hook env fl dir (set_repo_ready flipped).1 ≡ (hook, hooked)
      → clean_up_old env fl git_root old hooked ≡ (cleanup, cleaned)
      → let (r, last) = swap_and_clean_up env fl git_root dest dir m in
        (last ≡ cleaned)
        × (last.repo_ready ≡ true)
        × ((r ≡ ok tt) ↔ ((hook ≡ ok tt) × (cleanup ≡ ok tt)))
  unfolding set_repo_ready
  swap_and_clean_up-ends git_root dest dir old m flipped hooked cleaned hook cleanup u h c =
      rw (whole git_root dest dir old m flipped hooked cleaned hook cleanup u h c) (
        saved_errors-machine hook cleanup cleaned,
        rw saved_errors-machine ready,
        saved_errors_iff hook cleanup cleaned,
      )
    where
      every : IsEveryFrame env StaysReady
      every = StaysReady-IsEveryFrame env

      after_hook : hooked.repo_ready ≡ true
      after_hook =
          subst (λ r. r.1.repo_ready ≡ true) h
            ((Keeps-run_hook (quiet every fl) fl dir).keeps (set_repo_ready flipped).1 refl)

      ready : cleaned.repo_ready ≡ true
      ready =
          subst (λ r. r.1.repo_ready ≡ true) c
            ((Keeps-clean_up_old every fl git_root old).keeps hooked after_hook)
