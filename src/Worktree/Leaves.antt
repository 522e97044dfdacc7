-- ===== src/Worktree/Leaves.antt =====
-- What the end of `addWorktreeAndSwap` leaves on the disk.
use git_sync.Common.{
  ◌≡◌, refl, ◌∙◌, ap, Bool, true, false, not, ◌&&◌, if◌then◌else◌, Option, none, some, [], ◌∷◌,
  Text, codes, equal, is_empty,
}
use git_sync.Path.{join_path, rel}
use git_sync.Flags.{Flags}
use git_sync.Os.{
  remove_all, eval_symlinks, Env, Machine, Failure, Result, ok, err, Io, ◌>>=◌, pure, attempt,
  perform, os,
}
use git_sync.Os.Frame.{Keeps, Keeps-pure, Keeps-fail, Keeps-bind, Keeps-attempt}
use git_sync.Os.Hoare.{
  After, Leads, Leads-pure, Leads-fail, Leads-bind, Leads-or_else, Leads-attempt, Leads-weaken,
  Keeps-Leads,
}
use git_sync.Os.Runs.{bind-ok, bind-err}
use git_sync.Command.{run_command, run_command_with_stdin}
use git_sync.Worktree.{
  git, or_fail, rel_failure, set_repo_ready, tmplink, cleanup_work_tree, update_symlink,
  saved_errors, run_hook, clean_up_old, swap_and_clean_up,
}
use git_sync.Worktree.Safe.{Keeps-note, Keeps-old_worktree, Keeps-run_hook}
use git_sync.Disk.{action, view, inside}
use git_sync.Disk.Quiet.{IsQuietFrame, quiet_frame, Keeps-run_command, Keeps-os}
use git_sync.Disk.Steps.{view-cons, os-Leads}

-- The working directories are as they were.
SameTree : Machine → Machine → Type 0
SameTree m m' = (view m'.history).tree ≡ (view m.history).tree

-- What a directory holds.
abbrev pub tree_at : Text → Machine → Option Text
tree_at dir m = (view m.history).tree dir

-- The removal of the old worktree takes this directory with it.
unfoldable pub removes : Result Text → Text → Bool
removes (err e) dir = false
removes (ok old) dir = not (is_empty old) && inside old dir

module _ (env : Env) (fl : Flags) where
  SameTree-IsQuietFrame : IsQuietFrame env SameTree
  unfolding SameTree perform view action
  SameTree-IsQuietFrame =
      quiet_frame env (record { same = λ m. refl; trans = λ m m' m'' a b. b ∙ a })
        (λ c m q.
          ap (λ d. d.tree) (view-cons (record { call = c; reply = env m.history c }) m.history q))
        (λ file content m. refl) λ file path m. refl

  q : IsQuietFrame env SameTree
  q = SameTree-IsQuietFrame

  link-SameTree :
      (git_root name : Text)
      → Keeps SameTree (run_command env git_root (codes "ln") (codes "-snf" ∷ name ∷ tmplink ∷ []))
  unfolding SameTree run_command run_command_with_stdin perform view action equal
  link-SameTree git_root name = record { keeps = λ m. refl }

  flip-SameTree :
      (git_root link : Text)
      → Keeps SameTree (run_command env git_root (codes "mv") (codes "-T" ∷ tmplink ∷ link ∷ []))
  unfolding SameTree run_command run_command_with_stdin perform view action equal
  flip-SameTree git_root link = record { keeps = λ m. refl }

  look : (path : Text) → Keeps SameTree (os env (eval_symlinks path))
  unfolding action
  look path = Keeps-os q (eval_symlinks path) refl

  prune :
      (git_root : Text)
      → Keeps SameTree (git env fl git_root (codes "worktree" ∷ codes "prune" ∷ []))
  unfolding action
  prune git_root = Keeps-run_command q git_root fl.git_cmd _ refl

  or_fail-SameTree : (e : Failure) (o : Option Text) → Keeps SameTree (or_fail e o)
  or_fail-SameTree e none = Keeps-fail q.frame e
  or_fail-SameTree e (some a) = Keeps-pure q.frame a

  ready-SameTree : Keeps SameTree set_repo_ready
  unfolding SameTree set_repo_ready
  ready-SameTree = record { keeps = λ m. refl }

  saved_errors-SameTree :
      (exec cleanup : Result (Unit {0})) → Keeps SameTree (saved_errors env fl exec cleanup)
  unfolding saved_errors
  saved_errors-SameTree exec (err e) = Keeps-fail q.frame e
  saved_errors-SameTree (err e) (ok _) = Keeps-fail q.frame e
  saved_errors-SameTree (ok _) (ok _) = Keeps-pure q.frame tt

  update_symlink-SameTree :
      (git_root link new_dir : Text) → Keeps SameTree (update_symlink env fl git_root link new_dir)
  unfolding update_symlink
  update_symlink-SameTree git_root link new_dir =
      Keeps-bind q.frame
        (Keeps-bind q.frame (Keeps-attempt q.frame (look (join_path git_root link)))
          (Keeps-old_worktree q fl))
        λ old.
          Keeps-bind q.frame
            (Keeps-note q fl (codes "error converting to relative path")
              (or_fail-SameTree (rel_failure git_root new_dir) (rel git_root new_dir)))
            λ name.
              Keeps-bind q.frame
                (Keeps-note q fl (codes "error creating symlink") (link-SameTree git_root name))
                λ _.
                  Keeps-bind q.frame
                    (Keeps-note q fl (codes "error replacing symlink")
                      (flip-SameTree git_root link))
                    λ _. Keeps-pure q.frame old

  module _ (dir : Text) where
    At : Option Text → Machine → Type 0
    At t m = tree_at dir m ≡ t

    -- The condition holds behind the function, with or without an error.
    Both {ℓ} : {A : Type ℓ} → Option Text → Io A → Option Text → Type 0
    Both t x t' = Leads (At t) x (λ _. At t') (At t')

    Stays {ℓ} : {A : Type ℓ} {x : Io A} (t : Option Text) → Keeps SameTree x → Both t x t
    unfolding At SameTree Both
    Stays t k =
        Keeps-Leads k (λ a m m' s h. ap (λ f. f dir) s ∙ h) (λ m m' s h. ap (λ f. f dir) s ∙ h)

    cleanup_work_tree-Both :
        (git_root old : Text) (t : Option Text)
        → Both t (cleanup_work_tree env fl git_root old) (if inside old dir then none else t)
    unfolding cleanup_work_tree Both At view action
    cleanup_work_tree-Both git_root old t =
        Leads-bind (λ _. At gone)
          (Leads-or_else (At gone)
            (os-Leads env (λ _. At gone) (remove_all old) (λ m h done. rw h refl)
              (λ m h. rw h refl))
            λ e. Leads-fail _ λ m h. h)
          λ _. Leads-bind (λ _. At gone) (Stays gone (prune git_root)) λ _. Leads-pure tt λ m h. h
      where
        gone : Option Text
        gone = if inside old dir then none else t

    clean_up_old-Both :
        (git_root old : Text) (t : Option Text)
        → Both t (clean_up_old env fl git_root old) (if removes (ok old) dir then none else t)
    unfolding clean_up_old removes
    clean_up_old-Both git_root old t = by_test (is_empty old)
      where
        by_test :
            (b : Bool)
            → Both t
                (if b then pure tt else cleanup_work_tree env fl git_root old)
                (if not b && inside old dir then none else t)
        by_test true = Stays t (Keeps-pure q.frame tt)
        by_test false = cleanup_work_tree-Both git_root old t

    -- Behind the flip.
    rest : Text → Text → Text → Io (Unit {0})
    rest git_root new old = set_repo_ready >>= λ _. attempt (run_hook env fl new) >>= λ exec.
        attempt (clean_up_old env fl git_root old) >>= λ cleanup. saved_errors env fl exec cleanup

    rest-Both :
        (git_root new old : Text) (t : Option Text)
        → Both t (rest git_root new old) (if removes (ok old) dir then none else t)
    unfolding rest Both At set_repo_ready
    rest-Both git_root new old t =
        Leads-bind (λ _. At t) (record { leads = λ m h. h })
          λ _.
            Leads-bind (λ r m. After (λ _. At t) (At t) (r, m))
              (Leads-attempt (Stays t (Keeps-run_hook q fl new)))
              λ exec.
                Leads-bind (λ r m. After (λ _. At gone) (At gone) (r, m))
                  (Leads-weaken (by_hook exec) (Leads-attempt (clean_up_old-Both git_root old t)))
                  (by_cleanup exec)
      where
        gone : Option Text
        gone = if removes (ok old) dir then none else t

        by_hook :
            (exec : Result (Unit {0})) (m : Machine)
            → After {A = Unit {0}} (λ _. At t) (At t) (exec, m)
            → At t m
        by_hook (ok _) m h = h
        by_hook (err e) m h = h

        by_cleanup :
            (exec cleanup : Result (Unit {0}))
            → Leads
                (λ m. After (λ _. At gone) (At gone) (cleanup, m))
                (saved_errors env fl exec cleanup)
                (λ _. At gone)
                (At gone)
        by_cleanup exec (ok _) = Stays gone (saved_errors-SameTree exec (ok tt))
        by_cleanup exec (err e) = Stays gone (saved_errors-SameTree exec (err e))

    At-end :
        (t : Option Text) (r : Result (Unit {0}) × Machine)
        → After {A = Unit {0}} (λ _. At t) (At t) r
        → At t r.1
    At-end t (ok _, m) h = h
    At-end t (err e, m) h = h

    by_update :
        (git_root dest new : Text) (m : Machine) (r : Result Text) (flipped : Machine)
        → update_symlink env fl git_root dest new m ≡ (r, flipped)
        → At (tree_at dir m) flipped
        → At
            (if removes r dir then none else tree_at dir m)
            (swap_and_clean_up env fl git_root dest new m).1
    unfolding swap_and_clean_up rest Both removes
    by_update git_root dest new m (err e) flipped u h = rw (bind-err _ _ u) h
    by_update git_root dest new m (ok old) flipped u h =
        rw (bind-ok _ _ u)
          (At-end _ _ ((rest-Both git_root new old (tree_at dir m)).leads flipped h))

  -- Whatever the world does, and whether it ends in an error or not: behind the end of
  -- `addWorktreeAndSwap`, from the flip on, a directory holds what it held before, unless the symlink was
  -- replaced and had pointed to it, or to one above it: then nothing is known to be there, also where it is
  -- the new worktree.
  pub swap_and_clean_up-leaves :
      (git_root dest new dir : Text) (m : Machine)
      → tree_at dir (swap_and_clean_up env fl git_root dest new m).1 ≡ (
          if removes (update_symlink env fl git_root dest new m).0 dir then none else tree_at dir m)
  unfolding At SameTree
  swap_and_clean_up-leaves git_root dest new dir m =
      by_update dir git_root dest new m (update_symlink env fl git_root dest new m).0
        (update_symlink env fl git_root dest new m).1 refl
        (ap (λ f. f dir) ((update_symlink-SameTree git_root dest new).keeps m))
