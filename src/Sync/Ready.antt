-- ===== src/Sync/Ready.antt =====
-- What the program's readiness promises.
use git_sync.Common.{◌≡◌, refl, Bool, true, false, ◌&&◌, ◌||◌, [], ◌∷◌, ℤ, Text, codes}
use git_sync.Flags.{Flags}
use git_sync.Os.{eval_symlinks, ◌>>=◌, attempt, History, Env, Machine, Result, ok, err, Io, perform}
use git_sync.Os.Frame.{Keeps, Keeps-attempt, Keeps-bind}
use git_sync.Os.Hoare.{After, Leads, Leads-pure, Leads-bind, Leads-or_else, Leads-fail, Keeps-Leads}
use git_sync.Worktree.{
  note, saved_errors, set_repo_ready, tmplink, update_symlink, run_hook, clean_up_old,
  swap_and_clean_up,
}
use git_sync.Sync.{count_askpass, sync_repo}
use git_sync.Sync.Every.{
  IsEveryFrame, every_frame, quiet, any_or_fail, any_command, Keeps-clean_up_old,
  Keeps-saved_errors, Keeps-sync_repo,
}
use git_sync.Disk.Quiet.{IsQuietFrame, Keeps-os}
use git_sync.Disk.Steps.{run_command-Leads}
use git_sync.Worktree.Safe.{Keeps-old_worktree, Keeps-run_hook}
use git_sync.Command.{run_command}
use git_sync.Path.{rel}
use git_sync.Disk.{Action, flip, action, succeeded}

abbrev is_flip : Action → Bool
is_flip (flip _ _) = true
is_flip _ = false

-- A symlink was put in place.
unfoldable pub was_flipped : History → Bool
was_flipped [] = false
was_flipped (e ∷ h) = (is_flip (action e.call) && succeeded e.reply) || was_flipped h

-- The readiness endpoint tells the truth.
pub record IsHonest (m : Machine) : Type 0 where
  pub honest : m.repo_ready ≡ true → was_flipped m.history ≡ true

abbrev pub StaysHonest : Machine → Machine → Type 0
StaysHonest m m' = IsHonest m → IsHonest m'

-- Once a symlink is in place, the history says so for ever.
StaysFlipped : Machine → Machine → Type 0
StaysFlipped m m' = was_flipped m.history ≡ true → was_flipped m'.history ≡ true

more : (b : Bool) → (b || true) ≡ true
more true = refl
more false = refl

Leads-Keeps {ℓ} :
    {A : Type ℓ} {x : Io A} → Leads IsHonest x (λ _. IsHonest) IsHonest → Keeps StaysHonest x
Leads-Keeps {A} {x} h = record { keeps = λ m s. from (x m) (h.leads m s) }
  where
    from : (r : Result A × Machine) → After {A = A} (λ _. IsHonest) IsHonest r → IsHonest r.1
    from (ok a, m) s = s
    from (err e, m) s = s

module _ (env : Env) where
  StaysFlipped-IsEveryFrame : IsEveryFrame env StaysFlipped
  unfolding StaysFlipped perform count_askpass was_flipped
  StaysFlipped-IsEveryFrame =
      every_frame env (record { same = λ m s. s; trans = λ m m' m'' a b s. b (a s) })
        (λ c m s. rw s (more _)) counted
    where
      counted : (b : Bool) (m : Machine) → StaysFlipped m (count_askpass b m).1
      counted true m s = s
      counted false m s = s

  pub StaysHonest-IsEveryFrame : IsEveryFrame env StaysHonest
  unfolding perform count_askpass was_flipped
  StaysHonest-IsEveryFrame =
      every_frame env (record { same = λ m s. s; trans = λ m m' m'' a b s. b (a s) })
        (λ c m s. record { honest = λ r. rw (s.honest r) (more _) }) counted
    where
      counted : (b : Bool) (m : Machine) → StaysHonest m (count_askpass b m).1
      counted true m s = record { honest = s.honest }
      counted false m s = record { honest = s.honest }

  module _ (fl : Flags) where
    Flipped : Text → Machine → Type 0
    Flipped a m = was_flipped m.history ≡ true

    kept {ℓ} :
        {A : Type ℓ} {x : Io A} → Keeps StaysHonest x → Leads IsHonest x (λ _. IsHonest) IsHonest
    kept k = Keeps-Leads k (λ a m m' s. s) λ m m' s. s

    noted :
        (msg : Text) {Q : Text → Machine → Type 0} {x : Io Text}
        → Leads IsHonest x Q IsHonest
        → Leads IsHonest (note msg x) Q IsHonest
    noted msg h = Leads-or_else IsHonest h λ e. Leads-fail _ λ m s. s

    mv-Leads :
        (git_root link : Text)
        → Leads IsHonest
            (run_command env git_root (codes "mv") (codes "-T" ∷ tmplink ∷ link ∷ []))
            Flipped
            IsHonest
    unfolding Flipped was_flipped action
    mv-Leads git_root link =
        run_command-Leads env Flipped git_root (codes "mv") _ (λ m s done. rw done refl)
          (λ m s. record { honest = λ r. rw (s.honest r) (more _) })

    -- It is a successful `mv` that ends `updateSymlink` without an error.
    update_symlink-Leads :
        (git_root link new_dir : Text)
        → Leads IsHonest (update_symlink env fl git_root link new_dir) Flipped IsHonest
    unfolding update_symlink action
    update_symlink-Leads git_root link new_dir =
        Leads-bind (λ _. IsHonest)
          (kept (
            Keeps-bind every.frame (Keeps-attempt every.frame (Keeps-os q (eval_symlinks _) refl))
              (Keeps-old_worktree q fl)))
          λ old.
            Leads-bind (λ _. IsHonest)
              (noted (codes "error converting to relative path")
                (kept (any_or_fail every fl _ (rel git_root new_dir))))
              λ name.
                Leads-bind (λ _. IsHonest)
                  (noted (codes "error creating symlink")
                    (kept (any_command every fl git_root _ _)))
                  λ _.
                    Leads-bind Flipped
                      (noted (codes "error replacing symlink") (mv-Leads git_root link))
                      λ a. unfold Flipped in Leads-pure old λ m f. f
      where
        every : IsEveryFrame env StaysHonest
        every = StaysHonest-IsEveryFrame

        q : IsQuietFrame env StaysHonest
        q = quiet every fl

    swap_and_clean_up-StaysHonest :
        (git_root dest worktree_path : Text)
        → Keeps StaysHonest (swap_and_clean_up env fl git_root dest worktree_path)
    unfolding swap_and_clean_up Flipped StaysFlipped
    swap_and_clean_up-StaysHonest git_root dest worktree_path = Leads-Keeps (
        Leads-bind Flipped (update_symlink-Leads git_root dest worktree_path) λ old.
          Keeps-Leads (rest old) (λ _ m m' s f. record { honest = λ _. s f })
            λ m m' s f. record { honest = λ _. s f })
      where
        every : IsEveryFrame env StaysFlipped
        every = StaysFlipped-IsEveryFrame

        rest :
            (old : Text)
            → Keeps StaysFlipped (
                set_repo_ready >>= λ _. attempt (run_hook env fl worktree_path) >>= λ exec_err.
                attempt (clean_up_old env fl git_root old) >>= λ cleanup_err.
                saved_errors env fl exec_err cleanup_err)
        rest old =
            Keeps-bind every.frame (unfold set_repo_ready in record { keeps = λ m f. f }) λ _.
              Keeps-bind every.frame
                (Keeps-attempt every.frame (Keeps-run_hook (quiet every fl) fl worktree_path))
                λ exec.
                  Keeps-bind every.frame
                    (Keeps-attempt every.frame (Keeps-clean_up_old every fl git_root old))
                    λ cleanup. Keeps-saved_errors every fl exec cleanup

    -- Whatever git, the file system, the network and the deadline do: if the repository is only
    -- called ready with a symlink in place, then so it is behind a sync. The readiness endpoint never
    -- answers with success before a `mv` of a symlink into place was successful.
    pub sync_repo-IsHonest :
        (repo branch rev : Text) (depth : ℤ) (git_root dest auth_url submodule_mode : Text)
        (m : Machine)
        → IsHonest m
        → IsHonest
            (sync_repo env fl repo branch rev depth git_root dest auth_url submodule_mode m).1
    sync_repo-IsHonest repo branch rev depth git_root dest auth_url submodule_mode m =
        (Keeps-sync_repo StaysHonest-IsEveryFrame fl swap_and_clean_up-StaysHonest repo branch rev
            depth git_root dest auth_url submodule_mode).keeps
          m
