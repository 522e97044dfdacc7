-- ===== src/Sync/Outcome.antt =====
-- What a sync returns.
use git_sync.Common.{
  ◌≡◌, refl, subst, ◌∙◌, arith, Bool, true, false, some, [], ◌∷◌, ◌++◌, ℤ, Text, codes, equal,
}
use git_sync.Path.{join_path}
use git_sync.Flags.{Flags}
use git_sync.Os.{Env, Machine, Failure, Result, ok, err, Io, ◌>>=◌, pure, perform}
use git_sync.Os.Runs.{bind-ok, attempt-any}
use git_sync.Disk.Steps.{view-cons}
use git_sync.Git.{rev_is_hash}
use git_sync.Worktree.{depth_args, git}
use git_sync.Sync.{if_resolved, add_worktree_and_swap, sync_to}
use git_sync.Logger.{text, log_error}
use git_sync.Logger.Total.{log_error-ok}
use git_sync.Disk.{action, view}
use git_sync.Disk.Link.{published}
use git_sync.Disk.Points.{Points, run_command-Points, rev_is_hash-Points, log_error-Points}
use git_sync.Disk.Quiet.{quiet_frame, IsQuietFrame, Keeps-log_error, Keeps-rev_is_hash}
use git_sync.Worktree.Safe.{Keeps-git}

-- Neither the view of the disk nor the program's readiness is another.
record Untouched (m m' : Machine) : Type 0 where
  shows : view m'.history ≡ view m.history
  ready : m'.repo_ready ≡ m.repo_ready

-- The result of a check-out that was needed.
unfoldable pub reported : Text → Result (Unit {0}) × Machine → Result (Bool × Text) × Machine
reported hash (ok _, m) = (ok (true, hash), m)
reported hash (err e, m) = (err e, m)

module _ (env : Env) (fl : Flags) where
  pub sync_to-reports :
      (git_root dest branch rev : Text) (depth : ℤ) (submodule_mode hash : Text) (m : Machine)
      → sync_to env fl git_root dest branch rev depth submodule_mode (some hash) m
        ≡ reported hash
            (add_worktree_and_swap env fl git_root dest branch rev depth hash submodule_mode m)
  unfolding sync_to ◌>>=◌ pure reported
  sync_to-reports git_root dest branch rev depth submodule_mode hash m = ground arith

  Untouched-IsQuietFrame : IsQuietFrame env Untouched
  unfolding perform view action
  Untouched-IsQuietFrame =
      quiet_frame env
        (record {
          same = λ m. record { shows = refl; ready = refl };
          trans = λ m m' m'' a b. record { shows = b.shows ∙ a.shows; ready = b.ready ∙ a.ready };
        })
        (λ c m q. record {
          shows = view-cons (record { call = c; reply = env m.history c }) m.history q;
          ready = refl;
        })
        (λ file content m. record { shows = refl; ready = refl })
        λ file path m. record { shows = refl; ready = refl }

  report : Text → Text → Failure → Io (Unit {0})
  report rev hash e =
      log_error env fl e (codes "can't resolve commit, will retry")
        (text (codes "rev") ∷ text rev ∷ text (codes "hash") ∷ text hash ∷ [])

  abbrev pub fetch : Text → Text → ℤ → Io Text
  fetch git_root branch depth = git env fl git_root (
      codes "fetch"
      ∷ codes "-f"
      ∷ codes "--tags"
      ∷ (depth_args depth ++ (codes "origin" ∷ branch ∷ [])))

  add_worktree_and_swap-unresolved :
      (git_root dest branch rev : Text) (depth : ℤ) (submodule_mode hash : Text) (m : Machine)
      {m' m'' : Machine} {out : Text} {e : Failure}
      → fetch git_root branch depth m ≡ (ok out, m')
      → rev_is_hash env fl hash git_root m' ≡ (err e, m'')
      → add_worktree_and_swap env fl git_root dest branch rev depth hash submodule_mode m
        ≡ (ok tt, (report rev hash e m'').1)
  unfolding add_worktree_and_swap if_resolved report
  add_worktree_and_swap-unresolved git_root dest branch rev depth submodule_mode hash m h g =
      bind-ok _ _ h ∙ bind-ok _ _ (attempt-any _ g) ∙ log_error-ok env fl _ _ _ _

  -- If the fetch succeeds and the hash cannot be resolved, then the sync reports the hash as a change
  -- and no error, while neither the temporary links, nor the working directories, nor the readiness
  -- differ from before; and a published symlink at any other place than the error file points where it
  -- did.
  pub sync_to-unresolved :
      (git_root dest branch rev : Text) (depth : ℤ) (submodule_mode hash link : Text)
      (m m' m'' : Machine) (out : Text) (e : Failure)
      → equal (join_path fl.root fl.error_file) link ≡ false
      → fetch git_root branch depth m ≡ (ok out, m')
      → rev_is_hash env fl hash git_root m' ≡ (err e, m'')
      → let (r, last) =
          sync_to env fl git_root dest branch rev depth submodule_mode (some hash) m in
        (r ≡ ok (true, hash))
        × (view last.history ≡ view m.history)
        × (last.repo_ready ≡ m.repo_ready)
        × (published link last.history ≡ published link m.history)
  unfolding sync_to pure report action Points
  sync_to-unresolved git_root dest branch rev depth submodule_mode hash link m m' m'' out e apart h
        g =
      rw whole (
        refl,
        logged.shows ∙ (resolving.shows ∙ fetched.shows),
        logged.ready ∙ (resolving.ready ∙ fetched.ready),
        (log_error-Points env fl link apart e _ _).keeps m''
            ∙ (subst (λ r. Points env fl link m' r.1) g
                  ((rev_is_hash-Points env fl link hash git_root).keeps m')
                ∙ subst (λ r. Points env fl link m r.1) h
                    ((run_command-Points env fl link git_root fl.git_cmd _ refl).keeps m)),
      )
    where
      q : IsQuietFrame env Untouched
      q = Untouched-IsQuietFrame

      whole :
          sync_to env fl git_root dest branch rev depth submodule_mode (some hash) m
          ≡ (ok (true, hash), (report rev hash e m'').1)
      whole = bind-ok _ _ (
          add_worktree_and_swap-unresolved git_root dest branch rev depth submodule_mode hash m h g)

      fetched : Untouched m m'
      fetched = subst (λ r. Untouched m r.1) h ((Keeps-git q fl git_root _ refl).keeps m)

      resolving : Untouched m' m''
      resolving = subst (λ r. Untouched m' r.1) g ((Keeps-rev_is_hash q fl hash git_root).keeps m')

      logged : Untouched m'' (report rev hash e m'').1
      logged = (Keeps-log_error q fl e _ _).keeps m''
