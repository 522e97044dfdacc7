-- ===== src/Worktree/Swap.antt =====
-- The flip of the symlink, in a directory that holds a complete checkout.
use git_sync.Common.{◌≡◌, refl, false, some, [], ◌∷◌, Text, codes, equal_refl, is_empty}
use git_sync.Path.{join_path}
use git_sync.Path.Rel.{IsName, rel-join_path}
use git_sync.Flags.{Flags}
use git_sync.Os.{eval_symlinks, Env, Machine, Result, ok, err, Io}
use git_sync.Os.Frame.{Keeps, Keeps-pure, Keeps-fail, Keeps-bind, Keeps-attempt}
use git_sync.Os.Hoare.{Leads, Leads-pure, Leads-fail, Leads-bind, Leads-or_else, Keeps-Leads}
use git_sync.Command.{run_command}
use git_sync.Worktree.{
  note, set_repo_ready, tmplink, update_symlink, saved_errors, swap_and_clean_up,
}
use git_sync.Disk.{action, view, Complete, IsSafe}
use git_sync.Disk.Quiet.{Keeps-os}
use git_sync.Disk.Steps.{
  Same, Same-IsQuietFrame, StaysSafe, StaysSafe-IsFrame, StaysSafe-IsQuietFrame, run_command-Leads,
}
use git_sync.Worktree.Safe.{Keeps-old_worktree, Keeps-run_hook, clean_up_old-StaysSafe}

abbrev pub Safe : Machine → Type 0
Safe m = IsSafe m.history

-- The directory was reset to the commit, and nothing was done to it since.
pub record Holds (dir hash : Text) (m : Machine) : Type 0 where
  pub safe : Safe m
  pub holds : (view m.history).tree dir ≡ some hash

-- The temporary link in `cwd` is ready to replace the other.
pub record Linked (cwd : Text) (m : Machine) : Type 0 where
  pub safe : Safe m
  pub complete : Complete cwd (view m.history)

pub Same-Holds :
    {dir hash : Text} (m m' : Machine) → Same m m' → Holds dir hash m → Holds dir hash m'
Same-Holds m m' s h = record { safe = s.safe h.safe; holds = rw (s.shows) (h.holds) }

pub StaysSafe-Leads {ℓ} :
    {A : Type ℓ} {x : Io A} → Keeps StaysSafe x → Leads Safe x (λ _. Safe) Safe
StaysSafe-Leads k = Keeps-Leads k (λ a m m' s. s) (λ m m' s. s)

module _ {P : Machine → Type 0} where
  Leads-note {ℓ} :
      {A : Type ℓ} {Q : A → Machine → Type 0} (msg : Text) {x : Io A}
      → Leads P x Q Safe
      → Leads P (note msg x) Q Safe
  Leads-note msg h = Leads-or_else Safe h λ e. Leads-fail _ λ m s. s

module _ (env : Env) (fl : Flags) where
  ln-Leads :
      (git_root name hash dir : Text)
      → Leads
          (λ m. Holds dir hash m × (join_path git_root name ≡ dir))
          (run_command env git_root (codes "ln") (codes "-snf" ∷ name ∷ tmplink ∷ []))
          (λ _. Linked git_root)
          Safe
  unfolding view action
  ln-Leads git_root name hash dir =
      run_command-Leads env (λ _. Linked git_root) _ _ _
        (λ m h s. record {
          safe = (tt, h.0.safe);
          complete = record {
            dir = dir;
            hash = hash;
            points = rw (equal_refl, s, h.1);
            holds = h.0.holds;
          };
        })
        (λ m h. (tt, h.0.safe))

  mv-Leads :
      (git_root link : Text)
      → Leads
          (Linked git_root)
          (run_command env git_root (codes "mv") (codes "-T" ∷ tmplink ∷ link ∷ []))
          (λ _. Safe)
          Safe
  unfolding action
  mv-Leads git_root link =
      run_command-Leads env (λ _. Safe) _ _ _ (λ m l s. (l.complete, l.safe))
        (λ m l. (l.complete, l.safe))

  -- What `updateSymlink` relies on: the link's own directory holds a complete checkout of the commit
  -- that gave it its name.
  pub update_symlink-Leads :
      (git_root link hash : Text)
      → is_empty git_root ≡ false
      → IsName hash
      → Leads
          (Holds (join_path git_root hash) hash)
          (update_symlink env fl git_root link (join_path git_root hash))
          (λ _. Safe)
          Safe
  unfolding update_symlink action
  update_symlink-Leads git_root link hash ne n =
      Leads-bind (λ _. Holds (join_path git_root hash) hash)
        (Keeps-Leads
          (Keeps-bind (Same-IsQuietFrame env).frame
            (Keeps-attempt (Same-IsQuietFrame env).frame
              (Keeps-os (Same-IsQuietFrame env) (eval_symlinks (join_path git_root link)) refl))
            (Keeps-old_worktree (Same-IsQuietFrame env) fl))
          (λ a. Same-Holds) (λ m m' s h. s.safe h.safe))
        λ old. rw (rel-join_path git_root hash ne n) (
          Leads-bind (λ name m. Holds dir hash m × (join_path git_root name ≡ dir))
            (Leads-note (codes "error converting to relative path")
              (Leads-pure hash λ m h. (h, refl)))
            λ name.
              Leads-bind (λ _. Linked git_root)
                (Leads-note (codes "error creating symlink") (ln-Leads git_root name hash dir))
                λ _.
                  Leads-bind (λ _. Safe)
                    (Leads-note (codes "error replacing symlink") (mv-Leads git_root link))
                    λ _. Leads-pure old λ m s. s)
    where
      dir : Text
      dir = join_path git_root hash

  set_repo_ready-StaysSafe : Keeps StaysSafe set_repo_ready
  unfolding set_repo_ready
  set_repo_ready-StaysSafe = record { keeps = λ m s. s }

  saved_errors-StaysSafe :
      (exec cleanup : Result (Unit {0})) → Keeps StaysSafe (saved_errors env fl exec cleanup)
  unfolding saved_errors
  saved_errors-StaysSafe exec (err e) = Keeps-fail StaysSafe-IsFrame e
  saved_errors-StaysSafe (err e) (ok _) = Keeps-fail StaysSafe-IsFrame e
  saved_errors-StaysSafe (ok _) (ok _) = Keeps-pure StaysSafe-IsFrame tt

  pub swap_and_clean_up-Leads :
      (git_root dest hash : Text)
      → is_empty git_root ≡ false
      → IsName hash
      → Leads
          (Holds (join_path git_root hash) hash)
          (swap_and_clean_up env fl git_root dest (join_path git_root hash))
          (λ _. Safe)
          Safe
  unfolding swap_and_clean_up
  swap_and_clean_up-Leads git_root dest hash ne n =
      Leads-bind (λ _. Safe) (update_symlink-Leads git_root dest hash ne n)
        λ old. StaysSafe-Leads (
          Keeps-bind StaysSafe-IsFrame set_repo_ready-StaysSafe λ _.
            Keeps-bind StaysSafe-IsFrame
              (Keeps-attempt StaysSafe-IsFrame (Keeps-run_hook (StaysSafe-IsQuietFrame env) fl _))
              λ exec.
                Keeps-bind StaysSafe-IsFrame
                  (Keeps-attempt StaysSafe-IsFrame (clean_up_old-StaysSafe env fl git_root old))
                  λ cleanup. saved_errors-StaysSafe exec cleanup)
