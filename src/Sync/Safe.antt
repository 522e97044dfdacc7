-- ===== src/Sync/Safe.antt =====
-- A sync never lets the symlink point to an incomplete checkout.
use git_sync.Common.{
  ◌≡◌, refl, Bool, false, Option, none, some, [], ◌∷◌, ◌++◌, ℤ, Text, codes, equal_refl, is_empty,
}
use git_sync.Path.{join_path, rel}
use git_sync.Path.Rel.{IsName}
use git_sync.Flags.{Flags}
use git_sync.Os.{write_file, Env, Machine, Failure, Result, ok, err, Io}
use git_sync.Os.Frame.{Keeps, Keeps-pure, Keeps-fail, Keeps-bind, Keeps-attempt}
use git_sync.Os.Hoare.{After, Leads, Leads-bind, Keeps-Leads}
use git_sync.Worktree.{or_fail, git}
use git_sync.Sync.{check_out_and_swap, build_worktree, if_resolved, add_worktree_and_swap}
use git_sync.Disk.{action, view, IsSafe}
use git_sync.Disk.Quiet.{IsQuietFrame, Keeps-os, Keeps-rev_is_hash, Keeps-log_error}
use git_sync.Disk.Steps.{
  Same, Same-IsQuietFrame, StaysSafe, StaysSafe-IsFrame, StaysSafe-IsQuietFrame, run_command-Leads,
}
use git_sync.Worktree.Safe.{
  Keeps-git, Keeps-update_submodules, Keeps-change_permissions, Keeps-maybe_sparse,
  cleanup_work_tree-StaysSafe,
}
use git_sync.Worktree.Swap.{Safe, Holds, Same-Holds, swap_and_clean_up-Leads}

-- A condition of this shape is a kept relation again.
pub Leads-StaysSafe {ℓ} :
    {A : Type ℓ} {x : Io A} → Leads Safe x (λ _. Safe) Safe → Keeps StaysSafe x
Leads-StaysSafe {A} {x} h = record { keeps = λ m s. from (x m) (h.leads m s) }
  where
    from : (r : Result A × Machine) → After {A = A} (λ _. Safe) Safe r → Safe r.1
    from (ok a, m) s = s
    from (err e, m) s = s

module _ (env : Env) (fl : Flags) where
  reset-Leads :
      (dir hash : Text)
      → Leads Safe
          (git env fl dir (codes "reset" ∷ codes "--hard" ∷ hash ∷ []))
          (λ _. Holds dir hash)
          Safe
  unfolding view action
  reset-Leads dir hash =
      run_command-Leads env (λ _. Holds dir hash) _ _ _
        (λ m h s. record { safe = (tt, h); holds = rw (equal_refl, s) }) (λ m h. (tt, h))

  check_out_and_swap-StaysSafe :
      (git_root dest : Text) (depth : ℤ) (hash submodule_mode : Text)
      → is_empty git_root ≡ false
      → IsName hash
      → Keeps StaysSafe (
          check_out_and_swap env fl git_root dest depth hash submodule_mode
            (join_path git_root hash))
  unfolding check_out_and_swap
  check_out_and_swap-StaysSafe git_root dest depth hash submodule_mode ne n = Leads-StaysSafe (
      Leads-bind (λ _. Holds dir hash) (reset-Leads dir hash)
        λ _.
          Leads-bind (λ _. Holds dir hash)
            (kept (Keeps-update_submodules q fl dir depth submodule_mode))
            λ _.
              Leads-bind (λ _. Holds dir hash) (kept (Keeps-change_permissions q fl dir))
                λ _. swap_and_clean_up-Leads env fl git_root dest hash ne n)
    where
      dir : Text
      dir = join_path git_root hash

      q : IsQuietFrame env Same
      q = Same-IsQuietFrame env

      kept :
          {x : Io (Unit {0})} → Keeps Same x → Leads (Holds dir hash) x (λ _. Holds dir hash) Safe
      kept k = Keeps-Leads k (λ _. Same-Holds) (λ m m' s h. s.safe h.safe)

  Keeps-or_fail {ℓ} : {A : Type ℓ} (e : Failure) (o : Option A) → Keeps StaysSafe (or_fail e o)
  Keeps-or_fail e none = Keeps-fail StaysSafe-IsFrame e
  Keeps-or_fail e (some a) = Keeps-pure StaysSafe-IsFrame a

  build_worktree-StaysSafe :
      (git_root dest branch : Text) (depth : ℤ) (hash submodule_mode : Text)
      → is_empty git_root ≡ false
      → IsName hash
      → Keeps StaysSafe (build_worktree env fl git_root dest branch depth hash submodule_mode)
  unfolding build_worktree action
  build_worktree-StaysSafe git_root dest branch depth hash submodule_mode ne n =
      Keeps-bind StaysSafe-IsFrame
        (Keeps-git q fl git_root (codes "gc" ∷ codes "--prune=all" ∷ []) refl)
        λ _.
          Keeps-bind StaysSafe-IsFrame
            (cleanup_work_tree-StaysSafe env fl git_root (join_path git_root hash))
            λ _.
              Keeps-bind StaysSafe-IsFrame
                (Keeps-git q fl git_root
                  (codes "worktree"
                    ∷ codes "add"
                    ∷ join_path git_root hash
                    ∷ (codes "origin/" ++ branch)
                    ∷ codes "--no-checkout"
                    ∷ [])
                  refl)
                λ _.
                  Keeps-bind StaysSafe-IsFrame
                    (Keeps-or_fail _ (rel git_root (join_path git_root hash)))
                    λ relative.
                      Keeps-bind StaysSafe-IsFrame (Keeps-os q (write_file _ _ 0o644) refl) λ _.
                        Keeps-maybe_sparse q fl _ _ (
                          check_out_and_swap-StaysSafe git_root dest depth hash submodule_mode ne n)
    where
      q : IsQuietFrame env StaysSafe
      q = StaysSafe-IsQuietFrame env

  if_resolved-StaysSafe :
      (rev hash : Text) {build : Io (Unit {0})} (r : Result Bool)
      → Keeps StaysSafe build
      → Keeps StaysSafe (if_resolved env fl rev hash build r)
  unfolding if_resolved
  if_resolved-StaysSafe rev hash (ok _) h = h
  if_resolved-StaysSafe rev hash (err e) h = Keeps-log_error (StaysSafe-IsQuietFrame env) fl e _ _

  pub add_worktree_and_swap-StaysSafe :
      (git_root dest branch rev : Text) (depth : ℤ) (hash submodule_mode : Text)
      → is_empty git_root ≡ false
      → IsName hash
      → Keeps StaysSafe
          (add_worktree_and_swap env fl git_root dest branch rev depth hash submodule_mode)
  unfolding add_worktree_and_swap action
  add_worktree_and_swap-StaysSafe git_root dest branch rev depth hash submodule_mode ne n =
      Keeps-bind StaysSafe-IsFrame (Keeps-git q fl git_root _ refl) λ _.
        Keeps-bind StaysSafe-IsFrame
          (Keeps-attempt StaysSafe-IsFrame (Keeps-rev_is_hash q fl hash git_root))
          λ r.
            if_resolved-StaysSafe rev hash r
              (build_worktree-StaysSafe git_root dest branch depth hash submodule_mode ne n)
    where
      q : IsQuietFrame env StaysSafe
      q = StaysSafe-IsQuietFrame env

  -- Whatever git, the file system and the deadline do: if `addWorktreeAndSwap` is called for a hash
  -- that is a plain file name, under a root that is not empty, then whenever it replaces the symlink,
  -- or tries to, the new one points to a directory on which `git reset --hard` was successful, and
  -- which was neither removed nor reset again since, if that is so of the history before.
  pub add_worktree_and_swap-IsSafe :
      (git_root dest branch rev : Text) (depth : ℤ) (hash submodule_mode : Text) (m : Machine)
      → is_empty git_root ≡ false
      → IsName hash
      → IsSafe m.history
      → IsSafe
          (add_worktree_and_swap env fl git_root dest branch rev depth hash submodule_mode
            m).1.history
  add_worktree_and_swap-IsSafe git_root dest branch rev depth hash submodule_mode m ne n =
      (add_worktree_and_swap-StaysSafe git_root dest branch rev depth hash submodule_mode ne
          n).keeps
        m
