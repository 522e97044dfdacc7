-- ===== src/Sync/Whole.antt =====
-- A whole sync, given what git documents of the hashes that it prints.
use git_sync.Common.{
  ◌≡◌, refl, arith, Bool-cases, ◌⊎◌, inl, inr, Bool, true, false, Option, none, some, [], ◌∷◌,
  if◌then◌else◌, ℤ, Text, codes, equal, is_empty, trim, split,
}
use git_sync.Path.{join_path}
use git_sync.Path.Rel.{IsName}
use git_sync.Flags.{Flags}
use git_sync.Os.{run, stat, remove_all, History, Env, Machine, Result, ok, err, pure}
use git_sync.Os.Frame.{
  Keeps, Keeps-pure, Keeps-fail, Keeps-bind, Keeps-attempt, Keeps-or_else, Keeps-if,
}
use git_sync.Os.Hoare.{
  After, Leads, Leads-pure, Leads-fail, Leads-bind, Leads-if, Leads-weaken, Leads-attempt,
}
use git_sync.Git.{first, local_hash_for_rev, remote_hash_for_ref, remote_ref, rev_is_hash, get_revs}
use git_sync.Sync.{
  build_worktree, count_askpass, if_resolved, add_worktree_and_swap, clone, clone_repo,
  refresh_credentials, needed_hash, sync_to, sync_repo,
}
use git_sync.Auth.Quiet.{Keeps-call_git_askpass_url}
use git_sync.Disk.{action, succeeded, IsSafe}
use git_sync.Disk.Quiet.{IsQuietFrame, Keeps-os, Keeps-log_error}
use git_sync.Disk.Steps.{
  StaysSafe, StaysSafe-IsFrame, StaysSafe-IsQuietFrame, run_command-Leads, os-StaysSafe,
}
use git_sync.Worktree.Safe.{Keeps-git, Keeps-maybe_sparse}
use git_sync.Worktree.Swap.{Safe, StaysSafe-Leads}
use git_sync.Sync.Safe.{Leads-StaysSafe, add_worktree_and_swap-StaysSafe}

-- What git prints: `rev-parse` the name of an object, `ls-remote` such a name in front of a tab, or
-- nothing; and the empty text is the name of no object.
pub record PrintsHashes (env : Env) (fl : Flags) (branch rev : Text) : Type 0 where
  pub local :
      (h : History) (cwd : Text)
      → succeeded (env h (run cwd [] fl.git_cmd (codes "rev-parse" ∷ rev ∷ []))) ≡ true
      → IsName (trim b'\n' (env h (run cwd [] fl.git_cmd (codes "rev-parse" ∷ rev ∷ []))).output)
  pub remote :
      (h : History) (cwd : Text)
      → let r = env h (
          run cwd [] fl.git_cmd
            (codes "ls-remote" ∷ codes "-q" ∷ codes "origin" ∷ remote_ref branch rev ∷ [])) in
        succeeded r ≡ true
        → IsName (first (split b'\t' r.output)) ⊎ (first (split b'\t' r.output) ≡ [])
  pub no_empty :
      (h : History) (cwd : Text)
      → succeeded (env h (run cwd [] fl.git_cmd (codes "cat-file" ∷ codes "-t" ∷ [] ∷ []))) ≡ false

abbrev IsHash : Text → Type 0
IsHash hash = IsName hash ⊎ (hash ≡ [])

abbrev WithHash : Text → Machine → Type 0
WithHash hash m = Safe m × IsHash hash

abbrev WithNeeded : Option Text → Machine → Type 0
WithNeeded none m = Safe m
WithNeeded (some hash) m = WithHash hash m

module _ (env : Env) (fl : Flags) (branch rev : Text)
    (prints : PrintsHashes env fl branch rev) where
  q : IsQuietFrame env StaysSafe
  q = StaysSafe-IsQuietFrame env

  local_hash_for_rev-Leads :
      (git_root : Text) → Leads Safe (local_hash_for_rev env fl rev git_root) WithHash Safe
  unfolding local_hash_for_rev action
  local_hash_for_rev-Leads git_root =
      Leads-bind (λ out. WithHash (trim b'\n' out))
        (run_command-Leads env (λ out. WithHash (trim b'\n' out)) git_root fl.git_cmd _
          (λ m s done. ((tt, s), inl (prints.local m.history git_root done))) (λ m s. (tt, s)))
        λ out. Leads-pure _ λ m h. h

  remote_hash_for_ref-Leads :
      (git_root : Text)
      → Leads Safe (remote_hash_for_ref env fl (remote_ref branch rev) git_root) WithHash Safe
  unfolding remote_hash_for_ref action
  remote_hash_for_ref-Leads git_root =
      Leads-bind (λ out. WithHash (first (split b'\t' out)))
        (run_command-Leads env (λ out. WithHash (first (split b'\t' out))) git_root fl.git_cmd _
          (λ m s done. ((tt, s), prints.remote m.history git_root done)) (λ m s. (tt, s)))
        λ out. Leads-pure _ λ m h. h

  get_revs-Leads :
      (local_dir : Text)
      → Leads Safe (get_revs env fl local_dir branch rev) (λ revs. WithHash revs.1) Safe
  unfolding get_revs
  get_revs-Leads local_dir = Leads-bind WithHash (local_hash_for_rev-Leads local_dir) λ local.
      Leads-bind WithHash (Leads-weaken (λ m h. h.0) (remote_hash_for_ref-Leads local_dir))
        λ remote. Leads-pure _ λ m h. h

  clone_repo-StaysSafe :
      (repo branch' : Text) (depth : ℤ) (git_root : Text)
      → Keeps StaysSafe (clone_repo env fl repo branch' depth git_root)
  unfolding clone_repo clone action
  clone_repo-StaysSafe repo branch' depth git_root =
      Keeps-bind StaysSafe-IsFrame
        (Keeps-bind StaysSafe-IsFrame
          (Keeps-or_else StaysSafe-IsFrame (Keeps-git q fl [] _ refl) λ e.
            Keeps-if StaysSafe-IsFrame _
              (Keeps-bind StaysSafe-IsFrame (os-StaysSafe env (remove_all git_root) λ _. tt)
                λ _. Keeps-git q fl [] _ refl)
              (Keeps-fail StaysSafe-IsFrame e))
          λ _. Keeps-pure StaysSafe-IsFrame tt)
        λ _. Keeps-maybe_sparse q fl _ git_root (Keeps-pure StaysSafe-IsFrame tt)

  count_askpass-StaysSafe : (b : Bool) → Keeps StaysSafe (count_askpass b)
  unfolding count_askpass
  count_askpass-StaysSafe true = record { keeps = λ m s. s }
  count_askpass-StaysSafe false = record { keeps = λ m s. s }

  refresh_credentials-StaysSafe :
      (auth_url : Text) → Keeps StaysSafe (refresh_credentials env fl auth_url)
  unfolding refresh_credentials
  refresh_credentials-StaysSafe auth_url =
      Keeps-if StaysSafe-IsFrame (is_empty auth_url) (Keeps-pure StaysSafe-IsFrame tt) (
        Keeps-bind StaysSafe-IsFrame
          (Keeps-or_else StaysSafe-IsFrame (Keeps-call_git_askpass_url q fl auth_url) λ e.
            Keeps-bind StaysSafe-IsFrame (count_askpass-StaysSafe false)
              λ _. Keeps-fail StaysSafe-IsFrame _)
          λ _. count_askpass-StaysSafe true)

  needed_hash-Leads :
      (repo : Text) (depth : ℤ) (git_root target : Text) (r : Result Text)
      → Leads Safe (needed_hash env fl repo branch rev depth git_root target r) WithNeeded Safe
  unfolding needed_hash
  needed_hash-Leads repo depth git_root target (err e) =
      Leads-if e.not_exist
        (Leads-bind (λ _. Safe) (StaysSafe-Leads (clone_repo-StaysSafe repo branch depth git_root))
          λ _.
            Leads-bind WithHash (local_hash_for_rev-Leads git_root) λ hash. Leads-pure _ λ m h. h)
        (Leads-fail _ λ m s. s)
  needed_hash-Leads repo depth git_root target (ok _) =
      Leads-bind (λ revs. WithHash revs.1) (get_revs-Leads target) λ revs. changed revs.0 revs.1
    where
      changed :
          (local remote : Text)
          → Leads
              (WithHash remote)
              (pure (if equal local remote then none else some remote))
              WithNeeded
              Safe
      changed local remote = elim (Bool-cases (equal local remote)) [
        | inl h ↦ rw h (Leads-pure none λ m p. p.0)
        | inr h ↦ rw h (Leads-pure (some remote) λ m p. p)
      ]

  -- The empty hash never resolves, so that nothing is built for it.
  rev_is_hash-empty :
      (git_root : Text) → Leads Safe (rev_is_hash env fl [] git_root) (λ _ _. ⊥) Safe
  unfolding rev_is_hash action
  rev_is_hash-empty git_root =
      Leads-bind (λ _ _. ⊥)
        (run_command-Leads env (λ _ _. ⊥) git_root fl.git_cmd _
          (λ m s done. clash (prints.no_empty m.history git_root) done) (λ m s. (tt, s)))
        λ out. record { leads = λ m e. absurd e }
    where
      clash : {b : Bool} → b ≡ false → b ≡ true → ⊥
      clash p r = ground arith

  add_empty-StaysSafe :
      (git_root dest : Text) (depth : ℤ) (submodule_mode : Text)
      → Leads Safe
          (add_worktree_and_swap env fl git_root dest branch rev depth [] submodule_mode)
          (λ _. Safe)
          Safe
  unfolding add_worktree_and_swap action
  add_empty-StaysSafe git_root dest depth submodule_mode =
      Leads-bind (λ _. Safe) (StaysSafe-Leads (Keeps-git q fl git_root _ refl))
        λ _.
          Leads-bind (λ r m. After (λ _ _. ⊥) Safe (r, m))
            (Leads-attempt (rev_is_hash-empty git_root)) logged
    where
      logged :
          (r : Result Bool)
          → Leads
              (λ m. After (λ _ _. ⊥) Safe (r, m))
              (if_resolved env fl rev []
                (build_worktree env fl git_root dest branch depth [] submodule_mode)
                r)
              (λ _. Safe)
              Safe
      logged (ok b) = record { leads = λ m e. absurd e }
      logged (err e) = unfold if_resolved in StaysSafe-Leads (Keeps-log_error q fl e _ _)

  add-Leads :
      (git_root dest : Text) (depth : ℤ) (hash submodule_mode : Text)
      → is_empty git_root ≡ false
      → Leads
          (WithHash hash)
          (add_worktree_and_swap env fl git_root dest branch rev depth hash submodule_mode)
          (λ _. Safe)
          Safe
  add-Leads git_root dest depth hash submodule_mode ne = record { leads = λ m h. from m h.0 h.1 }
    where
      from :
          (m : Machine)
          → Safe m
          → IsHash hash
          → After {A = Unit {0}}
              (λ _. Safe)
              Safe
              (add_worktree_and_swap env fl git_root dest branch rev depth hash submodule_mode m)
      from m s (inl n) =
          (StaysSafe-Leads (
              add_worktree_and_swap-StaysSafe env fl git_root dest branch rev depth hash
                submodule_mode ne n)).leads
            m s
      from m s (inr e) = rw e ((add_empty-StaysSafe git_root dest depth submodule_mode).leads m s)

  sync_to-Leads :
      (git_root dest : Text) (depth : ℤ) (submodule_mode : Text) (o : Option Text)
      → is_empty git_root ≡ false
      → Leads
          (WithNeeded o)
          (sync_to env fl git_root dest branch rev depth submodule_mode o)
          (λ _. Safe)
          Safe
  unfolding sync_to
  sync_to-Leads git_root dest depth submodule_mode none ne = Leads-pure _ λ m s. s
  sync_to-Leads git_root dest depth submodule_mode (some hash) ne =
      Leads-bind (λ _. Safe) (add-Leads git_root dest depth hash submodule_mode ne)
        λ _. Leads-pure _ λ m s. s

  sync_repo-Leads :
      (repo : Text) (depth : ℤ) (git_root dest auth_url submodule_mode : Text)
      → is_empty git_root ≡ false
      → Leads Safe
          (sync_repo env fl repo branch rev depth git_root dest auth_url submodule_mode)
          (λ _. Safe)
          Safe
  unfolding sync_repo action
  sync_repo-Leads repo depth git_root dest auth_url submodule_mode ne =
      Leads-bind (λ _. Safe) (StaysSafe-Leads (refresh_credentials-StaysSafe auth_url))
        λ _.
          Leads-bind (λ _. Safe)
            (StaysSafe-Leads (
              Keeps-attempt StaysSafe-IsFrame
                (Keeps-os q (stat (join_path (join_path git_root dest) (codes ".git"))) refl)))
            λ present.
              Leads-bind WithNeeded
                (needed_hash-Leads repo depth git_root (join_path git_root dest) present)
                λ hash. sync_to-Leads git_root dest depth submodule_mode hash ne

-- If git prints names of objects, then however else git, the file system, the network and the
-- deadline behave: whenever a sync under a root that is not empty replaces the symlink, or tries to,
-- the new one points to a directory on which `git reset --hard` was successful, and which was neither
-- removed nor reset again since.
pub sync_repo-IsSafe :
    (env : Env) (fl : Flags) (repo branch rev : Text) (depth : ℤ)
    (git_root dest auth_url submodule_mode : Text) (m : Machine)
    → PrintsHashes env fl branch rev
    → is_empty git_root ≡ false
    → IsSafe m.history
    → IsSafe
        (sync_repo env fl repo branch rev depth git_root dest auth_url submodule_mode m).1.history
sync_repo-IsSafe env fl repo branch rev depth git_root dest auth_url submodule_mode m prints ne =
    (Leads-StaysSafe (
        sync_repo-Leads env fl branch rev prints repo depth git_root dest auth_url submodule_mode
          ne)).keeps
      m
