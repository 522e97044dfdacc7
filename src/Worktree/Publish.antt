-- ===== src/Worktree/Publish.antt =====
-- The end of `addWorktreeAndSwap` puts the new worktree in the place of the old one.
use git_sync.Common.{
  ◌≡◌, refl, ◌∙◌, ◌⊎◌, inl, inr, true, false, some, [], ◌∷◌, Text, codes, equal_refl, is_empty,
}
use git_sync.Path.{join_path, rel}
use git_sync.Flags.{Flags}
use git_sync.Os.{
  remove_all, eval_symlinks, Env, History, Machine, Result, ok, err, Io, ◌>>=◌, attempt, perform,
  os, os-machine,
}
use git_sync.Os.Frame.{
  IsFrame, Keeps, Keeps-pure, Keeps-fail, Keeps-bind, Keeps-attempt, Keeps-if, Keeps-or_else,
}
use git_sync.Os.Hoare.{
  Any, After, Leads, Leads-pure, Leads-fail, Leads-bind, Leads-or_else, Leads-attempt, Leads-if,
  Keeps-Leads,
}
use git_sync.Command.{run_command, run_command_with_stdin}
use git_sync.Worktree.{
  note, git, set_repo_ready, tmplink, cleanup_work_tree, old_worktree, update_symlink, saved_errors,
  run_hook, clean_up_old, swap_and_clean_up,
}
use git_sync.Disk.{action, view, inside, succeeded}
use git_sync.Disk.Link.{published, IsUnflipped, later}
use git_sync.Disk.Steps.{run_command-Leads, os-Leads}
use git_sync.Worktree.Leaves.{tree_at}

-- A part of the condition that no call touches.
where_known {ℓ} :
    {A : Type ℓ} {K : Type 0} {P E : Machine → Type 0} {Q : A → Machine → Type 0} {x : Io A}
    → (K → Leads P x Q E)
    → Leads (λ m. K × P m) x Q E
where_known h = record { leads = λ m (k, p). (h k).leads m p }

-- The link points to the directory, which holds the commit, and the readiness says so.
pub record Published (link dir hash : Text) (m : Machine) : Type 0 where
  pub points : published link m.history ≡ some dir
  pub holds : tree_at dir m ≡ some hash
  pub ready : m.repo_ready ≡ true

-- The removal of this worktree, if it is one, takes neither the directory nor the link with it.
abbrev pub IsApart : Text → Text → Text → Type 0
IsApart link dir old =
    (is_empty old ≡ true) ⊎ ((inside old dir ≡ false) × (inside old link ≡ false))

-- Until a symlink is replaced, the link does not resolve to the directory, or to one above it or above
-- the link.
abbrev pub PointsElsewhere : Env → History → Text → Text → Type 0
PointsElsewhere env base link dir =
    (h : History)
    → IsUnflipped base h
    → succeeded (env h (eval_symlinks link)) ≡ true
    → IsApart link dir (env h (eval_symlinks link)).output

module _ (env : Env) (fl : Flags) (git_root dest : Text) (link dir hash : Text) where
  -- Link, directory and readiness are as they were.
  record Stays (m m' : Machine) : Type 0 where
    points : published link m'.history ≡ published link m.history
    holds : tree_at dir m' ≡ tree_at dir m
    ready : m'.repo_ready ≡ m.repo_ready

  Stays-IsFrame : IsFrame Stays
  Stays-IsFrame = record {
    same = λ m. record { points = refl; holds = refl; ready = refl };
    trans = λ m m' m'' a b. record {
      points = b.points ∙ a.points;
      holds = b.holds ∙ a.holds;
      ready = b.ready ∙ a.ready;
    };
  }

  hook-Stays : (worktree_path : Text) → Keeps Stays (run_hook env fl worktree_path)
  unfolding run_hook run_command run_command_with_stdin perform view action published
  hook-Stays worktree_path =
      Keeps-if Stays-IsFrame (is_empty fl.sync_hook_command) (Keeps-pure Stays-IsFrame tt) (
        Keeps-bind Stays-IsFrame
          (record { keeps = λ m. record { points = refl; holds = refl; ready = refl } })
          λ _. Keeps-pure Stays-IsFrame tt)

  prune-Stays : Keeps Stays (git env fl git_root (codes "worktree" ∷ codes "prune" ∷ []))
  unfolding run_command run_command_with_stdin perform view action published
  prune-Stays = record { keeps = λ m. record { points = refl; holds = refl; ready = refl } }

  remove-Stays :
      (old : Text)
      → inside old dir ≡ false
      → inside old link ≡ false
      → Keeps Stays (os env (remove_all old))
  unfolding perform view action published
  remove-Stays old a b = record {
    keeps = λ m. rw os-machine (record { points = rw b refl; holds = rw a refl; ready = refl });
  }

  clean_up_old-Stays :
      (old : Text) → IsApart link dir old → Keeps Stays (clean_up_old env fl git_root old)
  unfolding clean_up_old cleanup_work_tree
  clean_up_old-Stays old (inl e) = rw e (Keeps-pure Stays-IsFrame tt)
  clean_up_old-Stays old (inr (a, b)) =
      Keeps-if Stays-IsFrame (is_empty old) (Keeps-pure Stays-IsFrame tt) (
        Keeps-bind Stays-IsFrame
          (Keeps-or_else Stays-IsFrame (remove-Stays old a b) λ e. Keeps-fail Stays-IsFrame _)
          λ _. Keeps-bind Stays-IsFrame prune-Stays λ _. Keeps-pure Stays-IsFrame tt)

  saved_errors-Stays :
      (exec cleanup : Result (Unit {0})) → Keeps Stays (saved_errors env fl exec cleanup)
  unfolding saved_errors
  saved_errors-Stays exec (err e) = Keeps-fail Stays-IsFrame e
  saved_errors-Stays (err e) (ok _) = Keeps-fail Stays-IsFrame e
  saved_errors-Stays (ok _) (ok _) = Keeps-pure Stays-IsFrame tt

  -- The directory was reset to the commit, and no symlink was replaced since the earlier history.
  abbrev HasTree : History → Machine → Type 0
  HasTree base m = IsUnflipped base m.history × (tree_at dir m ≡ some hash)

  -- With the temporary link to it.
  record IsLinked (m : Machine) : Type 0 where
    points : (view m.history).tmp (join_path git_root tmplink) ≡ some dir
    holds : tree_at dir m ≡ some hash

  record IsFlipped (m : Machine) : Type 0 where
    points : published link m.history ≡ some dir
    holds : tree_at dir m ≡ some hash

  noted :
      {P : Machine → Type 0} {Q : Text → Machine → Type 0} (msg : Text) {x : Io Text}
      → Leads P x Q Any
      → Leads P (note msg x) Q Any
  noted msg h = Leads-or_else Any h λ e. Leads-fail _ λ m s. tt

  link-Leads :
      (base : History) (name : Text)
      → join_path git_root name ≡ dir
      → Leads
          (HasTree base)
          (run_command env git_root (codes "ln") (codes "-snf" ∷ name ∷ tmplink ∷ []))
          (λ _. IsLinked)
          Any
  unfolding view action
  link-Leads base name e =
      run_command-Leads env (λ _. IsLinked) _ _ _
        (λ m h s. record { points = rw (equal_refl, s, e) refl; holds = h.1 }) λ m h. tt

  flip-Leads :
      join_path git_root dest ≡ link
      → Leads IsLinked
          (run_command env git_root (codes "mv") (codes "-T" ∷ tmplink ∷ dest ∷ []))
          (λ _. IsFlipped)
          Any
  unfolding view action published
  flip-Leads e =
      run_command-Leads env (λ _. IsFlipped) _ _ _
        (λ m h s. record { points = rw (e, equal_refl, s, h.points) refl; holds = h.holds })
        λ m h. tt

  -- What `EvalSymlinks` finds.
  module _ (base : History) (elsewhere : PointsElsewhere env base link dir) where
    resolved-Leads :
        Leads
          (HasTree base)
          (attempt (os env (eval_symlinks link)))
          (λ r m. After (λ old m. IsApart link dir old × HasTree base m) (HasTree base) (r, m))
          Any
    unfolding view action
    resolved-Leads = Leads-attempt (
        os-Leads env _ (eval_symlinks link)
          (λ m h s. (elsewhere m.history h.0 s, (later _ refl h.0, h.1)))
          (λ m h. (later _ refl h.0, h.1)))

    old-Leads :
        (r : Result Text)
        → Leads
            (λ m. After (λ old m. IsApart link dir old × HasTree base m) (HasTree base) (r, m))
            (old_worktree env fl r)
            (λ old m. IsApart link dir old × HasTree base m)
            Any
    unfolding old_worktree
    old-Leads (ok path) = Leads-pure path λ m h. h
    old-Leads (err e) =
        Leads-if e.not_exist (Leads-pure [] λ m h. (inl refl, h)) (Leads-fail _ λ m h. tt)

    update_symlink-Leads :
        (name : Text)
        → rel git_root dir ≡ some name
        → join_path git_root name ≡ dir
        → join_path git_root dest ≡ link
        → Leads
            (HasTree base)
            (update_symlink env fl git_root dest dir)
            (λ old m. IsApart link dir old × IsFlipped m)
            Any
    unfolding update_symlink
    update_symlink-Leads name relative back at =
        Leads-bind (λ old m. IsApart link dir old × HasTree base m)
          (rw at (Leads-bind _ resolved-Leads old-Leads))
          λ old. where_known λ apart. rw relative (
            Leads-bind (λ n m. (join_path git_root n ≡ dir) × HasTree base m)
              (noted (codes "error converting to relative path") (Leads-pure name λ m h. (back, h)))
              λ n. where_known λ same.
                Leads-bind (λ _. IsLinked)
                  (noted (codes "error creating symlink") (link-Leads base n same))
                  λ _.
                    Leads-bind (λ _. IsFlipped)
                      (noted (codes "error replacing symlink") (flip-Leads at))
                      λ _. Leads-pure old λ m h. (apart, h))

    rest-Leads :
        (old : Text)
        → IsApart link dir old
        → Leads IsFlipped
            (set_repo_ready >>= λ _. attempt (run_hook env fl dir) >>= λ exec.
              attempt (clean_up_old env fl git_root old) >>= λ cleanup.
              saved_errors env fl exec cleanup)
            (λ _. Published link dir hash)
            Any
    unfolding set_repo_ready
    rest-Leads old apart =
        Leads-bind (λ _. Published link dir hash)
          (record { leads = λ m h. record { points = h.points; holds = h.holds; ready = refl } })
          λ _.
            Keeps-Leads
              (Keeps-bind Stays-IsFrame (Keeps-attempt Stays-IsFrame (hook-Stays dir)) λ exec.
                Keeps-bind Stays-IsFrame
                  (Keeps-attempt Stays-IsFrame (clean_up_old-Stays old apart))
                  (saved_errors-Stays exec))
              (λ _ m m' s h. record {
                points = s.points ∙ h.points;
                holds = s.holds ∙ h.holds;
                ready = s.ready ∙ h.ready;
              })
              λ m m' s h. tt

    pub swap_and_clean_up-Leads :
        (name : Text)
        → rel git_root dir ≡ some name
        → join_path git_root name ≡ dir
        → join_path git_root dest ≡ link
        → Leads
            (HasTree base)
            (swap_and_clean_up env fl git_root dest dir)
            (λ _. Published link dir hash)
            Any
    unfolding swap_and_clean_up
    swap_and_clean_up-Leads name relative back at =
        Leads-bind (λ old m. IsApart link dir old × IsFlipped m)
          (update_symlink-Leads name relative back at) λ old. where_known (rest-Leads old)
