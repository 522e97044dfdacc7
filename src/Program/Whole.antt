-- ===== src/Program/Whole.antt =====
-- What holds through all of `main`.
use git_sync.Common.{
  ◌≡◌, refl, ap, subst, arith, ℕ, Bool, true, false, Option, if◌then◌else◌, Text, is_empty,
  Bool-cases, inl, inr,
}
use git_sync.Flags.{Flags}
use git_sync.Os.{Env, Machine, Result, ok, err}
use git_sync.Os.Frame.{Keeps, Keeps-pure, Keeps-bind, Keeps-attempt}
use git_sync.GitConfig.{ParseError}
use git_sync.Disk.{IsSafe}
use git_sync.Disk.Quiet.{IsQuietFrame}
use git_sync.Disk.Steps.{StaysSafe, StaysSafe-IsQuietFrame}
use git_sync.Sync.{count_askpass}
use git_sync.Sync.Every.{IsEveryFrame, quiet}
use git_sync.Sync.Whole.{PrintsHashes}
use git_sync.Sync.Ready.{StaysHonest, StaysHonest-IsEveryFrame, was_flipped}
use git_sync.Setup.Quiet.{Keeps-set_up, Keeps-handle_error}
use git_sync.Main.{begin, exit, main_loop}
use git_sync.Main.Whole.{main_loop-IsSafe, main_loop-IsHonest}
use git_sync.Main.Validate.{Check, shows_version, refused, accepted, fill_dest, validate}
use git_sync.Main.Validate.Guards.{validate-IsUnguarded}
use git_sync.Program.{health, behind_set_up, behind_checks, main_program}

shows-version :
    (look_path : Text → Option Text) (fl : Flags)
    → fl.ver ≡ true
    → validate look_path fl ≡ shows_version
unfolding validate
shows-version look_path fl v = rw v refl

count_askpass-StaysSafe : (b : Bool) → Keeps StaysSafe (count_askpass b)
unfolding count_askpass
count_askpass-StaysSafe true = record { keeps = λ m s. s }
count_askpass-StaysSafe false = record { keeps = λ m s. s }

differ : {fl : Flags} {c : Check} → c ≡ shows_version → c ≡ accepted fl → ⊥
differ p q = ground arith

ready_of : (b : Bool) → if◌then◌else◌ {A = ℕ} b 200 503 ≡ 200 → b ≡ true
ready_of true h = refl
ready_of false h = ground arith

not_yet : {b c : Bool} → b ≡ false → b ≡ true → c ≡ true
not_yet p q = ground arith

module _ (look_path : Text → Option Text) where
  -- The checks fill in `--dest`, and leave no empty root.
  accepted-root :
      (fl fl' : Flags)
      → validate look_path fl ≡ accepted fl'
      → (fill_dest fl ≡ fl') × (is_empty fl'.root ≡ false)
  accepted-root fl fl' h = elim (Bool-cases fl.ver) [
    | inl v ↦ absurd (shown v)
    | inr v ↦ (
      same v,
      subst (λ f. is_empty f.root ≡ false) (same v)
          (((validate-IsUnguarded look_path fl fl' v).0 h).0).root,
    )
  ]
    where
      shown : fl.ver ≡ true → ⊥
      shown v = differ (shows-version look_path fl v) h

      same : fl.ver ≡ false → fill_dest fl ≡ fl'
      same v =
          ap (λ c. elim c [ accepted f ↦ f | _ ↦ fl ])
            ((validate-IsUnguarded look_path fl fl' v).0 h).1

module _ (env : Env) (look_path : Text → Option Text) (error_text : ParseError → Text) where
  -- A relation that the set-up keeps, and the loop for the flags that are accepted.
  pub Keeps-main_program :
      {R : Machine → Machine → Type 0} (q : IsQuietFrame env R)
      → ((b : Bool) (m : Machine) → R m (count_askpass b m).1)
      → (n : ℕ) (fl : Flags)
      → ((fl' : Flags) → validate look_path fl ≡ accepted fl' → Keeps R (main_loop env fl' n begin))
      → Keeps R (main_program env look_path error_text n fl)
  unfolding main_program behind_checks
  Keeps-main_program {R} q count n fl loop = by_check (validate look_path fl) refl
    where
      by_set_up :
          (fl' : Flags)
          → Keeps R (main_loop env fl' n begin)
          → (r : Result (Unit {0})) → Keeps R (behind_set_up env look_path error_text n fl' r)
      by_set_up fl' h (err e) = unfold behind_set_up in Keeps-pure q.frame (exit 1)
      by_set_up fl' h (ok _) = unfold behind_set_up in h

      by_check :
          (c : Check)
          → validate look_path fl ≡ c
          → Keeps R (behind_checks env look_path error_text n fl c)
      by_check shows_version h = Keeps-pure q.frame (exit 0)
      by_check (refused usage message) h =
          Keeps-bind q.frame (Keeps-attempt q.frame (Keeps-handle_error q fl error_text message))
            λ _. Keeps-pure q.frame (exit 1)
      by_check (accepted fl') h =
          Keeps-bind q.frame (Keeps-attempt q.frame (Keeps-set_up q fl' error_text count))
            (by_set_up fl' (loop fl' h))

  -- For all flags and any number of iterations: if git prints names of objects, then whenever the
  -- program replaces the symlink, or tries to, the new one points to a directory on which
  -- `git reset --hard` was successful, and which was neither removed nor reset again since, if that is
  -- so of the history before its start.
  pub main_program-IsSafe :
      (n : ℕ) (fl : Flags) (m : Machine)
      → PrintsHashes env (fill_dest fl) (fill_dest fl).branch (fill_dest fl).rev
      → IsSafe m.history
      → IsSafe (main_program env look_path error_text n fl m).1.history
  main_program-IsSafe n fl m prints =
      (Keeps-main_program (StaysSafe-IsQuietFrame env) (λ b m. (count_askpass-StaysSafe b).keeps m)
          n fl
          λ fl' h.
            let (e, root) = accepted-root look_path fl fl' h in
            record {
              keeps = λ m'.
                  main_loop-IsSafe env fl' n begin m'
                    (subst (λ f. PrintsHashes env f f.branch f.rev) e prints) root;
            }).keeps
        m

  -- For all flags and any number of iterations, from a start that is not ready: the readiness
  -- endpoint only answers with 200 if a `mv` put a symlink into place before.
  pub main_program-health :
      (n : ℕ) (fl : Flags) (m : Machine)
      → m.repo_ready ≡ false
      → health (main_program env look_path error_text n fl m).1 ≡ 200
      → was_flipped (main_program env look_path error_text n fl m).1.history ≡ true
  unfolding health
  main_program-health n fl m fresh h =
      (kept.keeps m (record { honest = λ r. not_yet fresh r })).honest (ready_of _ h)
    where
      every : IsEveryFrame env StaysHonest
      every = StaysHonest-IsEveryFrame env

      kept : Keeps StaysHonest (main_program env look_path error_text n fl)
      kept =
          Keeps-main_program (quiet every (fill_dest fl)) every.count n fl
            λ fl' _. record { keeps = main_loop-IsHonest env fl' n begin }
