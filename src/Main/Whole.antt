-- ===== src/Main/Whole.antt =====
-- What holds through all of the loop of `main`.
use git_sync.Common.{◌≡◌, refl, ℕ, zero, suc, arith, Bool, true, false, Text, is_empty}
use git_sync.Flags.{Flags}
use git_sync.Os.{sleep, remove_file, Env, Machine, Failure, Result, ok, err, Io, pure}
use git_sync.Os.Frame.{Keeps, Keeps-pure, Keeps-bind, Keeps-attempt, Keeps-if}
use git_sync.Logger.{delete_error_file}
use git_sync.Disk.{action, IsSafe}
use git_sync.Disk.Quiet.{IsQuietFrame, Keeps-os, Keeps-ignore, Keeps-log_error, Keeps-rev_is_hash}
use git_sync.Disk.Steps.{StaysSafe, StaysSafe-IsQuietFrame}
use git_sync.Sync.Whole.{PrintsHashes, sync_repo-IsSafe}
use git_sync.Sync.Ready.{IsHonest, StaysHonest, StaysHonest-IsEveryFrame, sync_repo-IsHonest}
use git_sync.Sync.Every.{quiet}
use git_sync.Main.{
  Loop, Next, again, exit, sleep_forever, Metric, success, error, no_op, update_sync_metrics,
  send_webhook, pause, next_sync, after_rev_is_hash, first_sync, after_failure, after_success,
  after_sync, sync, loop_step, main_loop,
}

-- A relation that calls keep which the view does not show, and that is kept by the metrics and the
-- webhook.
pub record IsLoopFrame (env : Env) (fl : Flags) (R : Machine → Machine → Type 0) : Type 0 where
  pub quiet : IsQuietFrame env R
  pub metric : (k : Metric) (m : Machine) → R m (update_sync_metrics k m).1
  pub webhook : (hash : Text) (m : Machine) → R m (send_webhook env fl hash m).1
  pub synced : Keeps R (sync env fl)

module _ {env : Env} {R : Machine → Machine → Type 0} (q : IsQuietFrame env R) (fl : Flags) where
  Keeps-delete_error_file : Keeps R (delete_error_file env fl)
  unfolding delete_error_file action
  Keeps-delete_error_file =
      Keeps-if q.frame (is_empty fl.error_file) (Keeps-pure q.frame tt)
        (Keeps-ignore q (Keeps-os q (remove_file _) refl))

  Keeps-pause : Keeps R (pause env fl)
  unfolding pause action
  Keeps-pause = Keeps-ignore q (Keeps-os q (sleep _) refl)

  Keeps-next_sync : Keeps R (next_sync env fl)
  unfolding next_sync
  Keeps-next_sync =
      Keeps-bind q.frame Keeps-delete_error_file
        λ _. Keeps-bind q.frame Keeps-pause λ _. Keeps-pure q.frame _

  Keeps-after_rev_is_hash : (r : Result Bool) → Keeps R (after_rev_is_hash env fl r)
  unfolding after_rev_is_hash
  Keeps-after_rev_is_hash (err e) =
      Keeps-bind q.frame (Keeps-log_error q fl e _ _) λ _. Keeps-pure q.frame (exit 1)
  Keeps-after_rev_is_hash (ok true) =
      Keeps-bind q.frame Keeps-delete_error_file λ _. Keeps-pure q.frame sleep_forever
  Keeps-after_rev_is_hash (ok false) = Keeps-next_sync

  Keeps-first_sync : Keeps R (first_sync env fl)
  unfolding first_sync
  Keeps-first_sync =
      Keeps-if q.frame fl.one_time
        (Keeps-bind q.frame Keeps-delete_error_file λ _. Keeps-pure q.frame (exit 0))
        (Keeps-bind q.frame (Keeps-attempt q.frame (Keeps-rev_is_hash q fl fl.rev fl.root))
          Keeps-after_rev_is_hash)

  pub Keeps-after_failure : (loop : Loop) (e : Failure) → Keeps R (after_failure env fl loop e)
  unfolding after_failure
  Keeps-after_failure loop e =
      Keeps-if q.frame _
        (Keeps-bind q.frame (Keeps-log_error q fl e _ _) λ _. Keeps-pure q.frame (exit 1))
        (Keeps-bind q.frame (Keeps-log_error q fl e _ _)
          λ _. Keeps-bind q.frame Keeps-pause λ _. Keeps-pure q.frame _)

  pub Keeps-after_success : (loop : Loop) → Keeps R (after_success env fl loop)
  unfolding after_success
  Keeps-after_success loop = Keeps-if q.frame loop.initial_sync Keeps-first_sync Keeps-next_sync

module _ {env : Env} {fl : Flags} {R : Machine → Machine → Type 0} (l : IsLoopFrame env fl R) where
  Keeps-after_sync : (loop : Loop) (r : Result (Bool × Text)) → Keeps R (after_sync env fl loop r)
  unfolding after_sync
  Keeps-after_sync loop (err e) =
      Keeps-bind l.quiet.frame (record { keeps = l.metric error })
        λ _. Keeps-after_failure l.quiet fl loop e
  Keeps-after_sync loop (ok (true, hash)) =
      Keeps-bind l.quiet.frame (record { keeps = l.webhook hash })
        λ _.
          Keeps-bind l.quiet.frame (record { keeps = l.metric success })
            λ _. Keeps-after_success l.quiet fl loop
  Keeps-after_sync loop (ok (false, hash)) =
      Keeps-bind l.quiet.frame (record { keeps = l.metric no_op })
        λ _. Keeps-after_success l.quiet fl loop

  pub Keeps-loop_step : (loop : Loop) → Keeps R (loop_step env fl loop)
  unfolding loop_step
  Keeps-loop_step loop =
      Keeps-bind l.quiet.frame (Keeps-attempt l.quiet.frame l.synced) (Keeps-after_sync loop)

  Keeps-next :
      {f : Loop → Io Next}
      → ((k : Loop) → Keeps R (f k))
      → (next : Next)
      → Keeps R (elim next [
        | again k ↦ f k
        | exit c ↦ pure (exit c)
        | sleep_forever ↦ pure sleep_forever
      ])
  Keeps-next h (again k) = h k
  Keeps-next h (exit c) = Keeps-pure l.quiet.frame (exit c)
  Keeps-next h sleep_forever = Keeps-pure l.quiet.frame sleep_forever

  pub Keeps-main_loop : (n : ℕ) (loop : Loop) → Keeps R (main_loop env fl n loop)
  unfolding main_loop
  Keeps-main_loop zero loop = Keeps-pure l.quiet.frame _
  Keeps-main_loop (suc n) loop =
      Keeps-bind l.quiet.frame (Keeps-loop_step loop) (Keeps-next (Keeps-main_loop n))

module _ (env : Env) (fl : Flags) where
  pub send_webhook-history :
      (hash : Text) (m : Machine) → (send_webhook env fl hash m).1.history ≡ m.history
  unfolding send_webhook
  send_webhook-history hash m = ground arith

  send_webhook-ready :
      (hash : Text) (m : Machine) → (send_webhook env fl hash m).1.repo_ready ≡ m.repo_ready
  unfolding send_webhook
  send_webhook-ready hash m = ground arith

  StaysSafe-IsLoopFrame :
      PrintsHashes env fl fl.branch fl.rev → is_empty fl.root ≡ false → IsLoopFrame env fl StaysSafe
  unfolding update_sync_metrics
  StaysSafe-IsLoopFrame prints ne = record {
    quiet = StaysSafe-IsQuietFrame env;
    metric = metric;
    webhook = λ hash m s. rw send_webhook-history s;
    synced = record { keeps = λ m. sync_repo-IsSafe env fl _ _ _ _ _ _ _ _ m prints ne };
  }
    where
      metric : (k : Metric) (m : Machine) → StaysSafe m (update_sync_metrics k m).1
      metric success m s = s
      metric error m s = s
      metric no_op m s = s

  -- If git prints names of objects and the root is not empty, then through any number of iterations
  -- of the loop, from any state of its variables, the symlink is only ever replaced by one to a
  -- directory that was completely checked out.
  pub main_loop-IsSafe :
      (n : ℕ) (loop : Loop) (m : Machine)
      → PrintsHashes env fl fl.branch fl.rev
      → is_empty fl.root ≡ false
      → IsSafe m.history
      → IsSafe (main_loop env fl n loop m).1.history
  main_loop-IsSafe n loop m prints ne =
      (Keeps-main_loop (StaysSafe-IsLoopFrame prints ne) n loop).keeps m

  StaysHonest-IsLoopFrame : IsLoopFrame env fl StaysHonest
  unfolding update_sync_metrics
  StaysHonest-IsLoopFrame = record {
    quiet = quiet (StaysHonest-IsEveryFrame env) fl;
    metric = metric;
    webhook = λ hash m s. record {
      honest = rw (send_webhook-ready hash m, send_webhook-history hash m) s.honest;
    };
    synced = record { keeps = sync_repo-IsHonest env fl _ _ _ _ _ _ _ _ };
  }
    where
      metric : (k : Metric) (m : Machine) → StaysHonest m (update_sync_metrics k m).1
      metric success m s = record { honest = s.honest }
      metric error m s = record { honest = s.honest }
      metric no_op m s = record { honest = s.honest }

  -- Through any number of iterations, the repository is only called ready once a symlink was put in
  -- place, if that was so before.
  pub main_loop-IsHonest :
      (n : ℕ) (loop : Loop) (m : Machine) → IsHonest m → IsHonest (main_loop env fl n loop m).1
  main_loop-IsHonest n loop m = (Keeps-main_loop StaysHonest-IsLoopFrame n loop).keeps m
