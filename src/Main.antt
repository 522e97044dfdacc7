-- ===== src/Main.antt =====
-- The loop of `main` in cmd/git-sync/main.go: one sync after the other, with the metrics, the webhook,
-- the count of the failures and the ends of the program. Log lines that are no errors, and the
-- durations in the metrics, are left out.
pub mod Cleared
pub mod Validate
pub mod Failures
pub mod Whole
pub mod Metrics
pub mod OneTime
use git_sync.Common.{
  ℕ, zero, suc, ◌+◌, ◌/◌, Bool, true, false, not, ◌&&◌, List, [], ◌∷◌, if◌then◌else◌, leb, ℤ, pos,
  negsuc, ltb_ℤ, eq_ℤ, Text, codes, is_empty,
}
use git_sync.Flags.{Flags}
use git_sync.Os.{Env, Machine, Failure, Result, ok, err, Io, ◌>>=◌, ◌>>◌, pure, attempt, os, sleep}
use git_sync.Logger.{text, int, ignore, log_error, delete_error_file}
use git_sync.Git.{rev_is_hash}
use git_sync.Sync.{sync_repo}

-- The variables of the loop.
pub record Loop : Type 0 where
  pub initial_sync : Bool
  pub fail_count : ℕ

abbrev pub begin : Loop
begin = record { initial_sync = true; fail_count = 0 }

-- Behind an iteration: the next one, `os.Exit`, or `sleepForever`.
pub data Next : Type 0 where
  again : Loop → Next
  exit : ℕ → Next
  sleep_forever : Next

pub data Metric : Type 0 where
  success : Metric
  error : Metric
  no_op : Metric

-- `updateSyncMetrics`
unfoldable pub update_sync_metrics : Metric → Io (Unit {0})
update_sync_metrics success m = (ok tt, record m { sync_success = m.sync_success + 1 })
update_sync_metrics error m = (ok tt, record m { sync_error = m.sync_error + 1 })
update_sync_metrics no_op m = (ok tt, record m { sync_noop = m.sync_noop + 1 })

-- In milliseconds. A wait below 0 is refused when the program starts.
unfoldable pub wait_time : ℤ → ℕ
wait_time (pos micros) = micros / 1000
wait_time (negsuc _) = 0

module _ (env : Env) (fl : Flags) where
  -- `webhook.Send`, if there is a webhook.
  unfoldable pub send_webhook : Text → Io (Unit {0})
  send_webhook hash m =
      if is_empty fl.webhook_url then (ok tt, m) else (ok tt, record m { sent = hash ∷ m.sent })

  unfoldable pub too_many_failures : ℕ → Bool
  too_many_failures fail_count =
      not (eq_ℤ fl.max_sync_failures (negsuc 0))
      && not (ltb_ℤ (pos fail_count) fl.max_sync_failures)

  unfoldable pub pause : Io (Unit {0})
  pause = ignore (os env (sleep (wait_time fl.wait)))

  unfoldable pub next_sync : Io Next
  next_sync = do
    delete_error_file env fl
    pause
    pure (again (record { initial_sync = false; fail_count = 0 }))

  -- Whether the revision is a hash, which no later sync can change.
  unfoldable pub after_rev_is_hash : Result Bool → Io Next
  after_rev_is_hash (err e) =
      log_error env fl e (codes "can't tell if rev is a git hash, exiting")
        (text (codes "rev") ∷ text fl.rev ∷ [])
      >> pure (exit 1)
  after_rev_is_hash (ok true) = delete_error_file env fl >> pure sleep_forever
  after_rev_is_hash (ok false) = next_sync

  unfoldable pub first_sync : Io Next
  first_sync =
      if fl.one_time
      then delete_error_file env fl >> pure (exit 0)
      else attempt (rev_is_hash env fl fl.rev fl.root) >>= after_rev_is_hash

  unfoldable pub after_failure : Loop → Failure → Io Next
  after_failure loop e =
      if too_many_failures loop.fail_count
      then log_error env fl e (codes "too many failures, aborting")
          (text (codes "failCount") ∷ int (pos loop.fail_count) ∷ [])
        >> pure (exit 1)
      else log_error env fl e (codes "unexpected error syncing repo, will retry") []
        >> (pause >> pure (again (record loop { fail_count = suc loop.fail_count })))

  unfoldable pub after_success : Loop → Io Next
  after_success loop = if loop.initial_sync then first_sync else next_sync

  unfoldable pub after_sync : Loop → Result (Bool × Text) → Io Next
  after_sync loop (err e) = update_sync_metrics error >> after_failure loop e
  after_sync loop (ok (true, hash)) =
      send_webhook hash >> (update_sync_metrics success >> after_success loop)
  after_sync loop (ok (false, hash)) = update_sync_metrics no_op >> after_success loop

  abbrev pub sync : Io (Bool × Text)
  sync =
      sync_repo env fl fl.repo fl.branch fl.rev fl.depth fl.root fl.dest fl.askpass_url
        fl.submodules

  unfoldable pub loop_step : Loop → Io Next
  loop_step loop = attempt sync >>= after_sync loop

  -- The first iterations of the loop, as many as the number says.
  unfoldable pub main_loop : ℕ → Loop → Io Next
  main_loop zero loop = pure (again loop)
  main_loop (suc n) loop = loop_step loop >>= λ next. elim next [
    | again l ↦ main_loop n l
    | exit c ↦ pure (exit c)
    | sleep_forever ↦ pure sleep_forever
  ]
