-- ===== src/Main/Metrics.antt =====
-- What the metrics count, and what the webhook is given.
use git_sync.Common.{
  ◌≡◌, refl, ◌∙◌, ap, ℕ, ◌+◌, Bool, true, false, List, ◌∷◌, if◌then◌else◌, Text, is_empty,
}
use git_sync.Flags.{Flags}
use git_sync.Os.{Env, Machine, Result, ok, err, ◌>>=◌, perform}
use git_sync.Os.Runs.{bind-ok, attempt-any}
use git_sync.Os.Frame.{Keeps}
use git_sync.Worktree.{set_repo_ready}
use git_sync.Sync.{count_askpass}
use git_sync.Sync.Every.{IsEveryFrame, every_frame, quiet, Keeps-sync_repo, Keeps-swap_and_clean_up}
use git_sync.Main.{
  Loop, success, update_sync_metrics, send_webhook, after_success, after_sync, sync, loop_step,
}
use git_sync.Main.Whole.{Keeps-after_failure, Keeps-after_success}

-- The counters of the syncs, and the hashes that were handed to the webhook.
pub record Counts : Type 0 where
  pub succeeded : ℕ
  pub failed : ℕ
  pub unchanged : ℕ
  pub handed : List Text

unfoldable pub counts : Machine → Counts
counts m = record {
  succeeded = m.sync_success;
  failed = m.sync_error;
  unchanged = m.sync_noop;
  handed = m.sent;
}

-- One sync, by what it returned.
unfoldable pub count : Flags → Result (Bool × Text) → Counts → Counts
count fl (err e) c = record c { failed = c.failed + 1 }
count fl (ok (false, hash)) c = record c { unchanged = c.unchanged + 1 }
count fl (ok (true, hash)) c = record c {
  succeeded = c.succeeded + 1;
  handed = if is_empty fl.webhook_url then c.handed else hash ∷ c.handed;
}

SameCounts : Machine → Machine → Type 0
SameCounts m m' = counts m' ≡ counts m

module _ (env : Env) where
  SameCounts-IsEveryFrame : IsEveryFrame env SameCounts
  unfolding SameCounts perform count_askpass counts
  SameCounts-IsEveryFrame =
      every_frame env (record { same = λ m. refl; trans = λ m m' m'' a b. b ∙ a }) (λ c m. refl)
        counted
    where
      counted : (b : Bool) (m : Machine) → SameCounts m (count_askpass b m).1
      counted true m = refl
      counted false m = refl

  module _ (fl : Flags) where
    sync-SameCounts : Keeps SameCounts (sync env fl)
    unfolding SameCounts set_repo_ready counts
    sync-SameCounts =
        Keeps-sync_repo SameCounts-IsEveryFrame fl
          (λ git_root dest dir.
            Keeps-swap_and_clean_up SameCounts-IsEveryFrame fl git_root dest dir λ m. refl)
          _ _ _ _ _ _ _ _

    after_sync-counts :
        (loop : Loop) (r : Result (Bool × Text)) (m : Machine)
        → counts (after_sync env fl loop r m).1 ≡ count fl r (counts m)
    unfolding SameCounts after_sync update_sync_metrics send_webhook ◌>>=◌ count counts
    after_sync-counts loop (err e) m =
        (Keeps-after_failure (quiet SameCounts-IsEveryFrame fl) fl loop e).keeps
          (record m { sync_error = m.sync_error + 1 })
    after_sync-counts loop (ok (false, hash)) m =
        (Keeps-after_success (quiet SameCounts-IsEveryFrame fl) fl loop).keeps
          (record m { sync_noop = m.sync_noop + 1 })
    after_sync-counts loop (ok (true, hash)) m = handed (is_empty fl.webhook_url)
      where
        handed :
            (b : Bool)
            → counts
                (◌>>=◌ {A = Unit {0}}
                  (λ k. if b then (ok tt, k) else (ok tt, record k { sent = hash ∷ k.sent }))
                  (λ _. update_sync_metrics success >>= λ _. after_success env fl loop)
                  m).1
              ≡ record (counts m) {
                succeeded = m.sync_success + 1;
                handed = if b then m.sent else hash ∷ m.sent;
              }
        handed true =
            (Keeps-after_success (quiet SameCounts-IsEveryFrame fl) fl loop).keeps
              (record m { sync_success = m.sync_success + 1 })
        handed false =
            (Keeps-after_success (quiet SameCounts-IsEveryFrame fl) fl loop).keeps
              (record m { sync_success = m.sync_success + 1; sent = hash ∷ m.sent })

    -- An iteration counts its sync once, by what it returned, and hands the hash of a change, and
    -- nothing else, to the webhook if there is one.
    pub loop_step-counts :
        (loop : Loop) (m : Machine)
        → counts (loop_step env fl loop m).1 ≡ count fl (sync env fl m).0 (counts m)
    unfolding loop_step SameCounts
    loop_step-counts loop m =
        ap (λ r. counts r.1) (bind-ok _ (after_sync env fl loop) (attempt-any (sync env fl) refl))
        ∙ (after_sync-counts loop (sync env fl m).0 (sync env fl m).1
            ∙ ap (count fl (sync env fl m).0) (sync-SameCounts.keeps m))
