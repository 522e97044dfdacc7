-- ===== src/Tests/Hooks.antt =====
-- The webhook.
use git_sync.Common.{Text, ℕ, Option, none, pos, ◌↔◌, ◌≡◌, refl, true, false, [], ◌∷◌, codes, equal}
use git_sync.Webhook.{
  Webhook, Request, do_request, start, send_hash, notify, proceed, proceed_with, finish, return,
  proceeds, advance, State, Reachable, starts, steps, gives, advances, send, set, get,
}
use git_sync.Os.{Failure, Result, ok}
use git_sync.Webhook.Accepted.{Accepts, do_request_iff}
use git_sync.Webhook.Mailbox.{IsSettled, run_for}
use git_sync.Webhook.Delivery.{Reachable-delivers}
use git_sync.Webhook.Register.{Reaches, Shows, view, Reachable-refines}
use git_sync.Webhook.Order.{newest, IsWithin, IsFresh, Reachable-in_order}

-- Two hashes. The sender takes the event for the first one, and looks at the hash when the second is
-- set and its event not yet written: the event comes while a request for the second is under way, which
-- fails.
abbrev first : State
first = proceed (proceed (send_hash (codes "1f") start))

abbrev second : State
second = proceed (send_hash (codes "2e") (advance false first))

abbrev busy : State
busy = advance true (advance false second)

busy-Reachable : Reachable busy
unfolding send_hash send proceed_with advance notify set
busy-Reachable =
    steps
      (steps
        (steps (steps (steps first-Reachable (advances false)) (gives (codes "2e") refl)) proceeds)
        (advances false))
      (advances true)
  where
    first-Reachable : Reachable first
    first-Reachable = steps (steps (steps starts (gives (codes "1f") refl)) proceeds) proceeds

Reachable-delivers_example :
    IsSettled (run_for 6 (return busy))
    × (newest (run_for 6 (return busy)).delivered ≡ newest (return busy).given)
Reachable-delivers_example = Reachable-delivers busy busy-Reachable

Reachable-in_order_example : IsWithin busy.delivered busy.given × IsFresh busy.delivered
Reachable-in_order_example = Reachable-in_order busy busy-Reachable

-- Only the second hash is delivered.
busy_run : (run_for 6 (return busy)).delivered ≡ codes "2e" ∷ []
unfolding run_for finish proceed_with advance send_hash send set notify get equal
busy_run = refl

abbrev webhook : Webhook
webhook = record {
  url = codes "http://h";
  method = codes "POST";
  success = pos 200;
  timeout = pos 1;
  backoff = pos 3;
}

abbrev refuses_none : Text → Text → Option Failure
refuses_none method url = none

abbrev answers : Request → Result ℕ
answers r = ok 200

do_request_iff_example : (do_request refuses_none answers webhook (codes "1f") ≡ none) ↔ (
    (refuses_none webhook.method webhook.url ≡ none)
    × Accepts webhook (
        answers (record { method = webhook.method; url = webhook.url; gitsync_hash = codes "1f" })))
do_request_iff_example = do_request_iff refuses_none answers webhook (codes "1f")

Reachable-refines_example : Reaches (view busy) ↔ Shows (view busy)
Reachable-refines_example = Reachable-refines (view busy)
