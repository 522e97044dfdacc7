-- ===== src/Program/Notify.antt =====
-- The loop of `main` in cmd/git-sync/main.go beside the goroutine of cmd/git-sync/webhook.go, which
-- `main` starts: their turns, in any order, until the program ends.
pub mod Delivery
pub mod Lost
use git_sync.Common.{
  ◌≡◌, Bool, true, false, not, Option, none, some, List, [], ◌∷◌, if◌then◌else◌, ◌==◌, length, Text,
  is_empty,
}
use git_sync.Flags.{Flags}
use git_sync.Os.{Env, Machine, ok}
use git_sync.Main.{Loop, begin, Next, again, exit, sleep_forever, loop_step}
use git_sync.Webhook.{Webhook, State, start, send_hash, proceed, return, advance}

-- What `main` makes of the flags before it starts the goroutine.
abbrev pub webhook_of : Flags → Webhook
webhook_of fl = record {
  url = fl.webhook_url;
  method = fl.webhook_method;
  success = fl.webhook_status_success;
  timeout = fl.webhook_timeout;
  backoff = fl.webhook_backoff;
}

unfoldable pub make_webhook : Flags → Option Webhook
make_webhook fl = if is_empty fl.webhook_url then none else some (webhook_of fl)

-- The variables of the main goroutine, where it is in its loop, and the state of the sender.
pub record System : Type 0 where
  pub machine : Machine
  pub next : Next
  pub sender : State

abbrev pub launch : Machine → System
launch m = record { machine = m; next = again begin; sender = start }

-- The sender goes on as often as the list says whether a request fails.
unfoldable pub go_on : List Bool → State → State
go_on [] s = s
go_on (failed ∷ rest) s = go_on rest (advance failed s)

-- A call of `Send`, with the turns that the sender has before each of its accesses.
unfoldable pub carry_on : List (List Bool) → State → State
carry_on [] s = return s
carry_on (failures ∷ during) s = carry_on during (proceed (go_on failures s))

-- The call of `Send` in an iteration, if it made one, by the hashes that were sent before and behind it.
unfoldable pub hand_over : List Text → List Text → List (List Bool) → State → State
hand_over before [] during s = s
hand_over before (hash ∷ earlier) during s =
    if length earlier == length before then carry_on during (send_hash hash s) else s

unfoldable pub is_running : Next → Bool
is_running (again _) = true
is_running (exit _) = false
is_running sleep_forever = true

module _ (env : Env) (fl : Flags) where
  -- An iteration of the loop: the sender goes on before its call of `Send`, within it, and between that and
  -- the end of the iteration, which may be the end of the program. And the sender alone, while the loop is
  -- between two iterations or asleep.
  pub data Turn (s : System) : System → Type 0 where
    iterates :
        (l : Loop) (next : Next) (m : Machine) (earlier : List Bool) (during : List (List Bool))
        (later : List Bool)
        → s.next ≡ again l
        → loop_step env fl l s.machine ≡ (ok next, m)
        → Turn s (record {
          machine = m;
          next = next;
          sender = go_on later (hand_over s.machine.sent m.sent during (go_on earlier s.sender));
        })
    goes_on :
        (failed : Bool)
        → is_running s.next ≡ true
        → Turn s (record s { sender = advance failed s.sender })

  -- The goroutine is started if there is a webhook.
  pub data Runs (m : Machine) : System → Type 0 where
    launches : (w : Webhook) → make_webhook fl ≡ some w → Runs m (launch m)
    turns : {s s' : System} → Runs m s → Turn s s' → Runs m s'
