-- ===== src/Webhook.antt =====
-- cmd/git-sync/webhook.go: the hash that waits to be sent, the channel that wakes the sender, and
-- the sender. The main loop calls `Send` while the goroutine of `run` is at any point of its own
-- code, so the two are interleaved: each step of `Step` is one access of theirs to what they share.
pub mod Delivery
pub mod Order
pub mod Accepted
pub mod Mailbox
pub mod Register
use git_sync.Common.{
  ◌≡◌, Bool, true, false, ◌&&◌, not, Option, none, some, List, [], ◌∷◌, ◌++◌, if◌then◌else◌, ℕ,
  ◌==◌, ℤ, pos, negsuc, eq_ℤ, itoa, Text, codes, equal,
}
use git_sync.Os.{
  http_request, http_do, close_file, Env, Machine, Failure, Result, ok, err, Io, ◌>>=◌, ◌>>◌, pure,
  fail, or_else, os,
}

-- `webhookData`: whether the channel, which holds one event, is full, and the newest hash.
pub record WebhookData : Type 0 where
  pub full : Bool
  pub hash : Text

abbrev pub new_webhook_data : WebhookData
new_webhook_data = record { full = false; hash = [] }

unfoldable pub get : WebhookData → Text
get d = d.hash

unfoldable pub set : Text → WebhookData → WebhookData
set new_hash d = record d { hash = new_hash }

-- A write to the channel that does not block: a full channel stays as it is.
unfoldable pub notify : WebhookData → WebhookData
notify d = if d.full then d else record d { full = true }

-- The accesses that `send` makes to what it shares with the goroutine of `run`, in their order: the hash
-- is set under the mutex, which is free again before the channel is written to.
pub data Access : Type 0 where
  sets : Text → Access
  notifies : Access

unfoldable pub send : Text → List Access
send new_hash = sets new_hash ∷ notifies ∷ []

-- Where the goroutine of `run` is: at the channel, at the top of the inner loop, behind `get` with a
-- hash to be sent, or asleep after a failure.
pub data Phase : Type 0 where
  waiting : Phase
  looking : Phase
  sending : Text → Phase
  backing_off : Phase

-- The main loop is in a call of `Send` as long as accesses of it are left. Beside the variables of the
-- program: the hashes that `Send` has set and those that were delivered, the newest first.
pub record State : Type 0 where
  pub data_ : WebhookData
  pub phase : Phase
  pub last_hash : Text
  pub calling : List Access
  pub given : List Text
  pub delivered : List Text

abbrev pub start : State
start = record {
  data_ = new_webhook_data;
  phase = waiting;
  last_hash = [];
  calling = [];
  given = [];
  delivered = [];
}

-- The main loop calls `Webhook.Send`.
unfoldable pub send_hash : Text → State → State
send_hash hash s = record s { calling = send hash }

-- The next access of the call.
unfoldable pub proceed_with : List Access → State → State
proceed_with [] s = s
proceed_with (sets hash ∷ rest) s = record s {
  data_ = set hash s.data_;
  calling = rest;
  given = hash ∷ s.given;
}
proceed_with (notifies ∷ rest) s = record s { data_ = notify s.data_; calling = rest }

abbrev pub proceed : State → State
proceed s = proceed_with s.calling s

-- The call returns, with no step of the goroutine in between.
unfoldable pub finish : List Access → State → State
finish [] s = s
finish (_ ∷ rest) s = finish rest (proceed s)

abbrev pub return : State → State
return s = finish s.calling s

-- The goroutine goes on: it takes the event, if there is one; it looks at the hash; `Do` returns,
-- with an error or without; it wakes up.
unfoldable pub advance : Bool → State → State
advance failed s = elim s.phase [
  | waiting ↦
      (if s.data_.full
        then record s { data_ = record s.data_ { full = false }; phase = looking }
        else s)
  | looking ↦
      (if equal (get s.data_) s.last_hash
        then record s { phase = waiting }
        else record s { phase = sending (get s.data_) })
  | sending hash ↦
      (if failed
        then record s { phase = backing_off }
        else record s { phase = waiting; last_hash = hash; delivered = hash ∷ s.delivered })
  | backing_off ↦ record s { phase = looking }
]

pub data Step (s : State) : State → Type 0 where
  gives : (hash : Text) → s.calling ≡ [] → Step s (send_hash hash s)
  proceeds : Step s (proceed s)
  advances : (failed : Bool) → Step s (advance failed s)

pub data Reachable : State → Type 0 where
  starts : Reachable start
  steps : {s s' : State} → Reachable s → Step s s' → Reachable s'

-- `Webhook`, and the header that it adds to a request. A context is not passed on: that its deadline
-- has passed is one of the errors of the client.
pub record Webhook : Type 0 where
  pub url : Text
  pub method : Text
  pub success : ℤ
  pub timeout : ℤ
  pub backoff : ℤ

pub record Request : Type 0 where
  pub method : Text
  pub url : Text
  pub gitsync_hash : Text

-- `http.NewRequest` may refuse a method and a URL; `http.DefaultClient.Do` gives a status code or an
-- error.
module _ (refuses : Text → Text → Option Failure) (client : Request → Result ℕ) where
  unfoldable pub check_status : Webhook → Result ℕ → Option Failure
  check_status w (err e) = some e
  check_status w (ok status) =
      if not (eq_ℤ w.success (negsuc 0)) && not (eq_ℤ (pos status) w.success)
      then some (record {
        message =
            codes "received response code "
            ++ (itoa (pos status) ++ (codes " expected " ++ itoa w.success));
        not_exist = false;
      })
      else none

  -- `Webhook.Do`
  unfoldable pub do_request : Webhook → Text → Option Failure
  do_request w hash = elim (refuses w.method w.url) [
    | some e ↦ some e
    | none ↦
        check_status w (client (record { method = w.method; url = w.url; gitsync_hash = hash }))
  ]
