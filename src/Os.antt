-- ===== src/Os.antt =====
-- What the program asks of the operating system, and the state that it keeps in memory. The world
-- is a function from the calls made so far, with their replies, to the reply to the next call: any
-- file system, any git, any network, any moment at which a deadline passes.
pub mod Frame
pub mod Hoare
pub mod Runs
use git_sync.Common.{
  ℕ, Bool, true, false, Option, none, some, List, [], ◌∷◌, if◌then◌else◌, Text, ◌≡◌, arith,
}

pub data Call : Type 0 where
  -- `cmd.Run()`: working directory, standard input, command, arguments
  run : Text → Text → Text → List Text → Call
  stat : Text → Call
  mkdir : Text → ℕ → Call
  -- `os.RemoveAll`
  remove_all : Text → Call
  eval_symlinks : Text → Call
  open_file : Text → Call
  create_file : Text → Call
  -- `io.Copy(destination, source)`, by the paths that the two were opened with
  copy_file : Text → Text → Call
  close_file : Text → Call
  write_file : Text → Text → ℕ → Call
  read_file : Text → Call
  -- directory and prefix; the reply is the new file's name
  temp_file : Text → Text → Call
  write_temp : Text → Text → Call
  rename : Text → Text → Call
  chmod_file : Text → ℕ → Call
  remove_file : Text → Call
  set_env : Text → Text → Call
  get_env : Text → Call
  get_wd : Call
  -- the reply's status is the number
  get_uid : Call
  get_gid : Call
  -- `os.OpenFile(path, O_APPEND|O_WRONLY, 0644)`, and `WriteString` on the file
  open_append : Text → Call
  write_opened : Text → Text → Call
  -- `http.NewRequestWithContext`, `Client.Do` and the read of the body
  http_request : Text → Text → Call
  http_do : Text → Text → Call
  read_body : Call
  -- `net.Listen("tcp", address)`
  listen : Text → Call
  -- milliseconds
  sleep : ℕ → Call

-- An `error`: its text, and whether `os.IsNotExist` holds of it.
pub record Failure : Type 0 where
  pub message : Text
  pub not_exist : Bool

-- `output` is what the call returns, or a command's standard output. `expired` says that the
-- deadline of the context has passed.
pub record Reply : Type 0 where
  pub output : Text
  pub stderr : Text
  pub status : ℕ
  pub failure : Option Failure
  pub expired : Bool

pub record Event : Type 0 where
  pub call : Call
  pub reply : Reply

-- The last call first.
abbrev pub History : Type 0
History = List Event

abbrev pub Env : Type 0
Env = History → Call → Reply

-- The calls so far, the variable `repoReady`, the counters of the metrics and the hashes that were
-- handed to the webhook, the last one first.
pub record Machine : Type 0 where
  pub history : History
  pub repo_ready : Bool
  pub askpass_success : ℕ
  pub askpass_error : ℕ
  pub sync_success : ℕ
  pub sync_error : ℕ
  pub sync_noop : ℕ
  pub sent : List Text

pub data Result {ℓ} (A : Type ℓ) : Type ℓ where
  ok : A → Result A
  err : Failure → Result A

-- A function that returns an `error` beside its value.
abbrev pub Io {ℓ} : Type ℓ → Type ℓ
Io A = Machine → Result A × Machine

-- `if err != nil { return err }` behind each step.
infixl 5 ◌>>=◌ ◌>>◌
unfoldable pub ◌>>=◌ {ℓ κ} : {A : Type ℓ} {B : Type κ} → Io A → (A → Io B) → Io B
◌>>=◌ x f m = let (r, m') = x m in elim r [ ok a ↦ f a m' | err e ↦ (err e, m') ]

abbrev pub ◌>>◌ {ℓ κ} : {A : Type ℓ} {B : Type κ} → Io A → Io B → Io B
x >> y = x >>= λ _. y

unfoldable pub pure {ℓ} : {A : Type ℓ} → A → Io A
pure a m = (ok a, m)

unfoldable pub fail {ℓ} : {A : Type ℓ} → Failure → Io A
fail e m = (err e, m)

-- The error as a value, for code that goes on after it.
unfoldable pub attempt {ℓ} : {A : Type ℓ} → Io A → Io (Result A)
attempt x m = let (r, m') = x m in (ok r, m')

-- `if err != nil { return handle(err) }`
unfoldable pub or_else {ℓ} : {A : Type ℓ} → Io A → (Failure → Io A) → Io A
or_else x handle m = let (r, m') = x m in elim r [ ok a ↦ (ok a, m') | err e ↦ handle e m' ]

-- A deferred call: its own error is not looked at.
unfoldable pub defer {ℓ κ} : {A : Type ℓ} {B : Type κ} → Io B → Io A → Io A
defer y x m = let (r, m') = x m in (r, (y m').1)

module _ (env : Env) where
  -- The call and its reply go on record.
  unfoldable pub perform : Call → Machine → Reply × Machine
  perform c m =
      let r = env m.history c in
      (r, record m { history = (record { call = c; reply = r }) ∷ m.history })

  abbrev outcome : Reply × Machine → Result Text × Machine
  outcome (r, m) = elim r.failure [ none ↦ (ok r.output, m) | some e ↦ (err e, m) ]

  -- A call of a function that returns its result and an `error`.
  unfoldable pub os : Call → Io Text
  unfolding perform
  os c m = outcome (perform c m)

  -- The error branch makes no difference to the machine.
  pub os-machine : (c : Call) (m : Machine) → (os c m).1 ≡ (perform c m).1
  unfolding os
  os-machine c m = ground arith
