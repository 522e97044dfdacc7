-- ===== src/Flags/Parse.antt =====
-- `flag.Parse()` of Go's library with the flags that cmd/git-sync/main.go defines, and
-- `setFlagDefaults`. The flags that packages of others define, such as those of glog, are a
-- parameter. `--password-file` is defined on the flag set of another package, pflag, which the
-- program does not parse, and is not among the flags here.
use git_sync.Common.{
  Bool, true, false, not, ◌||◌, Option, none, some, List, [], ◌∷◌, if◌then◌else◌, ◌==◌, ℤ, Text,
  codes, equal, is_empty,
}
mod Steps
pub mod PasswordFile
pub mod RoundTrip
use mathlib.Core.List.{map}
use git_sync.Flags.{Flags}
use git_sync.Flags.Number.{parse_bool, parse_int}

-- What a flag sets; `foreign` is one of another package, with whether it needs no argument, and which
-- values it takes.
pub data Kind : Type 0 where
  string : (Text → Flags → Flags) → Kind
  bool : (Bool → Flags → Flags) → Kind
  int : (ℤ → Flags → Flags) → Kind
  float : (ℤ → Flags → Flags) → Kind
  duration : (ℤ → Flags → Flags) → Kind
  foreign : Bool → (Text → Bool) → Kind

pub record Definition : Type 0 where
  pub name : Text
  pub kind : Kind

abbrev pub define : Text → Kind → Definition
define name kind = record { name = name; kind = kind }

-- A flag that another package defines.
pub record Other : Type 0 where
  pub name : Text
  pub no_argument : Bool
  pub accepts : Text → Bool

abbrev pub of_other : Other → Definition
of_other o = define o.name (foreign o.no_argument o.accepts)

-- In the order of the source, without `--password-file`.
unfoldable pub defined_flags : List Definition
defined_flags =
    define (codes "version") (bool (λ v fl. record fl { ver = v }))
    ∷ define (codes "repo") (string (λ v fl. record fl { repo = v }))
    ∷ define (codes "branch") (string (λ v fl. record fl { branch = v }))
    ∷ define (codes "rev") (string (λ v fl. record fl { rev = v }))
    ∷ define (codes "depth") (int (λ v fl. record fl { depth = v }))
    ∷ define (codes "submodules") (string (λ v fl. record fl { submodules = v }))
    ∷ define (codes "root") (string (λ v fl. record fl { root = v }))
    ∷ define (codes "dest") (string (λ v fl. record fl { dest = v }))
    ∷ define (codes "error-file") (string (λ v fl. record fl { error_file = v }))
    ∷ define (codes "wait") (float (λ v fl. record fl { wait = v }))
    ∷ define (codes "timeout") (int (λ v fl. record fl { sync_timeout = v }))
    ∷ define (codes "one-time") (bool (λ v fl. record fl { one_time = v }))
    ∷ define (codes "max-sync-failures") (int (λ v fl. record fl { max_sync_failures = v }))
    ∷ define (codes "change-permissions") (int (λ v fl. record fl { chmod = v }))
    ∷ define (codes "sync-hook-command") (string (λ v fl. record fl { sync_hook_command = v }))
    ∷ define (codes "sparse-checkout-file")
        (string (λ v fl. record fl { sparse_checkout_file = v }))
    ∷ define (codes "webhook-url") (string (λ v fl. record fl { webhook_url = v }))
    ∷ define (codes "webhook-method") (string (λ v fl. record fl { webhook_method = v }))
    ∷ define (codes "webhook-success-status")
        (int (λ v fl. record fl { webhook_status_success = v }))
    ∷ define (codes "webhook-timeout") (duration (λ v fl. record fl { webhook_timeout = v }))
    ∷ define (codes "webhook-backoff") (duration (λ v fl. record fl { webhook_backoff = v }))
    ∷ define (codes "username") (string (λ v fl. record fl { username = v }))
    ∷ define (codes "password") (string (λ v fl. record fl { password = v }))
    ∷ define (codes "ssh") (bool (λ v fl. record fl { ssh = v }))
    ∷ define (codes "ssh-key-file") (string (λ v fl. record fl { ssh_key_file = v }))
    ∷ define (codes "ssh-known-hosts") (bool (λ v fl. record fl { ssh_known_hosts = v }))
    ∷ define (codes "ssh-known-hosts-file")
        (string (λ v fl. record fl { ssh_known_hosts_file = v }))
    ∷ define (codes "add-user") (bool (λ v fl. record fl { add_user = v }))
    ∷ define (codes "cookie-file") (bool (λ v fl. record fl { cookie_file = v }))
    ∷ define (codes "askpass-url") (string (λ v fl. record fl { askpass_url = v }))
    ∷ define (codes "git") (string (λ v fl. record fl { git_cmd = v }))
    ∷ define (codes "git-config") (string (λ v fl. record fl { git_config = v }))
    ∷ define (codes "http-bind") (string (λ v fl. record fl { http_bind = v }))
    ∷ define (codes "http-metrics") (bool (λ v fl. record fl { http_metrics = v }))
    ∷ define (codes "http-pprof") (bool (λ v fl. record fl { http_pprof = v }))
    ∷ []

-- `flag.Lookup`
unfoldable pub lookup : Text → List Definition → Option Definition
lookup name [] = none
lookup name (d ∷ ds) = if equal name d.name then some d else lookup name ds

abbrev pub is_bool : Kind → Bool
is_bool (bool set) = true
is_bool (foreign b accepts) = b
is_bool _ = false

-- Up to the first `=`, and what stands behind it.
unfoldable pub cut_value : Text → Text × Option Text
cut_value [] = ([], none)
cut_value (c ∷ s) =
    let (name, value) = cut_value s in if c == b'=' then ([], some s) else (c ∷ name, value)

-- An argument that is no flag, `--`, a flag that is not spelled as one, or its name and value.
pub data Argument : Type 0 where
  operand : Argument
  terminator : Argument
  bad_syntax : Argument
  named : Text → Option Text → Argument

-- The `=` cannot be first.
unfoldable pub read_name : Text → Argument
unfolding cut_value
read_name [] = bad_syntax
read_name (c ∷ s) =
    if c == b'-' || c == b'=' then bad_syntax else named (c ∷ (cut_value s).0) (cut_value s).1

unfoldable pub read_argument : Text → Argument
unfolding read_name
read_argument (m ∷ c ∷ s) =
    if not (m == b'-')
    then operand
    else if not (c == b'-')
    then read_name (c ∷ s)
    else if is_empty s
    then terminator
    else read_name s
read_argument _ = operand

-- What the command line leads to: the flags, with the arguments that are left, the usage, behind
-- which the program exits with 0, or an error, behind which it exits with 2.
pub data Parsed : Type 0 where
  parsed : Flags → List Text → Parsed
  usage : Parsed
  wrong : Parsed

-- Behind one argument: the value of this flag comes next, the flags as they are now, or an end.
pub data Outcome : Type 0 where
  needs_value : Definition → Outcome
  has_set : Flags → Outcome
  stops : Outcome
  terminates : Outcome
  fails : Parsed → Outcome

unfoldable pub set_if {ℓ} : {A : Type ℓ} → (A → Flags → Flags) → Flags → Option A → Option Flags
set_if set fl none = none
set_if set fl (some a) = some (set a fl)

abbrev accepted_if : Bool → Flags → Option Flags
accepted_if b fl = if b then some fl else none

module _ (parse_float parse_duration : Text → Option ℤ) (others : List Other) where
  -- `flag.Value.Set`
  unfoldable pub set_value : Kind → Text → Flags → Option Flags
  set_value (string set) value fl = some (set value fl)
  set_value (bool set) value fl = set_if set fl (parse_bool value)
  set_value (int set) value fl = set_if set fl (parse_int value)
  set_value (float set) value fl = set_if set fl (parse_float value)
  set_value (duration set) value fl = set_if set fl (parse_duration value)
  set_value (foreign b accepts) value fl = accepted_if (accepts value) fl

  abbrev pub set_or_fail : Option Flags → Outcome
  set_or_fail none = fails wrong
  set_or_fail (some fl) = has_set fl

  abbrev pub apply_flag : Flags → Definition → Option Text → Outcome
  apply_flag fl d none =
      if is_bool d.kind then set_or_fail (set_value d.kind (codes "true") fl) else needs_value d
  apply_flag fl d (some value) = set_or_fail (set_value d.kind value fl)

  abbrev pub apply_named : Flags → Text → Option Text → Option Definition → Outcome
  apply_named fl name value none =
      if equal name (codes "help") || equal name (codes "h") then fails usage else fails wrong
  apply_named fl name value (some d) = apply_flag fl d value

  abbrev pub find_flag : Text → Option Definition
  find_flag name = elim (lookup name defined_flags) [
    | some d ↦ some d
    | none ↦ lookup name (map of_other others)
  ]

  -- `parseOne`, but for a value that is the next argument.
  unfoldable pub apply_argument : Flags → Argument → Outcome
  apply_argument fl operand = stops
  apply_argument fl terminator = terminates
  apply_argument fl bad_syntax = fails wrong
  apply_argument fl (named name value) = apply_named fl name value (find_flag name)

  -- `FlagSet.Parse`, with the flag whose value comes next.
  unfoldable pub parse_args : Option Definition → Flags → List Text → Parsed
  parse_args none fl [] = parsed fl []
  parse_args (some d) fl [] = wrong
  parse_args (some d) fl (s ∷ args) = elim (set_value d.kind s fl) [
    | none ↦ wrong
    | some fl' ↦ parse_args none fl' args
  ]
  parse_args none fl (s ∷ args) = elim (apply_argument fl (read_argument s)) [
    | needs_value d ↦ parse_args (some d) fl args
    | has_set fl' ↦ parse_args none fl' args
    | stops ↦ parsed fl (s ∷ args)
    | terminates ↦ parsed fl args
    | fails p ↦ p
  ]

  -- `setFlagDefaults`: whether the flag of glog is there. It is set to a value that glog takes.
  unfoldable pub set_flag_defaults : Bool
  unfolding lookup
  set_flag_defaults = elim (find_flag (codes "logtostderr")) [ none ↦ false | some d ↦ true ]
