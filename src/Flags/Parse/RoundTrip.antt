-- ===== src/Flags/Parse/RoundTrip.antt =====
-- Every value of the flags can be written on a command line.
use mathlib.Core.List.{map}
use git_sync.Common.{
  ◌≡◌, refl, ap, ◌∙◌, Bool, true, false, Option, none, some, List, [], ◌∷◌, ◌++◌, ℤ, itoa, Text,
  codes, equal, All, arith,
}
use git_sync.Flags.{Flags}
use git_sync.Flags.Number.{parse_bool}
use git_sync.Flags.Number.Decimal.{IsInt, parse_int-itoa}
use git_sync.Flags.Parse.Steps.{parse_args-set}
use git_sync.Flags.Parse.{
  string, bool, int, float, duration, Definition, Other, define, defined_flags, lookup, named,
  read_argument, read_name, cut_value, parsed, set_if, set_value, find_flag, parse_args,
}

abbrev pub print_bool : Bool → Text
print_bool true = codes "true"
print_bool false = codes "false"

-- `--name=value`
abbrev pub argument : Text → Text → Text
argument name value = codes "--" ++ (name ++ b'=' ∷ value)

pub parse_bool-print_bool : (b : Bool) → parse_bool (print_bool b) ≡ some b
unfolding parse_bool equal
parse_bool-print_bool true = refl
parse_bool-print_bool false = refl

-- A flag that is to be given a value: its name, what it sets, and the value.
data Setting : Type 0 where
  given_text : Text → (Text → Flags → Flags) → Text → Setting
  given_bool : Text → (Bool → Flags → Flags) → Bool → Setting
  given_int : Text → (ℤ → Flags → Flags) → ℤ → Setting
  given_float : Text → (ℤ → Flags → Flags) → ℤ → Setting
  given_duration : Text → (ℤ → Flags → Flags) → ℤ → Setting

-- All flags but `--password-file`.
settings : Flags → List Setting
settings fl =
    given_bool (codes "version") (λ v fl'. record fl' { ver = v }) fl.ver
    ∷ given_text (codes "repo") (λ v fl'. record fl' { repo = v }) fl.repo
    ∷ given_text (codes "branch") (λ v fl'. record fl' { branch = v }) fl.branch
    ∷ given_text (codes "rev") (λ v fl'. record fl' { rev = v }) fl.rev
    ∷ given_int (codes "depth") (λ v fl'. record fl' { depth = v }) fl.depth
    ∷ given_text (codes "submodules") (λ v fl'. record fl' { submodules = v }) fl.submodules
    ∷ given_text (codes "root") (λ v fl'. record fl' { root = v }) fl.root
    ∷ given_text (codes "dest") (λ v fl'. record fl' { dest = v }) fl.dest
    ∷ given_text (codes "error-file") (λ v fl'. record fl' { error_file = v }) fl.error_file
    ∷ given_float (codes "wait") (λ v fl'. record fl' { wait = v }) fl.wait
    ∷ given_int (codes "timeout") (λ v fl'. record fl' { sync_timeout = v }) fl.sync_timeout
    ∷ given_bool (codes "one-time") (λ v fl'. record fl' { one_time = v }) fl.one_time
    ∷ given_int (codes "max-sync-failures") (λ v fl'. record fl' { max_sync_failures = v })
        fl.max_sync_failures
    ∷ given_int (codes "change-permissions") (λ v fl'. record fl' { chmod = v }) fl.chmod
    ∷ given_text (codes "sync-hook-command") (λ v fl'. record fl' { sync_hook_command = v })
        fl.sync_hook_command
    ∷ given_text (codes "sparse-checkout-file") (λ v fl'. record fl' { sparse_checkout_file = v })
        fl.sparse_checkout_file
    ∷ given_text (codes "webhook-url") (λ v fl'. record fl' { webhook_url = v }) fl.webhook_url
    ∷ given_text (codes "webhook-method") (λ v fl'. record fl' { webhook_method = v })
        fl.webhook_method
    ∷ given_int (codes "webhook-success-status")
        (λ v fl'. record fl' { webhook_status_success = v }) fl.webhook_status_success
    ∷ given_duration (codes "webhook-timeout") (λ v fl'. record fl' { webhook_timeout = v })
        fl.webhook_timeout
    ∷ given_duration (codes "webhook-backoff") (λ v fl'. record fl' { webhook_backoff = v })
        fl.webhook_backoff
    ∷ given_text (codes "username") (λ v fl'. record fl' { username = v }) fl.username
    ∷ given_text (codes "password") (λ v fl'. record fl' { password = v }) fl.password
    ∷ given_bool (codes "ssh") (λ v fl'. record fl' { ssh = v }) fl.ssh
    ∷ given_text (codes "ssh-key-file") (λ v fl'. record fl' { ssh_key_file = v }) fl.ssh_key_file
    ∷ given_bool (codes "ssh-known-hosts") (λ v fl'. record fl' { ssh_known_hosts = v })
        fl.ssh_known_hosts
    ∷ given_text (codes "ssh-known-hosts-file") (λ v fl'. record fl' { ssh_known_hosts_file = v })
        fl.ssh_known_hosts_file
    ∷ given_bool (codes "add-user") (λ v fl'. record fl' { add_user = v }) fl.add_user
    ∷ given_bool (codes "cookie-file") (λ v fl'. record fl' { cookie_file = v }) fl.cookie_file
    ∷ given_text (codes "askpass-url") (λ v fl'. record fl' { askpass_url = v }) fl.askpass_url
    ∷ given_text (codes "git") (λ v fl'. record fl' { git_cmd = v }) fl.git_cmd
    ∷ given_text (codes "git-config") (λ v fl'. record fl' { git_config = v }) fl.git_config
    ∷ given_text (codes "http-bind") (λ v fl'. record fl' { http_bind = v }) fl.http_bind
    ∷ given_bool (codes "http-metrics") (λ v fl'. record fl' { http_metrics = v }) fl.http_metrics
    ∷ given_bool (codes "http-pprof") (λ v fl'. record fl' { http_pprof = v }) fl.http_pprof
    ∷ []

-- What a setting does.
change_by : Setting → Flags → Flags
change_by (given_text name set v) = set v
change_by (given_bool name set v) = set v
change_by (given_int name set v) = set v
change_by (given_float name set v) = set v
change_by (given_duration name set v) = set v

change_by_all : List Setting → Flags → Flags
change_by_all [] fl = fl
change_by_all (s ∷ ss) fl = change_by_all ss (change_by s fl)

definition_of : Setting → Definition
definition_of (given_text name set v) = define name (string set)
definition_of (given_bool name set v) = define name (bool set)
definition_of (given_int name set v) = define name (int set)
definition_of (given_float name set v) = define name (float set)
definition_of (given_duration name set v) = define name (duration set)

-- Where the flags that other packages define are not asked.
IsSpelled : Setting → Type 0
unfolding definition_of
IsSpelled s =
    (lookup (definition_of s).name defined_flags ≡ some (definition_of s))
    × ((value : Text)
        → read_argument (argument (definition_of s).name value)
          ≡ named (definition_of s).name (some value))

settings-Spelled : (fl : Flags) → All IsSpelled (settings fl)
unfolding settings IsSpelled defined_flags lookup equal read_argument read_name cut_value
settings-Spelled fl = search

module _ (print_float print_duration : ℤ → Text) where
  print_value : Setting → Text
  print_value (given_text name set v) = v
  print_value (given_bool name set v) = print_bool v
  print_value (given_int name set v) = itoa v
  print_value (given_float name set v) = print_float v
  print_value (given_duration name set v) = print_duration v

  print_setting : Setting → Text
  unfolding definition_of
  print_setting s = argument (definition_of s).name (print_value s)

  -- One argument for each flag but `--password-file`.
  pub print_args : Flags → List Text
  print_args fl = map print_setting (settings fl)

  module _ (parse_float parse_duration : Text → Option ℤ) where
    -- The numbers fit an `int64`, and the times are read back from the texts that stand for them.
    pub record IsPrintable (fl : Flags) : Type 0 where
      pub depth : IsInt fl.depth
      pub wait : parse_float (print_float fl.wait) ≡ some fl.wait
      pub sync_timeout : IsInt fl.sync_timeout
      pub max_sync_failures : IsInt fl.max_sync_failures
      pub chmod : IsInt fl.chmod
      pub webhook_status_success : IsInt fl.webhook_status_success
      pub webhook_timeout :
          parse_duration (print_duration fl.webhook_timeout) ≡ some fl.webhook_timeout
      pub webhook_backoff :
          parse_duration (print_duration fl.webhook_backoff) ≡ some fl.webhook_backoff

    IsReadBack : Setting → Type 0
    IsReadBack (given_int name set v) = IsInt v
    IsReadBack (given_float name set v) = parse_float (print_float v) ≡ some v
    IsReadBack (given_duration name set v) = parse_duration (print_duration v) ≡ some v
    IsReadBack _ = Unit

    settings-ReadBack : (fl : Flags) → IsPrintable fl → All IsReadBack (settings fl)
    unfolding settings IsReadBack
    settings-ReadBack fl p = ground arith

  module _ (parse_float parse_duration : Text → Option ℤ) (others : List Other) where
    abbrev ReadBack : Setting → Type 0
    ReadBack = IsReadBack parse_float parse_duration

    print_value-read :
        (s : Setting) (fl : Flags)
        → ReadBack s
        → set_value parse_float parse_duration others (definition_of s).kind (print_value s) fl
          ≡ some (change_by s fl)
    unfolding set_value set_if definition_of print_value change_by IsReadBack
    print_value-read (given_text name set v) fl h = refl
    print_value-read (given_bool name set v) fl h = ap (set_if set fl) (parse_bool-print_bool v)
    print_value-read (given_int name set v) fl h = ap (set_if set fl) (parse_int-itoa v h)
    print_value-read (given_float name set v) fl h = ap (set_if set fl) h
    print_value-read (given_duration name set v) fl h = ap (set_if set fl) h

    found :
        (name : Text) (d : Definition)
        → lookup name defined_flags ≡ some d
        → find_flag parse_float parse_duration others name ≡ some d
    found name d h = rw (find_flag, h) refl

    parse_args-settings :
        (ss : List Setting) (fl : Flags)
        → All IsSpelled ss
        → All ReadBack ss
        → parse_args parse_float parse_duration others none fl (map print_setting ss)
          ≡ parsed (change_by_all ss fl) []
    unfolding change_by_all print_setting IsSpelled parse_args
    parse_args-settings [] fl k h = refl
    parse_args-settings (s ∷ ss) fl k h =
        parse_args-set parse_float parse_duration others fl (print_setting s) (map print_setting ss)
          (k.0.1 (print_value s)) (found _ _ k.0.0) (print_value-read s fl h.0)
        ∙ parse_args-settings ss (change_by s fl) k.1 h.1

    -- For all flags whose numbers fit an `int64`, and whose times are read back from the texts that stand
    -- for them, and for any flags before: the command line that gives each flag but `--password-file` its
    -- value is accepted, and leads to these flags, with the password file as it was.
    pub parse_args-print_args :
        (before fl : Flags)
        → IsPrintable parse_float parse_duration fl
        → parse_args parse_float parse_duration others none before (print_args fl)
          ≡ parsed (record fl { password_file = before.password_file }) []
    unfolding print_args change_by_all change_by settings
    parse_args-print_args before fl p =
        parse_args-settings (settings fl) before (settings-Spelled fl)
          (settings-ReadBack parse_float parse_duration fl p)
