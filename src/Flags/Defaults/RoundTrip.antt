-- ===== src/Flags/Defaults/RoundTrip.antt =====
-- Every value of the flags can be given by the environment.
use git_sync.Common.{
  ◌≡◌, refl, arith, true, false, if◌then◌else◌, Option, none, some, List, [], ◌∷◌, ◌*◌, ℤ, pos,
  itoa, Text, codes, equal, is_empty,
}
use git_sync.Flags.{Flags}
use git_sync.Flags.Number.{parse_bool, parse_int}
use git_sync.Flags.Number.Decimal.{parse_int-itoa}
use git_sync.Flags.Parse.RoundTrip.{print_bool, parse_bool-print_bool, IsPrintable}
use git_sync.Flags.Defaults.{or_default, default_flags, time_second}

-- The variables of an environment, and their values.
value_of : List (Text × Text) → Text → Text
value_of [] key = []
value_of ((name, value) ∷ vars) key = if equal name key then value else value_of vars key

-- The texts that are not empty, since the default is not.
pub record IsGiven (fl : Flags) : Type 0 where
  pub branch : is_empty fl.branch ≡ false
  pub rev : is_empty fl.rev ≡ false
  pub submodules : is_empty fl.submodules ≡ false
  pub root : is_empty fl.root ≡ false
  pub webhook_method : is_empty fl.webhook_method ≡ false
  pub ssh_key_file : is_empty fl.ssh_key_file ≡ false
  pub ssh_known_hosts_file : is_empty fl.ssh_known_hosts_file ≡ false
  pub git_cmd : is_empty fl.git_cmd ≡ false

given_text : (v d : Text) → is_empty v ≡ false → (if is_empty v then d else v) ≡ v
given_text v d h = rw h refl

pub without_default : (v : Text) → (if is_empty v then [] else v) ≡ v
without_default [] = refl
without_default (c ∷ v) = refl

-- A value that is read back from its text, where no value is read from the empty one.
read_back {ℓ} :
    {A : Type ℓ} (parse : Text → Option A) (s : Text) (v d : A)
    → parse [] ≡ none
    → parse s ≡ some v
    → (if is_empty s then d else or_default (parse s) d) ≡ v
read_back parse [] v d h k = ground arith
read_back parse (c ∷ s) v d h k = rw k refl

no_bool : parse_bool [] ≡ none
unfolding parse_bool equal
no_bool = refl

no_int : parse_int [] ≡ none
unfolding parse_int
no_int = refl

module _ (print_float print_duration : ℤ → Text) where
  -- Every variable that the program reads, but `HOME`.
  variables : Flags → List (Text × Text)
  variables fl =
      (codes "GIT_SYNC_REPO", fl.repo)
      ∷ (codes "GIT_SYNC_BRANCH", fl.branch)
      ∷ (codes "GIT_SYNC_REV", fl.rev)
      ∷ (codes "GIT_SYNC_DEPTH", itoa fl.depth)
      ∷ (codes "GIT_SYNC_SUBMODULES", fl.submodules)
      ∷ (codes "GIT_SYNC_ROOT", fl.root)
      ∷ (codes "GIT_SYNC_DEST", fl.dest)
      ∷ (codes "GIT_SYNC_ERROR_FILE", fl.error_file)
      ∷ (codes "GIT_SYNC_WAIT", print_float fl.wait)
      ∷ (codes "GIT_SYNC_TIMEOUT", itoa fl.sync_timeout)
      ∷ (codes "GIT_SYNC_ONE_TIME", print_bool fl.one_time)
      ∷ (codes "GIT_SYNC_MAX_SYNC_FAILURES", itoa fl.max_sync_failures)
      ∷ (codes "GIT_SYNC_PERMISSIONS", itoa fl.chmod)
      ∷ (codes "GIT_SYNC_HOOK_COMMAND", fl.sync_hook_command)
      ∷ (codes "GIT_SYNC_SPARSE_CHECKOUT_FILE", fl.sparse_checkout_file)
      ∷ (codes "GIT_SYNC_WEBHOOK_URL", fl.webhook_url)
      ∷ (codes "GIT_SYNC_WEBHOOK_METHOD", fl.webhook_method)
      ∷ (codes "GIT_SYNC_WEBHOOK_SUCCESS_STATUS", itoa fl.webhook_status_success)
      ∷ (codes "GIT_SYNC_WEBHOOK_TIMEOUT", print_duration fl.webhook_timeout)
      ∷ (codes "GIT_SYNC_WEBHOOK_BACKOFF", print_duration fl.webhook_backoff)
      ∷ (codes "GIT_SYNC_USERNAME", fl.username)
      ∷ (codes "GIT_SYNC_PASSWORD", fl.password)
      ∷ (codes "GIT_SYNC_PASSWORD_FILE", fl.password_file)
      ∷ (codes "GIT_SYNC_SSH", print_bool fl.ssh)
      ∷ (codes "GIT_SSH_KEY_FILE", fl.ssh_key_file)
      ∷ (codes "GIT_KNOWN_HOSTS", print_bool fl.ssh_known_hosts)
      ∷ (codes "GIT_SSH_KNOWN_HOSTS_FILE", fl.ssh_known_hosts_file)
      ∷ (codes "GIT_SYNC_ADD_USER", print_bool fl.add_user)
      ∷ (codes "GIT_COOKIE_FILE", print_bool fl.cookie_file)
      ∷ (codes "GIT_ASKPASS_URL", fl.askpass_url)
      ∷ (codes "GIT_SYNC_GIT", fl.git_cmd)
      ∷ (codes "GIT_SYNC_GIT_CONFIG", fl.git_config)
      ∷ (codes "GIT_SYNC_HTTP_BIND", fl.http_bind)
      ∷ (codes "GIT_SYNC_HTTP_METRICS", print_bool fl.http_metrics)
      ∷ (codes "GIT_SYNC_HTTP_PPROF", print_bool fl.http_pprof)
      ∷ []

  pub environment : Flags → Text → Text
  unfolding variables value_of
  environment fl = value_of (variables fl)

  module _ (parse_float parse_duration : Text → Option ℤ) where
    -- For all flags without `--version` whose numbers fit an `int64`, whose times are read back from the
    -- texts that stand for them, and whose texts are not empty where the default is not: if the
    -- environment gives each variable its value, then the flags have these values before the command line
    -- is read.
    pub default_flags-environment :
        (fl : Flags)
        → parse_float [] ≡ none
        → parse_duration [] ≡ none
        → IsPrintable print_float print_duration parse_float parse_duration fl
        → IsGiven fl
        → default_flags (environment fl) parse_float parse_duration ≡ record fl { ver = false }
    unfolding default_flags environment equal
    default_flags-environment fl no_float no_duration p g =
        rw
          (
            without_default fl.repo,
            given_text fl.branch _ g.branch,
            given_text fl.rev _ g.rev,
            read_back parse_int (itoa fl.depth) fl.depth (pos 0) no_int
                (parse_int-itoa fl.depth p.depth),
            given_text fl.submodules _ g.submodules,
            given_text fl.root _ g.root,
            without_default fl.dest,
            without_default fl.error_file,
            read_back parse_float (print_float fl.wait) fl.wait (pos 1000000) no_float p.wait,
            read_back parse_int (itoa fl.sync_timeout) fl.sync_timeout (pos 120) no_int
                (parse_int-itoa fl.sync_timeout p.sync_timeout),
            read_back parse_bool (print_bool fl.one_time) fl.one_time false no_bool
                (parse_bool-print_bool fl.one_time),
            read_back parse_int (itoa fl.max_sync_failures) fl.max_sync_failures (pos 0) no_int
                (parse_int-itoa fl.max_sync_failures p.max_sync_failures),
            read_back parse_int (itoa fl.chmod) fl.chmod (pos 0) no_int
                (parse_int-itoa fl.chmod p.chmod),
            without_default fl.sync_hook_command,
            without_default fl.sparse_checkout_file,
            without_default fl.webhook_url,
            given_text fl.webhook_method _ g.webhook_method,
            read_back parse_int (itoa fl.webhook_status_success) fl.webhook_status_success (pos 200)
                no_int (parse_int-itoa fl.webhook_status_success p.webhook_status_success),
            read_back parse_duration (print_duration fl.webhook_timeout) fl.webhook_timeout
                (pos time_second) no_duration p.webhook_timeout,
            read_back parse_duration (print_duration fl.webhook_backoff) fl.webhook_backoff
                (pos (time_second * 3)) no_duration p.webhook_backoff,
            without_default fl.username,
            without_default fl.password,
            without_default fl.password_file,
            read_back parse_bool (print_bool fl.ssh) fl.ssh false no_bool
                (parse_bool-print_bool fl.ssh),
            given_text fl.ssh_key_file _ g.ssh_key_file,
            read_back parse_bool (print_bool fl.ssh_known_hosts) fl.ssh_known_hosts true no_bool
                (parse_bool-print_bool fl.ssh_known_hosts),
            given_text fl.ssh_known_hosts_file _ g.ssh_known_hosts_file,
            read_back parse_bool (print_bool fl.add_user) fl.add_user false no_bool
                (parse_bool-print_bool fl.add_user),
            read_back parse_bool (print_bool fl.cookie_file) fl.cookie_file false no_bool
                (parse_bool-print_bool fl.cookie_file),
            without_default fl.askpass_url,
            given_text fl.git_cmd _ g.git_cmd,
            without_default fl.git_config,
            without_default fl.http_bind,
            read_back parse_bool (print_bool fl.http_metrics) fl.http_metrics true no_bool
                (parse_bool-print_bool fl.http_metrics),
            read_back parse_bool (print_bool fl.http_pprof) fl.http_pprof false no_bool
                (parse_bool-print_bool fl.http_pprof),
          )
          refl
