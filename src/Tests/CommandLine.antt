-- ===== src/Tests/CommandLine.antt =====
-- Flags on the command line and in the environment. A number of whole millionths, and of whole
-- nanoseconds, stands for a time here.
use git_sync.Common.{
  ◌≡◌, refl, arith, false, some, none, [], ◌∷◌, ◌++◌, pos, negsuc, itoa, codes, contains,
  has_prefix,
}
use git_sync.Flags.{Flags}
use git_sync.Flags.Number.{
  parse_int, parse_uint, read_digits, digit_value, is_digit, split_base, underscore_ok, to_positive,
  to_negative,
}
use git_sync.Flags.Number.Decimal.{IsInt, parse_int-itoa}
use git_sync.Flags.Defaults.{default_flags}
use git_sync.Flags.Defaults.RoundTrip.{IsGiven, environment, default_flags-environment}
use git_sync.Flags.Parse.{lookup, parsed, wrong, parse_args}
use git_sync.Flags.Parse.PasswordFile.{HasPasswordFile, parse_args-password_file}
use git_sync.Flags.Parse.RoundTrip.{IsPrintable, print_args, parse_args-print_args}
use git_sync.Tests.World.{flags}

-- A leading 0 is the prefix of an octal number.
octal_mode : parse_int (codes "0755") ≡ some (pos 493)
unfolding parse_int parse_uint read_digits digit_value split_base contains has_prefix to_positive
octal_mode = refl

not_octal : parse_int (codes "08") ≡ none
unfolding parse_int parse_uint read_digits digit_value split_base contains has_prefix to_positive
not_octal = refl

separated : parse_int (codes "-0x_ff") ≡ some (negsuc 254)
unfolding parse_int parse_uint read_digits digit_value split_base contains has_prefix to_negative
    underscore_ok is_digit
separated = refl

too_large : parse_int (codes "9223372036854775808") ≡ none
unfolding parse_int parse_uint read_digits digit_value split_base contains has_prefix to_positive
too_large = refl

abbrev full : Flags
full = record flags {
  ssh_key_file = codes "/k";
  ssh_known_hosts_file = codes "/h";
  password_file = codes "/p";
}

full-IsPrintable : IsPrintable itoa itoa parse_int parse_int full
unfolding IsInt
full-IsPrintable = record {
  depth = omega arith;
  wait = parse_int-itoa _ (omega arith);
  sync_timeout = omega arith;
  max_sync_failures = omega arith;
  chmod = omega arith;
  webhook_status_success = omega arith;
  webhook_timeout = parse_int-itoa _ (omega arith);
  webhook_backoff = parse_int-itoa _ (omega arith);
}

full-IsGiven : IsGiven full
full-IsGiven = record {
  branch = refl;
  rev = refl;
  submodules = refl;
  root = refl;
  webhook_method = refl;
  ssh_key_file = refl;
  ssh_known_hosts_file = refl;
  git_cmd = refl;
}

parse_args-print_args_example :
    parse_args parse_int parse_int [] none flags (print_args itoa itoa full)
    ≡ parsed (record full { password_file = flags.password_file }) []
parse_args-print_args_example =
    parse_args-print_args itoa itoa parse_int parse_int [] flags full full-IsPrintable

no_number : parse_int [] ≡ none
unfolding parse_int
no_number = refl

default_flags-environment_example :
    default_flags (environment itoa itoa full) parse_int parse_int ≡ record full { ver = false }
default_flags-environment_example =
    default_flags-environment itoa itoa parse_int parse_int full no_number no_number
      full-IsPrintable full-IsGiven

parse_args-password_file_example :
    HasPasswordFile (codes "/p") (parse_args parse_int parse_int [] none full (codes "--ssh" ∷ []))
    × (parse_args parse_int parse_int [] none full
          ((codes "--password-file=" ++ codes "/q") ∷ codes "--ssh" ∷ [])
        ≡ wrong)
unfolding lookup
parse_args-password_file_example =
    parse_args-password_file parse_int parse_int [] full (codes "--ssh" ∷ []) (codes "/q") refl
