-- ===== src/Flags/Parse/PasswordFile.antt =====
-- The file with the password, of which the command line cannot say anything.
use mathlib.Core.List.{map}
use git_sync.Common.{
  ◌≡◌, refl, ◌∙◌, ◌||◌, Bool, true, false, if◌then◌else◌, Option, none, some, List, [], ◌∷◌, ◌++◌,
  ℤ, Text, codes, equal, All, Bool-cases, inl, inr,
}
use git_sync.Flags.{Flags}
use git_sync.Flags.Parse.Steps.{parse_args-behind}
use git_sync.Flags.Number.{parse_bool, parse_int}
use git_sync.Flags.Parse.{
  is_bool, apply_named, apply_flag, set_or_fail, Kind, string, bool, int, float, duration, foreign,
  Definition, Other, of_other, defined_flags, lookup, Argument, operand, terminator, bad_syntax,
  named, read_argument, Parsed, parsed, usage, wrong, Outcome, needs_value, has_set, stops,
  terminates, fails, set_if, set_value, find_flag, apply_argument, parse_args, cut_value, read_name,
}

abbrev Keeps : (Flags → Flags) → Type 0
Keeps f = (fl : Flags) → (f fl).password_file ≡ fl.password_file

abbrev KindKeeps : Kind → Type 0
KindKeeps (string set) = (v : Text) → Keeps (set v)
KindKeeps (bool set) = (v : Bool) → Keeps (set v)
KindKeeps (int set) = (v : ℤ) → Keeps (set v)
KindKeeps (float set) = (v : ℤ) → Keeps (set v)
KindKeeps (duration set) = (v : ℤ) → Keeps (set v)
KindKeeps (foreign b accepts) = Unit

abbrev FlagsAre : Text → Option Flags → Type 0
FlagsAre f none = Unit
FlagsAre f (some fl) = fl.password_file ≡ f

abbrev FoundKeeps : Option Definition → Type 0
FoundKeeps none = Unit
FoundKeeps (some d) = KindKeeps d.kind

-- All flags of the program set something else.
defined_flags-Keep : All (λ d. KindKeeps d.kind) defined_flags
unfolding defined_flags
defined_flags-Keep = search

lookup-Keeps :
    (name : Text) (ds : List Definition)
    → All (λ d. KindKeeps d.kind) ds
    → FoundKeeps (lookup name ds)
unfolding lookup
lookup-Keeps name [] h = tt
lookup-Keeps name (d ∷ ds) h = elim (Bool-cases (equal name d.name)) [
  | inl e ↦ rw e h.0
  | inr e ↦ rw e (lookup-Keeps name ds h.1)
]

others-Keep : (others : List Other) → All (λ d. KindKeeps d.kind) (map of_other others)
others-Keep [] = tt
others-Keep (o ∷ others) = (tt, others-Keep others)

set_if-Keeps :
    {A : Type 0} (set : A → Flags → Flags) (fl : Flags) (r : Option A)
    → ((v : A) → Keeps (set v))
    → FlagsAre fl.password_file (set_if set fl r)
unfolding set_if
set_if-Keeps set fl none h = tt
set_if-Keeps set fl (some v) h = h v fl

abbrev OutcomeKeeps : Text → Outcome → Type 0
OutcomeKeeps f (needs_value d) = KindKeeps d.kind
OutcomeKeeps f (has_set fl) = fl.password_file ≡ f
OutcomeKeeps f (fails (parsed fl args)) = fl.password_file ≡ f
OutcomeKeeps f _ = Unit

abbrev pub HasPasswordFile : Text → Parsed → Type 0
HasPasswordFile f (parsed fl args) = fl.password_file ≡ f
HasPasswordFile f usage = Unit
HasPasswordFile f wrong = Unit

read_password_file :
    (value : Text)
    → read_argument (codes "--password-file=" ++ value) ≡ named (codes "password-file") (some value)
unfolding read_argument read_name cut_value
read_password_file value = refl

module _ (parse_float parse_duration : Text → Option ℤ) (others : List Other) where
  set_value-Keeps :
      (k : Kind) (value : Text) (fl : Flags)
      → KindKeeps k
      → FlagsAre fl.password_file (set_value parse_float parse_duration others k value fl)
  unfolding set_value
  set_value-Keeps (string set) value fl h = h value fl
  set_value-Keeps (bool set) value fl h = set_if-Keeps set fl (parse_bool value) h
  set_value-Keeps (int set) value fl h = set_if-Keeps set fl (parse_int value) h
  set_value-Keeps (float set) value fl h = set_if-Keeps set fl (parse_float value) h
  set_value-Keeps (duration set) value fl h = set_if-Keeps set fl (parse_duration value) h
  set_value-Keeps (foreign b accepts) value fl h = by_test (accepts value)
    where
      by_test : (t : Bool) → FlagsAre fl.password_file (if t then some fl else none)
      by_test true = refl
      by_test false = tt

  find_flag-Keeps : (name : Text) → FoundKeeps (find_flag parse_float parse_duration others name)
  find_flag-Keeps name =
      either (lookup name defined_flags) (lookup-Keeps name defined_flags defined_flags-Keep)
    where
      either :
          (r : Option Definition)
          → FoundKeeps r
          → FoundKeeps (elim r [ some d ↦ some d | none ↦ lookup name (map of_other others) ])
      either none h = lookup-Keeps name (map of_other others) (others-Keep others)
      either (some d) h = h

  set_or_fail-Keeps :
      (f : Text) (r : Option Flags)
      → FlagsAre f r
      → OutcomeKeeps f (set_or_fail parse_float parse_duration others r)
  set_or_fail-Keeps f none h = tt
  set_or_fail-Keeps f (some fl) h = h

  apply_flag-Keeps :
      (fl : Flags) (d : Definition) (value : Option Text)
      → KindKeeps d.kind
      → OutcomeKeeps fl.password_file (apply_flag parse_float parse_duration others fl d value)
  apply_flag-Keeps fl d (some value) h =
      set_or_fail-Keeps fl.password_file _ (set_value-Keeps d.kind value fl h)
  apply_flag-Keeps fl d none h = by_test (is_bool d.kind)
    where
      by_test :
          (b : Bool)
          → OutcomeKeeps fl.password_file (
              if b
              then set_or_fail parse_float parse_duration others
                  (set_value parse_float parse_duration others d.kind (codes "true") fl)
              else needs_value d)
      by_test true =
          set_or_fail-Keeps fl.password_file _ (set_value-Keeps d.kind (codes "true") fl h)
      by_test false = h

  apply_named-Keeps :
      (fl : Flags) (name : Text) (value : Option Text) (r : Option Definition)
      → FoundKeeps r
      → OutcomeKeeps fl.password_file
          (apply_named parse_float parse_duration others fl name value r)
  apply_named-Keeps fl name value none h =
      by_test (equal name (codes "help") || equal name (codes "h"))
    where
      by_test : (b : Bool) → OutcomeKeeps fl.password_file (if b then fails usage else fails wrong)
      by_test true = tt
      by_test false = tt
  apply_named-Keeps fl name value (some d) h = apply_flag-Keeps fl d value h

  apply_argument-Keeps :
      (fl : Flags) (a : Argument)
      → OutcomeKeeps fl.password_file (apply_argument parse_float parse_duration others fl a)
  unfolding apply_argument
  apply_argument-Keeps fl operand = tt
  apply_argument-Keeps fl terminator = tt
  apply_argument-Keeps fl bad_syntax = tt
  apply_argument-Keeps fl (named name value) =
      apply_named-Keeps fl name value _ (find_flag-Keeps name)

  -- The file `f` is still the one behind the arguments that are left.
  parse_args-Keeps :
      (f : Text) (pending : Option Definition) (fl : Flags) (args : List Text)
      → FoundKeeps pending
      → fl.password_file ≡ f
      → HasPasswordFile f (parse_args parse_float parse_duration others pending fl args)
  unfolding parse_args
  parse_args-Keeps f none fl [] h q = q
  parse_args-Keeps f (some d) fl [] h q = tt
  parse_args-Keeps f (some d) fl (s ∷ args) h q =
      behind _ (set_value-Keeps d.kind s fl h) λ fl'. parse_args-Keeps f none fl' args tt
    where
      behind :
          (r : Option Flags)
          → FlagsAre fl.password_file r
          → ((fl' : Flags)
              → fl'.password_file ≡ f
              → HasPasswordFile f (parse_args parse_float parse_duration others none fl' args))
          → HasPasswordFile f (elim r [
            | none ↦ wrong
            | some fl' ↦ parse_args parse_float parse_duration others none fl' args
          ])
      behind none k next = tt
      behind (some fl') k next = next fl' (k ∙ q)
  parse_args-Keeps f none fl (s ∷ args) h q =
      behind _ (apply_argument-Keeps fl (read_argument s))
        (λ d k. parse_args-Keeps f (some d) fl args k q) λ fl'. parse_args-Keeps f none fl' args tt
    where
      behind :
          (o : Outcome)
          → OutcomeKeeps fl.password_file o
          → ((d : Definition)
              → KindKeeps d.kind
              → HasPasswordFile f (parse_args parse_float parse_duration others (some d) fl args))
          → ((fl' : Flags)
              → fl'.password_file ≡ f
              → HasPasswordFile f (parse_args parse_float parse_duration others none fl' args))
          → HasPasswordFile f (elim o [
            | needs_value d ↦ parse_args parse_float parse_duration others (some d) fl args
            | has_set fl' ↦ parse_args parse_float parse_duration others none fl' args
            | stops ↦ parsed fl (s ∷ args)
            | terminates ↦ parsed fl args
            | fails p ↦ p
          ])
      behind (needs_value d) k pending next = pending d k
      behind (has_set fl') k pending next = next fl' (k ∙ q)
      behind stops k pending next = q
      behind terminates k pending next = q
      behind (fails (parsed fl' rest)) k pending next = k ∙ q
      behind (fails usage) k pending next = tt
      behind (fails wrong) k pending next = tt

  not_found :
      lookup (codes "password-file") (map of_other others) ≡ none
      → find_flag parse_float parse_duration others (codes "password-file") ≡ none
  unfolding lookup defined_flags equal
  not_found h = h

  is_refused :
      (fl : Flags) (args : List Text) (value : Text)
      → lookup (codes "password-file") (map of_other others) ≡ none
      → parse_args parse_float parse_duration others none fl
          ((codes "--password-file=" ++ value) ∷ args)
        ≡ wrong
  unfolding equal
  is_refused fl args value h =
      parse_args-behind parse_float parse_duration others fl (codes "--password-file=" ++ value)
        (codes "password-file") (some value) args none (read_password_file value) (not_found h)

  -- Whatever the flags are before it, and those that other packages define, if none of these is called
  -- `password-file`: a command line that is accepted leaves the file with the password as it is, and one
  -- that begins with `--password-file=`, and any value, is refused.
  pub parse_args-password_file :
      (fl : Flags) (args : List Text) (value : Text)
      → lookup (codes "password-file") (map of_other others) ≡ none
      → HasPasswordFile fl.password_file (parse_args parse_float parse_duration others none fl args)
        × (parse_args parse_float parse_duration others none fl
              ((codes "--password-file=" ++ value) ∷ args)
            ≡ wrong)
  parse_args-password_file fl args value h =
      (parse_args-Keeps fl.password_file none fl args tt refl, is_refused fl args value h)
