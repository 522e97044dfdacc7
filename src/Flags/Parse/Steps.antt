-- ===== src/Flags/Parse/Steps.antt =====
-- One argument of the command line.
use git_sync.Common.{◌≡◌, ◌∙◌, ap, Option, none, some, List, ◌∷◌, ℤ, Text}
use git_sync.Flags.{Flags}
use git_sync.Flags.Parse.{
  Definition, Other, named, read_argument, Parsed, parsed, Outcome, needs_value, has_set, stops,
  terminates, fails, set_value, set_or_fail, apply_named, find_flag, apply_argument, parse_args,
}

module _ (parse_float parse_duration : Text → Option ℤ) (others : List Other) where
  -- What comes behind the argument `s`.
  abbrev pub behind : Flags → Text → List Text → Outcome → Parsed
  behind fl s args o = elim o [
    | needs_value d ↦ parse_args parse_float parse_duration others (some d) fl args
    | has_set fl' ↦ parse_args parse_float parse_duration others none fl' args
    | stops ↦ parsed fl (s ∷ args)
    | terminates ↦ parsed fl args
    | fails p ↦ p
  ]

  pub parse_args-behind :
      (fl : Flags) (s name : Text) (value : Option Text) (args : List Text) (r : Option Definition)
      → read_argument s ≡ named name value
      → find_flag parse_float parse_duration others name ≡ r
      → parse_args parse_float parse_duration others none fl (s ∷ args)
        ≡ behind fl s args (apply_named parse_float parse_duration others fl name value r)
  unfolding parse_args apply_argument
  parse_args-behind fl s name value args r k h =
      ap (λ a. behind fl s args (apply_argument parse_float parse_duration others fl a)) k
      ∙ ap (λ q. behind fl s args (apply_named parse_float parse_duration others fl name value q)) h

  module _ (fl : Flags) (s : Text) {name value : Text} (args : List Text)
      (spelled : read_argument s ≡ named name (some value)) where
    -- A flag that is defined, with a value that it takes.
    pub parse_args-set :
        {d : Definition} {fl' : Flags}
        → find_flag parse_float parse_duration others name ≡ some d
        → set_value parse_float parse_duration others d.kind value fl ≡ some fl'
        → parse_args parse_float parse_duration others none fl (s ∷ args)
          ≡ parse_args parse_float parse_duration others none fl' args
    parse_args-set {d} h q =
        parse_args-behind fl s name (some value) args (some d) spelled h
        ∙ ap (λ r. behind fl s args (set_or_fail parse_float parse_duration others r)) q
