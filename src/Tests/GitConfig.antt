-- ===== src/Tests/GitConfig.antt =====
-- The cases of `TestParseGitConfigs`, cmd/git-sync/main_test.go, and the theorems at concrete
-- flags.
use git_sync.Common.{◌↔◌, List, [], ◌∷◌, ◌≡◌, ◌≢◌, refl, Text, codes}
use git_sync.GitConfig.Grammar.{Configs}
use git_sync.GitConfig.Grammar.Sound.{parse_git_configs_iff}
use git_sync.GitConfig.{
  KeyVal, no_fuel, ok, err, end_of_key, in_key, trailing, unsupported_escape, end_of_value,
  parse_git_configs,
}
use git_sync.GitConfig.RoundTrip.{
  Style, quoted, plain, print_configs, pairs, parse_git_configs-print_configs,
}
use git_sync.GitConfig.Fuel.{parse_git_configs-ne-no_fuel}
use git_sync.GitConfig.FirstRune.{KeepsFirst, parse_git_configs-KeepsFirst}

abbrev kv : Text → Text → KeyVal
kv k v = record { key = k; val = v }

parses :
    (parse_git_configs [] ≡ ok [])
    × (parse_git_configs (codes "k:\"v\"") ≡ ok (kv (codes "k") (codes "v") ∷ []))
    × (parse_git_configs (codes "k1:v 1,k2:\" v 2 \"")
        ≡ ok (kv (codes "k1") (codes "v 1") ∷ kv (codes "k2") (codes " v 2 ") ∷ []))
    × (parse_git_configs (codes "k1:\"v1\",k2:\"v2\",")
        ≡ ok (kv (codes "k1") (codes "v1") ∷ kv (codes "k2") (codes "v2") ∷ []))
    × (parse_git_configs (codes "k1:v\\n\\t\\\\\\\"\\,1")
        ≡ ok (kv (codes "k1") (codes "v\n\t\\\",1") ∷ []))
    × (parse_git_configs (codes "k1:\"v,1\"") ≡ ok (kv (codes "k1") (codes "v,1") ∷ []))
unfolding parse_git_configs
parses = (refl, refl, refl, refl, refl, refl)

refusals :
    (parse_git_configs (codes "abc123") ≡ err (end_of_key (codes "abc123")))
    × (parse_git_configs (codes "k:v\\xv") ≡ err (in_key (codes "k") (unsupported_escape b'x')))
    × (parse_git_configs (codes "k1:\"v1\"x,k2:\"v2\"") ≡ err (in_key (codes "k1") (trailing b'x')))
    × (parse_git_configs (codes "k1:\"v1") ≡ err (in_key (codes "k1") (end_of_value (codes "v1"))))
unfolding parse_git_configs
refusals = (refl, refl, refl, refl)

abbrev printed : List (Style × KeyVal)
printed = (plain, kv (codes "k1") (codes "v 1")) ∷ (quoted, kv (codes "k2") (codes "a,\"b\"")) ∷ []

parse_git_configs-print_configs_example :
    parse_git_configs (print_configs printed) ≡ ok (pairs printed)
parse_git_configs-print_configs_example =
    parse_git_configs-print_configs printed (((refl, tt), refl), (((refl, tt), tt), tt))

parse_git_configs-ne-no_fuel_example : parse_git_configs (codes "k1:v,k2:\"w\"") ≢ err no_fuel
parse_git_configs-ne-no_fuel_example = parse_git_configs-ne-no_fuel (codes "k1:v,k2:\"w\"")

-- The value stands for a tab, but begins with the backslash.
parse_git_configs-KeepsFirst_example :
    KeepsFirst (codes "k") b'\\' (kv (codes "k") (codes "\\tx") ∷ [])
unfolding parse_git_configs
parse_git_configs-KeepsFirst_example =
    parse_git_configs-KeepsFirst (codes "k") b'\\' (codes "tx") tt refl refl

-- A quoted value with a comma in it, and a plain one.
parse_git_configs_iff_example :
    (parse_git_configs (codes "a:\"x,\",b:y")
      ≡ ok (
          (record { key = codes "a"; val = codes "x," })
          ∷ (record { key = codes "b"; val = codes "y" })
          ∷ []))
    ↔ Configs (codes "a:\"x,\",b:y") (
        (record { key = codes "a"; val = codes "x," })
        ∷ (record { key = codes "b"; val = codes "y" })
        ∷ [])
parse_git_configs_iff_example = parse_git_configs_iff (codes "a:\"x,\",b:y") (
    (record { key = codes "a"; val = codes "x," })
    ∷ (record { key = codes "b"; val = codes "y" })
    ∷ [])
