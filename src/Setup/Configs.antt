-- ===== src/Setup/Configs.antt =====
-- The pairs of `--git-config` become commands.
use git_sync.Common.{◌≡◌, refl, ◌∙◌, ap, sym, subst, List, [], ◌∷◌, Text, codes}
use git_sync.Flags.{Flags}
use git_sync.Os.{Call, run, Env, Machine, ok}
use git_sync.Os.Runs.{calls}
use git_sync.Os.Hoare.{After, Leads, Leads-pure, Leads-fail, Leads-bind, Leads-or_else}
use git_sync.GitConfig
use git_sync.GitConfig.{KeyVal, ParseError, parse_git_configs}
use git_sync.Disk.Steps.{run_command-Leads}
use git_sync.Setup.{set_configs, set_parsed, setup_extra_git_configs}

pub config_call : Flags → KeyVal → Call
config_call fl kv = run [] [] fl.git_cmd (codes "config" ∷ codes "--global" ∷ kv.key ∷ kv.val ∷ [])

-- One command for each pair, in order, behind the calls that were made before.
pub configs_onto : Flags → List KeyVal → List Call → List Call
configs_onto fl [] cs = cs
configs_onto fl (kv ∷ kvs) cs = configs_onto fl kvs (config_call fl kv ∷ cs)

module _ (env : Env) (fl : Flags) (error_text : ParseError → Text) where
  Made : List Call → Machine → Type 0
  Made cs m = calls m.history ≡ cs

  Any : Machine → Type 0
  Any m = Unit

  set_configs-Leads :
      (kvs : List KeyVal) (cs : List Call)
      → Leads (Made cs) (set_configs env fl error_text kvs) (λ _. Made (configs_onto fl kvs cs)) Any
  unfolding set_configs configs_onto Any
  set_configs-Leads [] cs = Leads-pure tt λ m h. h
  set_configs-Leads (kv ∷ kvs) cs =
      Leads-bind (λ _. Made (config_call fl kv ∷ cs))
        (Leads-or_else Any
          (unfold Made calls config_call in
            run_command-Leads env (λ _ m. calls m.history ≡ config_call fl kv ∷ cs) [] fl.git_cmd _
              (λ m h _. ap (λ k. config_call fl kv ∷ k) h) (λ m h. tt))
          λ e. Leads-fail _ λ m _. tt)
        λ _. set_configs-Leads kvs (config_call fl kv ∷ cs)

  -- If a `--git-config` flag is accepted and its set-up ends without an error, then the calls that it
  -- made are one `git config --global` for each pair, in the order of the pairs, and no other.
  pub setup_extra_git_configs-runs :
      (configs_flag : Text) (kvs : List KeyVal) (m m' : Machine)
      → parse_git_configs configs_flag ≡ GitConfig.ok kvs
      → setup_extra_git_configs env fl error_text configs_flag m ≡ (ok tt, m')
      → calls m'.history ≡ configs_onto fl kvs (calls m.history)
  unfolding setup_extra_git_configs set_parsed Made
  setup_extra_git_configs-runs configs_flag kvs m m' p h =
      subst (λ r. After {A = Unit {0}} (λ _. Made (configs_onto fl kvs (calls m.history))) Any r)
        (ap (λ r. set_parsed env fl error_text r m) (sym p) ∙ h)
        ((set_configs-Leads kvs (calls m.history)).leads m refl)
