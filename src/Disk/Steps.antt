-- ===== src/Disk/Steps.antt =====
-- What each call does to the view, and the relations that the proofs about it use.
use git_sync.Common.{false, Option, none, some, ◌≡◌, refl, ◌∙◌, true, List, [], ◌∷◌, Text, arith}
use git_sync.Os.{
  Failure, Call, Event, History, Env, Machine, Reply, Result, ok, err, perform, os, os-machine, run,
}
use git_sync.Os.Hoare.{After, Leads}
use git_sync.Os.Frame.{IsFrame, Keeps}
use git_sync.Command.{cmd_for_log, run_result, run_command_with_stdin, run_command}
use git_sync.Disk.{Disk, Action, action, view, effect, succeeded, FlipIsSafe, IsSafe}
use git_sync.Disk.Quiet.{IsQuietFrame, quiet_frame}

-- The later history shows the same disk, and is safe if the earlier one is.
pub record Same (m m' : Machine) : Type 0 where
  pub shows : view m'.history ≡ view m.history
  pub safe : IsSafe m.history → IsSafe m'.history

abbrev pub StaysSafe : Machine → Machine → Type 0
StaysSafe m m' = IsSafe m.history → IsSafe m'.history

Same-IsFrame : IsFrame Same
Same-IsFrame = record {
  same = λ m. record { shows = refl; safe = λ s. s };
  trans = λ m m' m'' a b. record { shows = b.shows ∙ a.shows; safe = λ s. b.safe (a.safe s) };
}

pub StaysSafe-IsFrame : IsFrame StaysSafe
StaysSafe-IsFrame = record { same = λ m s. s; trans = λ m m' m'' a b s. b (a s) }

pub view-cons :
    (e : Event) (h : History) {a : Action}
    → action e.call ≡ a
    → view (e ∷ h) ≡ effect a (succeeded e.reply) (view h)
unfolding view
view-cons e h q = rw q

module _ (env : Env) where
  -- The machine behind a call.
  abbrev pub behind : Call → Machine → Machine
  behind c m = record m { history = (record { call = c; reply = env m.history c }) ∷ m.history }

  pub Same-IsQuietFrame : IsQuietFrame env Same
  unfolding perform view action
  Same-IsQuietFrame =
      quiet_frame env Same-IsFrame
        (λ c m q. record {
          shows = view-cons (record { call = c; reply = env m.history c }) m.history q;
          safe = λ s. (rw q tt, s);
        })
        (λ file content m. record { shows = refl; safe = λ s. (tt, s) })
        λ file path m. record { shows = refl; safe = λ s. (tt, s) }

  pub StaysSafe-IsQuietFrame : IsQuietFrame env StaysSafe
  unfolding perform action
  StaysSafe-IsQuietFrame =
      quiet_frame env StaysSafe-IsFrame (λ c m q s. (rw q tt, s)) (λ file content m s. (tt, s))
        λ file path m s. (tt, s)

  -- Any call but a flip.
  pub os-StaysSafe :
      (c : Call) → ((d : Disk) → FlipIsSafe (action c) d) → Keeps StaysSafe (os env c)
  unfolding perform
  os-StaysSafe c h = record { keeps = λ m s. rw os-machine (h (view m.history), s) }

  run_result-ok :
      (cmd_str : Text) (r : Reply) {a : Text}
      → run_result cmd_str r ≡ ok a
      → (succeeded r ≡ true) × (r.output ≡ a)
  unfolding run_result
  run_result-ok cmd_str r h = ground arith

  -- A command that returns no error has succeeded, and returns its output.
  pub run_command-Leads :
      {P E : Machine → Type 0} (Q : Text → Machine → Type 0) (cwd command : Text) (args : List Text)
      → ((m : Machine)
          → P m
          → succeeded (env m.history (run cwd [] command args)) ≡ true
          → Q (env m.history (run cwd [] command args)).output (behind (run cwd [] command args) m))
      → ((m : Machine) → P m → E (behind (run cwd [] command args) m))
      → Leads P (run_command env cwd command args) Q E
  unfolding run_command run_command_with_stdin perform
  run_command-Leads {P} {E} Q cwd command args good bad = record {
    leads = λ m p.
        from m p (run_result (cmd_for_log command args) (env m.history (run cwd [] command args)))
          (λ a h. run_result-ok _ (env m.history (run cwd [] command args)) h);
  }
    where
      from :
          (m : Machine)
          → P m
          → (r : Result Text)
          → ((a : Text)
              → r ≡ ok a
              → (succeeded (env m.history (run cwd [] command args)) ≡ true)
                × ((env m.history (run cwd [] command args)).output ≡ a))
          → After Q E (r, behind (run cwd [] command args) m)
      from m p (ok a) known = let (done, same) = known a refl in rw (← same) (good m p done)
      from m p (err _) known = bad m p

  -- A call that returns no error has succeeded.
  pub os-Leads :
      {P E : Machine → Type 0} (Q : Text → Machine → Type 0) (c : Call)
      → ((m : Machine)
          → P m
          → succeeded (env m.history c) ≡ true
          → Q (env m.history c).output (behind c m))
      → ((m : Machine) → P m → E (behind c m))
      → Leads P (os env c) Q E
  unfolding os perform
  os-Leads {P} {E} Q c good bad = record {
    leads = λ m p.
        by_failure (behind c m) (env m.history c).output (env m.history c).failure (good m p)
          (bad m p);
  }
    where
      by_failure :
          (m' : Machine) (output : Text) (f : Option Failure)
          → (elim f [ none ↦ true | some _ ↦ false ] ≡ true → Q output m')
          → E m'
          → After {A = Text} Q E (elim f [ none ↦ (ok output, m') | some e ↦ (err e, m') ])
      by_failure m' output none g b = g refl
      by_failure m' output (some e) g b = b

  pub run_command-StaysSafe :
      (cwd command : Text) (args : List Text)
      → ((d : Disk) → FlipIsSafe (action (run cwd [] command args)) d)
      → Keeps StaysSafe (run_command env cwd command args)
  unfolding run_command run_command_with_stdin perform
  run_command-StaysSafe cwd command args h = record { keeps = λ m s. (h (view m.history), s) }
