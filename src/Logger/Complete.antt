-- ===== src/Logger/Complete.antt =====
-- The error file is written under another name, and then put in place.
use git_sync.Common.{◌≡◌, refl, arith, true, false, Bool, [], ◌∷◌, Text, codes}
use git_sync.Flags.{Flags}
use git_sync.Path.{join_path}
use git_sync.Os.{
  Call, temp_file, write_temp, rename, close_file, chmod_file, Env, Machine, History, Result, Io,
  ◌>>=◌, perform, os, os-machine,
}
use git_sync.Os.Frame.{Keeps, IsFrame}
use git_sync.Os.Hoare.{Leads, Leads-bind, Leads-defer, Keeps-Leads, After}
use git_sync.Logger.{fill_and_rename}
use git_sync.Disk.{Action, link_to, flip, check_out, remove, fill, put, other, action, succeeded}
use git_sync.Disk.Steps.{os-Leads}
use git_sync.Sync.Every.{IsEveryFrame, is_put}
use git_sync.Sync.{count_askpass}

-- The last call wrote all of its content to this file.
unfoldable pub IsWritten : Text → History → Type 0
IsWritten file [] = ⊥
IsWritten file (e ∷ h) =
    (content : Text) × (e.call ≡ write_temp file content) × (succeeded e.reply ≡ true)

-- The last call created a temporary file, and this is its name.
unfoldable pub IsCreated : Text → History → Type 0
IsCreated file [] = ⊥
IsCreated file (e ∷ h) =
    (dir : Text) × (pattern : Text) × (e.call ≡ temp_file dir pattern)
    × (succeeded e.reply ≡ true)
    × (e.reply.output ≡ file)

unfoldable pub IsInOrder : Action → History → Type 0
IsInOrder (fill file content) h = IsCreated file h
IsInOrder (put file path) h = IsWritten file h
IsInOrder _ h = Unit

-- Whenever the content of an error file was written, or that was tried, it was to a temporary file that
-- had just been created; and whenever a file was put in the place of another, or that was tried, all of
-- it had just been written.
unfoldable pub IsComplete : History → Type 0
unfolding IsInOrder
IsComplete [] = Unit
IsComplete (e ∷ h) = IsInOrder (action e.call) h × IsComplete h

abbrev pub StaysComplete : Machine → Machine → Type 0
StaysComplete m m' = IsComplete m.history → IsComplete m'.history

other_call : (a : Action) (h : History) → is_put a ≡ false → IsInOrder a h
unfolding IsInOrder
other_call (link_to cwd dst) h q = tt
other_call (flip cwd link) h q = tt
other_call (check_out cwd hash) h q = tt
other_call (remove path) h q = tt
other_call (fill file content) h q = ground arith
other_call (put file path) h q = ground arith
other_call other h q = tt

module _ (env : Env) where
  StaysComplete-IsFrame : IsFrame StaysComplete
  StaysComplete-IsFrame = record { same = λ m s. s; trans = λ m m' m'' a b s. b (a s) }

  call-StaysComplete :
      (c : Call) (m : Machine) → is_put (action c) ≡ false → StaysComplete m (perform env c m).1
  unfolding perform IsComplete
  call-StaysComplete c m h s = (other_call (action c) m.history h, s)

  os-StaysComplete : (c : Call) → is_put (action c) ≡ false → Keeps StaysComplete (os env c)
  os-StaysComplete c h = record { keeps = λ m. rw os-machine (call-StaysComplete c m h) }

  Complete : Machine → Type 0
  Complete m = IsComplete m.history

  -- With all of this file written by the last call.
  Ready : Text → Machine → Type 0
  Ready file m = IsComplete m.history × IsWritten file m.history

  -- With this temporary file created by the last call.
  Created : Text → Machine → Type 0
  Created file m = IsComplete m.history × IsCreated file m.history

  Leads-Keeps : {x : Io Text} → Leads Complete x (λ _. Complete) Complete → Keeps StaysComplete x
  unfolding Complete
  Leads-Keeps {x} h = record { keeps = λ m s. from (x m) (h.leads m s) }
    where
      from :
          (r : Result Text × Machine) → After {A = Text} (λ _. Complete) Complete r → Complete r.1
      from (Result.ok a, m) s = s
      from (Result.err e, m) s = s

  kept-Leads : {x : Io Text} → Keeps StaysComplete x → Leads Complete x (λ _. Complete) Complete
  unfolding Complete
  kept-Leads k = Keeps-Leads k (λ a m m' k s. k s) (λ m m' k s. k s)

  close-Leads :
      {A : Type 0} (tmp : Text) (a : A)
      → Leads Complete (os env (close_file tmp)) (λ _. Complete) Complete
  unfolding action
  close-Leads tmp a = kept-Leads (os-StaysComplete (close_file tmp) refl)

  -- Behind the creation of the temporary file.
  fill-Leads :
      (fl : Flags) (content tmp : Text)
      → Leads (Created tmp) (fill_and_rename env fl content tmp) (λ _. Complete) Complete
  unfolding fill_and_rename action IsComplete IsWritten Complete Ready Created IsInOrder
  fill-Leads fl content tmp =
      Leads-defer
        (Leads-bind (λ _. Ready tmp)
          (os-Leads env (λ _. Ready tmp) (write_temp tmp content)
            (λ m s done. ((s.1, s.0), (content, refl, done))) (λ m s. (s.1, s.0)))
          λ _.
            Leads-bind (λ _. Complete)
              (os-Leads env (λ _. Complete) (rename tmp (join_path fl.root fl.error_file))
                (λ m s done. (s.1, s.0)) (λ m s. (s.1, s.0)))
              λ _.
                kept-Leads
                  (os-StaysComplete (chmod_file (join_path fl.root fl.error_file) 0o644) refl))
        (close-Leads tmp) (close-Leads tmp tt)

  file-StaysComplete :
      (fl : Flags) (content : Text)
      → Keeps StaysComplete (
          os env (temp_file fl.root (codes "tmp-err-")) >>= λ tmp.
          fill_and_rename env fl content tmp)
  unfolding action IsComplete Complete IsCreated Created
  file-StaysComplete fl content = Leads-Keeps (
      Leads-bind Created
        (os-Leads env Created (temp_file fl.root (codes "tmp-err-"))
          (λ m s done. ((tt, s), (fl.root, codes "tmp-err-", refl, done, refl))) (λ m s. (tt, s)))
        (fill-Leads fl content))

  pub StaysComplete-IsEveryFrame : IsEveryFrame env StaysComplete
  unfolding count_askpass
  StaysComplete-IsEveryFrame = record {
    frame = StaysComplete-IsFrame;
    call = call-StaysComplete;
    file = file-StaysComplete;
    count = counted;
  }
    where
      counted : (b : Bool) (m : Machine) → StaysComplete m (count_askpass b m).1
      counted true m s = s
      counted false m s = s
