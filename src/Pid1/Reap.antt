-- ===== src/Pid1/Reap.antt =====
-- Every child that has died is reaped.
use git_sync.Common.{ℕ, ◌≡◌, refl, false, List, [], ◌∷◌, ◌++◌, ◌==◌, All}
use git_sync.Pid1.{Wait, nothing, child, failed, sigchld}

-- A child that is not the firstborn.
unfoldable pub IsOther : ℕ → Wait → Type 0
IsOther firstborn (child pid status) = ((pid == firstborn) ≡ false) × ((pid == 0) ≡ false)
IsOther firstborn _ = ⊥

-- One call of `sigchld` reaps any number of other children and goes on to what comes behind them.
pub sigchld-others :
    (firstborn : ℕ) (others rest : List Wait)
    → All (IsOther firstborn) others
    → sigchld firstborn (others ++ rest) ≡ sigchld firstborn rest
unfolding sigchld IsOther
sigchld-others firstborn [] rest h = refl
sigchld-others firstborn (child pid status ∷ others) rest h =
    rw (h.0.0, h.0.1) (sigchld-others firstborn others rest h.1)
sigchld-others firstborn (nothing ∷ others) rest h = absurd h.0
sigchld-others firstborn (failed ∷ others) rest h = absurd h.0
