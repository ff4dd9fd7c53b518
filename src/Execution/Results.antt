-- ===== src/Execution/Results.antt =====
-- What `execute_cmds` returns.
use clvk.Common.{ℕ, ◌≡◌, true, List, [], ◌∷◌}
use clvk.Event.{ℤ, is_finished}
use clvk.Queue.{Command}
use clvk.Execution.{Statuses, Thread, first_failure}
use clvk.Execution.Effects.{Keeps}

-- The first status, of `g` and then of the commands in turn, that is not CL_COMPLETE.
abbrev pub first_status : Statuses → ℤ → List Command → ℤ
first_status st g [] = g
first_status st g (c ∷ cs) = first_status st (first_failure (st c.event) g) cs

module _ (action : Command → ℤ) (finishes : (c : Command) → is_finished (action c) ≡ true) where
  module _ (end : Statuses) (c : Command) (cs : List Command) (st : Statuses) (g : ℤ) where
    abbrev IsResult : Statuses × Thread → Type 0
    IsResult r =
        Keeps r.0 end
        → first_status end r.1.global_status r.1.commands ≡ first_status end g (c ∷ cs)

  module _ (owner : ℕ → ℕ) (given : Command → Type 0) where
    abbrev status_of : Statuses → Thread → ℤ
    status_of end t = first_status end t.global_status t.commands
