-- ===== src/Execution/Invariant.antt =====
-- What holds of the threads at all times, and that a step keeps it.
use clvk.Common.{ℕ, ◌<◌, ◌≡◌, ◌⊎◌, true, List, [], ◌∷◌}
use clvk.Event.{ℤ, is_finished}
use clvk.Queue.{Command}
use clvk.Execution.{Statuses, Thread, events}
use clvk.Execution.Effects.{is_in, AllFinished, outcome, Progress, IsFresh}

abbrev pub In : Command → List Command → Type 0
In c [] = ⊥
In c (x ∷ xs) = (c ≡ x) ⊎ In c xs

-- The commands of a thread are in the order of their events.
abbrev pub Sorted : (ℕ → ℕ) → List Command → Type 0
Sorted owner [] = Unit {0}
Sorted owner (c ∷ cs) = ((d : Command) → In d cs → owner c.event < owner d.event) × Sorted owner cs

-- A command that no thread has ended has the event.
abbrev pub Pending : (ℕ → Thread) → ℕ → Type 0
Pending threads e =
    (j : ℕ) × (c : Command) × In c (threads j).commands × (is_in (events c) e ≡ true)

-- An ended command: its dependencies are finished, and its events have its outcome.
abbrev pub Settled : (Command → ℤ) → Statuses → Command → Type 0
Settled action st c =
    AllFinished st c.deps × ((e : ℕ) → is_in (events c) e ≡ true → st e ≡ outcome action st c)

-- `owner` numbers the commands in the order in which they were created, and names the command of
-- each event; `given` are the commands that the threads were given.
pub record Inv (action : Command → ℤ) (owner : ℕ → ℕ) (given : Command → Type 0) (st : Statuses)
    (threads : ℕ → Thread) : Type 0 where
  pub sorted : (i : ℕ) → Sorted owner (threads i).commands
  pub apart :
      (i j : ℕ) (c d : Command)
      → In c (threads i).commands
      → In d (threads j).commands
      → owner c.event ≡ owner d.event
      → i ≡ j
  pub owned :
      (i : ℕ) (c : Command)
      → In c (threads i).commands
      → (e : ℕ) → is_in (events c) e ≡ true
      → owner e ≡ owner c.event
  pub fresh : (i : ℕ) (c : Command) → In c (threads i).commands → IsFresh st c
  pub earlier :
      (i : ℕ) (c : Command)
      → In c (threads i).commands
      → (d : ℕ) → is_in c.deps d ≡ true
      → owner d < owner c.event
  pub known :
      (i : ℕ) (c : Command)
      → In c (threads i).commands
      → (d : ℕ) → is_in c.deps d ≡ true
      → (is_finished (st d) ≡ true) ⊎ Pending threads d
  pub progress : (i : ℕ) → Progress st (threads i).phase (threads i).commands
  pub history :
      (c : Command) → given c → ((i : ℕ) × In c (threads i).commands) ⊎ Settled action st c
