-- ===== src/Execution.antt =====
-- Threads that execute commands: `cvk_command::execute` of src/queue.hpp, `execute_cmds`,
-- `executor` and `wait_for_events` of src/queue.cpp, and `wait` of src/event.hpp. An executor and
-- the threads that wait for events take steps in any order; a step is what a thread does between
-- two accesses to the status of an event, and a schedule also says which waits are woken early.
pub mod Effects
pub mod Early
pub mod Invariant
pub mod Steps
pub mod Runs
pub mod Outcomes
pub mod Progress
pub mod Work
pub mod Failures
pub mod Results
mod Tests
use clvk.Common.{
  ℕ, suc, Bool, true, false, ◌&&◌, ◌||◌, List, [], ◌∷◌, Option, none, some, ◌==◌, if◌then◌else◌,
}
use clvk.Event.{ℤ, pos, negsuc, complete, eqℤ, is_finished}
use clvk.Queue.{Command}

abbrev pub running : ℤ
running = pos 1

-- `CL_EXEC_STATUS_ERROR_FOR_EVENTS_IN_WAIT_LIST`.
abbrev pub wait_list_error : ℤ
wait_list_error = negsuc 13

-- The status of each event.
abbrev pub Statuses : Type 0
Statuses = ℕ → ℤ

abbrev pub set_status_of : ℕ → ℤ → Statuses → Statuses
set_status_of e s st i = if i == e then s else st i

abbrev pub set_statuses : List ℕ → ℤ → Statuses → Statuses
set_statuses [] s st = st
set_statuses (e ∷ es) s st = set_statuses es s (set_status_of e s st)

-- The events of a command: its own, and those of the commands of a batch.
abbrev pub events : Command → List ℕ
events c = c.event ∷ c.members

-- `set_event_status`, also that of a batch.
pub set_event_status : Command → ℤ → Statuses → Statuses
set_event_status c s st = set_statuses (events c) s st

-- `wait`: the status that it returns, or `none` while it blocks. Its one wait on the condition
-- variable may also be woken `early`, when the status is not final, and the status is not tested
-- again.
pub wait : Bool → ℤ → Option ℤ
wait early s = if early || is_finished s then some s else none

-- Where a thread is in `execute` of its first command: before the call; in the loop, with the
-- events that are left and the local `status`; in `do_action`.
pub data Phase : Type 0 where
  before : Phase
  waiting : List ℕ → ℤ → Phase
  acting : Phase

-- A thread in `execute_cmds`: `commands`, and the local `global_status`.
pub record Thread : Type 0 where
  pub commands : List Command
  pub phase : Phase
  pub global_status : ℤ

-- The body of the loop of `execute` on an event whose `wait` returned.
abbrev pub after_wait : ℤ → ℤ → ℤ
after_wait w status = if eqℤ w complete then status else wait_list_error

-- The first status that is not `CL_COMPLETE`, which is `CL_SUCCESS` too.
abbrev pub first_failure : ℤ → ℤ → ℤ
first_failure s global_status =
    if eqℤ s complete
    then global_status
    else if eqℤ global_status complete
    then s
    else global_status

-- The end of `execute` with its last `set_event_status`, and of the body of `execute_cmds`.
pub finish_command : ℤ → Command → List Command → Statuses → ℤ → Statuses × Thread
finish_command s c cs st global_status = (
  set_event_status c s st,
  record { commands = cs; phase = before; global_status = first_failure s global_status },
)

-- What follows the loop of `execute`: the action starts if no dependency failed.
pub start_action : ℤ → Command → List Command → Statuses → ℤ → Statuses × Thread
start_action s c cs st g =
    if eqℤ s complete
    then (
      set_event_status c running st,
      record { commands = c ∷ cs; phase = acting; global_status = g },
    )
    else finish_command s c cs st g

-- One turn of the loop of `execute`.
pub wait_for :
    Bool → ℕ → List ℕ → ℤ → Command → List Command → Statuses → ℤ → Option (Statuses × Thread)
wait_for early d ds s c cs st g = elim (wait early (st d)) [
  | none ↦ none
  | some w ↦
      some
        (st, record { commands = c ∷ cs; phase = waiting ds (after_wait w s); global_status = g })
]

-- A step of a thread; `action` is the virtual `do_action`. It is `none` for a thread that blocks,
-- or has no commands left.
pub step_phase :
    Bool
    → (Command → ℤ)
    → Phase
    → Command
    → List Command
    → Statuses
    → ℤ
    → Option (Statuses × Thread)
step_phase early action before c cs st g =
    some (st, record { commands = c ∷ cs; phase = waiting c.deps complete; global_status = g })
step_phase early action (waiting [] s) c cs st g = some (start_action s c cs st g)
step_phase early action (waiting (d ∷ ds) s) c cs st g = wait_for early d ds s c cs st g
step_phase early action acting c cs st g = some (finish_command (action c) c cs st g)

pub step_commands :
    Bool → (Command → ℤ) → List Command → Phase → Statuses → ℤ → Option (Statuses × Thread)
step_commands early action [] p st g = none
step_commands early action (c ∷ cs) p st g = step_phase early action p c cs st g

pub step_thread : Bool → (Command → ℤ) → Statuses → Thread → Option (Statuses × Thread)
step_thread early action st t = step_commands early action t.commands t.phase st t.global_status

-- All threads; those that have no commands are idle.
pub record System : Type 0 where
  pub statuses : Statuses
  pub threads : ℕ → Thread

abbrev pub update {ℓ} : {A : Type ℓ} → (ℕ → A) → ℕ → A → ℕ → A
update f i a j = if j == i then a else f j

-- Thread `i` takes a step, if it can, or if it waits and is woken early.
pub step : Bool → (Command → ℤ) → ℕ → System → System
step early action i s = elim (step_thread early action s.statuses (s.threads i)) [
  | none ↦ s
  | some r ↦ record { statuses = r.0; threads = update s.threads i r.1 }
]

-- The steps of a schedule, which names the thread of each step, and whether it is woken early.
pub run : (Command → ℤ) → List (ℕ × Bool) → System → System
run action [] s = s
run action ((i, early) ∷ is) s = run action is (step early action i s)

-- A schedule in which no thread is woken early.
abbrev pub calm : List ℕ → List (ℕ × Bool)
calm [] = []
calm (i ∷ is) = (i, false) ∷ calm is
