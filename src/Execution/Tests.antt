-- ===== src/Execution/Tests.antt =====
-- The theorems on threads at two of them: an executor with a batch and a command that waits for the
-- command of the other, which fails.
use clvk.Common.{
  ℕ, zero, suc, ◌<◌, ◌≡◌, refl, ◌⊎◌, inl, inr, true, false, List, [], ◌∷◌, arith, ◌==◌,
  if◌then◌else◌, Bool-cases, none, some, subst, sym,
}
use clvk.Event.{ℤ, negsuc, complete, queued, is_finished}
use clvk.Queue.{Queue, Command}
use clvk.Queue.Order.{IsChained, pushed}
use clvk.Execution.{
  calm, waiting, Statuses, before, Thread, System, events, run, step, step_thread, step_commands,
  step_phase, start_action, finish_command, wait_for, wait, set_event_status, wait_list_error,
}
use clvk.Execution.Effects.{is_in, Progress, IsFresh, outcome}
use clvk.Execution.Invariant.{In, Pending, Settled, Sorted}
use clvk.Execution.Outcomes.{Given, IsStart, Idle, run-Settled, runs_agree}
use clvk.Execution.Work.{IdleFrom, run-IdleFrom}
use clvk.Execution.Early.{turns, early_wake_fails}

abbrev batch : Command
batch = record { event = 1; deps = []; members = 10 ∷ [] }

abbrev failing : Command
failing = record { event = 2; deps = 1 ∷ []; members = [] }

abbrev last : Command
last = record { event = 3; deps = 2 ∷ 0 ∷ []; members = [] }

abbrev thread : List Command → Thread
thread cs = record { commands = cs; phase = before; global_status = complete }

abbrev two_threads : ℕ → Thread
two_threads zero = thread (batch ∷ last ∷ [])
two_threads (suc zero) = thread (failing ∷ [])
two_threads (suc (suc i)) = thread []

abbrev before_all : Statuses
before_all e = if e == 0 then complete else queued

abbrev system : System
system = record { statuses = before_all; threads = two_threads }

abbrev action : Command → ℤ
action c = if c.event == 2 then negsuc 4 else complete

abbrev owner : ℕ → ℕ
owner e = if e == 10 then 1 else e

action_finishes : (c : Command) → is_finished (action c) ≡ true
unfolding is_finished
action_finishes c = ground arith

system-Sorted : (i : ℕ) → Sorted owner (two_threads i).commands
system-Sorted zero = ground arith
system-Sorted (suc zero) = ground arith
system-Sorted (suc (suc i)) = tt

system-apart :
    (i j : ℕ) (c d : Command)
    → In c (two_threads i).commands
    → In d (two_threads j).commands
    → owner c.event ≡ owner d.event
    → i ≡ j
system-apart zero zero c d m k e = refl
system-apart zero (suc zero) c d m k e = ground arith
system-apart zero (suc (suc j)) c d m k e = absurd k
system-apart (suc zero) zero c d m k e = ground arith
system-apart (suc zero) (suc zero) c d m k e = refl
system-apart (suc zero) (suc (suc j)) c d m k e = absurd k
system-apart (suc (suc i)) j c d m k e = absurd m

system-owned :
    (i : ℕ) (c : Command)
    → In c (two_threads i).commands
    → (e : ℕ) → is_in (events c) e ≡ true
    → owner e ≡ owner c.event
system-owned zero c m e h = ground arith
system-owned (suc zero) c m e h = ground arith
system-owned (suc (suc i)) c m e h = absurd m

system-IsFresh : (i : ℕ) (c : Command) → In c (two_threads i).commands → IsFresh before_all c
unfolding is_finished
system-IsFresh zero c m e h = ground arith
system-IsFresh (suc zero) c m e h = ground arith
system-IsFresh (suc (suc i)) c m e h = absurd m

system-earlier :
    (i : ℕ) (c : Command)
    → In c (two_threads i).commands
    → (d : ℕ) → is_in c.deps d ≡ true
    → owner d < owner c.event
system-earlier zero c m d h = ground arith
system-earlier (suc zero) c m d h = ground arith
system-earlier (suc (suc i)) c m d h = absurd m

system-known :
    (i : ℕ) (c : Command)
    → In c (two_threads i).commands
    → (d : ℕ) → is_in c.deps d ≡ true
    → (is_finished (before_all d) ≡ true) ⊎ Pending two_threads d
unfolding is_finished
system-known zero c m d h = elim (Bool-cases (d == 0)) [
  | inl e ↦ inl (ground arith)
  | inr e ↦ inr (1, failing, inl refl, ground arith)
]
system-known (suc zero) c m d h = inr (0, batch, inl refl, ground arith)
system-known (suc (suc i)) c m d h = absurd m

system_unbegun : (i : ℕ) → Progress before_all (two_threads i).phase (two_threads i).commands
system_unbegun zero = tt
system_unbegun (suc zero) = tt
system_unbegun (suc (suc i)) = tt

system-IdleFrom : IdleFrom 2 system
system-IdleFrom zero h = absurd (omega arith)
system-IdleFrom (suc zero) h = absurd (omega arith)
system-IdleFrom (suc (suc i)) h = refl

failing_left : Given (run action (calm (1 ∷ 1 ∷ [])) system) failing
unfolding run step step_thread step_commands step_phase start_action finish_command wait_for wait
    is_finished set_event_status
failing_left = (1, inl refl)

system-IsStart : IsStart action owner system
system-IsStart = record {
  sorted = system-Sorted;
  apart = system-apart;
  owned = system-owned;
  fresh = system-IsFresh;
  earlier = system-earlier;
  known = system-known;
  progress = system_unbegun;
  history = λ c g. inl g;
}

-- Two schedules that end all commands: the last command waits in vain in the second.
abbrev one_by_one : List ℕ
one_by_one = 0 ∷ 0 ∷ 0 ∷ 1 ∷ 1 ∷ 1 ∷ 1 ∷ 0 ∷ 0 ∷ 0 ∷ 0 ∷ []

abbrev interleaved : List ℕ
interleaved = 1 ∷ 1 ∷ 0 ∷ 0 ∷ 0 ∷ 0 ∷ 0 ∷ 1 ∷ 1 ∷ 1 ∷ 0 ∷ 0 ∷ 0 ∷ []

one_by_one-Idle : Idle (run action (calm one_by_one) system)
unfolding run step step_thread step_commands step_phase start_action finish_command wait_for wait
    is_finished set_event_status
one_by_one-Idle zero = refl
one_by_one-Idle (suc zero) = refl
one_by_one-Idle (suc (suc i)) =
    run-IdleFrom action 2 one_by_one system system-IdleFrom (suc (suc i)) (omega arith)

interleaved-Idle : Idle (run action (calm interleaved) system)
unfolding run step step_thread step_commands step_phase start_action finish_command wait_for wait
    is_finished set_event_status
interleaved-Idle zero = refl
interleaved-Idle (suc zero) = refl
interleaved-Idle (suc (suc i)) =
    run-IdleFrom action 2 interleaved system system-IdleFrom (suc (suc i)) (omega arith)

last_fails : (run action (calm interleaved) system).statuses 3 ≡ wait_list_error
unfolding run step step_thread step_commands step_phase start_action finish_command wait_for wait
    is_finished set_event_status
last_fails = refl

run-Settled_example : Settled action (run action (calm one_by_one) system).statuses last
run-Settled_example =
    run-Settled action action_finishes owner system system-IsStart one_by_one last one_by_one-Idle
      (0, inr (inl refl))

runs_agree_example :
    (run action (calm one_by_one) system).statuses 10
    ≡ (run action (calm interleaved) system).statuses 10
runs_agree_example =
    runs_agree action action_finishes owner system system-IsStart one_by_one interleaved
      one_by_one-Idle interleaved-Idle 10 (0, batch, inl refl, refl)

-- A queue that was sent a batch that fails, and then a command that waits for it.
abbrev flushed : Queue
flushed = record {
  group = [];
  command_batch = none;
  finish_event = some 2;
  has_executor = true;
  sent = (batch ∷ []) ∷ (failing ∷ []) ∷ [];
  nb_batch_in_flight = 0;
  nb_group_in_flight = 0;
  max_cmd_group_size = 1;
  max_first_cmd_group_size = 1;
  dynamic_batches = false;
  controller = record {
    max_cmd_batch_size_limit = 100;
    first_limit = 10;
    first_limit_hit = 0;
    last_batch_size = 0;
    no_batch_in_flight = false;
    executor_idle = false;
    max_cmd_batch_size = 100;
    max_first_cmd_batch_size = 10;
  };
}

abbrev device_lost : Command → ℤ
device_lost c = negsuc 4

abbrev after_failure : Statuses
after_failure e = if e == 2 then wait_list_error else negsuc 4

flushed-IsChained : IsChained flushed
flushed-IsChained = record { linked = (tt, (([], refl), tt)); finish = refl }

flushed-Settled : (d : Command) → In d (pushed flushed) → Settled device_lost after_failure d
unfolding outcome is_finished
flushed-Settled d (inl e) =
    subst (Settled device_lost after_failure) (sym e) (λ x h. ground arith, λ x h. ground arith)
flushed-Settled d (inr (inl e)) =
    subst (Settled device_lost after_failure) (sym e) (λ x h. ground arith, λ x h. ground arith)
flushed-Settled d (inr (inr m)) = absurd m

-- The last command waits on a thread of its own for one that has not begun.
abbrev woken : System
woken = record {
  statuses = before_all;
  threads = λ i.
      if i == 1
      then record {
        commands = last ∷ [];
        phase = waiting (2 ∷ 0 ∷ []) complete;
        global_status = complete;
      }
      else two_threads i;
}

event_0_finished : (x : ℕ) → is_in (0 ∷ []) x ≡ true → is_finished (before_all x) ≡ true
unfolding is_finished
event_0_finished x m = ground arith

early_wake_fails_example :
    (run action ((1, true) ∷ calm (turns 1 (0 ∷ []))) woken).statuses 3 ≡ wait_list_error
early_wake_fails_example =
    early_wake_fails action 1 last [] complete 2 (0 ∷ []) complete woken 3 refl refl
      (λ x m. event_0_finished x m) refl
