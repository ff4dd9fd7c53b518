-- ===== src/Program/Build/Calls.antt =====
-- Builds of a program one after the other, on threads of their own or not.
pub mod Counts
pub mod Balance
use clvk.Common.{
  ℕ, ◌+◌, ◌-◌, ◌≤◌, ◌≡◌, refl, sym, ap, ◌∙◌, subst, subst₂, ap₂, ◌<◌, inl, inr, true, false, ◌&&◌,
  ◌||◌, not, List, [], ◌∷◌, none, some, arith, ◌==◌, if◌then◌else◌, Bool-cases,
}
use clvk.Program.State.{BuildStatus, type_executable, build_in_progress, DevStatus, set_dev_status}
use clvk.Program.Build.{
  Builder, Request, Answers, in_progress, is_success, is_build_binary, Input, build_devices,
  mark_devices, add_inputs, set_own_options, prepare, mark_in_progress, begin_build, do_build_inner,
  complete_operation, after_inner, do_build, build_and_wait, build_outcome, set_device_status,
  call_callback, release,
}

-- The program, and the threads that build it: those that have not set the status, those that have
-- but have not read the callback, and those that have only their reference to give back.
pub record Builds : Type 0 where
  pub builder : Builder
  pub building : ℕ
  pub calling : ℕ
  pub releasing : ℕ

-- A call of `build`, and the steps of a thread: `do_build` up to the status, which nothing else
-- changes meanwhile, the callback, and the release.
pub data Call : Type 0 where
  start : Request → Answers → Call
  finish : Answers → Call
  notify drop_reference : Call

-- `build`, with the thread that it starts for a callback. It holds the lock, a build that waits
-- too.
pub start_build : Request → Answers → Builds → Builds
start_build r a s =
    if r.callback
    then elim (begin_build r s.builder) [
      | none ↦ s
      | some b ↦ record s { builder = b; building = s.building + 1 }
    ]
    else record s { builder = (build_and_wait r a s.builder).0 }

pub finish_build : Answers → Builds → Builds
finish_build a s =
    if s.building == 0
    then s
    else let (b, status) = build_outcome a s.builder in
      record s {
        builder = set_device_status status b;
        building = s.building - 1;
        calling = s.calling + 1;
      }

pub notify_user : Builds → Builds
notify_user s = if s.calling == 0 then s else record s {
  builder = call_callback s.builder;
  calling = s.calling - 1;
  releasing = s.releasing + 1;
}

pub release_thread : Builds → Builds
release_thread s =
    if s.releasing == 0
    then s
    else record s { builder = release s.builder; releasing = s.releasing - 1 }

pub call : Call → Builds → Builds
call (start r a) s = start_build r a s
call (finish a) s = finish_build a s
call notify s = notify_user s
call drop_reference s = release_thread s

-- The call is a build with a callback that is not refused.
pub is_promised : Call → Builds → ℕ
is_promised (start r a) s =
    if r.callback && not (in_progress s.builder.program.dev_status) then 1 else 0
is_promised c s = 0

-- The calls in turn, and how many of the callbacks that they were given are due.
pub run_calls : List Call → Builds → ℕ → Builds × ℕ
run_calls [] s n = (s, n)
run_calls (c ∷ cs) s n = run_calls cs (call c s) (n + is_promised c s)

-- At most one thread has not set the status, and no build starts meanwhile; each thread has a
-- reference; and no more callbacks are called, or left to the threads, than were given.
pub record Balanced (references due : ℕ) (s : Builds) : Type 0 where
  pub single : s.building ≤ 1
  pub busy : s.building ≡ 1 → in_progress s.builder.program.dev_status ≡ true
  pub counted : s.builder.refcount ≡ references + (s.building + (s.calling + s.releasing))
  pub told : s.builder.notified + (s.building + s.calling) ≤ due
