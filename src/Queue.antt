-- ===== src/Queue.antt =====
-- `cvk_command_queue` of src/queue.cpp: batches, the current group, and flushes. The lock is held
-- over each operation, so an operation is one step. `m_groups` holds one group at all times (the
-- constructor adds it, a flush replaces it), which is `group` here. Commands and events are known
-- by the number of their event.
pub mod Steps
pub mod Contents
pub mod Order
pub mod Sizes
pub mod Failures
mod Tests
use clvk.Common.{
  ℕ, suc, ◌+◌, ◌≡◌, Bool, true, false, ◌&&◌, ◌||◌, not, List, [], ◌∷◌, ◌++◌, Option, none, some,
  leb, ◌==◌, if◌then◌else◌, length, u64,
}
use clvk.Codes.{Code, success, out_of_resources}
use clvk.Controller.{
  Controller, Load, update_after_end_current_command_batch, update_after_empty_flush,
}

-- A `cvk_command`: its event, the events that it waits for, and the commands of the user that it
-- carries: itself, or those of a batch.
pub record Command : Type 0 where
  pub event : ℕ
  pub deps : List ℕ
  pub members : List ℕ

-- A command that the user enqueues.
pub record Request : Type 0 where
  pub id : ℕ
  pub waits : List ℕ
  pub can_be_batched : Bool
  pub is_built_before_enqueue : Bool

-- The command buffer of a batch: not created, created and recording, or created by a `begin` that
-- failed.
pub data Buffer : Type 0 where
  absent recording unbegun : Buffer

-- `cvk_command_batch`.
pub record Batch : Type 0 where
  pub batch_event : ℕ
  pub buffer : Buffer
  pub commands : List ℕ

pub record Queue : Type 0 where
  pub group : List Command
  pub command_batch : Option Batch
  pub finish_event : Option ℕ
  pub has_executor : Bool
  pub sent : List (List Command)
  pub nb_batch_in_flight : ℕ
  pub nb_group_in_flight : ℕ
  pub max_cmd_group_size : ℕ
  pub max_first_cmd_group_size : ℕ
  pub dynamic_batches : Bool
  pub controller : Controller

-- What the Vulkan driver and the allocator answer during a call, and what the controller reads.
pub record Answers : Type 0 where
  pub begin_ok : Bool
  pub build : Code
  pub end_ok : Bool
  pub fresh_event : ℕ
  pub executor_idle : Bool
  pub device_first : ℕ

abbrev pub batch_size : Option Batch → ℕ
batch_size none = 0
batch_size (some b) = length b.commands

abbrev pub last_event : List Command → Option ℕ
last_event [] = none
last_event (c ∷ []) = some c.event
last_event (c ∷ d ∷ cs) = last_event (d ∷ cs)

-- The event that the next command of the queue has to wait for.
abbrev pub previous_event : Queue → Option ℕ
previous_event q = elim (last_event q.group) [ none ↦ q.finish_event | some e ↦ some e ]

abbrev pub add_dependency : Option ℕ → Command → Command
add_dependency none c = c
add_dependency (some e) c = record c { deps = c.deps ++ (e ∷ []) }

-- `void enqueue_command(cvk_command*)`.
pub push_command : Command → Queue → Queue
push_command c q = record q { group = q.group ++ (add_dependency (previous_event q) c ∷ []) }

-- The rest of `add_command`: the command is built into the command buffer, and kept.
pub build_into : Answers → ℕ → Batch → Code × Batch
build_into a id b = elim a.build [
  | success ↦ (success, record b { commands = b.commands ++ (id ∷ []) })
  | e ↦ (e, b)
]

-- `cvk_command_batch::add_command`.
pub add_command : Answers → ℕ → Batch → Code × Batch
add_command a id b = elim b.buffer [
  | absent ↦
      if a.begin_ok
      then build_into a id (record b { buffer = recording })
      else (out_of_resources, record b { buffer = unbegun })
  | recording ↦ build_into a id b
  | unbegun ↦ build_into a id b
]

abbrev pub load : Answers → Queue → Load
load a q = record {
  in_flight = q.nb_batch_in_flight;
  batch = elim q.command_batch [ none ↦ none | some b ↦ some (length b.commands) ];
  executor = if q.has_executor then some a.executor_idle else none;
  device_first = a.device_first;
}

-- The loop over the controllers: there is one if batches are dynamic.
abbrev pub controlled : (Controller → Controller) → Queue → Queue
controlled f q = if q.dynamic_batches then record q { controller = f q.controller } else q

abbrev pub batch_command : Batch → Command
batch_command b = record { event = b.batch_event; deps = []; members = b.commands }

-- The end of a batch that is no longer in the queue.
pub end_batch : Answers → Bool → Batch → Queue → Code × Queue
end_batch a from_flush b q =
    if length b.commands == 0
    then (success, q)
    else if not a.end_ok
    then (out_of_resources, q)
    else (let pushed = push_command (batch_command b) q in
        let updated =
          controlled (update_after_end_current_command_batch from_flush (load a pushed)) pushed in
        (success, record updated { nb_batch_in_flight = u64 (updated.nb_batch_in_flight + 1) }))

-- `end_current_command_batch`: the batch is moved out of the queue first.
pub end_current_command_batch : Answers → Bool → Queue → Code × Queue
end_current_command_batch a from_flush q = elim q.command_batch [
  | none ↦ (success, record q { command_batch = none })
  | some b ↦ end_batch a from_flush b (record q { command_batch = none })
]

-- `if (err != CL_SUCCESS) return err;`
abbrev pub and_then : Code × Queue → (Queue → Code × Queue) → Code × Queue
and_then (success, q) k = k q
and_then (e, q) k = (e, q)

-- The part of `flush_no_lock` after the batch is ended.
pub send_group : Answers → Queue → Code × Queue
send_group a q = elim q.group [
  | [] ↦ (success, controlled (update_after_empty_flush (load a q)) q)
  | c ∷ cs ↦ (
    success,
    record q {
      group = [];
      finish_event = last_event (c ∷ cs);
      has_executor = true;
      sent = q.sent ++ ((c ∷ cs) ∷ []);
      nb_group_in_flight = u64 (q.nb_group_in_flight + 1);
    },
  )
]

pub flush_no_lock : Answers → Queue → Code × Queue
flush_no_lock a q = and_then (end_current_command_batch a true q) (send_group a)

-- The batch is ended when it is large enough.
pub batch_is_full : Queue → Bool
batch_is_full q =
    leb q.controller.max_cmd_batch_size (batch_size q.command_batch)
    || (q.nb_batch_in_flight == 0
        && leb q.controller.max_first_cmd_batch_size (batch_size q.command_batch))

pub group_is_full : Queue → Bool
group_is_full q =
    leb q.max_cmd_group_size (length q.group)
    || (q.nb_group_in_flight == 0 && leb q.max_first_cmd_group_size (length q.group))

abbrev pub current_batch : Answers → Queue → Batch
current_batch a q = elim q.command_batch [
  | none ↦ record { batch_event = a.fresh_event; buffer = absent; commands = [] }
  | some b ↦ b
]

abbrev pub end_if_full : Answers → Queue → Code × Queue
end_if_full a q = if batch_is_full q then end_current_command_batch a false q else (success, q)

pub enqueue_batched : Answers → Request → Queue → Code × Queue
enqueue_batched a r q =
    let (e, b) = add_command a r.id (current_batch a q) in
    and_then (e, record q { command_batch = some b }) (end_if_full a)

abbrev pub request_command : Request → Command
request_command r = record { event = r.id; deps = r.waits; members = r.id ∷ [] }

-- A command that was not built before is built into a command buffer of its own.
abbrev pub push_built : Answers → Request → Queue → Code × Queue
push_built a r q =
    and_then (if r.is_built_before_enqueue then success else a.build, q)
      (λ q1. (success, push_command (request_command r) q1))

pub enqueue_alone : Answers → Request → Queue → Code × Queue
enqueue_alone a r q = and_then (end_current_command_batch a true q) (push_built a r)

abbrev pub flush_if_full : Answers → Queue → Code × Queue
flush_if_full a q = if group_is_full q then flush_no_lock a q else (success, q)

abbrev pub enqueue_request : Answers → Request → Queue → Code × Queue
enqueue_request a r q = if r.can_be_batched then enqueue_batched a r q else enqueue_alone a r q

-- `cl_int enqueue_command(cvk_command*, _cl_event**)`, from where the lock is taken.
pub enqueue_command : Answers → Request → Queue → Code × Queue
enqueue_command a r q = and_then (enqueue_request a r q) (flush_if_full a)
