-- ===== src/Queue/Tests.antt =====
-- Runs of a queue, and the theorems at concrete inputs.
use clvk.Common.{◌≡◌, refl, true, false, List, [], ◌∷◌, none, some}
use clvk.Codes.{success}
use clvk.Controller.Idle.{SameFirst}
use clvk.Queue.{
  Queue, Batch, Request, Answers, absent, enqueue_command, flush_no_lock, enqueue_alone,
  end_current_command_batch, end_batch, send_group, push_command, group_is_full,
}
use clvk.Queue.Contents.{contents, enqueue_command_appends}
use clvk.Queue.Order.{IsChained, enqueue_and_flush-IsChained}
use clvk.Queue.Sizes.{Call, enqueues, flushes, run, run-SameFirst}

abbrev fresh : Queue
fresh = record {
  group = [];
  command_batch = none;
  finish_event = none;
  has_executor = false;
  sent = [];
  nb_batch_in_flight = 0;
  nb_group_in_flight = 0;
  max_cmd_group_size = 1000;
  max_first_cmd_group_size = 1000;
  dynamic_batches = false;
  controller = record {
    max_cmd_batch_size_limit = 100;
    first_limit = 10;
    first_limit_hit = 0;
    last_batch_size = 0;
    no_batch_in_flight = false;
    executor_idle = false;
    max_cmd_batch_size = 100;
    max_first_cmd_batch_size = 10;
  };
}

abbrev fine : Answers
fine = record {
  begin_ok = true;
  build = success;
  end_ok = true;
  fresh_event = 50;
  executor_idle = false;
  device_first = 10;
}

abbrev kernel : Request
kernel = record { id = 7; waits = 3 ∷ []; can_be_batched = true; is_built_before_enqueue = false }

abbrev read : Request
read = record { id = 8; waits = []; can_be_batched = false; is_built_before_enqueue = true }

abbrev batched : Queue
batched = record fresh {
  command_batch = some (record { batch_event = 50; buffer = absent; commands = 7 ∷ [] });
}

-- The read ends the batch, and waits for it.
batch_then_read :
    (enqueue_command fine read batched).1.group
    ≡ record { event = 50; deps = []; members = 7 ∷ [] }
      ∷ record { event = 8; deps = 50 ∷ []; members = 8 ∷ [] }
      ∷ []
unfolding enqueue_command enqueue_alone end_current_command_batch end_batch push_command
    group_is_full
batch_then_read = refl

enqueue_accepts : (enqueue_command fine read batched).0 ≡ success
unfolding enqueue_command enqueue_alone end_current_command_batch end_batch push_command
    group_is_full
enqueue_accepts = refl

enqueue_command_appends_example : contents (enqueue_command fine read batched).1 ≡ 7 ∷ 8 ∷ []
enqueue_command_appends_example = enqueue_command_appends fine read batched enqueue_accepts

flush_accepts : (flush_no_lock fine batched).0 ≡ success
unfolding flush_no_lock end_current_command_batch end_batch push_command send_group
flush_accepts = refl

enqueue_and_flush-IsChained_example :
    IsChained (enqueue_command fine kernel batched).1 × IsChained (flush_no_lock fine batched).1
enqueue_and_flush-IsChained_example =
    enqueue_and_flush-IsChained fine kernel batched (record { linked = tt; finish = refl })

abbrev calls : List Call
calls = enqueues fine kernel ∷ flushes fine ∷ enqueues fine read ∷ flushes fine ∷ []

run-SameFirst_example :
    SameFirst batched.controller (run calls (record batched { dynamic_batches = true })).controller
run-SameFirst_example = run-SameFirst calls (record batched { dynamic_batches = true })

abbrev empty_batch : Batch
empty_batch = record { batch_event = 50; buffer = absent; commands = [] }
