-- ===== src/Queue/Sizes.antt =====
-- The batch sizes of a queue under its controller.
use clvk.Common.{
  ◌≡◌, inl, refl, Bool, true, false, List, [], ◌∷◌, Option, none, some, arith, if◌then◌else◌,
}
use clvk.Codes.{Code, success}
use clvk.Controller.{Controller, update_after_empty_flush}
use clvk.Controller.Idle.{SameFirst, reset-SameFirst, update_without_batch-SameFirst}
use clvk.Queue.{
  Queue, Batch, Command, Request, Answers, push_command, batch_command, end_batch, controlled, load,
  end_current_command_batch, send_group, flush_no_lock, enqueue_batched, enqueue_alone,
  enqueue_command, add_command, current_batch, request_command, batch_is_full, group_is_full,
  end_if_full, push_built, flush_if_full, enqueue_request,
}
use clvk.Queue.Steps.{and_then_keeps}

module _ (c : Controller) where
  abbrev Kept : Queue → Type 0
  Kept q = SameFirst c q.controller

  controlled-Kept :
      (f : Controller → Controller) (q : Queue)
      → SameFirst q.controller (f q.controller)
      → Kept q
      → Kept (controlled f q)
  controlled-Kept f q h k = ground arith

  end_batch-Kept :
      (a : Answers) (from_flush : Bool) (b : Batch) (q : Queue)
      → q.command_batch ≡ none
      → Kept q
      → Kept (end_batch a from_flush b q).1
  unfolding end_batch push_command
  end_batch-Kept a from_flush b q e k = ground (
    arith,
    update_without_batch-SameFirst from_flush (load a (push_command (batch_command b) q))
        q.controller,
  )

  end_at-Kept :
      (a : Answers) (from_flush : Bool) (q : Queue) (batch : Option Batch)
      → q.command_batch ≡ batch
      → Kept q
      → Kept (end_current_command_batch a from_flush q).1
  unfolding end_current_command_batch
  end_at-Kept a from_flush q none e k = rw (e, end_current_command_batch) k
  end_at-Kept a from_flush q (some b) e k =
      rw (e, end_current_command_batch)
        (end_batch-Kept a from_flush b (record q { command_batch = none }) refl k)

  end-Kept :
      (a : Answers) (from_flush : Bool) (q : Queue)
      → Kept q
      → Kept (end_current_command_batch a from_flush q).1
  end-Kept a from_flush q k = end_at-Kept a from_flush q q.command_batch refl k

  send_at-Kept :
      (a : Answers) (q : Queue) (g : List Command) → q.group ≡ g → Kept q → Kept (send_group a q).1
  unfolding send_group
  send_at-Kept a q [] e k =
      rw (e, send_group)
        (controlled-Kept (update_after_empty_flush (load a q)) q
          (reset-SameFirst (load a q) q.controller) k)
  send_at-Kept a q (d ∷ ds) e k = rw (e, send_group) k

  flush-Kept : (a : Answers) (q : Queue) → Kept q → Kept (flush_no_lock a q).1
  unfolding flush_no_lock
  flush-Kept a q k =
      and_then_keeps Kept (end_current_command_batch a true q) (send_group a) (end-Kept a true q k)
        (λ q1 h. send_at-Kept a q1 q1.group refl h)

  if-Kept :
      (b : Bool) (t : Code × Queue) (q : Queue)
      → Kept t.1
      → Kept q
      → Kept (if b then t else (success, q)).1
  if-Kept true t q h k = h
  if-Kept false t q h k = k

  push-Kept : (d : Command) (q : Queue) → Kept q → Kept (push_command d q)
  unfolding push_command
  push-Kept d q k = k

  request-Kept :
      (a : Answers) (r : Request) (q : Queue) (b : Bool)
      → Kept q
      → Kept (if b then enqueue_batched a r q else enqueue_alone a r q).1
  unfolding enqueue_batched enqueue_alone
  request-Kept a r q true k =
      let (e, b) = add_command a r.id (current_batch a q) in
      and_then_keeps Kept (e, record q { command_batch = some b }) (end_if_full a) k
        (λ q1 h.
          if-Kept (batch_is_full q1) (end_current_command_batch a false q1) q1
            (end-Kept a false q1 h) h)
  request-Kept a r q false k =
      and_then_keeps Kept (end_current_command_batch a true q) (push_built a r)
        (end-Kept a true q k)
        (λ q1 h.
          and_then_keeps Kept (if r.is_built_before_enqueue then success else a.build, q1)
            (λ q2. (success, push_command (request_command r) q2)) h
            (push-Kept (request_command r)))

  enqueue-Kept : (a : Answers) (r : Request) (q : Queue) → Kept q → Kept (enqueue_command a r q).1
  unfolding enqueue_command
  enqueue-Kept a r q k =
      and_then_keeps Kept (enqueue_request a r q) (flush_if_full a)
        (request-Kept a r q r.can_be_batched k)
        (λ q1 h. if-Kept (group_is_full q1) (flush_no_lock a q1) q1 (flush-Kept a q1 h) h)

-- A call on a queue.
pub data Call : Type 0 where
  enqueues : Answers → Request → Call
  flushes : Answers → Call

pub call : Call → Queue → Queue
call (enqueues a r) q = (enqueue_command a r q).1
call (flushes a) q = (flush_no_lock a q).1

-- The calls in turn.
pub run : List Call → Queue → Queue
run [] q = q
run (k ∷ ks) q = run ks (call k q)

call-Kept : (c : Controller) (k : Call) (q : Queue) → Kept c q → Kept c (call k q)
unfolding call
call-Kept c (enqueues a r) q h = enqueue-Kept c a r q h
call-Kept c (flushes a) q h = flush-Kept c a q h

run-Kept : (c : Controller) (ks : List Call) (q : Queue) → Kept c q → Kept c (run ks q)
unfolding run
run-Kept c [] q h = h
run-Kept c (k ∷ ks) q h = run-Kept c ks (call k q) (call-Kept c k q h)

-- Whatever is enqueued and flushed, and whatever the driver and the executor answer, the size of a
-- first batch, its limit, the hits of that limit and the limit of a batch stay as they were, and no
-- size of a batch is noted: the last size stays, or is 0. The size of a batch may still grow.
pub run-SameFirst : (ks : List Call) (q : Queue) → SameFirst q.controller (run ks q).controller
run-SameFirst ks q = run-Kept q.controller ks q (refl, refl, refl, refl, inl refl)
