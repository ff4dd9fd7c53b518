-- ===== src/Queue/Failures.antt =====
-- What a failure of the driver leaves behind.
use clvk.Common.{
  ℕ, ◌≡◌, ◌≢◌, refl, Bool, true, false, List, [], ◌∷◌, ◌++◌, none, some, arith, length, ◌==◌,
}
use clvk.Codes.{success, out_of_resources}
use clvk.Queue.{
  Queue, Batch, Answers, absent, unbegun, add_command, build_into, end_batch,
  end_current_command_batch, flush_no_lock,
}

length-ne {ℓ} : {A : Type ℓ} (xs : List A) → xs ≢ [] → (length xs == 0) ≡ false
length-ne [] ne = absurd (ne refl)
length-ne (x ∷ xs) ne = ground arith

end_drops_batch :
    (a : Answers) (from_flush : Bool) (q : Queue) (b : Batch)
    → a.end_ok ≡ false
    → q.command_batch ≡ some b
    → b.commands ≢ []
    → end_current_command_batch a from_flush q
      ≡ (out_of_resources, record q { command_batch = none })
unfolding end_current_command_batch end_batch
end_drops_batch a from_flush q b bad e ne =
    let some_left : (length b.commands == 0) ≡ false = length-ne b.commands ne in
    rw (e, end_current_command_batch, bad, some_left)

-- A flush whose batch has commands, and whose command buffer the driver cannot end, returns
-- CL_OUT_OF_RESOURCES and drops the batch with all its commands, although each of their enqueues
-- returned CL_SUCCESS; nothing else changes, and nothing is sent.
flush_drops_batch :
    (a : Answers) (q : Queue) (b : Batch)
    → a.end_ok ≡ false
    → q.command_batch ≡ some b
    → b.commands ≢ []
    → flush_no_lock a q ≡ (out_of_resources, record q { command_batch = none })
unfolding flush_no_lock
flush_drops_batch a q b bad e ne = rw (end_drops_batch a true q b bad e ne)

-- When the command buffer of a new batch cannot begin, the enqueue fails, but the batch keeps the
-- command buffer: when the command is enqueued again and can be built, it is accepted into a
-- command buffer that never began, whether or not a command buffer could begin by then.
pub retry_into_unbegun :
    (a again : Answers) (id : ℕ) (b : Batch)
    → b.buffer ≡ absent
    → a.begin_ok ≡ false
    → again.build ≡ success
    → let (e, b1) = add_command a id b in
      let (e', b2) = add_command again id b1 in
      (e ≡ out_of_resources)
      × (e' ≡ success)
      × (b2.buffer ≡ unbegun)
      × (b2.commands ≡ b.commands ++ (id ∷ []))
unfolding add_command build_into
retry_into_unbegun a again id b e f g = ground arith
