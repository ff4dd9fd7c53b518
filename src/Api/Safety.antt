-- ===== src/Api/Safety.antt =====
-- Which entry points of src/api.cpp go through a null pointer, and on what arguments.
use clvk.Common.{
  ℕ, zero, suc, ◌≡◌, ◌≢◌, ◌↔◌, ◌⊎◌, inl, inr, refl, Bool, true, false, ◌&&◌, not, List, [], ◌∷◌,
  none, some, arith, ◌==◌,
}
use clvk.Codes.{Code, invalid_context, invalid_operation}
use clvk.Api.{
  MemFlags, MemObject, QueueObject, EventObject, create_command, Handle, WaitList, Verdict,
  accepted, rejected, crashed, check, ◌then_check◌, is_valid_command_queue, is_valid_buffer,
  is_valid_event, is_valid_event_wait_list, all_valid, same_context, same_context_from,
  same_context_events, check_wait_list, elements,
}
use clvk.Api.Buffers.{
  check_flags, check_if, check_range, enqueue_copy_buffer, enqueue_copy_buffer_rect,
}

pub rejected≢crashed : {e : Code} → rejected e ≢ crashed
rejected≢crashed p = ground arith

pub accepted≢crashed : accepted ≢ crashed
accepted≢crashed p = ground arith

pub check-no_crash : (b : Bool) (e : Code) → check b e ≢ crashed
check-no_crash true e = accepted≢crashed
check-no_crash false e = rejected≢crashed

pub then_check-no_crash :
    (v w : Verdict) → v ≢ crashed → (v ≡ accepted → w ≢ crashed) → v then_check w ≢ crashed
then_check-no_crash accepted w h k = k refl
then_check-no_crash (rejected e) w h k = rejected≢crashed
then_check-no_crash crashed w h k = absurd (h refl)

pub check-accepted : (b : Bool) (e : Code) → check b e ≡ accepted → b ≡ true
check-accepted true e h = refl
check-accepted false e h = ground arith

-- A passed check is known in the checks after it.
pub check_then-no_crash :
    (b : Bool) (e : Code) (w : Verdict)
    → (b ≡ true → w ≢ crashed)
    → check b e then_check w ≢ crashed
check_then-no_crash b e w k =
    then_check-no_crash (check b e) w (check-no_crash b e) (λ h. k (check-accepted b e h))

same_context_from-no_crash :
    (c n : ℕ) (es : List (Handle EventObject))
    → all_valid n es ≡ true
    → same_context_from c n es ≢ crashed
unfolding same_context_from all_valid is_valid_event
same_context_from-no_crash c zero es h = accepted≢crashed
same_context_from-no_crash c (suc n) [] h = ground arith
same_context_from-no_crash c (suc n) (none ∷ es) h = ground arith
same_context_from-no_crash c (suc n) (some e ∷ es) h =
    check_then-no_crash (c == e.context) invalid_context (same_context_from c n es)
      (λ _. same_context_from-no_crash c n es (ground arith))

wait_list_all_valid :
    (w : WaitList) → is_valid_event_wait_list w ≡ true → all_valid w.num (elements w.events) ≡ true
unfolding is_valid_event_wait_list
wait_list_all_valid w h = ground arith

-- A queue and a list of events that are valid can be compared.
pub same_context_events-no_crash :
    (q : Handle QueueObject) (w : WaitList)
    → is_valid_command_queue q ≡ true
    → is_valid_event_wait_list w ≡ true
    → same_context_events q w ≢ crashed
unfolding same_context_events is_valid_command_queue
same_context_events-no_crash none w h k = ground arith
same_context_events-no_crash (some q) w h k =
    same_context_from-no_crash q.context w.num (elements w.events) (wait_list_all_valid w k)

pub same_context-no_crash :
    (q : Handle QueueObject) (m : Handle MemObject)
    → is_valid_command_queue q ≡ true
    → is_valid_buffer m ≡ true
    → same_context q m ≢ crashed
unfolding same_context is_valid_command_queue is_valid_buffer
same_context-no_crash none m h k = ground arith
same_context-no_crash (some q) none h k = ground arith
same_context-no_crash (some q) (some m) h k =
    check-no_crash (q.context == m.context) invalid_context

-- A buffer found valid can be read.
pub check_flags-no_crash :
    (hidden : MemFlags → Bool) (b : Handle MemObject)
    → is_valid_buffer b ≡ true
    → check_flags hidden b ≢ crashed
unfolding is_valid_buffer
check_flags-no_crash hidden none h = ground arith
check_flags-no_crash hidden (some m) h = check-no_crash (not (hidden m.flags)) invalid_operation

pub check_if-no_crash : (asked : Bool) (v : Verdict) → v ≢ crashed → check_if asked v ≢ crashed
check_if-no_crash true v h = h
check_if-no_crash false v h = accepted≢crashed

pub check_range-no_crash :
    (b : Handle MemObject) (offset size : ℕ)
    → is_valid_buffer b ≡ true
    → check_range b offset size ≢ crashed
unfolding is_valid_buffer check_range
check_range-no_crash b offset zero h = rejected≢crashed
check_range-no_crash none offset (suc n) h = ground arith
check_range-no_crash (some m) offset (suc n) h = check-no_crash _ _

pub create_command-no_crash :
    (q : Handle QueueObject) → is_valid_command_queue q ≡ true → create_command q ≢ crashed
unfolding is_valid_command_queue
create_command-no_crash none h = ground arith
create_command-no_crash (some q) h = accepted≢crashed

pub ruleset no_crash = (
  check_flags-no_crash, check_if-no_crash, check_range-no_crash, create_command-no_crash,
  check-no_crash, check_then-no_crash, then_check-no_crash, same_context-no_crash,
  same_context_events-no_crash,
)

module _ (q : Handle QueueObject) (b : Handle MemObject) (w : WaitList) where
  both_valid :
      (src : Handle MemObject)
      → (is_valid_buffer src && is_valid_buffer b) ≡ true
      → (is_valid_buffer src ≡ true) × (is_valid_buffer b ≡ true)
  both_valid src h = ground arith

  copy_rect_no_crash :
      (src : Handle MemObject)
      → is_valid_command_queue q ≡ true
      → enqueue_copy_buffer_rect q src b w ≢ crashed
  unfolding enqueue_copy_buffer_rect check_wait_list
  copy_rect_no_crash src hq =
      check_then-no_crash _ _ _ (λ (hb : (is_valid_buffer src && is_valid_buffer b) ≡ true).
        search (no_crash, hq, both_valid src hb) depth 12)

copy_no_crash :
    (q : QueueObject) (s d : MemObject) (w : WaitList)
    → is_valid_event_wait_list w ≡ true
    → enqueue_copy_buffer (some q) (some s) (some d) w ≢ crashed
unfolding enqueue_copy_buffer check_wait_list same_context
copy_no_crash q s d w hw = search (no_crash, hw) depth 12

-- On a valid wait list, clEnqueueCopyBuffer goes through a null pointer exactly when its queue is
-- valid and its source is null, or its source has the queue's context and its destination is null.
copy_buffer_crashes :
    (q : Handle QueueObject) (src dst : Handle MemObject) (w : WaitList)
    → is_valid_event_wait_list w ≡ true
    → (enqueue_copy_buffer q src dst w ≡ crashed) ↔ (
        (is_valid_command_queue q ≡ true)
        × ((src ≡ none) ⊎ ((same_context q src ≡ accepted) × (dst ≡ none))))
unfolding enqueue_copy_buffer is_valid_command_queue same_context
copy_buffer_crashes none src dst w hw = ground arith
copy_buffer_crashes (some q) none dst w hw = ground arith
copy_buffer_crashes (some q) (some s) none w hw = ground arith
copy_buffer_crashes (some q) (some s) (some d) w hw =
    let never = copy_no_crash q s d w hw in ground arith

-- When its queue is valid or null, clEnqueueCopyBufferRect goes through a null pointer exactly
-- when the queue is null and both its buffers and its wait list are valid.
pub copy_rect_crashes :
    (q : Handle QueueObject) (src dst : Handle MemObject) (w : WaitList)
    → (q ≡ none) ⊎ (is_valid_command_queue q ≡ true)
    → (enqueue_copy_buffer_rect q src dst w ≡ crashed) ↔ (
        (q ≡ none)
        × ((is_valid_buffer src ≡ true)
            × ((is_valid_buffer dst ≡ true) × (is_valid_event_wait_list w ≡ true))))
unfolding enqueue_copy_buffer_rect check_wait_list same_context
copy_rect_crashes none src dst w h = ground arith
copy_rect_crashes (some q) src dst w (inl h) = ground arith
copy_rect_crashes (some q) src dst w (inr h) =
    let never = copy_rect_no_crash (some q) dst w src h in ground arith
