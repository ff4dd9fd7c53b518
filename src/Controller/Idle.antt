-- ===== src/Controller/Idle.antt =====
-- What the controller does when the queue has no current batch.
use clvk.Common.{◌≡◌, ◌⊎◌, Bool, true, false, none, arith}
use clvk.Controller.{
  Controller, Load, reset_after_flush, update_after_empty_flush,
  update_after_end_current_command_batch,
}

-- Only the size of a batch, the notes since the last flush, and a last size that was reset to 0
-- may differ.
abbrev pub SameFirst : Controller → Controller → Type 0
SameFirst c d =
    (d.max_cmd_batch_size_limit ≡ c.max_cmd_batch_size_limit)
    × (d.first_limit ≡ c.first_limit)
    × (d.first_limit_hit ≡ c.first_limit_hit)
    × (d.max_first_cmd_batch_size ≡ c.max_first_cmd_batch_size)
    × ((d.last_batch_size ≡ c.last_batch_size) ⊎ (d.last_batch_size ≡ 0))

pub reset-SameFirst : (q : Load) (c : Controller) → SameFirst c (update_after_empty_flush q c)
unfolding update_after_empty_flush reset_after_flush
reset-SameFirst q c = ground arith

pub update_without_batch-SameFirst :
    (from_flush : Bool) (q : Load) (c : Controller)
    → q.batch ≡ none
    → SameFirst c (update_after_end_current_command_batch from_flush q c)
unfolding update_after_end_current_command_batch reset_after_flush
update_without_batch-SameFirst true q c e =
    rw (e, update_after_end_current_command_batch) (ground arith)
update_without_batch-SameFirst false q c e =
    rw (e, update_after_end_current_command_batch) (ground arith)
