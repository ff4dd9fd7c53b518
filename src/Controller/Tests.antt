-- ===== src/Controller/Tests.antt =====
-- Runs of the controller, and the theorems at concrete inputs.
use clvk.Common.{◌≡◌, refl, true, false, some}
use clvk.Controller.{
  Controller, Load, update_with_batch, update_after_end_current_command_batch, adapt, finish_batch,
  clamp_max, clamp_first, order_sizes,
}

abbrev busy : Controller
busy = record {
  max_cmd_batch_size_limit = 10000;
  first_limit = 10;
  first_limit_hit = 0;
  last_batch_size = 10;
  no_batch_in_flight = false;
  executor_idle = false;
  max_cmd_batch_size = 10000;
  max_first_cmd_batch_size = 10;
}

abbrev starved : Load
starved = record { in_flight = 0; batch = some 4; executor = some true; device_first = 10 }

-- A first batch that was too small to keep the executor busy makes the next one larger.
grows : update_after_end_current_command_batch false starved busy ≡ record busy {
  first_limit = 11;
  last_batch_size = 4;
  no_batch_in_flight = true;
  executor_idle = true;
  max_cmd_batch_size = 15;
  max_first_cmd_batch_size = 15;
}
unfolding update_after_end_current_command_batch update_with_batch adapt finish_batch clamp_max
    clamp_first order_sizes
grows = refl
