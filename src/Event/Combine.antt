-- ===== src/Event/Combine.antt =====
-- The status of an event that stands for a sequence of commands: `cvk_event_combine`.
use clvk.Common.{◌≡◌, ◌↔◌, ◌⊎◌, true, false, arith}
use clvk.Event.{ℤ, leℤ, complete, is_finished, combine_status}

-- While it is no error, the status of a combined event decreases with those of its two events. It
-- has finished exactly when the first event has failed or is complete or the last has finished. It
-- is CL_COMPLETE exactly when the first event has not failed, and the last event is complete, or
-- has not finished while the first is complete.
pub combine_status_lem :
    (s e s' e' : ℤ)
    → leℤ s' s ≡ true
    → leℤ e' e ≡ true
    → (leℤ complete (combine_status s e) ≡ true
        → leℤ (combine_status s' e') (combine_status s e) ≡ true)
      × (((is_finished (combine_status s e) ≡ true)
            ↔ ((leℤ complete s ≡ false) ⊎ ((is_finished e ≡ true) ⊎ (s ≡ complete))))
          × ((combine_status s e ≡ complete) ↔ (
              (leℤ complete s ≡ true)
              × ((e ≡ complete) ⊎ ((is_finished e ≡ false) × (s ≡ complete))))))
unfolding combine_status is_finished
combine_status_lem s e s' e' hs he = ground arith
