-- ===== src/Event/Tests.antt =====
-- The theorems on events at concrete histories.
use clvk.Common.{◌+◌, ◌≡◌, refl, true, [], ◌∷◌}
use clvk.Event.{
  pos, Event, create, is_finished, register_callback, set_status, flatten, push_callback,
}
use clvk.Event.Callbacks.{
  History, created, registered, moved, count, ran, pending, callbacks_run_once,
}

-- A callback for CL_RUNNING waits until the event finishes.
deferred :
    (ran (set_status (pos 1) (register_callback (pos 1) 7 (create true))) ≡ [])
    × ((set_status (pos 0) (set_status (pos 1) (register_callback (pos 1) 7 (create true)))).calls
        ≡ (7, pos 0) ∷ [])
unfolding create register_callback set_status is_finished flatten push_callback
deferred = (refl, refl)

run_of_an_event :
    History
      (8 ∷ 7 ∷ [])
      (register_callback (pos 0) 8 (set_status (pos 0) (register_callback (pos 1) 7 (create true))))
unfolding create register_callback is_finished
run_of_an_event =
    registered (pos 0) 8 refl (moved (pos 0) refl (registered (pos 1) 7 refl (created true)))

callbacks_run_once_example :
    count 7 (
        ran (
          register_callback
            (pos 0)
            8
            (set_status (pos 0) (register_callback (pos 1) 7 (create true)))))
      + count 7 (
          pending (
            register_callback
              (pos 0)
              8
              (set_status (pos 0) (register_callback (pos 1) 7 (create true)))))
    ≡ count 7 (8 ∷ 7 ∷ [])
callbacks_run_once_example = callbacks_run_once run_of_an_event 7

abbrev waiting : Event
waiting = record { is_user = true; status = pos 2; callbacks = (pos 0, 7 ∷ []) ∷ []; calls = [] }
