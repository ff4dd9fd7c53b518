-- ===== src/Execution/Early.antt =====
-- A wait that is woken early.
use clvk.Common.{
  ℕ, ◌≡◌, refl, ap, ◌∙◌, inl, inr, Bool, true, false, List, [], ◌∷◌, some, arith, Bool-cases,
}
use clvk.Event.{ℤ, complete, eqℤ, is_finished}
use clvk.Queue.{Command}
use clvk.Execution.{
  calm, waiting, Thread, System, events, update, wait_list_error, after_wait, wait, wait_for,
  start_action, finish_command, step_phase, step_commands, step_thread, step, run,
}
use clvk.Execution.Effects.{is_in, AllFinished, set_event_status_lem}

-- The turns of thread `i` that go through the events that are left.
abbrev pub turns : ℕ → List ℕ → List ℕ
turns i [] = i ∷ []
turns i (d ∷ ds) = i ∷ turns i ds

module _ (action : Command → ℤ) (i : ℕ) (c : Command) (cs : List Command) (g : ℤ) where
  abbrev pub waits : List ℕ → ℤ → Thread
  waits ds v = record { commands = c ∷ cs; phase = waiting ds v; global_status = g }

  after_wait-failed : (w : ℤ) → after_wait w wait_list_error ≡ wait_list_error
  after_wait-failed w = elim (Bool-cases (eqℤ w complete)) [ inl e ↦ rw e | inr e ↦ rw e ]

  -- A wait returns when it is woken early, or when the event is finished.
  step-waits :
      (early : Bool) (d : ℕ) (ds : List ℕ) (v : ℤ) (s : System)
      → s.threads i ≡ waits (d ∷ ds) v
      → wait early (s.statuses d) ≡ some (s.statuses d)
      → step early action i s ≡ record {
        statuses = s.statuses;
        threads = update s.threads i (waits ds (after_wait (s.statuses d) v));
      }
  unfolding step step_thread step_commands step_phase wait_for
  step-waits early d ds v s at w =
      rw (step, step_thread, at, step_commands, step_phase, wait_for, w) refl

  ends-failed :
      (s : System) (e : ℕ)
      → s.threads i ≡ waits [] wait_list_error
      → is_in (events c) e ≡ true
      → (step false action i s).statuses e ≡ wait_list_error
  unfolding step step_thread step_commands step_phase start_action finish_command
  ends-failed s e at m =
      rw (step, step_thread, at, step_commands, step_phase)
        (set_event_status_lem c wait_list_error s.statuses e ∙ rw m refl)

  rest-failed :
      (ds : List ℕ) (s : System) (e : ℕ)
      → s.threads i ≡ waits ds wait_list_error
      → AllFinished s.statuses ds
      → is_in (events c) e ≡ true
      → (run action (calm (turns i ds)) s).statuses e ≡ wait_list_error
  unfolding run wait
  rest-failed [] s e at over m = ends-failed s e at m
  rest-failed (d ∷ ds) s e at over m =
      let done : is_finished (s.statuses d) ≡ true = over d (ground arith) in
      let new =
        step-waits false d ds wait_list_error s at (rw done refl)
        ∙ ap (λ v. record { statuses = s.statuses; threads = update s.threads i (waits ds v) })
            (after_wait-failed (s.statuses d)) in
      ap (λ t. (run action (calm (turns i ds)) t).statuses e) new
      ∙ rest-failed ds
          (record {
            statuses = s.statuses;
            threads = update s.threads i (waits ds wait_list_error);
          })
          e (ground arith) (λ x k. over x (ground arith)) m

  -- A command whose wait for an event that is not complete is woken early fails: when its thread
  -- has gone on through the other dependencies, which are finished, its events have
  -- CL_EXEC_STATUS_ERROR_FOR_EVENTS_IN_WAIT_LIST, although the event may still complete.
  pub early_wake_fails :
      (d : ℕ) (ds : List ℕ) (v : ℤ) (s : System) (e : ℕ)
      → s.threads i ≡ waits (d ∷ ds) v
      → eqℤ (s.statuses d) complete ≡ false
      → AllFinished s.statuses ds
      → is_in (events c) e ≡ true
      → (run action ((i, true) ∷ calm (turns i ds)) s).statuses e ≡ wait_list_error
  unfolding run wait
  early_wake_fails d ds v s e at waits_for over m =
      let new =
        step-waits true d ds v s at refl
        ∙ ap (λ w. record { statuses = s.statuses; threads = update s.threads i (waits ds w) })
            (rw waits_for refl) in
      ap (λ t. (run action (calm (turns i ds)) t).statuses e) new
      ∙ rest-failed ds
          (record {
            statuses = s.statuses;
            threads = update s.threads i (waits ds wait_list_error);
          })
          e (ground arith) over m
