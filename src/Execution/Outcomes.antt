-- ===== src/Execution/Outcomes.antt =====
-- How the commands end, whatever the order of the steps.
use clvk.Common.{
  ℕ, zero, suc, ◌<◌, ◌≡◌, refl, sym, ◌∙◌, subst, inl, inr, true, List, [], ◌∷◌, arith,
}
use clvk.Event.{ℤ, is_finished}
use clvk.Queue.{Command}
use clvk.Execution.{calm, Statuses, System, events, run}
use clvk.Execution.Effects.{is_in, verdict, outcome}
use clvk.Execution.Invariant.{In, Pending, Settled, Inv}
use clvk.Execution.Runs.{run-Inv, run-Keeps}

-- The commands of all threads.
abbrev pub Given : System → Command → Type 0
Given s c = (i : ℕ) × In c (s.threads i).commands

-- A system at its start.
abbrev pub IsStart : (Command → ℤ) → (ℕ → ℕ) → System → Type 0
IsStart action owner s = Inv action owner (Given s) s.statuses s.threads

-- All threads are idle.
abbrev pub Idle : System → Type 0
Idle s = (i : ℕ) → (s.threads i).commands ≡ []

verdict_agrees :
    (st st' : Statuses) (ds : List ℕ)
    → ((d : ℕ) → is_in ds d ≡ true → st d ≡ st' d)
    → verdict st ds ≡ verdict st' ds
verdict_agrees st st' [] h = refl
verdict_agrees st st' (d ∷ ds) h =
    let same : st d ≡ st' d = h d (ground arith) in
    let rest = verdict_agrees st st' ds (λ e m. h e (ground arith)) in rw (same, rest)

module _ (action : Command → ℤ) (finishes : (c : Command) → is_finished (action c) ≡ true) where
  module _ (owner : ℕ → ℕ) (s : System) (start : IsStart action owner s) where
    -- A run in which no wait is woken early, of actions that finish and of commands whose
    -- dependencies were created before them, and are finished at the start or held by a thread:
    -- when no thread has commands left, each command that was given waited until its dependencies
    -- finished, and its events, those of the commands of a batch included, have the result of its
    -- action if all of the dependencies are complete, and
    -- CL_EXEC_STATUS_ERROR_FOR_EVENTS_IN_WAIT_LIST if not.
    pub run-Settled :
        (is : List ℕ) (c : Command)
        → Idle (run action (calm is) s)
        → Given s c
        → Settled action (run action (calm is) s).statuses c
    run-Settled is c idle g =
        elim ((run-Inv action owner (Given s) finishes is s start).history c g) [
          | inl (i, there) ↦ absurd (subst (In c) (idle i) there)
          | inr done ↦ done
        ]

    module _ (is js : List ℕ) (idle : Idle (run action (calm is) s))
        (idle' : Idle (run action (calm js) s)) where
      abbrev one : Statuses
      one = (run action (calm is) s).statuses

      abbrev other : Statuses
      other = (run action (calm js) s).statuses

      -- The events of a command that has the same outcome in both runs.
      events_agree :
          (c : Command) (e : ℕ)
          → Given s c
          → is_in (events c) e ≡ true
          → outcome action one c ≡ outcome action other c
          → one e ≡ other e
      events_agree c e g m same =
          (run-Settled is c idle g).1 e m ∙ same ∙ sym ((run-Settled js c idle' g).1 e m)

      finished_agree : (d : ℕ) → is_finished (s.statuses d) ≡ true → one d ≡ other d
      finished_agree d fin =
          run-Keeps action owner (Given s) finishes is s start d fin
          ∙ sym (run-Keeps action owner (Given s) finishes js s start d fin)

      outcomes_agree :
          (n : ℕ) (c : Command)
          → owner c.event < n
          → Given s c
          → outcome action one c ≡ outcome action other c
      unfolding outcome
      outcomes_agree zero c lt g = absurd (omega arith)
      outcomes_agree (suc n) c lt (i, m) =
          let agree : verdict one c.deps ≡ verdict other c.deps =
            verdict_agrees one other c.deps (λ d h. elim (start.known i c m d h) [
              | inl fin ↦ finished_agree d fin
              | inr (j, c', m', h') ↦
                  let below = start.earlier i c m d h in
                  let its = start.owned j c' m' d h' in
                  events_agree c' d (j, m') h' (outcomes_agree n c' (omega arith) (j, m'))
            ]) in
          rw agree

      -- As long as no wait is woken early, and for the same actions and commands, the order of the
      -- steps does not matter: two runs of the same threads that leave none with a command give
      -- each event of the commands the same status.
      pub runs_agree : (e : ℕ) → Pending s.threads e → one e ≡ other e
      runs_agree e (i, c, m, h) =
          events_agree c e (i, m) h (outcomes_agree (suc (owner c.event)) c (omega arith) (i, m))
