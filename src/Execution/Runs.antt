-- ===== src/Execution/Runs.antt =====
-- A run of the threads, in any order of their steps, keeps the invariant.
use clvk.Common.{
  ℕ, ◌≡◌, refl, sym, ap, ◌∙◌, subst, inl, inr, true, false, List, [], ◌∷◌, some, arith, Bool-cases,
  Option-cases, none≢some,
}
use clvk.Event.{ℤ, is_finished}
use clvk.Queue.{Command}
use clvk.Execution.{
  calm, Statuses, Phase, Thread, System, events, update, step_thread, step_commands, step, run,
}
use clvk.Execution.Effects.{
  AllFinished-Keeps, is_in, Keeps, Progress, Moved, Ended, Effect, IsFresh, step_phase-Effect,
}
use clvk.Execution.Invariant.{In, Sorted, Settled, Inv}
use clvk.Execution.Steps.{Change, Change-Inv, outcome-Keeps, update-cases, shrink}

step_commands-Effect :
    (action : Command → ℤ) (cs : List Command) (p : Phase) (st : Statuses) (g : ℤ)
    (r : Statuses × Thread)
    → ((c : Command) → In c cs → IsFresh st c)
    → Progress st p cs
    → step_commands false action cs p st g ≡ some r
    → Effect action st cs r
unfolding step_commands
step_commands-Effect action [] p st g r f h e = absurd (none≢some e)
step_commands-Effect action (c ∷ cs) p st g r f h e =
    step_phase-Effect action c cs st g (f c (inl refl)) p r h e

module _ (action : Command → ℤ) (owner : ℕ → ℕ) (given : Command → Type 0) where
  module _ (st : Statuses) (threads : ℕ → Thread) (inv : Inv action owner given st threads) where
    -- What the step of thread `i` gives.
    module _ (i : ℕ) (r : Statuses × Thread) where
      Moved-Change :
          Effect action st (threads i).commands r
          → Moved st r.0 (threads i).commands r.1.commands
          → Change action owner st r.0 threads i r.1
      Moved-Change eff m = record {
        keeps = eff.keeps;
        progress = eff.progress;
        order = subst (Sorted owner) (sym m.commands) (inv.sorted i);
        sub = λ c h. subst (In c) m.commands h;
        rest = λ c h. inl (subst (In c) (sym m.commands) h);
        left = λ j c h e k f. m.unfinished e f;
      }

      ended_order :
          (c : Command) (cs : List Command) → (threads i).commands ≡ c ∷ cs → Sorted owner (c ∷ cs)
      ended_order c cs e = subst (Sorted owner) e (inv.sorted i)

      -- An event of the command that ends belongs to no other command.
      ended_apart :
          (m : Ended action st r.0 (threads i).commands r.1.commands) (j : ℕ) (c : Command)
          → In c (update threads i r.1 j).commands
          → (e : ℕ) → is_in (events c) e ≡ true
          → is_in (events m.ended) e ≡ true
          → ⊥
      ended_apart m j c h e k mine =
          let first : In m.ended (threads i).commands =
            subst (In m.ended) (sym m.commands) (inl refl) in
          let tail =
            λ (d : Command) (q : In d r.1.commands). subst (In d) (sym m.commands) (inr q) in
          let here = shrink threads i r.1 tail j c h in
          let same : owner c.event ≡ owner m.ended.event =
            sym (inv.owned j c here e k) ∙ inv.owned i m.ended first e mine in
          elim (update-cases threads i r.1 j) [
            | inl (at_i, new) ↦
                let later =
                  (ended_order m.ended r.1.commands m.commands).0 c
                    (subst (λ u. In c u.commands) new h) in
                omega (arith, later, same)
            | inr (ne, old) ↦ ne (inv.apart j i c m.ended here first same)
          ]

      ended_Settled :
          Effect action st (threads i).commands r
          → (m : Ended action st r.0 (threads i).commands r.1.commands) → Settled action r.0 m.ended
      ended_Settled eff m = (
        AllFinished-Keeps st r.0 m.ended.deps eff.keeps m.over,
        λ e k. m.value e ∙ rw k (sym (outcome-Keeps action st r.0 m.ended eff.keeps m.over)),
      )

      Ended-left :
          (m : Ended action st r.0 (threads i).commands r.1.commands) (j : ℕ) (c : Command)
          → In c (update threads i r.1 j).commands
          → (e : ℕ) → is_in (events c) e ≡ true
          → is_finished (st e) ≡ false
          → is_finished (r.0 e) ≡ false
      Ended-left m j c h e k f = elim (Bool-cases (is_in (events m.ended) e)) [
        | inl mine ↦ absurd (ended_apart m j c h e k mine)
        | inr other ↦ ap is_finished (m.value e ∙ rw other) ∙ f
      ]

      Ended-Change :
          Effect action st (threads i).commands r
          → Ended action st r.0 (threads i).commands r.1.commands
          → Change action owner st r.0 threads i r.1
      Ended-Change eff m = record {
        keeps = eff.keeps;
        progress = eff.progress;
        order = (ended_order m.ended r.1.commands m.commands).1;
        sub = λ c h. subst (In c) (sym m.commands) (inr h);
        rest = λ c h. elim (subst (In c) m.commands h) [
          | inl e ↦ inr (subst (Settled action r.0) (sym e) (ended_Settled eff m))
          | inr there ↦ inl there
        ];
        left = Ended-left m;
      }

      step_Change :
          ((c : Command) → is_finished (action c) ≡ true)
          → step_thread false action st (threads i) ≡ some r
          → Inv action owner given r.0 (update threads i r.1)
      unfolding step_thread
      step_Change finishes e =
          let eff =
            step_commands-Effect action (threads i).commands (threads i).phase st
              (threads i).global_status r (inv.fresh i) (inv.progress i) e in
          let change : Change action owner st r.0 threads i r.1 = elim eff.kind [
            | inl m ↦ Moved-Change eff m
            | inr m ↦ Ended-Change eff m
          ] in
          Change-Inv action finishes owner given st r.0 threads i r.1 inv change

      step-Keeps' : step_thread false action st (threads i) ≡ some r → Keeps st r.0
      unfolding step_thread
      step-Keeps' e =
          (step_commands-Effect action (threads i).commands (threads i).phase st
            (threads i).global_status r (inv.fresh i) (inv.progress i) e).keeps

  module _ (finishes : (c : Command) → is_finished (action c) ≡ true) where
    pub step-Inv :
        (i : ℕ) (s : System)
        → Inv action owner given s.statuses s.threads
        → Inv action owner given (step false action i s).statuses (step false action i s).threads
    unfolding step
    step-Inv i s inv = elim (Option-cases (step_thread false action s.statuses (s.threads i))) [
      | inl e ↦ rw (step, e) inv
      | inr (r, e) ↦ rw (step, e) (step_Change s.statuses s.threads inv i r finishes e)
    ]

    pub run-Inv :
        (is : List ℕ) (s : System)
        → Inv action owner given s.statuses s.threads
        → Inv action owner given (run action (calm is) s).statuses (run action (calm is) s).threads
    unfolding run
    run-Inv [] s inv = inv
    run-Inv (i ∷ is) s inv = run-Inv is (step false action i s) (step-Inv i s inv)

    step-Keeps :
        (i : ℕ) (s : System)
        → Inv action owner given s.statuses s.threads
        → Keeps s.statuses (step false action i s).statuses
    unfolding step
    step-Keeps i s inv = elim (Option-cases (step_thread false action s.statuses (s.threads i))) [
      | inl e ↦ rw (step, e) (λ d h. refl)
      | inr (r, e) ↦ rw (step, e) (step-Keeps' s.statuses s.threads inv i r e)
    ]

    -- A finished event keeps its status over a run.
    pub run-Keeps :
        (is : List ℕ) (s : System)
        → Inv action owner given s.statuses s.threads
        → Keeps s.statuses (run action (calm is) s).statuses
    unfolding run
    run-Keeps [] s inv d h = refl
    run-Keeps (i ∷ is) s inv d h =
        let same = step-Keeps i s inv d h in
        run-Keeps is (step false action i s) (step-Inv i s inv) d (ap is_finished same ∙ h) ∙ same
