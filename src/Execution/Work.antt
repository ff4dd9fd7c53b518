-- ===== src/Execution/Work.antt =====
-- The threads end: each step uses up some of the work that is left.
use native.Mathlib.Decide.{dec_lt}
use clvk.Common.{
  false, ℕ, zero, suc, ◌+◌, ◌≤◌, ◌<◌, ◌≡◌, refl, sym, ap, ◌∙◌, inl, inr, true, List, [], ◌∷◌, none,
  some, arith, some-injective, Option-cases, none≢some, length,
}
use clvk.Event.{ℤ, is_finished}
use clvk.Queue.{Command}
use clvk.Execution.{
  calm, Statuses, Phase, before, waiting, acting, Thread, System, wait, wait_for, update,
  start_action, finish_command, step_phase, step_commands, step_thread, step, run,
}
use clvk.Execution.Steps.{update-cases}

-- The steps that commands which have not begun take at most.
abbrev pub work_before : List Command → ℕ
work_before [] = 0
work_before (c ∷ cs) = 3 + length c.deps + work_before cs

-- The steps that are left of the first command, and those of the others.
abbrev pub work_left : Phase → List Command → ℕ
work_left p [] = 0
work_left before (c ∷ cs) = 3 + length c.deps + work_before cs
work_left (waiting ds s) (c ∷ cs) = 2 + length ds + work_before cs
work_left acting (c ∷ cs) = 1 + work_before cs

abbrev pub work : Thread → ℕ
work t = work_left t.phase t.commands

work_left-before : (cs : List Command) → work_left before cs ≡ work_before cs
work_left-before [] = refl
work_left-before (c ∷ cs) = refl

module _ (action : Command → ℤ) where
  finish_work :
      (s : ℤ) (c : Command) (cs : List Command) (st : Statuses) (g : ℤ)
      → work (finish_command s c cs st g).1 ≡ work_before cs
  unfolding finish_command
  finish_work s c cs st g = work_left-before cs

  start_work :
      (s : ℤ) (c : Command) (cs : List Command) (st : Statuses) (g : ℤ)
      → work (start_action s c cs st g).1 < 2 + work_before cs
  unfolding start_action
  start_work s c cs st g = ground (arith, finish_work s c cs st g)

  wait_work :
      (d : ℕ) (ds : List ℕ) (s : ℤ) (c : Command) (cs : List Command) (st : Statuses) (g : ℤ)
      (r : Statuses × Thread)
      → wait_for false d ds s c cs st g ≡ some r
      → work r.1 < 3 + length ds + work_before cs
  unfolding wait_for wait
  wait_work d ds s c cs st g r e = ground arith

  step_work :
      (p : Phase) (c : Command) (cs : List Command) (st : Statuses) (g : ℤ) (r : Statuses × Thread)
      → step_phase false action p c cs st g ≡ some r
      → work r.1 < work_left p (c ∷ cs)
  unfolding step_phase
  step_work before c cs st g r e =
      let same = ap work (ap (λ (q : Statuses × Thread). q.1) (some-injective e)) in
      omega (arith, same)
  step_work (waiting [] s) c cs st g r e =
      let same = ap (λ (q : Statuses × Thread). work q.1) (some-injective e) in
      omega (arith, same, start_work s c cs st g)
  step_work (waiting (d ∷ ds) s) c cs st g r e = omega (arith, wait_work d ds s c cs st g r e)
  step_work acting c cs st g r e =
      let same = ap (λ (q : Statuses × Thread). work q.1) (some-injective e) in
      omega (arith, same, finish_work (action c) c cs st g)

  step_commands-work :
      (cs : List Command) (p : Phase) (st : Statuses) (g : ℤ) (r : Statuses × Thread)
      → step_commands false action cs p st g ≡ some r
      → work r.1 < work_left p cs
  unfolding step_commands
  step_commands-work [] p st g r e = absurd (none≢some e)
  step_commands-work (c ∷ cs) p st g r e = step_work p c cs st g r e

-- The work that is left to the first `n` threads.
abbrev pub total : ℕ → (ℕ → Thread) → ℕ
total zero ts = 0
total (suc n) ts = total n ts + work (ts n)

total_past : (n i : ℕ) (ts : ℕ → Thread) (t : Thread) → n ≤ i → total n (update ts i t) ≡ total n ts
total_past zero i ts t h = refl
total_past (suc n) i ts t h = ground (arith, total_past n i ts t)

total-update :
    (n i : ℕ) (ts : ℕ → Thread) (t : Thread)
    → i < n
    → work t < work (ts i)
    → total n (update ts i t) < total n ts
total-update zero i ts t lt h = absurd (omega arith)
total-update (suc n) i ts t lt h = elim (update-cases ts i t n) [
  | inl (at_i, new) ↦
      omega
        (arith, total_past n i ts t (omega (arith, at_i)), ap work new, ap (λ k. work (ts k)) at_i)
  | inr (ne, old) ↦ ground (arith, total-update n i ts t, ap work old)
]

-- The threads from `n` on have no commands.
abbrev pub IdleFrom : ℕ → System → Type 0
IdleFrom n s = (i : ℕ) → n ≤ i → (s.threads i).commands ≡ []

module _ (action : Command → ℤ) (n : ℕ) (s : System) (past : IdleFrom n s) where
  module _ (j : ℕ) (r : Statuses × Thread) where
    moving_below : step_thread false action s.statuses (s.threads j) ≡ some r → j < n
    unfolding step_thread step_commands
    moving_below e = elim (dec_lt j n) [
      | yes below ↦ below
      | no over ↦
          let t : Thread = s.threads j in
          let blocks : none ≡ some r =
            ap (λ q. step_commands false action q t.phase s.statuses t.global_status)
              (sym (past j (omega arith)))
            ∙ e in
          absurd (none≢some blocks)
    ]

    step_lem :
        step_thread false action s.statuses (s.threads j) ≡ some r
        → (total n (step false action j s).threads < total n s.threads)
          × IdleFrom n (step false action j s)
    unfolding step step_thread
    step_lem e =
        let t : Thread = s.threads j in
        let less = step_commands-work action t.commands t.phase s.statuses t.global_status r e in
        rw (step, e)
          (
            total-update n j s.threads r.1 (moving_below e) less,
            λ i h. elim (update-cases s.threads j r.1 i) [
              | inl (at_j, new) ↦ absurd (omega (arith, moving_below e, at_j))
              | inr (ne, old) ↦ ap (λ (u : Thread). u.commands) old ∙ past i h
            ],
          )

module _ (action : Command → ℤ) (finishes : (c : Command) → is_finished (action c) ≡ true) where
  module _ (owner : ℕ → ℕ) (given : Command → Type 0) (n : ℕ) where
    -- A thread that takes a step, if not all are idle.
    Advances : System → Type 0
    Advances s =
        (j : ℕ) × (total n (step false action j s).threads < total n s.threads)
        × IdleFrom n (step false action j s)

step-IdleFrom :
    (action : Command → ℤ) (n j : ℕ) (s : System)
    → IdleFrom n s
    → IdleFrom n (step false action j s)
unfolding step
step-IdleFrom action n j s past =
    elim (Option-cases (step_thread false action s.statuses (s.threads j))) [
      | inl e ↦ rw (step, e) past
      | inr (r, e) ↦ (step_lem action n s past j r e).1
    ]

pub run-IdleFrom :
    (action : Command → ℤ) (n : ℕ) (is : List ℕ) (s : System)
    → IdleFrom n s
    → IdleFrom n (run action (calm is) s)
unfolding run
run-IdleFrom action n [] s past = past
run-IdleFrom action n (i ∷ is) s past =
    run-IdleFrom action n is (step false action i s) (step-IdleFrom action n i s past)
