-- ===== src/Execution/Progress.antt =====
-- No deadlock: while a command is left, some thread can take a step.
use clvk.Common.{
  ℕ, zero, suc, ◌≤◌, ◌<◌, ◌≡◌, refl, sym, ap, ◌∙◌, subst, ◌⊎◌, inl, inr, Bool, true, false, List,
  [], ◌∷◌, ◌++◌, some, arith, Bool-cases,
}
use clvk.Event.{ℤ, is_finished}
use clvk.Queue.{Command}
use clvk.Execution.{
  calm, Statuses, Phase, before, waiting, acting, Thread, System, wait, wait_for, step_phase,
  step_commands, step_thread, run,
}
use clvk.Execution.Effects.{is_in, is_in-append, Progress}
use clvk.Execution.Invariant.{In, Sorted, Inv}
use clvk.Execution.Runs.{run-Inv}
use clvk.Execution.Outcomes.{Given, IsStart}

-- A thread whose first command is in the phase is blocked by an event that is not finished.
abbrev BlockedBy : Statuses → Phase → Type 0
BlockedBy st p =
    (d : ℕ) × (ds : List ℕ) × (s : ℤ) × (p ≡ waiting (d ∷ ds) s) × (is_finished (st d) ≡ false)

is_in-here : (past : List ℕ) (d : ℕ) (ds : List ℕ) → is_in (past ++ (d ∷ ds)) d ≡ true
is_in-here past d ds = ground (arith, is_in-append past (d ∷ ds) d)

module _ (action : Command → ℤ) where
  wait_moves :
      (d : ℕ) (ds : List ℕ) (s : ℤ) (c : Command) (cs : List Command) (st : Statuses) (g : ℤ)
      → is_finished (st d) ≡ true
      → (r : Statuses × Thread) × (wait_for false d ds s c cs st g ≡ some r)
  unfolding wait_for wait
  wait_moves d ds s c cs st g fin = rw (fin, wait_for, wait) (_, refl)

  moves_or_blocked :
      (p : Phase) (c : Command) (cs : List Command) (st : Statuses) (g : ℤ)
      → ((r : Statuses × Thread) × (step_phase false action p c cs st g ≡ some r)) ⊎ BlockedBy st p
  unfolding step_phase
  moves_or_blocked before c cs st g = inl (_, refl)
  moves_or_blocked (waiting [] s) c cs st g = inl (_, refl)
  moves_or_blocked (waiting (d ∷ ds) s) c cs st g = elim (Bool-cases (is_finished (st d))) [
    | inl fin ↦ inl (wait_moves d ds s c cs st g fin)
    | inr not_fin ↦ inr (d, ds, s, refl, not_fin)
  ]
  moves_or_blocked acting c cs st g = inl (_, refl)

  -- A thread with commands takes a step, or its first command waits for an unfinished event.
  abbrev Stuck : Statuses → Thread → Type 0
  Stuck st t =
      (c : Command) × (cs : List Command) × (d : ℕ) × (t.commands ≡ c ∷ cs)
      × (is_in c.deps d ≡ true)
      × (is_finished (st d) ≡ false)

  abbrev pub Moves : Statuses → Thread → Type 0
  Moves st t = (r : Statuses × Thread) × (step_thread false action st t ≡ some r)

  waits_for_dep :
      (st : Statuses) (c : Command) (cs : List Command) (p : Phase)
      → Progress st p (c ∷ cs)
      → (b : BlockedBy st p) → is_in c.deps b.0 ≡ true
  waits_for_dep st c cs p h (d, ds, s, e, f) =
      let (past, split, over, v) = subst (λ q. Progress st q (c ∷ cs)) e h in
      ap (λ q. is_in q d) split ∙ is_in-here past d ds

  Moves-or_Stuck :
      (st : Statuses) (t : Thread) (c : Command) (cs : List Command)
      → t.commands ≡ c ∷ cs
      → Progress st t.phase t.commands
      → Moves st t ⊎ Stuck st t
  unfolding step_thread step_commands
  Moves-or_Stuck st t c cs e h = elim (moves_or_blocked t.phase c cs st t.global_status) [
    | inl (r, m) ↦ inl (r, ap (λ q. step_commands false action q t.phase st t.global_status) e ∙ m)
    | inr (d, ds, s, q, f) ↦
        let first =
          waits_for_dep st c cs t.phase (subst (Progress st t.phase) e h) (d, ds, s, q, f) in
        inr (c, cs, d, e, first, f)
  ]

-- The first command of a thread comes before its others.
first_le :
    (owner : ℕ → ℕ) (ds : List Command) (c d : Command)
    → Sorted owner (d ∷ ds)
    → In c (d ∷ ds)
    → owner d.event ≤ owner c.event
first_le owner ds c d h (inl same) = omega (arith, ap (λ x. owner x.event) same)
first_le owner ds c d h (inr there) = omega (arith, h.0 c there)

In-cons :
    (cs : List Command) (c : Command)
    → In c cs
    → (d : Command) × (ds : List Command) × (cs ≡ d ∷ ds)
In-cons [] c m = absurd m
In-cons (x ∷ xs) c m = (x, xs, refl)

clash : {b : Bool} → b ≡ false → b ≡ true → ⊥
clash p q = cc

module _ (action : Command → ℤ) (owner : ℕ → ℕ) (given : Command → Type 0) where
  module _ (s : System) (inv : Inv action owner given s.statuses s.threads) where
    pub Moves-below :
        (n i : ℕ) (c : Command)
        → In c (s.threads i).commands
        → owner c.event < n
        → (j : ℕ) × Moves action s.statuses (s.threads j)
    Moves-below zero i c m lt = absurd (omega arith)
    Moves-below (suc n) i c m lt =
        let (x, xs, e) = In-cons (s.threads i).commands c m in
        elim (Moves-or_Stuck action s.statuses (s.threads i) x xs e (inv.progress i)) [
          | inl moves ↦ (i, moves)
          | inr (y, ys, d, e', dep, f) ↦
              let first : In y (s.threads i).commands = subst (In y) (sym e') (inl refl) in
              elim (inv.known i y first d dep) [
                | inl fin ↦ absurd (clash f fin)
                | inr (j, c', m', h') ↦
                    let before_y = inv.earlier i y first d dep in
                    let its = inv.owned j c' m' d h' in
                    let y_first =
                      first_le owner ys c y (subst (Sorted owner) e' (inv.sorted i))
                        (subst (In c) e' m) in
                    Moves-below n j c' m' (omega arith)
              ]
        ]

-- In every state that the threads reach from a start, whatever the order of their steps, some
-- thread can take a step as long as a thread has a command left.
pub no_deadlock :
    (action : Command → ℤ)
    → ((c : Command) → is_finished (action c) ≡ true)
    → (owner : ℕ → ℕ) (s : System) → IsStart action owner s
    → (is : List ℕ) (c : Command) → Given (run action (calm is) s) c
    → (j : ℕ) × Moves action (run action (calm is) s).statuses ((run action (calm is) s).threads j)
no_deadlock action finishes owner s start is c (i, m) =
    Moves-below action owner (Given s) (run action (calm is) s)
      (run-Inv action owner (Given s) finishes is s start) (suc (owner c.event)) i c m (omega arith)
