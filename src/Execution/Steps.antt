-- ===== src/Execution/Steps.antt =====
-- A step of a thread keeps the invariant.
use clvk.Common.{ℕ, ◌≡◌, ◌≢◌, sym, ap, ◌∙◌, subst, ◌⊎◌, inl, inr, true, false, List, [], ◌∷◌, arith}
use clvk.Event.{ℤ, is_finished}
use clvk.Queue.{Command}
use clvk.Execution.{Statuses, Phase, before, waiting, acting, Thread, events, update}
use clvk.Execution.Effects.{
  is_in, AllFinished, Keeps, outcome, Progress, verdict-Keeps, AllFinished-Keeps,
}
use clvk.Execution.Invariant.{In, Sorted, Pending, Settled, Inv}

pub outcome_finished :
    (action : Command → ℤ) (st : Statuses) (c : Command)
    → is_finished (action c) ≡ true
    → is_finished (outcome action st c) ≡ true
unfolding outcome is_finished
outcome_finished action st c h = ground arith

pub outcome-Keeps :
    (action : Command → ℤ) (st st' : Statuses) (c : Command)
    → Keeps st st'
    → AllFinished st c.deps
    → outcome action st' c ≡ outcome action st c
unfolding outcome
outcome-Keeps action st st' c k over = rw (verdict-Keeps st st' c.deps k over)

Progress-Keeps :
    (st st' : Statuses) (p : Phase) (cs : List Command)
    → Keeps st st'
    → Progress st p cs
    → Progress st' p cs
Progress-Keeps st st' before cs k h = tt
Progress-Keeps st st' (waiting ds s) [] k h = tt
Progress-Keeps st st' acting [] k h = tt
Progress-Keeps st st' (waiting ds s) (c ∷ cs) k (past, split, over, v) =
    (past, split, AllFinished-Keeps st st' past k over, v ∙ sym (verdict-Keeps st st' past k over))
Progress-Keeps st st' acting (c ∷ cs) k (over, ok) =
    (AllFinished-Keeps st st' c.deps k over, verdict-Keeps st st' c.deps k over ∙ ok)

module _ (action : Command → ℤ) (finishes : (c : Command) → is_finished (action c) ≡ true) where
  Settled-Keeps :
      (st st' : Statuses) (c : Command) → Keeps st st' → Settled action st c → Settled action st' c
  Settled-Keeps st st' c k (over, value) = (
    AllFinished-Keeps st st' c.deps k over,
    λ e m.
        k e (ap is_finished (value e m) ∙ outcome_finished action st c (finishes c))
        ∙ value e m
        ∙ sym (outcome-Keeps action st st' c k over),
  )

-- The commands of the threads when thread `i` has those of `t`.
module _ (threads : ℕ → Thread) (i : ℕ) (t : Thread) where
  pub update-cases :
      (j : ℕ)
      → ((j ≡ i) × (update threads i t j ≡ t)) ⊎ ((j ≢ i) × (update threads i t j ≡ threads j))
  update-cases j = ground arith

  pub shrink :
      ((c : Command) → In c t.commands → In c (threads i).commands)
      → (j : ℕ) (c : Command) → In c (update threads i t j).commands
      → In c (threads j).commands
  shrink h j c m = elim (update-cases j) [
    | inl (at_i, new) ↦
        subst (λ k. In c (threads k).commands) (sym at_i) (h c (subst (λ u. In c u.commands) new m))
    | inr (ne, old) ↦ subst (λ u. In c u.commands) old m
  ]

  keep :
      (P : Command → Type 0)
      → ((c : Command) → In c (threads i).commands → In c t.commands ⊎ P c)
      → (j : ℕ) (c : Command) → In c (threads j).commands
      → In c (update threads i t j).commands ⊎ P c
  keep P h j c m = elim (update-cases j) [
    | inl (at_i, new) ↦ elim (h c (subst (λ k. In c (threads k).commands) at_i m)) [
      | inl there ↦ inl (subst (λ u. In c u.commands) (sym new) there)
      | inr gone ↦ inr gone
    ]
    | inr (ne, old) ↦ inl (subst (λ u. In c u.commands) (sym old) m)
  ]

-- What a step of thread `i` changes, as far as the invariant reads it.
pub record Change (action : Command → ℤ) (owner : ℕ → ℕ) (st st' : Statuses) (threads : ℕ → Thread)
    (i : ℕ) (t : Thread) : Type 0 where
  pub keeps : Keeps st st'
  pub progress : Progress st' t.phase t.commands
  pub order : Sorted owner t.commands
  pub sub : (c : Command) → In c t.commands → In c (threads i).commands
  pub rest : (c : Command) → In c (threads i).commands → In c t.commands ⊎ Settled action st' c
  pub left :
      (j : ℕ) (c : Command)
      → In c (update threads i t j).commands
      → (e : ℕ) → is_in (events c) e ≡ true
      → is_finished (st e) ≡ false
      → is_finished (st' e) ≡ false

module _ (action : Command → ℤ) (finishes : (c : Command) → is_finished (action c) ≡ true) where
  module _ (owner : ℕ → ℕ) (given : Command → Type 0) (st st' : Statuses)
      (threads : ℕ → Thread) where
    pub Change-Inv :
        (i : ℕ) (t : Thread)
        → Inv action owner given st threads
        → Change action owner st st' threads i t
        → Inv action owner given st' (update threads i t)
    Change-Inv i t inv ch = record {
      sorted = λ j. elim (update-cases threads i t j) [
        | inl (at_i, new) ↦ subst (λ u. Sorted owner u.commands) (sym new) ch.order
        | inr (ne, old) ↦ subst (λ u. Sorted owner u.commands) (sym old) (inv.sorted j)
      ];
      apart = λ j k c d mc md e. inv.apart j k c d (back j c mc) (back k d md) e;
      owned = λ j c m. inv.owned j c (back j c m);
      fresh = λ j c m e h. ch.left j c m e h (inv.fresh j c (back j c m) e h);
      earlier = λ j c m. inv.earlier j c (back j c m);
      known = λ j c m d h. still_known d (inv.known j c (back j c m) d h);
      progress = λ j. elim (update-cases threads i t j) [
        | inl (at_i, new) ↦ subst (λ u. Progress st' u.phase u.commands) (sym new) ch.progress
        | inr (ne, old) ↦
            subst (λ u. Progress st' u.phase u.commands) (sym old)
              (Progress-Keeps st st' (threads j).phase (threads j).commands ch.keeps
                (inv.progress j))
      ];
      history = λ c m. elim (inv.history c m) [
        | inl (j, there) ↦ elim (keep threads i t (Settled action st') ch.rest j c there) [
          | inl still ↦ inl (j, still)
          | inr gone ↦ inr gone
        ]
        | inr done ↦ inr (Settled-Keeps action finishes st st' c ch.keeps done)
      ];
    }
      where
        back :
            (j : ℕ) (c : Command) → In c (update threads i t j).commands → In c (threads j).commands
        back = shrink threads i t ch.sub

        still_known :
            (d : ℕ)
            → (is_finished (st d) ≡ true) ⊎ Pending threads d
            → (is_finished (st' d) ≡ true) ⊎ Pending (update threads i t) d
        still_known d (inl fin) = inl (ap is_finished (ch.keeps d fin) ∙ fin)
        still_known d (inr (j, c, m, h)) =
            elim (keep threads i t (Settled action st') ch.rest j c m) [
              | inl still ↦ inr (j, c, still, h)
              | inr (over, value) ↦
                  inl (ap is_finished (value d h) ∙ outcome_finished action st' c (finishes c))
            ]
