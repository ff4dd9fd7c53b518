-- ===== src/Execution/Effects.antt =====
-- What a step of a thread does to the statuses and to its commands.
use mathlib.Core.List.{append-nil, append_assoc}
use clvk.Common.{
  ℕ, ◌≡◌, refl, sym, ap, ◌∙◌, ◌⊎◌, inl, inr, Bool, true, false, ◌||◌, List, [], ◌∷◌, ◌++◌, some,
  arith, ◌==◌, if◌then◌else◌, Bool-cases, some-injective, none≢some, subst,
}
use clvk.Event.{ℤ, pos, negsuc, complete, eqℤ, is_finished}
use clvk.Queue.{Command}
use clvk.Execution.{
  Statuses, Phase, before, waiting, acting, Thread, running, wait_list_error, set_status_of,
  set_statuses, events, set_event_status, wait, after_wait, finish_command, start_action, wait_for,
  step_phase,
}

abbrev pub is_in : List ℕ → ℕ → Bool
is_in [] e = false
is_in (d ∷ ds) e = e == d || is_in ds e

-- The status that the loop of `execute` leaves for a list of events.
abbrev pub verdict : Statuses → List ℕ → ℤ
verdict st [] = complete
verdict st (d ∷ ds) = if eqℤ (st d) complete then verdict st ds else wait_list_error

abbrev pub AllFinished : Statuses → List ℕ → Type 0
AllFinished st ds = (d : ℕ) → is_in ds d ≡ true → is_finished (st d) ≡ true

-- Finished events keep their status.
abbrev pub Keeps : Statuses → Statuses → Type 0
Keeps st st' = (e : ℕ) → is_finished (st e) ≡ true → st' e ≡ st e

-- The status with which a command ends: the result of its action, if all its dependencies are
-- complete.
unfoldable pub outcome : (Command → ℤ) → Statuses → Command → ℤ
outcome action st c = if eqℤ (verdict st c.deps) complete then action c else wait_list_error

-- What the phase of a thread says about its first command.
abbrev pub Progress : Statuses → Phase → List Command → Type 0
Progress st before cs = Unit {0}
Progress st p [] = Unit {0}
Progress st (waiting ds s) (c ∷ cs) =
    (past : List ℕ) × (c.deps ≡ past ++ ds) × AllFinished st past × (s ≡ verdict st past)
Progress st acting (c ∷ cs) = AllFinished st c.deps × (verdict st c.deps ≡ complete)

-- A step that leaves the commands: no event finishes.
pub record Moved (st st' : Statuses) (cs cs' : List Command) : Type 0 where
  pub commands : cs' ≡ cs
  pub unfinished : (e : ℕ) → is_finished (st e) ≡ false → is_finished (st' e) ≡ false

-- A step that ends the first command.
pub record Ended (action : Command → ℤ) (st st' : Statuses) (cs cs' : List Command) : Type 0 where
  pub ended : Command
  pub commands : cs ≡ ended ∷ cs'
  pub over : AllFinished st ended.deps
  pub value : (e : ℕ) → st' e ≡ (if is_in (events ended) e then outcome action st ended else st e)

pub set_statuses_lem :
    (es : List ℕ) (s : ℤ) (st : Statuses) (i : ℕ)
    → set_statuses es s st i ≡ (if is_in es i then s else st i)
set_statuses_lem [] s st i = refl
set_statuses_lem (e ∷ es) s st i = ground (arith, set_statuses_lem es s (set_status_of e s st) i)

pub is_in-append : (xs ys : List ℕ) (e : ℕ) → is_in (xs ++ ys) e ≡ (is_in xs e || is_in ys e)
is_in-append [] ys e = refl
is_in-append (x ∷ xs) ys e = ground (arith, is_in-append xs ys e)

verdict-snoc :
    (st : Statuses) (xs : List ℕ) (d : ℕ)
    → verdict st (xs ++ (d ∷ [])) ≡ after_wait (st d) (verdict st xs)
verdict-snoc st [] d = ground arith
verdict-snoc st (x ∷ xs) d = ground (arith, verdict-snoc st xs d)

pub verdict-Keeps :
    (st st' : Statuses) (ds : List ℕ)
    → Keeps st st'
    → AllFinished st ds
    → verdict st' ds ≡ verdict st ds
verdict-Keeps st st' [] k h = refl
verdict-Keeps st st' (d ∷ ds) k h =
    let same : st' d ≡ st d = k d (h d (ground arith)) in
    let rest = verdict-Keeps st st' ds k (λ e m. h e (ground arith)) in rw (same, rest)

pub AllFinished-Keeps :
    (st st' : Statuses) (ds : List ℕ) → Keeps st st' → AllFinished st ds → AllFinished st' ds
AllFinished-Keeps st st' ds k h d m = ap is_finished (k d (h d m)) ∙ h d m

-- What a step does, with what it gives.
module _ (action : Command → ℤ) where
  pub record Effect (st : Statuses) (cs : List Command) (r : Statuses × Thread) : Type 0 where
    pub keeps : Keeps st r.0
    pub progress : Progress r.0 r.1.phase r.1.commands
    pub kind : Moved st r.0 cs r.1.commands ⊎ Ended action st r.0 cs r.1.commands

-- The events of a command that has not ended.
abbrev pub IsFresh : Statuses → Command → Type 0
IsFresh st c = (e : ℕ) → is_in (events c) e ≡ true → is_finished (st e) ≡ false

pub eqℤ→eq : (a b : ℤ) → eqℤ a b ≡ true → a ≡ b
eqℤ→eq (pos a) (pos b) h = ground arith
eqℤ→eq (pos a) (negsuc b) h = absurd cc
eqℤ→eq (negsuc a) (pos b) h = absurd cc
eqℤ→eq (negsuc a) (negsuc b) h = ground arith

-- A verdict is the error if it is not complete.
pub verdict-error :
    (st : Statuses) (ds : List ℕ)
    → eqℤ (verdict st ds) complete ≡ false
    → verdict st ds ≡ wait_list_error
verdict-error st [] h = absurd cc
verdict-error st (d ∷ ds) h = ground (arith, verdict-error st ds)

pub set_event_status_lem :
    (c : Command) (s : ℤ) (st : Statuses) (e : ℕ)
    → set_event_status c s st e ≡ (if is_in (events c) e then s else st e)
unfolding set_event_status
set_event_status_lem c s st e = set_statuses_lem (events c) s st e

set_event_status-Keeps :
    (c : Command) (s : ℤ) (st : Statuses) → IsFresh st c → Keeps st (set_event_status c s st)
set_event_status-Keeps c s st f e h = ground (arith, set_event_status_lem c s st e, f e)

unfinished_running :
    (c : Command) (st : Statuses) (e : ℕ)
    → is_finished (st e) ≡ false
    → is_finished (set_event_status c running st e) ≡ false
unfolding is_finished
unfinished_running c st e h = ground (arith, set_event_status_lem c running st e)

module _ (action : Command → ℤ) (c : Command) (cs : List Command) (st : Statuses) (g : ℤ) where
  module _ (fresh : IsFresh st c) where
    finish-Effect :
        (s : ℤ)
        → AllFinished st c.deps
        → outcome action st c ≡ s
        → Effect action st (c ∷ cs) (finish_command s c cs st g)
    unfolding finish_command
    finish-Effect s over e = record {
      keeps = set_event_status-Keeps c s st fresh;
      progress = tt;
      kind = inr (record {
        ended = c;
        commands = refl;
        over = over;
        value = λ i.
            set_event_status_lem c s st i
            ∙ ap (λ v. if is_in (events c) i then v else st i) (sym e);
      });
    }

    failed : (s : ℤ) → s ≡ verdict st c.deps → eqℤ s complete ≡ false → outcome action st c ≡ s
    unfolding outcome
    failed s v bad =
        let bad' : eqℤ (verdict st c.deps) complete ≡ false =
          ap (λ t. eqℤ t complete) (sym v) ∙ bad in
        rw bad' (sym (verdict-error st c.deps bad') ∙ sym v)

    start-Effect :
        (s : ℤ)
        → AllFinished st c.deps
        → s ≡ verdict st c.deps
        → Effect action st (c ∷ cs) (start_action s c cs st g)
    unfolding start_action
    start-Effect s over v = elim (Bool-cases (eqℤ s complete)) [
      | inl ok ↦
          let keeps = set_event_status-Keeps c running st fresh in
          rw (start_action, ok)
            (record {
              keeps = keeps;
              progress = (
                AllFinished-Keeps st _ c.deps keeps over,
                verdict-Keeps st _ c.deps keeps over ∙ sym v ∙ eqℤ→eq s complete ok,
              );
              kind = inl (record { commands = refl; unfinished = unfinished_running c st });
            })
      | inr bad ↦ rw (start_action, bad) (finish-Effect s over (failed s v bad))
    ]

    abbrev waited : ℕ → List ℕ → ℤ → Statuses × Thread
    waited d ds s = (
      st,
      record { commands = c ∷ cs; phase = waiting ds (after_wait (st d) s); global_status = g },
    )

    wait_for_lem :
        (d : ℕ) (ds : List ℕ) (s : ℤ) (r : Statuses × Thread)
        → wait_for false d ds s c cs st g ≡ some r
        → (is_finished (st d) ≡ true) × (waited d ds s ≡ r)
    unfolding wait_for wait
    wait_for_lem d ds s r e = elim (Bool-cases (is_finished (st d))) [
      | inl fin ↦ (fin, some-injective (rw (fin, wait_for, wait) at e))
      | inr not_fin ↦ absurd (none≢some (rw (not_fin, wait_for, wait) at e))
    ]

    snoc-AllFinished :
        (past : List ℕ) (d : ℕ)
        → AllFinished st past
        → is_finished (st d) ≡ true
        → AllFinished st (past ++ (d ∷ []))
    snoc-AllFinished past d over fin i m = ground (arith, is_in-append past (d ∷ []) i, over i)

    wait-Effect :
        (d : ℕ) (ds : List ℕ) (s : ℤ) (r : Statuses × Thread)
        → Progress st (waiting (d ∷ ds) s) (c ∷ cs)
        → wait_for false d ds s c cs st g ≡ some r
        → Effect action st (c ∷ cs) r
    wait-Effect d ds s r (past, split, over, v) e =
        let (fin, same) = wait_for_lem d ds s r e in
        subst (Effect action st (c ∷ cs)) same (record {
          keeps = λ i k. refl;
          progress = (
            past ++ (d ∷ []),
            split ∙ sym (append_assoc past (d ∷ []) ds),
            snoc-AllFinished past d over fin,
            ap (after_wait (st d)) v ∙ sym (verdict-snoc st past d),
          );
          kind = inl (record { commands = refl; unfinished = λ i k. k });
        })

    acted : verdict st c.deps ≡ complete → outcome action st c ≡ action c
    unfolding outcome
    acted ok = rw ok

    pub step_phase-Effect :
        (p : Phase) (r : Statuses × Thread)
        → Progress st p (c ∷ cs)
        → step_phase false action p c cs st g ≡ some r
        → Effect action st (c ∷ cs) r
    unfolding step_phase
    step_phase-Effect before r h e = subst (Effect action st (c ∷ cs)) (some-injective e) (record {
      keeps = λ i k. refl;
      progress = ([], refl, λ d m. absurd cc, refl);
      kind = inl (record { commands = refl; unfinished = λ i k. k });
    })
    step_phase-Effect (waiting [] s) r (past, split, over, v) e =
        subst (Effect action st (c ∷ cs)) (some-injective e) (
          start-Effect s (subst (AllFinished st) (sym (split ∙ append-nil past)) over)
            (v ∙ ap (verdict st) (sym (split ∙ append-nil past))))
    step_phase-Effect (waiting (d ∷ ds) s) r h e = wait-Effect d ds s r h e
    step_phase-Effect acting r (over, ok) e =
        subst (Effect action st (c ∷ cs)) (some-injective e)
          (finish-Effect (action c) over (acted ok))
