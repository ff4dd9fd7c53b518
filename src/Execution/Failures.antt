-- ===== src/Execution/Failures.antt =====
-- A failed command of a queue.
use clvk.Common.{
  ℕ, ◌≡◌, refl, sym, ap, ◌∙◌, subst, inl, inr, false, List, [], ◌∷◌, ◌++◌, Option, none, some,
  arith,
}
use clvk.Event.{ℤ, complete, eqℤ}
use clvk.Queue.{Queue, Command}
use clvk.Queue.Order.{Linked, IsChained, pushed}
use clvk.Execution.{Statuses, wait_list_error}
use clvk.Execution.Effects.{verdict, outcome}
use clvk.Execution.Invariant.{In, Settled}

verdict_failed :
    (st : Statuses) (ds : List ℕ) (e : ℕ)
    → eqℤ (st e) complete ≡ false
    → verdict st (ds ++ (e ∷ [])) ≡ wait_list_error
verdict_failed st [] e h = rw h
verdict_failed st (d ∷ ds) e h = ground (arith, verdict_failed st ds e)

module _ (action : Command → ℤ) (st : Statuses) where
  outcome_failed :
      (c : Command) (ds : List ℕ) (e : ℕ)
      → c.deps ≡ ds ++ (e ∷ [])
      → eqℤ (st e) complete ≡ false
      → outcome action st c ≡ wait_list_error
  unfolding outcome
  outcome_failed c ds e split h =
      let v : verdict st c.deps ≡ wait_list_error =
        ap (verdict st) split ∙ verdict_failed st ds e h in
      rw v

  own_event : (c : Command) → Settled action st c → st c.event ≡ outcome action st c
  own_event c (over, value) = value c.event (ground arith)

  Linked-fail :
      (e : ℕ) (cs : List Command)
      → eqℤ (st e) complete ≡ false
      → Linked (some e) cs
      → ((d : Command) → In d cs → Settled action st d)
      → (d : Command) → In d cs
      → st d.event ≡ wait_list_error
  Linked-fail e [] h links settled d m = absurd m
  Linked-fail e (c ∷ cs) h ((ds, split), links) settled d m =
      let failed : st c.event ≡ wait_list_error =
        own_event c (settled c (inl refl)) ∙ outcome_failed c ds e split h in
      elim m [
        | inl same ↦ subst (λ x. st x.event ≡ wait_list_error) (sym same) failed
        | inr later ↦
            Linked-fail c.event cs (ap (λ t. eqℤ t complete) failed) links
              (λ x q. settled x (inr q)) d later
      ]

  Linked-suffix :
      (p : Option ℕ) (bs : List Command) (c : Command) (cs : List Command)
      → Linked p (bs ++ (c ∷ cs))
      → Linked (some c.event) cs
  Linked-suffix p [] c cs h = h.1
  Linked-suffix p (b ∷ bs) c cs h = Linked-suffix (some b.event) bs c cs h.1

  In-append : (bs cs : List Command) (d : Command) → In d cs → In d (bs ++ cs)
  In-append [] cs d m = m
  In-append (b ∷ bs) cs d m = inr (In-append bs cs d m)

  -- Once all commands that were pushed to a queue have ended, each one after a command that failed
  -- has failed too, with CL_EXEC_STATUS_ERROR_FOR_EVENTS_IN_WAIT_LIST, also across flushes.
  failure_spreads :
      (q : Queue) (bs : List Command) (c : Command) (cs : List Command)
      → IsChained q
      → pushed q ≡ bs ++ (c ∷ cs)
      → ((d : Command) → In d (pushed q) → Settled action st d)
      → eqℤ (st c.event) complete ≡ false
      → (d : Command) → In d cs
      → st d.event ≡ wait_list_error
  failure_spreads q bs c cs chained split settled h d m =
      Linked-fail c.event cs h
        (Linked-suffix none bs c cs (subst (Linked none) split chained.linked))
        (λ x k. settled x (subst (In x) (sym split) (In-append bs (c ∷ cs) x (inr k)))) d m
