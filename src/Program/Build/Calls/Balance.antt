-- ===== src/Program/Build/Calls/Balance.antt =====
-- The counts over all builds of a program and the steps of their threads.
use clvk.Common.{
  ℕ, ◌+◌, ◌≡◌, sym, ap, ◌∙◌, subst, subst₂, ◌<◌, inl, inr, false, List, [], ◌∷◌, arith, ◌==◌,
  Bool-cases,
}
use clvk.Program.Build.{
  Builder, Request, Answers, in_progress, prepare, begin_build, build_and_wait,
}
use clvk.Program.Build.Calls.{
  Builds, Call, start, finish, notify, drop_reference, finish_build, notify_user, release_thread,
  call, is_promised, run_calls, Balanced,
}
use clvk.Program.Build.Calls.Counts.{
  prepare-Ready, build_outcome-Keeps, build_and_wait_lem, do_build_callback, start_refused,
  start_thread, start_waits,
}

module _ (references : ℕ) where
  abbrev Next : ℕ → Call → Builds → Type 0
  Next due c s = Balanced references (due + is_promised c s) (call c s)

  threaded :
      (due : ℕ) (r : Request) (s : Builds)
      → Balanced references due s
      → in_progress s.builder.program.dev_status ≡ false
      → Balanced references
          (due + 1)
          (record s { builder = prepare r s.builder; building = s.building + 1 })
  threaded due r s b free =
      let (busy, callback, refs, told) = prepare-Ready r s.builder in
      let idle : s.building ≡ 0 = ground (arith, b.single, b.busy) in
      record {
        single = omega arith;
        busy = λ e. busy;
        counted = omega (arith, b.counted, refs);
        told = omega (arith, b.told, told);
      }

  waited :
      (due : ℕ) (r : Request) (a : Answers) (s : Builds)
      → Balanced references due s
      → r.callback ≡ false
      → Balanced references due (record s { builder = (build_and_wait r a s.builder).0 })
  waited due r a s b c =
      let (refs, told, same) = build_and_wait_lem r a s.builder c in
      record {
        single = b.single;
        busy = λ e. let y = b.busy e in ap (λ x. in_progress x.program.dev_status) (same y) ∙ y;
        counted = refs ∙ b.counted;
        told = omega (arith, told, b.told);
      }

  start-Balanced :
      (due : ℕ) (r : Request) (a : Answers) (s : Builds)
      → Balanced references due s
      → Next due (start r a) s
  unfolding call
  start-Balanced due r a s b = elim (Bool-cases r.callback) [
    | inl c ↦ elim (Bool-cases (in_progress s.builder.program.dev_status)) [
      | inl busy ↦
          let (same, none_due) = start_refused r a s c busy in
          subst₂ (Balanced references) (omega (arith, none_due)) (sym same) b
      | inr free ↦
          let (new, one_due) = start_thread r a s c free in
          subst₂ (Balanced references) (omega (arith, one_due)) (sym new) (threaded due r s b free)
    ]
    | inr c ↦
        let (new, none_due) = start_waits r a s c in
        subst₂ (Balanced references) (omega (arith, none_due)) (sym new) (waited due r a s b c)
  ]

  same_due : (due : ℕ) (s : Builds) → Balanced references due s → Balanced references (due + 0) s
  same_due due s b = subst (λ n. Balanced references n s) (omega arith) b

  finish-Balanced :
      (due : ℕ) (a : Answers) (s : Builds) → Balanced references due s → Next due (finish a) s
  unfolding call finish_build is_promised
  finish-Balanced due a s b =
      let (refs, told, callback) = build_outcome-Keeps a s.builder in
      elim (Bool-cases (s.building == 0)) [
        | inl idle ↦ rw idle (same_due due s b)
        | inr building ↦
            let one : s.building ≡ 1 = ground (arith, b.single) in
            rw building (record {
              single = omega arith;
              busy = λ e. absurd (omega arith);
              counted = omega (arith, refs, b.counted, one);
              told = omega (arith, told, b.told, one);
            })
      ]

  notify-Balanced : (due : ℕ) (s : Builds) → Balanced references due s → Next due notify s
  unfolding call notify_user is_promised
  notify-Balanced due s b = elim (Bool-cases (s.calling == 0)) [
    | inl idle ↦ rw idle (same_due due s b)
    | inr calling ↦
        let some_calling : 0 < s.calling = ground arith in
        rw calling (record {
          single = b.single;
          busy = b.busy;
          counted = omega (arith, b.counted);
          told = ground (arith, b.told);
        })
  ]

  release-Balanced : (due : ℕ) (s : Builds) → Balanced references due s → Next due drop_reference s
  unfolding call release_thread is_promised
  release-Balanced due s b = elim (Bool-cases (s.releasing == 0)) [
    | inl idle ↦ rw idle (same_due due s b)
    | inr releasing ↦
        let some_releasing : 0 < s.releasing = ground arith in
        rw releasing (record {
          single = b.single;
          busy = b.busy;
          counted = omega (arith, b.counted);
          told = omega (arith, b.told);
        })
  ]

  call-Balanced : (due : ℕ) (c : Call) (s : Builds) → Balanced references due s → Next due c s
  call-Balanced due (start r a) s b = start-Balanced due r a s b
  call-Balanced due (finish a) s b = finish-Balanced due a s b
  call-Balanced due notify s b = notify-Balanced due s b
  call-Balanced due drop_reference s b = release-Balanced due s b

  -- Builds of a program and the steps of their threads, in any order, from a balanced state: at
  -- most one thread builds the program, up to the status that it sets, and its device is in
  -- progress all the while; the references are those of the others and one of each thread; and no
  -- more callbacks are called, or left to the threads, than the builds that were not refused were
  -- given.
  pub run_calls-Balanced :
      (cs : List Call) (due : ℕ) (s : Builds)
      → Balanced references due s
      → Balanced references (run_calls cs s due).1 (run_calls cs s due).0
  unfolding run_calls
  run_calls-Balanced [] due s b = b
  run_calls-Balanced (c ∷ cs) due s b =
      run_calls-Balanced cs (due + is_promised c s) (call c s) (call-Balanced due c s b)

build_and_wait_silent :
    (r : Request) (a : Answers) (b : Builder)
    → r.callback ≡ false
    → in_progress b.program.dev_status ≡ false
    → (build_and_wait r a b).0.has_callback ≡ false
unfolding build_and_wait begin_build
build_and_wait_silent r a b waits free =
    let (busy, callback, refs, told) = prepare-Ready r b in
    rw (free, build_and_wait, begin_build) (do_build_callback a (prepare r b) ∙ callback ∙ waits)

notify_silent :
    (t : Builds)
    → t.calling ≡ 1
    → t.builder.has_callback ≡ false
    → ((notify_user t).builder.notified ≡ t.builder.notified)
      × ((notify_user t).building ≡ t.building)
      × ((notify_user t).calling ≡ 0)
unfolding notify_user
notify_silent t one silent = ground arith

-- The callback of a build is lost: when its thread has set the status, and then a build that waits
-- is not refused, the thread calls no callback, and no other thread is left to.
pub callback_lost :
    (r : Request) (a : Answers) (s : Builds)
    → s.building ≡ 0
    → s.calling ≡ 1
    → r.callback ≡ false
    → in_progress s.builder.program.dev_status ≡ false
    → let t = call notify (call (start r a) s) in
      (t.builder.notified ≡ s.builder.notified) × (t.building ≡ 0) × (t.calling ≡ 0)
unfolding call notify_user
callback_lost r a s idle one waits free =
    let (new, none_due) = start_waits r a s waits in
    let (refs, told, same) = build_and_wait_lem r a s.builder waits in
    let silent = build_and_wait_silent r a s.builder waits free in
    let t : Builds = record s { builder = (build_and_wait r a s.builder).0 } in
    let (quiet, building, calling) = notify_silent t one silent in
    (
      ap (λ x. (notify_user x).builder.notified) new ∙ quiet ∙ told,
      ap (λ x. (notify_user x).building) new ∙ building ∙ idle,
      ap (λ x. (notify_user x).calling) new ∙ calling,
    )
