-- ===== src/Program/Entry/Chain.antt =====
-- Entry points on programs, one after the other.
use clvk.Common.{
  ℕ, ◌≡◌, ◌≢◌, refl, sym, ap, ◌∙◌, inl, inr, Bool, true, false, ◌&&◌, ◌||◌, List, [], ◌∷◌, Option,
  none, some, ◌==◌, if◌then◌else◌, Option-cases, some-injective,
}
use clvk.Codes.{
  Code, success, invalid_value, invalid_program, invalid_operation, link_program_failure,
}
use clvk.Api.{elements}
use clvk.PrintfText.{Text}
use clvk.Program.State.{
  BuildStatus, build_none, build_in_progress, type_compiled_object, type_library,
}
use clvk.Program.Build.{
  start_or_wait, Operation, compile, link, build, build_binary, Input, Builder, Request, Answers,
  is_in_progress, in_progress, creates_library, built_type, prepare, do_build, build_and_wait,
  failure_code,
}
use clvk.Program.Build.Stages.{
  Single, is_built, passes, compiles, prepare-Single, prepare_type, do_build_built, compile_type,
  build_and_wait_builder, build_and_wait_answers, Single-idle,
}
use clvk.Program.Entry.{
  ContextObject, ProgramObject, new_program, Args, Headers, mismatched, all_available,
  can_be_linked, input_of, request, read_inputs, compile_with, compile_valid_program,
  compile_program, all_valid_programs, all_linkable, link_with, link_program,
}

-- The arguments of a call without a list of devices and without a callback.
abbrev pub plain : Option Text → Args
plain o = record {
  num_devices = 0;
  device_list = none;
  options = o;
  pfn_notify = false;
  user_data = false;
}

pub start_or_wait_plain :
    (r : Request) (a : Answers) (b : Builder)
    → r.callback ≡ false
    → start_or_wait r a b ≡ build_and_wait r a b
unfolding start_or_wait
start_or_wait_plain r a b e = rw e

-- A test that would have answered otherwise has failed.
passed {ℓ} :
    {A : Type ℓ} (t : Bool) (x y z : A) → x ≢ z → (if t then x else y) ≡ z → (t ≡ false) × (y ≡ z)
passed true x y z differs e = absurd (differs e)
passed false x y z differs e = (refl, e)

taken {ℓ} :
    {A : Type ℓ} (t : Bool) (x y z : A) → y ≢ z → (if t then x else y) ≡ z → (t ≡ true) × (x ≡ z)
taken true x y z differs e = (refl, e)
taken false x y z differs e = absurd (differs e)

abbrev answered : Option ProgramObject → Code → Option (Option ProgramObject × Code)
answered h c = some (h, c)

rejected :
    (h h' : Option ProgramObject) (c : Code) → c ≢ success → answered h c ≢ answered h' success
rejected h h' c failed e = failed (ap (λ r. r.1) (some-injective e))

crashed_or_refused :
    (busy : Bool) (p p' : ProgramObject)
    → (if busy then answered (some p) invalid_operation else none) ≢ answered (some p') success
crashed_or_refused true p p' e = rejected (some p) (some p') invalid_operation (λ k. absurd cc) e
crashed_or_refused false p p' e = absurd cc

compile_with_success :
    (a : Args) (ans : Answers) (h : Headers) (p p' : ProgramObject)
    → a.pfn_notify ≡ false
    → compile_with a ans h p ≡ some (some p', success)
    → (is : List Input) × let r = request a compile is h.header_include_names in
        (p' ≡ record p { builder = (build_and_wait r ans p.builder).0 })
        × ((build_and_wait r ans p.builder).1 ≡ success)
unfolding compile_with
compile_with_success a ans h p p' waits e =
    elim (Option-cases (read_inputs h.num_input_headers (elements h.input_headers))) [
      | inl o ↦ absurd (
          crashed_or_refused (in_progress p.builder.program.dev_status) p p'
            (rw (o, compile_with) at e))
      | inr (is, o) ↦
          let r = request a compile is h.header_include_names in
          let waited = start_or_wait_plain r ans p.builder waits in
          let result = some-injective (rw (o, compile_with) at e) in
          (
            is,
            (
              some-injective (sym (ap (λ x. x.0) result))
                  ∙ ap (λ x. record p { builder = x.0 }) waited,
              sym (ap (λ x. x.1) waited) ∙ ap (λ x. x.1) result,
            ),
          )
    ]

compile_success :
    (available : ℕ → Bool) (o : Option Text) (ans : Answers) (h : Headers) (p p' : ProgramObject)
    → compile_program available (plain o) ans h (some p) ≡ some (some p', success)
    → (p.valid ≡ true) × (compile_with (plain o) ans h p ≡ some (some p', success))
unfolding compile_program compile_valid_program all_available
compile_success available o ans h p p' e =
    let (valid, checked) =
      taken p.valid _ _ _ (rejected (some p) (some p') invalid_program (λ k. absurd cc)) e in
    let (headers, next) =
      passed
        (mismatched h.num_input_headers h.header_include_names
          || mismatched h.num_input_headers h.input_headers)
        _ _ _ (rejected (some p) (some p') invalid_value (λ k. absurd cc)) checked in
    let (source, last) =
      passed p.builder.program.loaded_from_binary _ _ _
        (rejected (some p) (some p') invalid_operation (λ k. absurd cc)) next in
    (valid, last)

failure_code-fails : (op : Operation) → failure_code op ≢ success
failure_code-fails build e = absurd cc
failure_code-fails build_binary e = absurd cc
failure_code-fails compile e = absurd cc
failure_code-fails link e = absurd cc

and_true : (x : Bool) → (x && true) ≡ true → x ≡ true
and_true true e = refl
and_true false e = e

abbrev has_object : Builder → Bool
has_object b =
    b.program.binary_type == type_compiled_object || b.program.binary_type == type_library

-- A compilation that returns CL_SUCCESS, without a list of devices and without a callback, of a
-- program that has no other device than its context's and is not being built.
compiled_can_be_linked :
    (r : Request) (ans : Answers) (p : ProgramObject) (s : BuildStatus)
    → Single p.builder s
    → is_in_progress s ≡ false
    → r.devices ≡ []
    → r.operation ≡ compile
    → (build_and_wait r ans p.builder).1 ≡ success
    → can_be_linked (record p { builder = (build_and_wait r ans p.builder).0 }) ≡ true
unfolding can_be_linked built_type
compiled_can_be_linked r ans p s single free none_given op ok =
    let b : Builder = prepare r p.builder in
    let runs = build_and_wait_builder r ans p.builder (Single-idle p.builder s single free) in
    let answer =
      build_and_wait_answers r ans p.builder s single free none_given
        (λ e. absurd (let bad = sym op ∙ e in cc)) in
    let op' : b.operation ≡ compile = (prepare_type r p.builder).1 ∙ op in
    let (pass, _) =
      taken (passes ans r.operation (creates_library b)) _ _ _ (failure_code-fails r.operation)
        (sym answer ∙ ok) in
    let compiled : passes ans compile (creates_library b) ≡ true =
      ap (λ o. passes ans o (creates_library b)) (sym op) ∙ pass in
    let works =
      do_build_built ans b build_in_progress (prepare-Single r p.builder s single none_given)
        (λ e. absurd (let bad = sym op' ∙ e in cc)) in
    let done : is_built (do_build ans b) ≡ true =
      works ∙ ap (λ o. passes ans o (creates_library b)) op' ∙ compiled in
    let type = compile_type ans b op' (and_true (compiles ans compile) compiled) in
    ap (λ c. is_built c && has_object c) runs
    ∙ ap (λ x. x && has_object (do_build ans b)) done
    ∙ ap (λ t. t == type_compiled_object || t == type_library) type

-- clLinkProgram of one program that can be linked.
link_lem :
    (available : ℕ → Bool) (o : Option Text) (ans : Answers) (c : ContextObject) (p : ProgramObject)
    → c.valid ≡ true
    → p.valid ≡ true
    → can_be_linked p ≡ true
    → link_program available (plain o) ans (some c) 1 (some (some p ∷ []))
      ≡ link_with (plain o) ans c (input_of p ∷ [])
unfolding link_program all_available all_valid_programs all_linkable read_inputs
link_lem available o ans c p valid valid' linkable = simp (valid, valid', linkable)

abbrev pub link_request : Option Text → ProgramObject → Request
link_request o p = request (plain o) link (input_of p ∷ []) none

-- clCompileProgram without a list of devices and without a callback, of a program that has no other
-- device than its context's and is not being built: if it returns CL_SUCCESS, clLinkProgram of the
-- compiled program gives a program, and returns CL_SUCCESS exactly when all passes that a link
-- needs, CL_LINK_PROGRAM_FAILURE if not.
pub compiled_links :
    (available : ℕ → Bool) (o : Option Text) (ans : Answers) (h : Headers) (p p' : ProgramObject)
    (s : BuildStatus) (available' : ℕ → Bool) (o' : Option Text) (ans' : Answers)
    (c : ContextObject)
    → Single p.builder s
    → is_in_progress s ≡ false
    → c.valid ≡ true
    → compile_program available (plain o) ans h (some p) ≡ some (some p', success)
    → (q : ProgramObject) × (link_program available'
          (plain o')
          ans'
          (some c)
          1
          (some (some p' ∷ []))
        ≡ (
          some q,
          if passes ans' link
                (creates_library (prepare (link_request o' p') (new_program c.device).builder))
              then success
              else link_program_failure,
        ))
unfolding link_with new_program
compiled_links available o ans h p p' s available' o' ans' c single free valid e =
    let (own, rest) = compile_success available o ans h p p' e in
    let (is, (same, ok)) = compile_with_success (plain o) ans h p p' refl rest in
    let r = request (plain o) compile is h.header_include_names in
    let linkable : can_be_linked p' ≡ true =
      ap can_be_linked same ∙ compiled_can_be_linked r ans p s single free refl refl ok in
    let own' : p'.valid ≡ true = ap (λ x. x.valid) same ∙ own in
    let new : Builder = (new_program c.device).builder in
    let waited = start_or_wait_plain (link_request o' p') ans' new refl in
    (
      record (new_program c.device) { builder = (start_or_wait (link_request o' p') ans' new).0 },
      link_lem available' o' ans' c p' valid own' linkable
          ∙ ap
              (λ k. (
                some (record (new_program c.device) {
                  builder = (start_or_wait (link_request o' p') ans' new).0;
                }),
                k,
              ))
              (ap (λ x. x.1) waited
                ∙ build_and_wait_answers (link_request o' p') ans' new build_none refl refl refl
                    (λ k. absurd cc)),
    )
