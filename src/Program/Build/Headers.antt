-- ===== src/Program/Build/Headers.antt =====
-- The headers of a compilation by a compiler that reads them from files. The source keeps pointers
-- to the names and to the input programs, and here their texts are kept, as they were then.
use clvk.Common.{
  ℕ, zero, suc, ◌+◌, ◌≤◌, ◌≡◌, refl, sym, ap, ap₂, ◌∙◌, inl, inr, List, [], ◌∷◌, ◌++◌, some, arith,
  Bool-cases, length, take, some-injective,
}
use clvk.PrintfText.{Text}
use clvk.Program.Build.{
  Builder, Request, Input, some_or, in_progress, add_inputs, mark_in_progress, prepare, begin_build,
}

-- The headers that a compilation saves: the loop over `num_input_programs`, which reads names and
-- programs in step.
pub saved_headers : ℕ → List Text → List Input → List (Text × Text)
saved_headers zero names programs = []
saved_headers (suc n) [] programs = []
saved_headers (suc n) (t ∷ names) [] = []
saved_headers (suc n) (t ∷ names) (p ∷ programs) = (t, p.source) ∷ saved_headers n names programs

abbrev pub headers_of : Builder → List (Text × Text)
headers_of b = saved_headers b.num_input_programs b.header_include_names b.input_programs

saved_headers-append :
    (n : ℕ) (names names' : List Text) (programs programs' : List Input)
    → length names ≡ length programs
    → n ≤ length programs
    → saved_headers n (names ++ names') (programs ++ programs') ≡ saved_headers n names programs
unfolding saved_headers
saved_headers-append zero names names' programs programs' e h = refl
saved_headers-append (suc n) [] names' [] programs' e h = absurd (omega arith)
saved_headers-append (suc n) [] names' (p ∷ programs) programs' e h = absurd (omega arith)
saved_headers-append (suc n) (t ∷ names) names' [] programs' e h = absurd (omega arith)
saved_headers-append (suc n) (t ∷ names) names' (p ∷ programs) programs' e h =
    ap (λ r. (t, p.source) ∷ r)
      (saved_headers-append n names names' programs programs' (omega arith) (omega arith))

prepared :
    (b : Builder) (r : Request) (i : Input) (is : List Input)
    → r.inputs ≡ i ∷ is
    → ((prepare r b).input_programs ≡ b.input_programs ++ (i ∷ is))
      × ((prepare r b).header_include_names
          ≡ b.header_include_names ++ take (length (i ∷ is)) (some_or [] r.header_names))
      × ((prepare r b).num_input_programs ≡ length r.inputs)
unfolding prepare mark_in_progress add_inputs
prepared b r i is e = (
  ap (λ x. (add_inputs x r (record b { refcount = b.refcount + 1 })).input_programs) e,
  ap (λ x. (add_inputs x r (record b { refcount = b.refcount + 1 })).header_include_names) e,
  refl,
)

begun : (b c : Builder) (r : Request) → begin_build r b ≡ some c → prepare r b ≡ c
unfolding begin_build
begun b c r e = elim (Bool-cases (in_progress b.program.dev_status)) [
  | inl y ↦ absurd (let f = rw (y, begin_build) at e in cc)
  | inr n ↦ some-injective (rw (n, begin_build) at e)
]

-- A program that was given headers before, at least as many as it is given now: when it is compiled
-- again, the headers that are saved are the first of the earlier ones, and none of the new ones,
-- since those are added behind.
pub headers_are_stale :
    (b c : Builder) (r : Request) (i : Input) (is : List Input)
    → begin_build r b ≡ some c
    → r.inputs ≡ i ∷ is
    → length b.header_include_names ≡ length b.input_programs
    → length r.inputs ≤ length b.input_programs
    → headers_of c ≡ saved_headers (length r.inputs) b.header_include_names b.input_programs
headers_are_stale b c r i is e given same enough =
    let (programs, names, num) = prepared b r i is given in
    ap headers_of (sym (begun b c r e))
    ∙ ap (λ n. saved_headers n (prepare r b).header_include_names (prepare r b).input_programs) num
    ∙ ap₂ (saved_headers (length r.inputs)) names programs
    ∙ saved_headers-append (length r.inputs) b.header_include_names
        (take (length (i ∷ is)) (some_or [] r.header_names)) b.input_programs (i ∷ is) same enough
