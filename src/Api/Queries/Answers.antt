-- ===== src/Api/Queries/Answers.antt =====
-- What the queries write, and what they return.
use clvk.Common.{
  ℕ, zero, suc, ◌≤◌, ◌<◌, ◌≡◌, refl, sym, ap, ◌∙◌, subst, ◌⊎◌, inl, inr, true, false, List, [], ◌∷◌,
  ◌++◌, Option, none, some, ltb, length, take, drop, min, arith, Bool-cases, some-injective,
}
use clvk.Codes.{Code, success, invalid_value}
use clvk.Api.Queries.{Request, Found, answer, answer_or_return, refuse, memcpy_to, size_of, copied}
use clvk.Api.Queries.Shapes.{Query, run_query, contents, bytes_of, run_query-Shape}

memcpy_to-short :
    (bs : List ℕ) (n size : ℕ) (memory : List ℕ)
    → n ≤ length bs
    → n ≤ size
    → size ≤ length memory
    → (length (memcpy_to bs n memory) ≡ length memory)
      × (drop size (memcpy_to bs n memory) ≡ drop size memory)
memcpy_to-short bs zero size memory h k l = (refl, refl)
memcpy_to-short [] (suc n) size memory h k l = absurd (omega arith)
memcpy_to-short (b ∷ bs) (suc n) zero memory h k l = absurd (omega arith)
memcpy_to-short (b ∷ bs) (suc n) (suc size) [] h k l = absurd (omega arith)
memcpy_to-short (b ∷ bs) (suc n) (suc size) (x ∷ memory) h k l =
    let (same, rest) = memcpy_to-short bs n size memory (omega arith) (omega arith) (omega arith) in
    (ap suc same, rest)

take-length : (bs : List ℕ) → take (length bs) bs ≡ bs
take-length [] = refl
take-length (b ∷ bs) = ap (λ x. b ∷ x) (take-length bs)

-- The caller's memory keeps its size, and what is behind the size that it gives.
abbrev pub KeepsRest : ℕ → List ℕ → Option (List ℕ) → Type 0
KeepsRest size memory value =
    (new : List ℕ) × (value ≡ some new)
    × (length new ≡ length memory)
    × (drop size new ≡ drop size memory)

copied-KeepsRest :
    (size : ℕ) (ret : Code) (o : Option (List ℕ)) (memory : List ℕ)
    → size ≤ length memory
    → KeepsRest size memory (some (copied size ret o memory).1)
copied-KeepsRest size ret none memory h = (memory, refl, refl, refl)
copied-KeepsRest size ret (some bs) memory h =
    let (same, rest) =
      memcpy_to-short bs (min size (length bs)) size memory (omega arith) (omega arith) h in
    (memcpy_to bs (min size (length bs)) memory, refl, same, rest)

copied_enough :
    (size : ℕ) (ret : Code) (o : Option (List ℕ)) (memory : List ℕ)
    → size_of o ≤ size
    → copied size ret o memory ≡ (ret, bytes_of o ++ drop (size_of o) memory)
copied_enough size ret none memory h = refl
copied_enough size ret (some bs) memory h =
    let all : min size (length bs) ≡ length bs = omega arith in
    let fits : ltb size (length bs) ≡ false = ground arith in rw (fits, all, take-length bs)

copied_success :
    (size : ℕ) (ret : Code) (o : Option (List ℕ)) (memory : List ℕ)
    → (copied size ret o memory).0 ≡ success
    → size_of o ≤ size
copied_success size ret none memory h = omega arith
copied_success size ret (some bs) memory h = elim (Bool-cases (ltb size (length bs))) [
  | inl y ↦ absurd (let f = rw y at h in cc)
  | inr n ↦ ground arith
]

length-bytes_of : (o : Option (List ℕ)) → length (bytes_of o) ≡ size_of o
length-bytes_of none = refl
length-bytes_of (some bs) = refl

module _ (f : Found) (r : Request) (memory : List ℕ) (given : r.param_value ≡ some memory) where
  answer_given :
      ((answer f r).ret ≡ (copied r.param_value_size f.ret f.bytes memory).0)
      × ((answer f r).value ≡ some (copied r.param_value_size f.ret f.bytes memory).1)
  unfolding answer
  answer_given = (rw given, rw given)

  -- clGetContextInfo either writes nothing, as the size is too small, or goes on like the others.
  answer_or_return_given :
      ((answer_or_return f r ≡ refuse invalid_value r) × (r.param_value_size < size_of f.bytes))
      ⊎ ((answer_or_return f r ≡ answer f r) × (size_of f.bytes ≤ r.param_value_size))
  unfolding answer_or_return
  answer_or_return_given = elim (Bool-cases (ltb r.param_value_size (size_of f.bytes))) [
    | inl y ↦ inl (rw (given, answer_or_return) (rw y (rw given)), ground arith)
    | inr n ↦ inr (simp (given, answer_or_return, n), ground arith)
  ]

-- A query with memory of at least the size that it is given: it changes nothing behind that size.
pub run_query_in_bounds :
    (q : Query) (r : Request) (memory : List ℕ)
    → r.param_value ≡ some memory
    → r.param_value_size ≤ length memory
    → KeepsRest r.param_value_size memory (run_query q r).value
run_query_in_bounds q r memory given room = elim (run_query-Shape q) [
  | inl (e, ne, refuses) ↦
      subst (KeepsRest r.param_value_size memory) (sym (ap (λ o. o.value) (refuses r) ∙ given))
        (memory, refl, refl, refl)
  | inr (f, same, how) ↦
      let kept = copied-KeepsRest r.param_value_size f.ret f.bytes memory room in
      let (code, written) = answer_given f r memory given in
      elim how [
        | inl answers ↦
            subst (KeepsRest r.param_value_size memory)
              (sym (ap (λ o. o.value) (answers r) ∙ written)) kept
        | inr answers ↦ elim (answer_or_return_given f r memory given) [
          | inl (refuses, small) ↦
              subst (KeepsRest r.param_value_size memory)
                (sym (ap (λ o. o.value) (answers r ∙ refuses) ∙ given)) (memory, refl, refl, refl)
          | inr (goes_on, enough) ↦
              subst (KeepsRest r.param_value_size memory)
                (sym (ap (λ o. o.value) (answers r ∙ goes_on) ∙ written)) kept
        ]
      ]
]

-- What an answer that has room for the value gives.
whole :
    (q : Query) (f : Found) (r : Request) (memory : List ℕ)
    → contents q ≡ bytes_of f.bytes
    → r.param_value ≡ some memory
    → size_of f.bytes ≤ r.param_value_size
    → ((answer f r).ret ≡ f.ret)
      × ((answer f r).value ≡ some (contents q ++ drop (length (contents q)) memory))
whole q f r memory same given enough =
    let (code, written) = answer_given f r memory given in
    let all = copied_enough r.param_value_size f.ret f.bytes memory enough in
    (
      code ∙ ap (λ x. x.0) all,
      written
          ∙ ap (λ x. some x.1) all
          ∙ ap (λ n. some (bytes_of f.bytes ++ drop n memory)) (sym (length-bytes_of f.bytes))
          ∙ ap (λ bs. some (bs ++ drop (length bs) memory)) (sym same),
    )

-- A query with memory that returns CL_SUCCESS has written the whole value.
pub success_is_whole :
    (q : Query) (r : Request) (memory : List ℕ)
    → r.param_value ≡ some memory
    → (run_query q r).ret ≡ success
    → (run_query q r).value ≡ some (contents q ++ drop (length (contents q)) memory)
success_is_whole q r memory given ok = elim (run_query-Shape q) [
  | inl (e, ne, refuses) ↦ absurd (ne (sym (ap (λ o. o.ret) (refuses r)) ∙ ok))
  | inr (f, same, how) ↦ elim how [
    | inl answers ↦
        let (code, written) = answer_given f r memory given in
        let enough =
          copied_success r.param_value_size f.ret f.bytes memory
            (sym code ∙ sym (ap (λ o. o.ret) (answers r)) ∙ ok) in
        ap (λ o. o.value) (answers r) ∙ (whole q f r memory same given enough).1
    | inr answers ↦ elim (answer_or_return_given f r memory given) [
      | inl (refuses, small) ↦
          absurd (let bad = sym (ap (λ o. o.ret) (answers r ∙ refuses)) ∙ ok in cc)
      | inr (goes_on, enough) ↦
          ap (λ o. o.value) (answers r ∙ goes_on) ∙ (whole q f r memory same given enough).1
    ]
  ]
]

-- A query for the size only.
abbrev pub ask : ℕ → Request
ask n = record { param_value_size = n; param_value = none; size_ret = true }

answer-ask :
    (f : Found) (n : ℕ)
    → (answer f (ask n) ≡ record { ret = f.ret; value = none; size = some (size_of f.bytes) })
      × (answer_or_return f (ask n)
          ≡ record { ret = f.ret; value = none; size = some (size_of f.bytes) })
unfolding answer answer_or_return
answer-ask f n = (refl, refl)

-- A query for the size of a value, and a second one with at least as much memory: the second one
-- returns what the first one did, and writes the whole value, which has the size that was asked
-- for.
pub size_then_value :
    (q : Query) (s n : ℕ) (r : Request) (memory : List ℕ)
    → (run_query q (ask s)).size ≡ some n
    → r.param_value ≡ some memory
    → n ≤ r.param_value_size
    → ((run_query q r).ret ≡ (run_query q (ask s)).ret)
      × ((run_query q r).value ≡ some (contents q ++ drop n memory))
      × (length (contents q) ≡ n)
size_then_value q s n r memory asked given enough = elim (run_query-Shape q) [
  | inl (e, ne, refuses) ↦ absurd (let bad = sym (ap (λ o. o.size) (refuses (ask s))) ∙ asked in cc)
  | inr (f, same, how) ↦
      let first : run_query q (ask s)
          ≡ record { ret = f.ret; value = none; size = some (size_of f.bytes) } =
        elim how [
          | inl answers ↦ answers (ask s) ∙ (answer-ask f s).0
          | inr answers ↦ answers (ask s) ∙ (answer-ask f s).1
        ] in
      let size : size_of f.bytes ≡ n = some-injective (sym (ap (λ o. o.size) first) ∙ asked) in
      let second : run_query q r ≡ answer f r = elim how [
        | inl answers ↦ answers r
        | inr answers ↦ elim (answer_or_return_given f r memory given) [
          | inl (refuses, small) ↦ absurd (omega (arith, small, size, enough))
          | inr (goes_on, room) ↦ answers r ∙ goes_on
        ]
      ] in
      let (code, written) = whole q f r memory same given (omega (arith, size, enough)) in
      let length_same : length (contents q) ≡ n = ap length same ∙ length-bytes_of f.bytes ∙ size in
      (
        ap (λ o. o.ret) second ∙ code ∙ sym (ap (λ o. o.ret) first),
        ap (λ o. o.value) second
            ∙ written
            ∙ ap (λ k. some (contents q ++ drop k memory)) length_same,
        length_same,
      )
]
