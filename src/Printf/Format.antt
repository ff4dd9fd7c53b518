-- ===== src/Printf/Format.antt =====
-- What is printed for one argument: `print_part` and `get_vector_fmt` of src/printf.cpp.
use clvk.Common.{
  ℕ, zero, suc, ◌+◌, ◌-◌, ◌*◌, ◌/◌, if◌then◌else◌, ◌<◌, ◌≤◌, ◌≡◌, ◌≢◌, inl, inr, refl, ap, true,
  List, [], ◌∷◌, Option, none, some, arith, length, take, ltb, ltb→lt, lt→ltb, Bool-cases,
  Option-cases, drop, ◌==◌, read_at, from_le,
}
use clvk.Printf.{
  Argument, Descriptor, endless, wrote, print_loop, print_part, print_elements, print_scalar,
  print_arg, c_str, argument, tolower,
}
use clvk.PrintfText.{Text, get_fmt_conversion, get_vector_fmt}

take-all : (n : ℕ) (t : Text) → length t ≤ n → take n t ≡ t
take-all zero [] h = refl
take-all zero (c ∷ t) h = absurd (omega arith)
take-all (suc n) [] h = refl
take-all (suc n) (c ∷ t) h = ap (λ u. c ∷ u) (take-all n t (omega arith))

-- The buffer is doubled until the text fits.
print_loop_lem :
    (fuel out_size : ℕ) (text : Text)
    → 0 < out_size
    → length text < out_size + fuel
    → print_loop (suc fuel) out_size text ≡ wrote (c_str text)
unfolding print_loop
print_loop_lem zero out_size text h e =
    let fits : ltb (length text) out_size ≡ true = lt→ltb (length text) out_size (omega arith) in
    rw (fits, take-all (out_size - 1) text (omega arith)) refl
print_loop_lem (suc fuel) out_size text h e = elim (Bool-cases (ltb (length text) out_size)) [
  | inl fits ↦
      let small = ltb→lt (length text) out_size fits in
      rw (fits, take-all (out_size - 1) text (omega arith)) refl
  | inr more ↦ rw more (print_loop_lem fuel (out_size * 2) text (omega arith) (omega arith))
]

-- A part that has a conversion is printed as all the text, to its first NUL, that `snprintf` gives
-- for it, however long that is, and as nothing where `snprintf` fails.
pub print_part_complete :
    (snprintf : Text → Argument → Option Text) (descs : ℕ → Option Descriptor) (buffer : List ℕ)
    (fmt at : Text) (size k : ℕ)
    → get_fmt_conversion fmt ≡ some k
    → ((text : Text)
        → snprintf fmt (argument (tolower k) at size) ≡ some text
        → print_part snprintf descs buffer fmt at size ≡ wrote (c_str text))
      × (snprintf fmt (argument (tolower k) at size) ≡ none
          → print_part snprintf descs buffer fmt at size ≡ wrote [])
unfolding print_part
print_part_complete snprintf descs buffer fmt at size k found = (
  (λ text e.
      rw (found, print_part, e)
        (print_loop_lem (length text) (length fmt + 1024) text (omega arith) (omega arith))),
  λ e. rw (found, print_part, e) refl,
)

module _ (snprintf : Text → Argument → Option Text) (descs : ℕ → Option Descriptor)
    (buffer : List ℕ) where
  -- The loop of a part ends, as the text that is written fits a buffer that is doubled often
  -- enough.
  print_part_ends :
      (fmt at : Text) (size : ℕ) → print_part snprintf descs buffer fmt at size ≢ endless
  unfolding print_part
  print_part_ends fmt at size = elim (Option-cases (get_fmt_conversion fmt)) [
    | inl e ↦ rw (print_part, e) (λ p. absurd cc)
    | inr (k, e) ↦ elim (Option-cases (snprintf fmt (argument (tolower k) at size))) [
      | inl e' ↦ rw (print_part, e, e') (λ p. absurd cc)
      | inr (text, e') ↦
          let fits =
            print_loop_lem (length text) (length fmt + 1024) text (omega arith) (omega arith) in
          rw (print_part, e, e', fits) (λ p. absurd cc)
    ]
  ]

  print_elements_ends :
      (n : ℕ) (fmt : Text) (at size : ℕ)
      → print_elements snprintf descs buffer n fmt at size ≢ endless
  unfolding print_elements
  print_elements_ends zero fmt at size = print_part_ends fmt (drop at buffer) size
  print_elements_ends (suc n) fmt at size =
      ground (
        arith,
        print_part_ends fmt (drop at buffer) size,
        print_elements_ends n fmt (at + size) size,
      )

  print_scalar_ends :
      (fmt : Text) (at size : ℕ) → print_scalar snprintf descs buffer fmt at size ≢ endless
  unfolding print_scalar
  print_scalar_ends fmt at size = elim (Option-cases (get_fmt_conversion fmt)) [
    | inl e ↦ rw (print_scalar, e) (λ p. absurd cc)
    | inr (k, e) ↦ elim (Option-cases (descs (from_le (read_at at 4 buffer)))) [
      | inl e' ↦ ground (arith, e, e', print_part_ends fmt (drop at buffer) size)
      | inr (d, e') ↦ ground (
        arith,
        e,
        e',
        print_part_ends fmt (drop at buffer) size,
        print_part_ends fmt d.format_string size,
      )
    ]
  ]

  pub print_arg_ends :
      (part : Text) (at size : ℕ) → print_arg snprintf descs buffer part at size ≢ endless
  unfolding print_arg
  print_arg_ends part at size = elim (Option-cases (get_vector_fmt part)) [
    | inl e ↦ rw (print_arg, e) (λ p. absurd cc)
    | inr (v, e) ↦
        let el_size : ℕ = if v.element_size == 0 then size / v.vector_size else v.element_size in
        ground (
          arith,
          e,
          print_scalar_ends v.fmt at size,
          print_elements_ends (v.vector_size - 1) v.fmt at el_size,
        )
  ]
