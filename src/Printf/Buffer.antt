-- ===== src/Printf/Buffer.antt =====
-- `process_printf` and `cvk_printf` of src/printf.cpp: the walk over the printf buffer.
use clvk.Common.{
  ℕ, zero, suc, ◌+◌, ◌<◌, ◌≤◌, ◌≡◌, ◌≢◌, inl, inr, refl, Bool, true, false, List, [], ◌∷◌, ◌++◌,
  Option, some, arith, length, ltb, leb, Bool-cases, Option-cases, read_at, from_le, ltb→lt, lt→ltb,
}
use clvk.Codes.{success}
use clvk.Printf.{
  Argument, Descriptor, Outcome, Output, Result, print_parts, process_printf, printf_loop,
  cvk_printf,
}
use clvk.PrintfText.{Text, split_at, percent}
use clvk.Printf.Items.{Plain, split_at-Plain}
use clvk.Printf.Parts.{Advances, print_parts-Advances, Advances-le, split_at-le}

start_up :
    (pos limit : ℕ) (rest : Text)
    → pos < limit
    → pos + 1 ≤ elim rest [ [] ↦ limit | c ∷ f ↦ pos + 4 ]
start_up pos limit [] h = omega arith
start_up pos limit (c ∷ f) h = omega arith

module _ (snprintf : Text → Argument → Option Text) (descs : ℕ → Option Descriptor)
    (buffer : List ℕ) where
  -- Each printf ends and takes the data up, when there is data.
  process_printf-Advances :
      (pos limit : ℕ)
      → pos < limit
      → Advances (pos + 1) (process_printf snprintf descs buffer pos limit)
  unfolding process_printf Advances
  process_printf-Advances pos limit h =
      elim (Option-cases (descs (from_le (read_at pos 4 buffer)))) [
        | inl p ↦ rw (p, process_printf) tt
        | inr (d, p) ↦
            let shorter = split_at-le (percent ∷ []) d.format_string in
            rw (p, process_printf)
              (Advances-le (pos + 1) _ _
                (start_up pos limit (split_at (percent ∷ []) d.format_string).1 h)
                (print_parts-Advances snprintf descs buffer (length d.format_string)
                  (split_at (percent ∷ []) d.format_string).1 d.arg_sizes _ limit _ shorter))
      ]

  -- What `printf_loop` does with the end of a printf.
  abbrev go_on : ℕ → ℕ → Output → Outcome → Result
  go_on fuel limit out Outcome.fault = Result.faulted
  go_on fuel limit out Outcome.out_of_fuel = Result.stuck
  go_on fuel limit out (Outcome.skipped next) =
      printf_loop snprintf descs buffer fuel next limit out
  go_on fuel limit out (Outcome.printed text next) =
      printf_loop snprintf descs buffer fuel next limit (out ++ ((text, leb limit next) ∷ []))

  go_on_ends :
      (fuel pos limit : ℕ) (out : Output) (o : Outcome)
      → Advances pos o
      → ((next : ℕ) (out' : Output)
          → pos ≤ next
          → printf_loop snprintf descs buffer fuel next limit out' ≢ Result.stuck)
      → go_on fuel limit out o ≢ Result.stuck
  unfolding Advances
  go_on_ends fuel pos limit out Outcome.fault a rest = ground arith
  go_on_ends fuel pos limit out Outcome.out_of_fuel a rest = elim a [ ]
  go_on_ends fuel pos limit out (Outcome.skipped next) a rest = rest next out a
  go_on_ends fuel pos limit out (Outcome.printed text next) a rest =
      rest next (out ++ ((text, leb limit next) ∷ [])) a

  -- The loop does not use up its fuel.
  printf_loop_ends :
      (fuel pos limit : ℕ) (out : Output)
      → limit ≤ pos + fuel
      → printf_loop snprintf descs buffer fuel pos limit out ≢ Result.stuck
  unfolding printf_loop
  printf_loop_ends zero pos limit out h = ground arith
  printf_loop_ends (suc fuel) pos limit out h = elim (Bool-cases (ltb pos limit)) [
    | inl e ↦
        let a = process_printf-Advances pos limit (ltb→lt pos limit e) in
        rw e (
          go_on_ends fuel (pos + 1) limit out (process_printf snprintf descs buffer pos limit) a
            (λ next out' up. printf_loop_ends fuel next limit out' (omega arith)))
    | inr e ↦ rw e (ground arith)
  ]

  -- The walk over the buffer comes to an end, whatever the buffer, the formats and `snprintf` are,
  -- and so do the loops of all the parts that it prints, which double their buffer until the text
  -- fits.
  pub cvk_printf_ends : (mapped : Bool) → cvk_printf snprintf descs buffer mapped ≢ Result.stuck
  unfolding cvk_printf
  cvk_printf_ends true = printf_loop_ends _ 4 _ [] (omega arith)
  cvk_printf_ends false = ground arith

  loop_at_end :
      (fuel limit : ℕ) (out : Output)
      → printf_loop snprintf descs buffer fuel limit limit out ≡ Result.returned success out
  unfolding printf_loop
  loop_at_end zero limit out = ground arith
  loop_at_end (suc fuel) limit out = ground arith

  -- A printf whose format has no '%' ends the walk, in a buffer with data: what is after it is not
  -- printed, whatever it is.
  process_printf_drops_rest :
      (fuel pos limit : ℕ) (out : Output) (d : Descriptor)
      → pos < limit
      → descs (from_le (read_at pos 4 buffer)) ≡ some d
      → Plain d.format_string
      → printf_loop snprintf descs buffer (suc fuel) pos limit out
        ≡ Result.returned success (out ++ ((d.format_string, true) ∷ []))
  unfolding printf_loop process_printf print_parts
  process_printf_drops_rest fuel pos limit out d h found plain =
      let some_data : ltb pos limit ≡ true = lt→ltb pos limit h in
      let last : leb limit limit ≡ true = ground arith in
      let ended : process_printf snprintf descs buffer pos limit
          ≡ Outcome.printed d.format_string limit =
        rw (found, process_printf, split_at-Plain d.format_string plain) refl in
      rw (some_data, ended, last) (loop_at_end fuel limit _)
