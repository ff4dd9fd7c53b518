-- ===== src/Printf.antt =====
-- Kernel printf: src/printf.cpp, but for the strings of the formats.
pub mod Format
pub mod Parts
pub mod Items
pub mod Reference
pub mod Buffer
mod Tests
use clvk.Common.{
  ℕ, zero, suc, ◌+◌, ◌-◌, ◌*◌, ◌/◌, ◌<◌, ◌≤◌, Bool, true, false, ◌&&◌, ◌||◌, not, List, [], ◌∷◌,
  ◌++◌, Option, none, some, ◌==◌, if◌then◌else◌, ltb, leb, length, take, drop, read_at, from_le,
  min, u32, sub64,
}
use clvk.Codes.{Code, success, out_of_resources}
use clvk.PrintfText.{Text, char_s, get_fmt_conversion, get_vector_fmt, one_of, percent, split_at}

-- An argument of `snprintf`: a C string, or the bytes of a number and their count.
pub data Argument : Type 0 where
  chars : Text → Argument
  half float double : Text → Argument
  unsigned : ℕ → Text → Argument

-- The text before the first NUL.
unfoldable pub c_str : Text → Text
c_str [] = []
c_str (c ∷ t) = let rest = c_str t in if c == 0 then [] else c ∷ rest

unfoldable pub tolower : ℕ → ℕ
tolower c = if leb 65 c && leb c 90 then c + 32 else c

-- The `switch` of `print_part`: what is read at `data` for a conversion.
unfoldable pub argument : ℕ → Text → ℕ → Argument
argument conversion data' size =
    if conversion == char_s
    then chars (c_str data')
    else if one_of conversion (102 ∷ 101 ∷ 103 ∷ 97 ∷ [])
    then if size == 2
      then half (take 2 data')
      else if size == 4
      then float (take 4 data')
      else double (take 8 data')
    else if size == 1
    then unsigned 1 (take 1 data')
    else if size == 2
    then unsigned 2 (take 2 data')
    else if size == 4
    then unsigned 4 (take 4 data')
    else unsigned 8 (take 8 data')

-- What printing a part of a format does: it throws an exception, its loop does not end within the
-- fuel, or it gives a text.
pub data Part : Type 0 where
  threw endless : Part
  wrote : Text → Part

-- The loop of `print_part` for a call that would write `text`.
unfoldable pub print_loop : ℕ → ℕ → Text → Part
print_loop zero out_size text = endless
print_loop (suc fuel) out_size text =
    let rest = print_loop fuel (out_size * 2) text in
    if ltb (length text) out_size then wrote (c_str (take (out_size - 1) text)) else rest

-- `printf_descriptor`.
pub record Descriptor : Type 0 where
  pub format_string : Text
  pub arg_sizes : List ℕ

-- How `process_printf` ends: with a memory error or an exception, with an argument that is past
-- the data, or with what it prints, each with where the data is then.
pub data Outcome : Type 0 where
  fault out_of_fuel : Outcome
  skipped : ℕ → Outcome
  printed : Text → ℕ → Outcome

-- What a turn of the loop of `process_printf` leaves: the end, or the format that is left, the
-- sizes that are, the data and what is printed so far.
pub data Turn : Type 0 where
  stops : Outcome → Turn
  goes : Text → List ℕ → ℕ → Text → Turn

-- What the turn at "%%" leaves of the format `g` behind it: `lit` is before the next '%', if there
-- is one in `after`, and is then printed at once.
unfoldable pub percent_turn : Text → Text → Text → List ℕ → ℕ → Text → Turn
percent_turn g lit [] sizes data' out = goes g sizes data' (out ++ (percent ∷ []))
percent_turn g lit (q ∷ h) sizes data' out = goes (q ∷ h) sizes data' (out ++ (percent ∷ lit))

-- What reaches the callback: the text, and whether it is the last.
abbrev pub Output : Type 0
Output = List (Text × Bool)

pub data Result : Type 0 where
  faulted stuck : Result
  returned : Code → Output → Result

-- `snprintf` gives the text that it would write if there were room, or fails. The buffer is the
-- bytes of the printf buffer.
module _ (snprintf : Text → Argument → Option Text) (descs : ℕ → Option Descriptor)
    (buffer : List ℕ) where
  -- `print_part` of what is in memory at a pointer. The length of the text is fuel enough.
  unfoldable pub print_part : Text → Text → ℕ → Part
  print_part fmt data' size = elim (get_fmt_conversion fmt) [
    | none ↦ threw
    | some k ↦ elim (snprintf fmt (argument (tolower k) data' size)) [
      | none ↦ wrote []
      | some text ↦ print_loop (suc (length text)) (length fmt + 1024) text
    ]
  ]

  -- The elements of a vector: all but the last are followed by a comma.
  unfoldable pub print_elements : ℕ → Text → ℕ → ℕ → Part
  print_elements zero fmt data' size = print_part fmt (drop data' buffer) size
  print_elements (suc n) fmt data' size = elim (print_part fmt (drop data' buffer) size) [
    | threw ↦ threw
    | endless ↦ endless
    | wrote t ↦ elim (print_elements n fmt (data' + size) size) [
      | threw ↦ threw
      | endless ↦ endless
      | wrote u ↦ wrote (t ++ (44 ∷ u))
    ]
  ]

  unfoldable pub print_scalar : Text → ℕ → ℕ → Part
  print_scalar fmt data' size = elim (get_fmt_conversion fmt) [
    | none ↦ threw
    | some k ↦
        if k == char_s
        then elim (descs (from_le (read_at data' 4 buffer))) [
          | none ↦ threw
          | some d ↦ print_part fmt d.format_string size
        ]
        else print_part fmt (drop data' buffer) size
  ]

  -- One argument, a scalar or a vector.
  unfoldable pub print_arg : Text → ℕ → ℕ → Part
  print_arg part data' size = elim (get_vector_fmt part) [
    | none ↦ threw
    | some v ↦
        if ltb v.vector_size 2
        then print_scalar v.fmt data' size
        else let el_size = if v.element_size == 0 then size / v.vector_size else v.element_size in
          elim (print_elements (v.vector_size - 1) v.fmt data' el_size) [
            | threw ↦ threw
            | endless ↦ endless
            | wrote t ↦ wrote (t ++ v.remaining)
          ]
  ]

  -- A part with one argument: `rest` is where the next part starts.
  unfoldable pub convert : Text → Text → ℕ → List ℕ → ℕ → ℕ → Text → Turn
  convert part rest size sizes data' data_end out =
      if ltb data_end (data' + size)
      then stops (skipped (data' + size))
      else elim (print_arg part data' size) [
        | threw ↦ stops fault
        | endless ↦ stops out_of_fuel
        | wrote t ↦ goes rest sizes (data' + size) (out ++ t)
      ]

  -- A turn of the loop of `process_printf`, for the part `c ∷ body` before the next '%', if there
  -- is one in `rest`.
  unfoldable pub turn : ℕ → Text → Text → List ℕ → ℕ → ℕ → Text → Turn
  turn c [] (p ∷ g) sizes data' data_end out =
      let (lit, after) = split_at (percent ∷ []) g in percent_turn g lit after sizes data' out
  turn c (b ∷ bs) (p ∷ g) [] data' data_end out = stops fault
  turn c (b ∷ bs) (p ∷ g) (s ∷ ss) data' data_end out =
      convert (c ∷ b ∷ bs) (p ∷ g) s ss data' data_end out
  turn c body [] [] data' data_end out = stops (printed (out ++ (c ∷ body)) data')
  turn c body [] (s ∷ ss) data' data_end out = convert (c ∷ body) [] s ss data' data_end out

  -- The loop of `process_printf` over the parts of the format from `f` on, with the sizes that no
  -- part has used.
  unfoldable pub print_parts : ℕ → Text → List ℕ → ℕ → ℕ → Text → Outcome
  print_parts fuel [] sizes data' data_end out = printed out data'
  print_parts zero (c ∷ f) sizes data' data_end out = out_of_fuel
  print_parts (suc fuel) (c ∷ f) sizes data' data_end out =
      let (body, rest) = split_at (percent ∷ []) f in
      elim (turn c body rest sizes data' data_end out) [
        | stops o ↦ o
        | goes next left at text ↦ print_parts fuel next left at data_end text
      ]

  -- `process_printf`. The length of the format is fuel enough.
  unfoldable pub process_printf : ℕ → ℕ → Outcome
  process_printf data' data_end = elim (descs (from_le (read_at data' 4 buffer))) [
    | none ↦ fault
    | some d ↦
        let (text, rest) = split_at (percent ∷ []) d.format_string in
        let data'' : ℕ = elim rest [ [] ↦ data_end | c ∷ f ↦ data' + 4 ] in
        print_parts (length d.format_string) rest d.arg_sizes data'' data_end text
  ]

  -- The loop of `cvk_printf`.
  unfoldable pub printf_loop : ℕ → ℕ → ℕ → Output → Result
  printf_loop zero data' data_end out = if ltb data' data_end then stuck else returned success out
  printf_loop (suc fuel) data' data_end out =
      if not (ltb data' data_end)
      then returned success out
      else elim (process_printf data' data_end) [
        | fault ↦ faulted
        | out_of_fuel ↦ stuck
        | skipped next ↦ printf_loop fuel next data_end out
        | printed text next ↦
            printf_loop fuel next data_end (out ++ ((text, leb data_end next) ∷ []))
      ]

  -- `cvk_printf`. Each turn of the loop takes the data up, so the end of the data is fuel enough.
  unfoldable pub cvk_printf : Bool → Result
  cvk_printf mapped =
      if not mapped
      then returned out_of_resources []
      else let data_size = sub64 (length buffer) 4 in
        let bytes_written = u32 (from_le (read_at 0 4 buffer) * 4) in
        let data_end = 4 + min bytes_written data_size in printf_loop data_end 4 data_end []
