-- ===== src/PrintfText.antt =====
-- The text of a printf's format: the strings and `get_vector_fmt` of src/printf.cpp. Text is a list
-- of character codes. A position in a string is what is left of it from there; `std::string::npos`
-- is that nothing is found.
use clvk.Common.{
  ℕ, suc, ◌+◌, ◌-◌, ◌*◌, Bool, true, false, ◌&&◌, ◌||◌, not, List, [], ◌∷◌, ◌++◌, Option, none,
  some, ◌==◌, if◌then◌else◌, leb, length, take, drop,
}

abbrev pub Text : Type 0
Text = List ℕ

-- The characters '%', 'v', '0', '1', 'h', 'l', 's', 'f', 'e', 'g' and 'a'.
abbrev pub percent : ℕ
percent = 37

abbrev pub char_v : ℕ
char_v = 118

abbrev pub char_h : ℕ
char_h = 104

abbrev pub char_l : ℕ
char_l = 108

abbrev pub char_s : ℕ
char_s = 115

unfoldable pub one_of : ℕ → Text → Bool
one_of c [] = false
one_of c (d ∷ ds) = c == d || one_of c ds

-- "diouxXfFeEgGaAcsp".
abbrev pub conversions : Text
conversions =
    100 ∷ 105 ∷ 111 ∷ 117 ∷ 120 ∷ 88 ∷ 102 ∷ 70 ∷ 101 ∷ 69 ∷ 103 ∷ 71 ∷ 97 ∷ 65 ∷ 99 ∷ 115 ∷ 112
    ∷ []

-- " +-#0".
abbrev pub flag_chars : Text
flag_chars = 32 ∷ 43 ∷ 45 ∷ 35 ∷ 48 ∷ []

-- "123456789.".
abbrev pub width_chars : Text
width_chars = 49 ∷ 50 ∷ 51 ∷ 52 ∷ 53 ∷ 54 ∷ 55 ∷ 56 ∷ 57 ∷ 46 ∷ []

-- `find_first_not_of`: what is left from the first character that is not one of `cs`.
unfoldable pub skip : Text → Text → Text
skip cs [] = []
skip cs (c ∷ t) = if one_of c cs then skip cs t else c ∷ t

-- `find_first_of`: the text before the first of `cs`, and the text from there on.
unfoldable pub split_at : Text → Text → Text × Text
split_at cs [] = ([], [])
split_at cs (c ∷ t) = let r = split_at cs t in if one_of c cs then ([], c ∷ t) else (c ∷ r.0, r.1)

-- `get_fmt_conversion`; `none` is the exception of `at`.
unfoldable pub get_fmt_conversion : Text → Option ℕ
get_fmt_conversion fmt = elim (split_at conversions fmt).1 [ [] ↦ none | c ∷ t ↦ some c ]

unfoldable pub starts_with : Text → Text → Bool
starts_with [] t = true
starts_with (c ∷ cs) [] = false
starts_with (c ∷ cs) (d ∷ t) = c == d && starts_with cs t

-- `find` of a string.
unfoldable pub contains : Text → Text → Bool
contains s [] = starts_with s []
contains s (c ∷ t) = starts_with s (c ∷ t) || contains s t

-- `erase` of two characters where `s` is first found.
unfoldable pub erase_two : Text → Text → Text
erase_two s [] = []
erase_two s (c ∷ t) =
    let rest = erase_two s t in if starts_with s (c ∷ t) then drop 2 (c ∷ t) else c ∷ rest

unfoldable pub atoi_from : ℕ → Text → ℕ
atoi_from n [] = n
atoi_from n (c ∷ t) =
    let rest = atoi_from (n * 10 + (c - 48)) t in if leb 48 c && leb c 57 then rest else n

-- `std::atoi` of one or two characters.
abbrev pub atoi : Text → ℕ
atoi t = atoi_from 0 t

-- What `get_vector_fmt` returns, and what it writes to its parameters.
pub record VectorFmt : Type 0 where
  pub fmt : Text
  pub vector_size : ℕ
  pub element_size : ℕ
  pub remaining : Text

-- The size of the elements by the length modifier; the caller's is zero.
unfoldable pub modifier_size : Text → ℕ
modifier_size t =
    if contains (char_h ∷ char_h ∷ []) t
    then 1
    else if contains (char_h ∷ char_l ∷ []) t
    then 4
    else if contains (char_h ∷ []) t
    then 2
    else if contains (char_l ∷ []) t
    then 8
    else 0

-- The rest of `get_vector_fmt`: `pre` is before the 'v', `tail` behind it up to the conversion.
unfoldable pub vector_fmt : Text → Text → Text → VectorFmt
vector_fmt pre tail rest =
    let digits = if starts_with (49 ∷ []) tail then 2 else 1 in
    let post = drop digits tail in
    record {
      fmt = erase_two (char_h ∷ char_l ∷ []) (pre ++ post);
      vector_size = atoi (take digits tail);
      element_size = modifier_size post;
      remaining = rest;
    }

abbrev pub scalar_fmt : Text → VectorFmt
scalar_fmt fmt = record { fmt = fmt; vector_size = 1; element_size = 0; remaining = [] }

-- `get_vector_fmt`; `none` is a vector with no conversion behind its 'v', for which `substr`
-- throws.
unfoldable pub get_vector_fmt : Text → Option VectorFmt
get_vector_fmt fmt = elim (skip width_chars (skip flag_chars (drop 1 fmt))) [
  | [] ↦ some (scalar_fmt fmt)
  | c ∷ t ↦
      if not (c == char_v)
      then some (scalar_fmt fmt)
      else let pos = length fmt - suc (length t) in
        let (before, rest) = split_at conversions fmt in
        elim rest [
          | [] ↦ none
          | k ∷ remaining ↦
              if leb (length before) pos
              then none
              else some (vector_fmt (take pos fmt) (drop (suc pos) (before ++ (k ∷ []))) remaining)
        ]
]
