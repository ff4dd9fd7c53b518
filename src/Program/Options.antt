-- ===== src/Program/Options.antt =====
-- `cvk_preserved_options` and `cvk_build_options` of src/program.hpp. A `std::set` is a list in the
-- order of its items with no item twice.
pub mod Language
pub mod Sets
pub mod Words
pub mod Roundtrip
pub mod Merge
use clvk.Common.{
  ℕ, zero, suc, ◌+◌, Bool, true, false, ◌&&◌, ◌||◌, not, List, [], ◌∷◌, ◌++◌, Option, none, some,
  ltb, leb, ◌==◌, if◌then◌else◌, length, drop, get_or, max,
}
use clvk.PrintfText.{Text, starts_with}
use clvk.Program.Names.{cl_std, options_of_all, options_of_one, source_languages}

abbrev pub equal_text : Text → Text → Bool
equal_text [] [] = true
equal_text [] (d ∷ ds) = false
equal_text (c ∷ cs) [] = false
equal_text (c ∷ cs) (d ∷ ds) = c == d && equal_text cs ds

-- The order of `std::string`.
abbrev pub less_text : Text → Text → Bool
less_text cs [] = false
less_text [] (d ∷ ds) = true
less_text (c ∷ cs) (d ∷ ds) = ltb c d || c == d && less_text cs ds

-- `count`.
unfoldable pub count : Text → List Text → Bool
count t [] = false
count t (u ∷ us) = equal_text t u || count t us

-- `insert`.
unfoldable pub insert : Text → List Text → List Text
insert t [] = t ∷ []
insert t (u ∷ us) =
    let rest = insert t us in
    if equal_text t u then u ∷ us else if less_text t u then t ∷ u ∷ us else u ∷ rest

-- `erase`.
unfoldable pub erase : Text → List Text → List Text
erase t [] = []
erase t (u ∷ us) = let rest = erase t us in if equal_text t u then us else u ∷ rest

pub record Preserved : Type 0 where
  pub options_all : List Text
  pub options_one : List Text
  pub source_language : ℕ

abbrev pub none_preserved : Preserved
none_preserved = record { options_all = []; options_one = []; source_language = 0 }

-- `std::isspace`.
abbrev pub isspace : ℕ → Bool
isspace c = c == 32 || (leb 9 c && leb c 13)

-- The word that `split_by_whitespace` reads, and the words after it.
abbrev end_word : Text → List Text → List Text
end_word [] words = words
end_word (c ∷ cs) words = insert (c ∷ cs) words

-- `split_by_whitespace`, with the characters of the current word so far.
unfoldable pub split_from : Text → Text → List Text
split_from word [] = end_word word []
split_from word (c ∷ cs) =
    let fresh = split_from [] cs in
    let longer = split_from (word ++ (c ∷ [])) cs in
    if isspace c then end_word word fresh else longer

unfoldable pub split_by_whitespace : Text → List Text
split_by_whitespace s = split_from [] s

-- The `PARSE` lines: the names that are among the options.
unfoldable pub parse_names : List Text → List Text → List Text
parse_names [] options = []
parse_names (n ∷ ns) options =
    let rest = parse_names ns options in if count n options then insert n rest else rest

-- `find` of a text that is not empty, and `substr` from there.
unfoldable pub find_text : Text → Text → Option Text
find_text t [] = none
find_text t (c ∷ cs) =
    let rest = find_text t cs in if starts_with t (c ∷ cs) then some (c ∷ cs) else rest

-- The loop over the source languages, from language `k` on.
unfoldable pub match_language : Text → ℕ → List Text → ℕ
match_language s k [] = 0
match_language s k (l ∷ ls) =
    let rest = match_language s (suc k) ls in if starts_with (cl_std ++ l) s then k else rest

-- What is read from the first `-cl-std=` on.
abbrev pub language_from : Option Text → ℕ
language_from none = 0
language_from (some s) = match_language s 1 source_languages

unfoldable pub parse_source_language : Text → ℕ
parse_source_language options = language_from (find_text cl_std options)

-- `from_string`.
unfoldable pub from_string : Text → Preserved
from_string options =
    let words = split_by_whitespace options in
    record {
      options_all = parse_names options_of_all words;
      options_one = parse_names options_of_one words;
      source_language = parse_source_language options;
    }

-- The options of `all` that are not in `input` are erased.
unfoldable pub keep_common : List Text → List Text → List Text → List Text
keep_common [] input all = all
keep_common (o ∷ os) input all =
    let rest = keep_common os input all in if count o input then rest else erase o rest

unfoldable pub insert_all : List Text → List Text → List Text
insert_all [] one = one
insert_all (o ∷ os) one = insert_all os (insert o one)

-- The body of the loop of `merge`.
unfoldable pub merge_one : Preserved → Preserved → Preserved
merge_one result input = record {
  options_all = keep_common result.options_all input.options_all result.options_all;
  options_one = insert_all input.options_one result.options_one;
  source_language = max result.source_language input.source_language;
}

unfoldable pub merge_from : Preserved → List Preserved → Preserved
merge_from result [] = result
merge_from result (i ∷ is) = merge_from (merge_one result i) is

-- `merge`.
unfoldable pub merge : List Preserved → Preserved
merge [] = none_preserved
merge (i ∷ is) = merge_from i is

abbrev spaced : List Text → Text
spaced [] = []
spaced (o ∷ os) = 32 ∷ (o ++ spaced os)

-- `str`.
unfoldable pub str : Preserved → Text
str p =
    spaced p.options_all
    ++ (spaced p.options_one
        ++ (if p.source_language == 0
            then []
            else 32 ∷ (cl_std ++ get_or ([] ∷ source_languages) p.source_language [])))

pub record BuildOptions : Type 0 where
  pub build_options : Text
  pub preserved : Preserved

-- The constructors.
unfoldable pub from_options : Text → BuildOptions
from_options options = record { build_options = options; preserved = from_string options }

pub from_link_options : Text → Preserved → BuildOptions
from_link_options options p = record { build_options = options ++ str p; preserved = p }

-- `preserved_options`.
unfoldable pub preserved_options : BuildOptions → Text
preserved_options b = str b.preserved
