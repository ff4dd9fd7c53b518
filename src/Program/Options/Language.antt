-- ===== src/Program/Options/Language.antt =====
-- The version of OpenCL C that is read from the options.
use clvk.Common.{
  ◌<◌, ◌≡◌, refl, ◌⊎◌, inl, inr, true, false, [], ◌∷◌, ◌++◌, arith, Bool-cases, Option-cases,
}
use clvk.PrintfText.{Text, starts_with}
use clvk.Program.Names.{cl_std, source_languages, clcpp, clcpp_2021}
use clvk.Program.Options.{match_language, parse_source_language, find_text}

starts_with-append : (a b s : Text) → starts_with (a ++ b) s ≡ true → starts_with a s ≡ true
unfolding starts_with
starts_with-append [] b s h = refl
starts_with-append (c ∷ a) b [] h = h
starts_with-append (c ∷ a) b (d ∷ s) h = ground (arith, starts_with-append a b s)

-- The loop finds CLC++ for each text that CLC++2021 matches.
last_language :
    (s : Text)
    → (starts_with (cl_std ++ clcpp) s ≡ true) ⊎ (starts_with (cl_std ++ clcpp_2021) s ≡ false)
last_language s = elim (Bool-cases (starts_with (cl_std ++ clcpp_2021) s)) [
  | inl y ↦ inl (starts_with-append (cl_std ++ clcpp) (50 ∷ 48 ∷ 50 ∷ 49 ∷ []) s y)
  | inr n ↦ inr n
]

match_language-lt : (s : Text) → match_language s 1 source_languages < 7
unfolding match_language
match_language-lt s = ground (arith, last_language s)

-- No options select CLC++2021, the version 7, whatever they are: `-cl-std=CLC++2021` is read as
-- CLC++, which the loop compares with the beginning of the text first.
pub parse_source_language_misses : (options : Text) → parse_source_language options < 7
unfolding parse_source_language
parse_source_language_misses options = elim (Option-cases (find_text cl_std options)) [
  | inl n ↦ rw (n, parse_source_language) (omega arith)
  | inr (s, y) ↦ rw (y, parse_source_language) (match_language-lt s)
]
