-- ===== src/Program/Options/Roundtrip.antt =====
-- Options that are printed and read again.
use mathlib.Core.List.{append-nil, append_assoc}
use clvk.Common.{
  ℕ, zero, suc, ◌<◌, ◌≡◌, refl, sym, ap, ◌∙◌, subst, inl, inr, Bool, true, false, ◌&&◌, ◌||◌, List,
  [], ◌∷◌, ◌++◌, arith, All, All-append, Bool-cases, get_or, ◌==◌, if◌then◌else◌,
}
use clvk.PrintfText.{Text, starts_with}
use clvk.Program.Names.{options_of_all, options_of_one, source_languages, cl_std}
use clvk.Program.Options.{
  Preserved, equal_text, count, split_by_whitespace, split_from, parse_names, find_text,
  match_language, language_from, parse_source_language, from_string, spaced, str, merge,
}
use clvk.Program.Options.Sets.{Ordered-eq, equal_text→eq, equal_text_refl}
use clvk.Program.Options.Language.{parse_source_language_misses}
use clvk.Program.Options.Merge.{IsOrdered, HasLanguage, merge-Merged, in_some}
use clvk.Program.Options.Words.{
  IsWord, count_words, count-parse_names, parse_names-Ordered, spaced-append, count-append,
}

-- The options are of the names that are preserved, and the version is not CLC++2021.
pub record IsKnown (p : Preserved) : Type 0 where
  pub ordered : IsOrdered p
  pub all : (t : Text) → count t p.options_all ≡ true → count t options_of_all ≡ true
  pub one : (t : Text) → count t p.options_one ≡ true → count t options_of_one ≡ true
  pub language : p.source_language < 7

-- What holds of all items holds of one that is found among them.
All-count : (P : Text → Type 0) (us : List Text) (t : Text) → All P us → count t us ≡ true → P t
unfolding count
All-count P [] t h m = absurd cc
All-count P (u ∷ us) t (h, hs) m = elim (Bool-cases (equal_text t u)) [
  | inl same ↦ subst P (sym (equal_text→eq t u same)) h
  | inr ne ↦ All-count P us t hs (ground arith)
]

-- A property of the items of a list of names holds of each of the items of a set of such names.
All-of_count :
    (P : Text → Type 0) (us : List Text) → ((t : Text) → count t us ≡ true → P t) → All P us
unfolding count
All-of_count P [] h = tt
All-of_count P (u ∷ us) h =
    (h u (ground (arith, equal_text_refl u)), All-of_count P us (λ t m. h t (ground arith)))

-- The option that gives the version.
abbrev language_option : ℕ → List Text
language_option zero = []
language_option (suc k) = (cl_std ++ get_or source_languages k []) ∷ []

abbrev all_options : Preserved → List Text
all_options p = p.options_all ++ (p.options_one ++ language_option p.source_language)

language_text :
    (k : ℕ)
    → (if k == 0 then [] else 32 ∷ (cl_std ++ get_or ([] ∷ source_languages) k []))
      ≡ spaced (language_option k)
language_text zero = refl
language_text (suc k) =
    let some_language : (suc k == 0) ≡ false = ground arith in
    rw some_language (ap (λ r. 32 ∷ r) (sym (append-nil (cl_std ++ get_or source_languages k []))))

str_lem : (p : Preserved) → str p ≡ spaced (all_options p)
unfolding str
str_lem p =
    ap (λ r. spaced p.options_all ++ (spaced p.options_one ++ r)) (language_text p.source_language)
    ∙ ap (λ r. spaced p.options_all ++ r)
        (sym (spaced-append p.options_one (language_option p.source_language)))
    ∙ sym (spaced-append p.options_all (p.options_one ++ language_option p.source_language))

-- No name contains the beginning of an option that gives the version.
abbrev Skipped : Text → Type 0
Skipped o = (rest : Text) → find_text cl_std (32 ∷ (o ++ rest)) ≡ find_text cl_std rest

abbrev IsName : List Text → Text → Type 0
IsName others o =
    IsWord o
    × Skipped o
    × (count o others ≡ false)
    × ((rest : Text) → equal_text o (cl_std ++ rest) ≡ false)

options_of_all-IsName : All (IsName options_of_one) options_of_all
unfolding find_text starts_with count
options_of_all-IsName = (
  (refl, λ rest. refl, refl, λ rest. refl),
  (
    (refl, λ rest. refl, refl, λ rest. refl),
    (
      (refl, λ rest. refl, refl, λ rest. refl),
      (
        (refl, λ rest. refl, refl, λ rest. refl),
        (
          (refl, λ rest. refl, refl, λ rest. refl),
          (
            (refl, λ rest. refl, refl, λ rest. refl),
            ((refl, λ rest. refl, refl, λ rest. refl), tt),
          ),
        ),
      ),
    ),
  ),
)

options_of_one-IsName : All (IsName options_of_all) options_of_one
unfolding find_text starts_with count
options_of_one-IsName = (
  (refl, λ rest. refl, refl, λ rest. refl),
  (
    (refl, λ rest. refl, refl, λ rest. refl),
    ((refl, λ rest. refl, refl, λ rest. refl), ((refl, λ rest. refl, refl, λ rest. refl), tt)),
  ),
)

find_skips :
    (os : List Text) (rest : Text)
    → All Skipped os
    → find_text cl_std (spaced os ++ rest) ≡ find_text cl_std rest
find_skips [] rest h = refl
find_skips (o ∷ os) rest (h, hs) =
    ap (λ r. find_text cl_std (32 ∷ r)) (append_assoc o (spaced os) rest)
    ∙ h (spaced os ++ rest)
    ∙ find_skips os rest hs

-- A version before CLC++2021 is found again.
language_found : (k : ℕ) → k < 7 → language_from (find_text cl_std (spaced (language_option k))) ≡ k
unfolding find_text starts_with match_language
language_found zero h = refl
language_found (suc zero) h = refl
language_found (suc (suc zero)) h = refl
language_found (suc (suc (suc zero))) h = refl
language_found (suc (suc (suc (suc zero)))) h = refl
language_found (suc (suc (suc (suc (suc zero))))) h = refl
language_found (suc (suc (suc (suc (suc (suc zero)))))) h = refl
language_found (suc (suc (suc (suc (suc (suc (suc k))))))) h = absurd (omega arith)

language_option-IsWord : (k : ℕ) → k < 7 → All IsWord (language_option k)
language_option-IsWord zero h = tt
language_option-IsWord (suc zero) h = (refl, tt)
language_option-IsWord (suc (suc zero)) h = (refl, tt)
language_option-IsWord (suc (suc (suc zero))) h = (refl, tt)
language_option-IsWord (suc (suc (suc (suc zero)))) h = (refl, tt)
language_option-IsWord (suc (suc (suc (suc (suc zero))))) h = (refl, tt)
language_option-IsWord (suc (suc (suc (suc (suc (suc zero)))))) h = (refl, tt)
language_option-IsWord (suc (suc (suc (suc (suc (suc (suc k))))))) h = absurd (omega arith)

count-language_option :
    (t : Text) (k : ℕ)
    → ((rest : Text) → equal_text t (cl_std ++ rest) ≡ false)
    → count t (language_option k) ≡ false
unfolding count
count-language_option t zero h = refl
count-language_option t (suc k) h = rw (h (get_or source_languages k []))

pick_first :
    (n a b l : Bool)
    → (a ≡ true → n ≡ true)
    → (n ≡ true → b ≡ false)
    → (n ≡ true → l ≡ false)
    → (n && (a || (b || l))) ≡ a
pick_first true a b l h k m = let e = k refl in let f = m refl in ground arith
pick_first false true b l h k m = h refl
pick_first false false b l h k m = refl

pick_second :
    (n a b l : Bool)
    → (b ≡ true → n ≡ true)
    → (n ≡ true → a ≡ false)
    → (n ≡ true → l ≡ false)
    → (n && (a || (b || l))) ≡ b
pick_second true a b l h k m = let e = k refl in let f = m refl in ground arith
pick_second false a true l h k m = h refl
pick_second false a false l h k m = refl

absent : {a n : Bool} → (a ≡ true → n ≡ true) → n ≡ false → a ≡ false
absent {a = true} h e = let y = h refl in absurd cc
absent {a = false} h e = refl

module _ (p : Preserved) (known : IsKnown p) where
  IsName-of_all : (t : Text) → count t p.options_all ≡ true → IsName options_of_one t
  IsName-of_all t m =
      All-count (IsName options_of_one) options_of_all t options_of_all-IsName (known.all t m)

  IsName-of_one : (t : Text) → count t p.options_one ≡ true → IsName options_of_all t
  IsName-of_one t m =
      All-count (IsName options_of_all) options_of_one t options_of_one-IsName (known.one t m)

  all_options-IsWord : All IsWord (all_options p)
  all_options-IsWord =
      All-append IsWord p.options_all (p.options_one ++ language_option p.source_language)
        (All-of_count IsWord p.options_all (λ t m. (IsName-of_all t m).0))
        (All-append IsWord p.options_one (language_option p.source_language)
          (All-of_count IsWord p.options_one (λ t m. (IsName-of_one t m).0))
          (language_option-IsWord p.source_language known.language))

  words_lem :
      (t : Text)
      → count t (split_by_whitespace (str p)) ≡ (
          count t p.options_all
          || (count t p.options_one || count t (language_option p.source_language)))
  unfolding split_by_whitespace
  words_lem t =
      ap (λ s. count t (split_from [] s)) (str_lem p)
      ∙ count_words t (all_options p) all_options-IsWord
      ∙ count-append t p.options_all (p.options_one ++ language_option p.source_language)
      ∙ ap (λ b. count t p.options_all || b)
          (count-append t p.options_one (language_option p.source_language))

  all_found : parse_names options_of_all (split_by_whitespace (str p)) ≡ p.options_all
  all_found = Ordered-eq _ p.options_all (parse_names-Ordered _ _) known.ordered.all (λ t.
      count-parse_names t options_of_all (split_by_whitespace (str p))
      ∙ ap (λ b. count t options_of_all && b) (words_lem t)
      ∙ pick_first _ _ _ _ (known.all t)
          (λ m.
            absent (known.one t)
              (All-count (IsName options_of_one) options_of_all t options_of_all-IsName m).2)
          (λ m.
            count-language_option t p.source_language
              (All-count (IsName options_of_one) options_of_all t options_of_all-IsName m).3))

  one_found : parse_names options_of_one (split_by_whitespace (str p)) ≡ p.options_one
  one_found = Ordered-eq _ p.options_one (parse_names-Ordered _ _) known.ordered.one (λ t.
      count-parse_names t options_of_one (split_by_whitespace (str p))
      ∙ ap (λ b. count t options_of_one && b) (words_lem t)
      ∙ pick_second _ _ _ _ (known.one t)
          (λ m.
            absent (known.all t)
              (All-count (IsName options_of_all) options_of_one t options_of_one-IsName m).2)
          (λ m.
            count-language_option t p.source_language
              (All-count (IsName options_of_all) options_of_one t options_of_one-IsName m).3))

  language_lem : parse_source_language (str p) ≡ p.source_language
  unfolding parse_source_language
  language_lem =
      ap (λ s. language_from (find_text cl_std s))
        (str_lem p
          ∙ spaced-append p.options_all (p.options_one ++ language_option p.source_language))
      ∙ ap language_from (
          find_skips p.options_all (spaced (p.options_one ++ language_option p.source_language))
            (All-of_count Skipped p.options_all (λ t m. (IsName-of_all t m).1)))
      ∙ ap (λ s. language_from (find_text cl_std s))
          (spaced-append p.options_one (language_option p.source_language))
      ∙ ap language_from (
          find_skips p.options_one (spaced (language_option p.source_language))
            (All-of_count Skipped p.options_one (λ t m. (IsName-of_one t m).1)))
      ∙ language_found p.source_language known.language

  -- Preserved options that are printed are read again as they were.
  pub from_string-str : from_string (str p) ≡ p
  unfolding from_string
  from_string-str = λ i. record {
    options_all = all_found i;
    options_one = one_found i;
    source_language = language_lem i;
  }

and_left : {a : Bool} (b : Bool) → (a && b) ≡ true → a ≡ true
and_left b h = ground arith

parse_names_known :
    (names words : List Text) (t : Text)
    → count t (parse_names names words) ≡ true
    → count t names ≡ true
parse_names_known names words t m = and_left _ (sym (count-parse_names t names words) ∙ m)

-- What is read from any options is known.
pub from_string-IsKnown : (options : Text) → IsKnown (from_string options)
unfolding from_string
from_string-IsKnown options = record {
  ordered = record { all = parse_names-Ordered _ _; one = parse_names-Ordered _ _ };
  all = parse_names_known options_of_all (split_by_whitespace options);
  one = parse_names_known options_of_one (split_by_whitespace options);
  language = parse_source_language_misses options;
}

in_some_known :
    (is : List Preserved) (t : Text)
    → All IsKnown is
    → in_some t is ≡ true
    → count t options_of_one ≡ true
in_some_known [] t h m = absurd cc
in_some_known (i ∷ is) t (h, hs) m = ground (arith, h.one t, in_some_known is t hs)

HasLanguage-lt : (n : ℕ) (is : List Preserved) → All IsKnown is → HasLanguage n is → n < 7
HasLanguage-lt n [] h m = absurd m
HasLanguage-lt n (i ∷ is) (h, hs) (inl e) = omega (arith, h.language)
HasLanguage-lt n (i ∷ is) (h, hs) (inr m) = HasLanguage-lt n is hs m

-- So is what known options merge to.
pub merge-IsKnown :
    (i : Preserved) (is : List Preserved) → All IsKnown (i ∷ is) → IsKnown (merge (i ∷ is))
merge-IsKnown i is h =
    let m = merge-Merged i is h.0.ordered in
    record {
      ordered = m.ordered;
      all = λ t k. h.0.all t (and_left _ (sym (m.all t) ∙ k));
      one = λ t k. in_some_known (i ∷ is) t h (sym (m.one t) ∙ k);
      language = HasLanguage-lt _ (i ∷ is) h m.attained;
    }
