-- ===== src/Program/Options/Words.antt =====
-- The words of a text: what `split_by_whitespace` finds in options that were joined with spaces.
use mathlib.Core.List.{append_assoc, append-nil}
use clvk.Common.{
  ◌≡◌, refl, sym, ap, ◌∙◌, false, ◌&&◌, ◌||◌, List, [], ◌∷◌, ◌++◌, Bool, arith, All, not, true,
}
use clvk.PrintfText.{Text}
use clvk.Program.Options.{
  equal_text, count, insert, isspace, end_word, split_from, parse_names, spaced,
}
use clvk.Program.Options.Sets.{Ordered, count-insert, count_same, insert-Ordered}

abbrev no_space : Text → Bool
no_space [] = true
no_space (c ∷ cs) = not (isspace c) && no_space cs

-- Not empty, and without white space.
abbrev pub is_word : Text → Bool
is_word [] = false
is_word (c ∷ cs) = no_space (c ∷ cs)

abbrev pub IsWord : Text → Type 0
IsWord o = is_word o ≡ true

split_from-word :
    (word o s : Text) → no_space o ≡ true → split_from word (o ++ s) ≡ split_from (word ++ o) s
unfolding split_from
split_from-word word [] s h = ap (λ w. split_from w s) (sym (append-nil word))
split_from-word word (c ∷ o) s h =
    let not_space : isspace c ≡ false = ground arith in
    rw (not_space, split_from)
      (split_from-word (word ++ (c ∷ [])) o s (ground arith)
        ∙ ap (λ w. split_from w s) (append_assoc word (c ∷ []) o))

abbrev same_word : Text → Text → Bool
same_word t [] = false
same_word t (c ∷ cs) = equal_text t (c ∷ cs)

count-end_word :
    (t word : Text) (words : List Text)
    → count t (end_word word words) ≡ (same_word t word || count t words)
unfolding count insert
count-end_word t [] words = refl
count-end_word t (c ∷ cs) words = count-insert t (c ∷ cs) words

same_word_lem : (t o : Text) → IsWord o → same_word t o ≡ equal_text t o
same_word_lem t [] h = absurd cc
same_word_lem t (c ∷ cs) h = refl

no_space-IsWord : (o : Text) → IsWord o → no_space o ≡ true
no_space-IsWord [] h = refl
no_space-IsWord (c ∷ cs) h = h

count-split_from :
    (t word : Text) (os : List Text)
    → All IsWord os
    → count t (split_from word (spaced os)) ≡ (same_word t word || count t os)
unfolding split_from count
count-split_from t word [] h = count-end_word t word []
count-split_from t word (o ∷ os) (h, hs) =
    let first = count-end_word t word (split_from [] (o ++ spaced os)) in
    let joined = ap (count t) (split_from-word [] o (spaced os) (no_space-IsWord o h)) in
    let ih = count-split_from t o os hs in ground (arith, first, joined, ih, same_word_lem t o h)

-- Words that are joined are found again.
pub count_words :
    (t : Text) (os : List Text) → All IsWord os → count t (split_from [] (spaced os)) ≡ count t os
count_words t os h = count-split_from t [] os h

pub count-parse_names :
    (t : Text) (names words : List Text)
    → count t (parse_names names words) ≡ (count t names && count t words)
unfolding parse_names count
count-parse_names t [] words = refl
count-parse_names t (n ∷ ns) words = ground (
  arith,
  count-parse_names t ns words,
  count-insert t n (parse_names ns words),
  count_same t n words,
)

pub parse_names-Ordered : (names words : List Text) → Ordered (parse_names names words)
unfolding parse_names
parse_names-Ordered [] words = tt
parse_names-Ordered (n ∷ ns) words = ground (
  arith,
  parse_names-Ordered ns words,
  insert-Ordered n (parse_names ns words) (parse_names-Ordered ns words),
)

pub spaced-append : (os ps : List Text) → spaced (os ++ ps) ≡ spaced os ++ spaced ps
spaced-append [] ps = refl
spaced-append (o ∷ os) ps =
    ap (λ r. 32 ∷ r)
      (ap (λ r. o ++ r) (spaced-append os ps) ∙ sym (append_assoc o (spaced os) (spaced ps)))

pub count-append : (t : Text) (os ps : List Text) → count t (os ++ ps) ≡ (count t os || count t ps)
unfolding count
count-append t [] ps = refl
count-append t (o ∷ os) ps = ground (arith, count-append t os ps)
