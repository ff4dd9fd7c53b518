-- ===== src/Printf/Items.antt =====
-- The parts of a format, from one '%' to the next, and how the loop of `process_printf` in
-- src/printf.cpp splits them.
use clvk.Common.{
  ℕ, suc, ◌≤◌, ◌≡◌, ◌≢◌, refl, ap, false, ◌||◌, List, [], ◌∷◌, ◌++◌, arith, ◌==◌, length,
  length-append,
}
use clvk.PrintfText.{Text, split_at, percent, one_of}

-- A part of a format from one '%' to the next: "%%" and text, or a conversion with the text behind
-- it, without its '%'.
pub data Item : Type 0 where
  literal_percent : Text → Item
  conversion : Text → Item

unfoldable pub show_item : Item → Text
show_item (literal_percent lit) = percent ∷ percent ∷ lit
show_item (conversion t) = percent ∷ t

unfoldable pub show : List Item → Text
show [] = []
show (i ∷ is) = show_item i ++ show is

-- No '%'.
abbrev pub Plain : Text → Type 0
Plain t = one_of percent t ≡ false

abbrev pub PlainItem : Item → Type 0
PlainItem (literal_percent lit) = Plain lit
PlainItem (conversion t) = Plain t × (t ≢ [])

unfoldable pub count_conversions : List Item → ℕ
count_conversions [] = 0
count_conversions (literal_percent lit ∷ is) = count_conversions is
count_conversions (conversion t ∷ is) = suc (count_conversions is)

Plain-head : (c : ℕ) (t : Text) → Plain (c ∷ t) → one_of c (percent ∷ []) ≡ false
unfolding one_of
Plain-head c t h = ground arith

pub Plain-tail : (c : ℕ) (t : Text) → Plain (c ∷ t) → Plain t
unfolding one_of
Plain-tail c t h = ground arith

pub split_at-Plain : (t : Text) → Plain t → split_at (percent ∷ []) t ≡ (t, [])
unfolding split_at
split_at-Plain [] h = refl
split_at-Plain (c ∷ t) h =
    let rest = split_at-Plain t (Plain-tail c t h) in rw (Plain-head c t h, rest) refl

pub split_at-nil : split_at (percent ∷ []) [] ≡ ([], [])
unfolding split_at
split_at-nil = refl

pub split_at-first : (u : Text) → split_at (percent ∷ []) (percent ∷ u) ≡ ([], percent ∷ u)
unfolding split_at one_of
split_at-first u = refl

split_at-percent :
    (t u : Text) → Plain t → split_at (percent ∷ []) (t ++ (percent ∷ u)) ≡ (t, percent ∷ u)
unfolding split_at one_of
split_at-percent [] u h = refl
split_at-percent (c ∷ t) u h =
    let rest = split_at-percent t u (Plain-tail c t h) in
    let head : (c == percent || false) ≡ false = Plain-head c t h in rw (head, rest) refl

pub append-nil : (t : Text) → t ++ [] ≡ t
append-nil [] = refl
append-nil (c ∷ t) = ap (λ u. c ∷ u) (append-nil t)

pub append-one : (t : Text) (c : ℕ) (u : Text) → (t ++ (c ∷ [])) ++ u ≡ t ++ (c ∷ u)
append-one [] c u = refl
append-one (d ∷ t) c u = ap (λ v. d ∷ v) (append-one t c u)

pub longer : (lit : Text) (is : List Item) → length (show is) ≤ length (lit ++ show is)
longer lit is = omega (arith, length-append lit (show is))

pub split_at-show :
    (t : Text) (is : List Item) → Plain t → split_at (percent ∷ []) (t ++ show is) ≡ (t, show is)
unfolding show show_item
split_at-show t [] h = rw (append-nil t) (split_at-Plain t h)
split_at-show t (literal_percent lit ∷ is) h = split_at-percent t _ h
split_at-show t (conversion u ∷ is) h = split_at-percent t _ h
