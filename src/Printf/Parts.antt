-- ===== src/Printf/Parts.antt =====
-- The loop over the parts of a format in src/printf.cpp comes to an end.
use clvk.Common.{ℕ, zero, suc, ◌≤◌, List, [], ◌∷◌, Option, arith, length}
use clvk.Printf.{Argument, Descriptor, Outcome, print_parts, convert, percent_turn, turn, Turn}
use clvk.PrintfText.{Text, split_at, percent}
use clvk.Printf.Format.{print_arg_ends}

pub split_at-le : (cs t : Text) → length (split_at cs t).1 ≤ length t
unfolding split_at
split_at-le cs [] = omega arith
split_at-le cs (c ∷ t) = ground (arith, split_at-le cs t)

-- The loop ended, and the data is not below `n`.
unfoldable pub Advances : ℕ → Outcome → Type 0
Advances n Outcome.fault = Unit
Advances n Outcome.out_of_fuel = ⊥
Advances n (Outcome.skipped m) = n ≤ m
Advances n (Outcome.printed t m) = n ≤ m

pub Advances-le : (n m : ℕ) (o : Outcome) → n ≤ m → Advances m o → Advances n o
unfolding Advances
Advances-le n m Outcome.fault h a = tt
Advances-le n m Outcome.out_of_fuel h a = elim a [ ]
Advances-le n m (Outcome.skipped k) h a = omega arith
Advances-le n m (Outcome.printed t k) h a = omega arith

-- A turn ends the loop, or leaves a shorter format and no less data.
abbrev Shortens : ℕ → ℕ → Turn → Type 0
Shortens n pos (Turn.stops o) = Advances pos o
Shortens n pos (Turn.goes f sizes pos' out) = (length f ≤ n) × (pos ≤ pos')

module _ (snprintf : Text → Argument → Option Text) (descs : ℕ → Option Descriptor)
    (buffer : List ℕ) where
  convert-Shortens :
      (part rest : Text) (s : ℕ) (ss : List ℕ) (pos limit : ℕ) (out : Text)
      → Shortens (length rest) pos (convert snprintf descs buffer part rest s ss pos limit out)
  unfolding convert Advances
  convert-Shortens part rest s ss pos limit out =
      ground (arith, print_arg_ends snprintf descs buffer part pos s)

  percent-Shortens :
      (g lit rest : Text) (sizes : List ℕ) (pos : ℕ) (out : Text)
      → length rest ≤ length g
      → Shortens (suc (length g)) pos (percent_turn g lit rest sizes pos out)
  unfolding percent_turn
  percent-Shortens g lit [] sizes pos out h = (omega arith, omega arith)
  percent-Shortens g lit (q ∷ t) sizes pos out h = (omega arith, omega arith)

  turn-Shortens :
      (c : ℕ) (body rest : Text) (sizes : List ℕ) (pos limit : ℕ) (out : Text)
      → Shortens (length rest) pos (turn snprintf descs buffer c body rest sizes pos limit out)
  unfolding turn Advances
  turn-Shortens c [] (p ∷ g) sizes pos limit out =
      percent-Shortens g _ _ sizes pos out (split_at-le (percent ∷ []) g)
  turn-Shortens c (b ∷ bs) (p ∷ g) [] pos limit out = tt
  turn-Shortens c (b ∷ bs) (p ∷ g) (s ∷ ss) pos limit out =
      convert-Shortens (c ∷ b ∷ bs) (p ∷ g) s ss pos limit out
  turn-Shortens c [] [] [] pos limit out = omega arith
  turn-Shortens c [] [] (s ∷ ss) pos limit out = convert-Shortens (c ∷ []) [] s ss pos limit out
  turn-Shortens c (b ∷ bs) [] [] pos limit out = omega arith
  turn-Shortens c (b ∷ bs) [] (s ∷ ss) pos limit out =
      convert-Shortens (c ∷ b ∷ bs) [] s ss pos limit out

  abbrev pub after : ℕ → ℕ → Turn → Outcome
  after fuel limit (Turn.stops o) = o
  after fuel limit (Turn.goes next left at text) =
      print_parts snprintf descs buffer fuel next left at limit text

  -- What follows a turn advances if the loop does on every shorter format.
  after-Advances :
      (fuel n pos limit : ℕ) (t : Turn)
      → n ≤ fuel
      → Shortens n pos t
      → ((f : Text) (sizes : List ℕ) (at : ℕ) (out : Text)
          → length f ≤ fuel
          → Advances at (print_parts snprintf descs buffer fuel f sizes at limit out))
      → Advances pos (after fuel limit t)
  after-Advances fuel n pos limit (Turn.stops o) h a rest = a
  after-Advances fuel n pos limit (Turn.goes next left at text) h (a, b) rest =
      Advances-le pos at _ b (rest next left at text (omega arith))

  pub print_parts-Advances :
      (fuel : ℕ) (f : Text) (sizes : List ℕ) (pos limit : ℕ) (out : Text)
      → length f ≤ fuel
      → Advances pos (print_parts snprintf descs buffer fuel f sizes pos limit out)
  unfolding print_parts Advances
  print_parts-Advances fuel [] sizes pos limit out h = omega arith
  print_parts-Advances zero (c ∷ f) sizes pos limit out h = absurd (omega arith)
  print_parts-Advances (suc fuel) (c ∷ f) sizes pos limit out h =
      let shorter = split_at-le (percent ∷ []) f in
      after-Advances fuel (length (split_at (percent ∷ []) f).1) pos limit
        (turn snprintf descs buffer c (split_at (percent ∷ []) f).0 (split_at (percent ∷ []) f).1
          sizes pos limit out)
        (omega arith)
        (turn-Shortens c (split_at (percent ∷ []) f).0 (split_at (percent ∷ []) f).1 sizes pos limit
          out)
        (λ f' sizes' at out' small. print_parts-Advances fuel f' sizes' at limit out' small)
