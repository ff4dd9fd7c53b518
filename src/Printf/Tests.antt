-- ===== src/Printf/Tests.antt =====
-- The theorems on printf for the format "a%d%%b", where `snprintf` gives back the format.
use clvk.Common.{ℕ, ◌≡◌, ◌≢◌, refl, true, List, [], ◌∷◌, Option, none, some, if◌then◌else◌, ◌==◌}
use mathlib.Core.List.{cons≢nil}
use clvk.Printf.{Argument, Descriptor, Result, process_printf, cvk_printf}
use clvk.PrintfText.{Text, one_of}
use clvk.Printf.Reference.{render, process_printf-render}
use clvk.Printf.Items.{Item, show, show_item, count_conversions}
use clvk.Printf.Buffer.{cvk_printf_ends}

abbrev snprintf : Text → Argument → Option Text
snprintf fmt a = some fmt

abbrev items : List Item
items = Item.conversion (100 ∷ []) ∷ Item.literal_percent (98 ∷ []) ∷ []

abbrev number : Descriptor
number = record { format_string = 97 ∷ 37 ∷ 100 ∷ 37 ∷ 37 ∷ 98 ∷ []; arg_sizes = 4 ∷ [] }

-- A format without a '%'.
abbrev hello : Descriptor
hello = record { format_string = 104 ∷ 105 ∷ []; arg_sizes = [] }

abbrev descs : ℕ → Option Descriptor
descs n = if n == 0 then some number else if n == 1 then some hello else none

-- Twelve bytes of data: the number 7 for the first format, and then the second.
abbrev buffer : List ℕ
buffer = 3 ∷ 0 ∷ 0 ∷ 0 ∷ 0 ∷ 0 ∷ 0 ∷ 0 ∷ 7 ∷ 0 ∷ 0 ∷ 0 ∷ 1 ∷ 0 ∷ 0 ∷ 0 ∷ []

-- "%d".
abbrev part : Text
part = 37 ∷ 100 ∷ []

process_printf-render_example :
    process_printf snprintf descs buffer 4 16
    ≡ render snprintf descs buffer items (4 ∷ []) 8 16 (97 ∷ [])
unfolding show show_item one_of count_conversions
process_printf-render_example =
    process_printf-render snprintf descs buffer 4 16 number (97 ∷ []) (Item.conversion (100 ∷ []))
      (Item.literal_percent (98 ∷ []) ∷ []) refl refl refl ((refl, λ e. cons≢nil e), (refl, tt))
      refl

cvk_printf_ends_example : cvk_printf snprintf descs buffer true ≢ Result.stuck
cvk_printf_ends_example = cvk_printf_ends snprintf descs buffer true
