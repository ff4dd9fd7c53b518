-- ===== src/Program/Names.antt =====
-- The names of the build options that src/program.hpp preserves. Text is a list of character codes.
use clvk.Common.{List, [], ◌∷◌}
use clvk.PrintfText.{Text}

-- "-cl-single-precision-constant".
abbrev pub single_precision_constant : Text
single_precision_constant =
    45 ∷ 99 ∷ 108 ∷ 45 ∷ 115 ∷ 105 ∷ 110 ∷ 103 ∷ 108 ∷ 101 ∷ 45 ∷ 112 ∷ 114 ∷ 101 ∷ 99 ∷ 105 ∷ 115
    ∷ 105 ∷ 111 ∷ 110 ∷ 45 ∷ 99 ∷ 111 ∷ 110 ∷ 115 ∷ 116 ∷ 97 ∷ 110 ∷ 116 ∷ []

-- "-cl-denorms-are-zero".
abbrev pub denorms_are_zero : Text
denorms_are_zero =
    45 ∷ 99 ∷ 108 ∷ 45 ∷ 100 ∷ 101 ∷ 110 ∷ 111 ∷ 114 ∷ 109 ∷ 115 ∷ 45 ∷ 97 ∷ 114 ∷ 101 ∷ 45 ∷ 122
    ∷ 101 ∷ 114 ∷ 111 ∷ []

-- "-cl-mad-enable".
abbrev pub mad_enable : Text
mad_enable = 45 ∷ 99 ∷ 108 ∷ 45 ∷ 109 ∷ 97 ∷ 100 ∷ 45 ∷ 101 ∷ 110 ∷ 97 ∷ 98 ∷ 108 ∷ 101 ∷ []

-- "-cl-no-signed-zeros".
abbrev pub no_signed_zeros : Text
no_signed_zeros =
    45 ∷ 99 ∷ 108 ∷ 45 ∷ 110 ∷ 111 ∷ 45 ∷ 115 ∷ 105 ∷ 103 ∷ 110 ∷ 101 ∷ 100 ∷ 45 ∷ 122 ∷ 101 ∷ 114
    ∷ 111 ∷ 115 ∷ []

-- "-cl-unsafe-math-optimizations".
abbrev pub unsafe_math : Text
unsafe_math =
    45 ∷ 99 ∷ 108 ∷ 45 ∷ 117 ∷ 110 ∷ 115 ∷ 97 ∷ 102 ∷ 101 ∷ 45 ∷ 109 ∷ 97 ∷ 116 ∷ 104 ∷ 45 ∷ 111
    ∷ 112 ∷ 116 ∷ 105 ∷ 109 ∷ 105 ∷ 122 ∷ 97 ∷ 116 ∷ 105 ∷ 111 ∷ 110 ∷ 115 ∷ []

-- "-cl-finite-math-only".
abbrev pub finite_math : Text
finite_math =
    45 ∷ 99 ∷ 108 ∷ 45 ∷ 102 ∷ 105 ∷ 110 ∷ 105 ∷ 116 ∷ 101 ∷ 45 ∷ 109 ∷ 97 ∷ 116 ∷ 104 ∷ 45 ∷ 111
    ∷ 110 ∷ 108 ∷ 121 ∷ []

-- "-cl-fast-relaxed-math".
abbrev pub fast_relaxed_math : Text
fast_relaxed_math =
    45 ∷ 99 ∷ 108 ∷ 45 ∷ 102 ∷ 97 ∷ 115 ∷ 116 ∷ 45 ∷ 114 ∷ 101 ∷ 108 ∷ 97 ∷ 120 ∷ 101 ∷ 100 ∷ 45
    ∷ 109 ∷ 97 ∷ 116 ∷ 104 ∷ []

-- "-cl-fp32-correctly-rounded-divide-sqrt".
abbrev pub correctly_rounded : Text
correctly_rounded =
    45 ∷ 99 ∷ 108 ∷ 45 ∷ 102 ∷ 112 ∷ 51 ∷ 50 ∷ 45 ∷ 99 ∷ 111 ∷ 114 ∷ 114 ∷ 101 ∷ 99 ∷ 116 ∷ 108
    ∷ 121 ∷ 45 ∷ 114 ∷ 111 ∷ 117 ∷ 110 ∷ 100 ∷ 101 ∷ 100 ∷ 45 ∷ 100 ∷ 105 ∷ 118 ∷ 105 ∷ 100 ∷ 101
    ∷ 45 ∷ 115 ∷ 113 ∷ 114 ∷ 116 ∷ []

-- "-cl-opt-disable".
abbrev pub opt_disable : Text
opt_disable = 45 ∷ 99 ∷ 108 ∷ 45 ∷ 111 ∷ 112 ∷ 116 ∷ 45 ∷ 100 ∷ 105 ∷ 115 ∷ 97 ∷ 98 ∷ 108 ∷ 101 ∷ []

-- "-cl-kernel-arg-info".
abbrev pub arg_info : Text
arg_info =
    45 ∷ 99 ∷ 108 ∷ 45 ∷ 107 ∷ 101 ∷ 114 ∷ 110 ∷ 101 ∷ 108 ∷ 45 ∷ 97 ∷ 114 ∷ 103 ∷ 45 ∷ 105 ∷ 110
    ∷ 102 ∷ 111 ∷ []

-- "-g".
abbrev pub debug : Text
debug = 45 ∷ 103 ∷ []

-- "-cl-std=".
abbrev pub cl_std : Text
cl_std = 45 ∷ 99 ∷ 108 ∷ 45 ∷ 115 ∷ 116 ∷ 100 ∷ 61 ∷ []

-- "CL1.0".
abbrev pub cl_10 : Text
cl_10 = 67 ∷ 76 ∷ 49 ∷ 46 ∷ 48 ∷ []

-- "CL1.1".
abbrev pub cl_11 : Text
cl_11 = 67 ∷ 76 ∷ 49 ∷ 46 ∷ 49 ∷ []

-- "CL1.2".
abbrev pub cl_12 : Text
cl_12 = 67 ∷ 76 ∷ 49 ∷ 46 ∷ 50 ∷ []

-- "CL2.0".
abbrev pub cl_20 : Text
cl_20 = 67 ∷ 76 ∷ 50 ∷ 46 ∷ 48 ∷ []

-- "CL3.0".
abbrev pub cl_30 : Text
cl_30 = 67 ∷ 76 ∷ 51 ∷ 46 ∷ 48 ∷ []

-- "CLC++".
abbrev pub clcpp : Text
clcpp = 67 ∷ 76 ∷ 67 ∷ 43 ∷ 43 ∷ []

-- "CLC++2021".
abbrev pub clcpp_2021 : Text
clcpp_2021 = 67 ∷ 76 ∷ 67 ∷ 43 ∷ 43 ∷ 50 ∷ 48 ∷ 50 ∷ 49 ∷ []

-- The options of `parse_preserved_options_all`, and of `parse_preserved_options_one`.
abbrev pub options_of_all : List Text
options_of_all =
    single_precision_constant ∷ denorms_are_zero ∷ mad_enable ∷ no_signed_zeros ∷ unsafe_math
    ∷ finite_math ∷ fast_relaxed_math ∷ []

abbrev pub options_of_one : List Text
options_of_one = correctly_rounded ∷ opt_disable ∷ arg_info ∷ debug ∷ []

-- `source_languages` from 1 on.
abbrev pub source_languages : List Text
source_languages = cl_10 ∷ cl_11 ∷ cl_12 ∷ cl_20 ∷ cl_30 ∷ clcpp ∷ clcpp_2021 ∷ []
