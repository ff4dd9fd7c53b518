-- ===== src/Program/Tests.antt =====
-- Programs with options and binaries at concrete values.
use clvk.Common.{ℕ, ◌≡◌, refl, inl, true, false, List, [], ◌∷◌, ◌++◌, arith, length}
use clvk.PrintfText.{starts_with}
use clvk.Program.Names.{mad_enable, debug, cl_12, clcpp_2021, cl_std}
use clvk.Program.Options.{
  Preserved, from_string, from_options, str, merge, split_by_whitespace, split_from, insert,
  parse_names, count, parse_source_language, preserved_options, find_text, match_language,
}
use clvk.Program.Options.Merge.{Merged, merge-Merged}
use clvk.Program.Options.Roundtrip.{from_string-IsKnown, from_string-str}
use clvk.Program.State.{build_none, Program}
use clvk.Program.Binary.{read, write, binary_size, is_bitcode}
use clvk.Program.Binary.Roundtrip.{IsWritable, ReadBack, write-read}

-- "-g -cl-mad-enable  -cl-std=CL1.2".
abbrev some_options : List ℕ
some_options = debug ++ (32 ∷ (mad_enable ++ (32 ∷ (32 ∷ (cl_std ++ cl_12)))))

-- "-cl-std=CLC++2021".
abbrev cpp_options : List ℕ
cpp_options = cl_std ++ clcpp_2021

abbrev expected : Preserved
expected = record { options_all = mad_enable ∷ []; options_one = debug ∷ []; source_language = 3 }

parsed : from_string some_options ≡ expected
unfolding from_string split_by_whitespace split_from insert parse_names count parse_source_language
    find_text match_language starts_with
parsed = refl

merge-Merged_example :
    Merged
      (from_string some_options ∷ from_string cpp_options ∷ [])
      (merge (from_string some_options ∷ from_string cpp_options ∷ []))
merge-Merged_example =
    merge-Merged (from_string some_options) (from_string cpp_options ∷ [])
      (from_string-IsKnown some_options).ordered

from_string-str_example : from_string (str (from_string some_options)) ≡ from_string some_options
from_string-str_example =
    from_string-str (from_string some_options) (from_string-IsKnown some_options)

-- A library whose code is bitcode with a byte behind it.
abbrev library : Program
library = record {
  device = 0;
  dev_status = (0, build_none) ∷ [];
  binary_type = 2;
  build_options = from_options some_options;
  ir = 0x42 ∷ 0x43 ∷ 0xc0 ∷ 0xde ∷ 7 ∷ [];
  code = [];
  loaded_from_binary = false;
}

-- A program that has just been created.
abbrev fresh : Program
fresh = record {
  device = 0;
  dev_status = (0, build_none) ∷ [];
  binary_type = 0;
  build_options = from_options [];
  ir = [];
  code = [];
  loaded_from_binary = false;
}

library-IsWritable : IsWritable library
unfolding is_bitcode from_options preserved_options str from_string split_by_whitespace split_from
    insert parse_names count parse_source_language find_text match_language starts_with
library-IsWritable = record {
  known = from_string-IsKnown some_options;
  short = omega arith;
  code = inl (inl refl, refl);
}

write-read_example :
    ((write library).1 ≡ true)
    × (length (write library).0 ≡ binary_size library)
    × ReadBack library (read (write library).0 fresh)
write-read_example = write-read library fresh library-IsWritable
