-- ===== src/Program/Entry/Tests.antt =====
-- Entry points on programs at concrete values.
use clvk.Common.{
  ℕ, ◌≡◌, refl, ap, Bool, inr, true, false, [], ◌∷◌, none, some, arith, if◌then◌else◌,
}
use clvk.Codes.{success, link_program_failure, build_program_failure}
use clvk.PrintfText.{starts_with}
use clvk.Program.Options.{
  from_options, from_string, preserved_options, str, split_by_whitespace, split_from, insert,
  parse_names, count, parse_source_language, find_text, match_language,
}
use clvk.Program.Options.Roundtrip.{from_string-IsKnown}
use clvk.Program.State.{build_none, build_success, Program}
use clvk.Program.Binary.Roundtrip.{IsWritable}
use clvk.Program.Build.{
  start_or_wait, compile, link, Answers, creates_library, built_type, prepare, build_and_wait,
}
use clvk.Program.Build.Stages.{passes, loads, build_and_wait_answers}
use clvk.Program.Entry.{
  ContextObject, ProgramObject, new_program, Headers, all_available, request, read_inputs,
  compile_with, compile_valid_program, compile_program, link_program, build_program,
  create_program_with_binary,
}
use clvk.Program.Entry.Chain.{plain, link_request, compiled_links}
use clvk.Program.Entry.Rebuild.{binary_of, binary_rebuilds}

abbrev context : ContextObject
context = record { valid = true; device = 3 }

-- All works.
abbrev all_works : Answers
all_works = record {
  temp_folder = true;
  headers_saved = true;
  compiled = build_success;
  descriptor_map = true;
  constant_data_buffer = true;
  pipeline_cache = true;
  cache_hit = true;
  valid = false;
  skip_capability_check = true;
  capabilities = false;
  samplers = true;
  strip_reflection = false;
  stripped = false;
  shader_module = true;
}

abbrev no_headers : Headers
no_headers = record { num_input_headers = 0; input_headers = none; header_include_names = none }

abbrev every : ℕ → Bool
every d = true

-- The new program, compiled.
abbrev compiled_program : ProgramObject
compiled_program = record (new_program 3) {
  builder =
      (build_and_wait (request (plain none) compile [] none) all_works (new_program 3).builder).0;
}

compiled :
    compile_program every (plain none) all_works no_headers (some (new_program 3))
    ≡ some (some compiled_program, success)
unfolding compile_program compile_valid_program all_available compile_with read_inputs start_or_wait
    new_program built_type
compiled =
    ap (λ k. some (some compiled_program, k))
      (build_and_wait_answers (request (plain none) compile [] none) all_works
        (new_program 3).builder build_none refl refl refl (λ e. absurd cc))

compiled_links_example :
    (q : ProgramObject) × (link_program every
        (plain none)
        all_works
        (some context)
        1
        (some (some compiled_program ∷ []))
      ≡ (
        some q,
        if passes all_works link (
              creates_library
                (prepare (link_request none compiled_program) (new_program 3).builder))
            then success
            else link_program_failure,
      ))
unfolding new_program
compiled_links_example =
    compiled_links every none all_works no_headers (new_program 3) compiled_program build_none every
      none all_works context refl refl refl compiled

-- An executable of one word.
abbrev executable : Program
executable = record {
  device = 3;
  dev_status = (3, build_success) ∷ [];
  binary_type = 4;
  build_options = from_options [];
  ir = [];
  code = 3 ∷ 2 ∷ 0x23 ∷ 7 ∷ [];
  loaded_from_binary = false;
}

executable-IsWritable : IsWritable executable
unfolding from_options preserved_options str from_string split_by_whitespace split_from insert
    parse_names count parse_source_language find_text match_language starts_with
executable-IsWritable = record {
  known = from_string-IsKnown [];
  short = omega arith;
  code = inr (refl, omega arith, refl);
}

binary_rebuilds_example :
    (q : ProgramObject) × (create_program_with_binary (binary_of executable context) (some context)
      ≡ some (some q, success))
    × ((build_program (λ d. false) (plain none) all_works (some q)).1
        ≡ (if loads all_works then success else build_program_failure))
binary_rebuilds_example =
    binary_rebuilds executable context (λ d. false) none all_works executable-IsWritable refl refl
