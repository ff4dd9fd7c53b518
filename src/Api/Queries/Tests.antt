-- ===== src/Api/Queries/Tests.antt =====
-- Queries at concrete values.
use clvk.Common.{ℕ, ◌≡◌, refl, true, false, List, [], ◌∷◌, ◌++◌, none, some, arith, length, drop}
use clvk.Codes.{success, invalid_value}
use clvk.Api.Queries.{Request, answer}
use clvk.Api.Queries.Objects.{SamplerState, sampler_context, get_sampler_info, sampler_info}
use clvk.Api.Queries.Shapes.{Query, of_sampler, run_query, contents}
use clvk.Api.Queries.Answers.{
  KeepsRest, ask, run_query_in_bounds, success_is_whole, size_then_value,
}

abbrev sampler : SamplerState
sampler = record {
  valid = true;
  refcount = 1;
  context = 0x1234;
  normalized_coords = false;
  addressing_mode = 0x1130;
  filter_mode = 0x1140;
  properties = [];
}

-- What is asked for.
abbrev context_query : Query
context_query = of_sampler (some sampler) sampler_context

-- Eleven bytes of the caller.
abbrev memory : List ℕ
memory = 9 ∷ 9 ∷ 9 ∷ 9 ∷ 9 ∷ 9 ∷ 9 ∷ 9 ∷ 7 ∷ 8 ∷ 9 ∷ []

abbrev request : ℕ → Request
request n = record { param_value_size = n; param_value = some memory; size_ret = false }

-- Three bytes are not enough; they are written all the same.
too_small : run_query context_query (request 3) ≡ record {
  ret = invalid_value;
  value = some (0x34 ∷ 0x12 ∷ 0 ∷ 9 ∷ 9 ∷ 9 ∷ 9 ∷ 9 ∷ 7 ∷ 8 ∷ 9 ∷ []);
  size = none;
}
unfolding run_query get_sampler_info sampler_info answer
too_small = refl

asked : (run_query context_query (ask 0)).size ≡ some 8
unfolding run_query get_sampler_info sampler_info answer
asked = refl

succeeds : (run_query context_query (request 9)).ret ≡ success
unfolding run_query get_sampler_info sampler_info answer
succeeds = refl

run_query_in_bounds_example : KeepsRest 3 memory (run_query context_query (request 3)).value
run_query_in_bounds_example =
    run_query_in_bounds context_query (request 3) memory refl (omega arith)

success_is_whole_example :
    (run_query context_query (request 9)).value
    ≡ some (contents context_query ++ drop (length (contents context_query)) memory)
success_is_whole_example = success_is_whole context_query (request 9) memory refl succeeds

size_then_value_example :
    ((run_query context_query (request 9)).ret ≡ (run_query context_query (ask 0)).ret)
    × ((run_query context_query (request 9)).value ≡ some (contents context_query ++ drop 8 memory))
    × (length (contents context_query) ≡ 8)
size_then_value_example =
    size_then_value context_query 0 8 (request 9) memory asked refl (omega arith)
