-- ===== src/Api/Queries/Shapes.antt =====
-- The queries as one, and how each goes on.
use clvk.Common.{
  ℕ, ◌≡◌, ◌≢◌, refl, ◌⊎◌, inl, inr, Bool, true, false, List, [], Option, none, some, if◌then◌else◌,
  Bool-cases,
}
use clvk.Codes.{
  Code, success, invalid_context, invalid_event, invalid_command_queue, invalid_sampler,
  invalid_kernel, invalid_mem_object,
}
use clvk.Api.{Handle}
use clvk.Api.Queries.{Request, Found, Outcome, answer, answer_or_return, refuse}
use clvk.Api.Queries.Objects.{
  ContextState, ContextInfo, context_info, get_context_info, EventState, EventInfo, event_info,
  get_event_info, QueueState, QueueInfo, queue_info, get_command_queue_info, SamplerState,
  SamplerInfo, sampler_info, get_sampler_info, KernelState, KernelInfo, kernel_info,
  get_kernel_info,
}
use clvk.Api.Queries.Memory.{
  MemState, ImageState, MemInfo, mem_info, get_mem_object_info, ImageInfo, image_info,
  get_image_info,
}

pub data Query : Type 0 where
  of_context : Handle ContextState → ContextInfo → Query
  of_event : Handle EventState → EventInfo → Query
  of_queue : Handle QueueState → QueueInfo → Query
  of_sampler : Handle SamplerState → SamplerInfo → Query
  of_kernel : Handle KernelState → KernelInfo → Query
  of_mem : Handle MemState → MemInfo → Query
  of_image : Handle MemState → ImageInfo → Query

unfoldable pub run_query : Query → Request → Outcome
run_query (of_context c i) r = get_context_info c i r
run_query (of_event e i) r = get_event_info e i r
run_query (of_queue q i) r = get_command_queue_info q i r
run_query (of_sampler s i) r = get_sampler_info s i r
run_query (of_kernel k i) r = get_kernel_info k i r
run_query (of_mem m i) r = get_mem_object_info m i r
run_query (of_image m i) r = get_image_info m i r

-- What the object has for the parameter, if there is an object.
abbrev found : Query → Option Found
found (of_context (some c) i) = some (context_info c i)
found (of_event (some e) i) = some (event_info e i)
found (of_queue (some q) i) = some (queue_info q i)
found (of_sampler (some s) i) = some (sampler_info s i)
found (of_kernel (some k) i) = some (kernel_info k i)
found (of_mem (some m) i) = some (mem_info m i)
found (of_image (some m) i) = elim m.image [ none ↦ none | some image ↦ some (image_info image i) ]
found q = none

abbrev pub bytes_of : Option (List ℕ) → List ℕ
bytes_of none = []
bytes_of (some bs) = bs

-- The bytes of the value that is asked for.
abbrev pub contents : Query → List ℕ
contents q = elim (found q) [ none ↦ [] | some f ↦ bytes_of f.bytes ]

-- How a query goes on: it refuses the object, or answers.
abbrev pub Shape : Query → Type 0
Shape q =
    ((e : Code) × (e ≢ success) × ((r : Request) → run_query q r ≡ refuse e r))
    ⊎ ((f : Found) × (contents q ≡ bytes_of f.bytes)
        × (((r : Request) → run_query q r ≡ answer f r)
            ⊎ ((r : Request) → run_query q r ≡ answer_or_return f r)))

refused :
    (q : Query) (e : Code) → e ≢ success → ((r : Request) → run_query q r ≡ refuse e r) → Shape q
refused q e ne h = inl (e, ne, h)

-- A query that tests its object, and answers.
checked :
    (q : Query) (v : Bool) (e : Code) (f : Found)
    → e ≢ success
    → contents q ≡ bytes_of f.bytes
    → ((r : Request) → run_query q r ≡ (if v then answer f r else refuse e r))
    → Shape q
checked q true e f ne c h = inr (f, c, inl h)
checked q false e f ne c h = inl (e, ne, h)

checked_context :
    (c : ContextState) (i : ContextInfo) (v : Bool)
    → ((r : Request)
        → run_query (of_context (some c) i) r
          ≡ (if v then answer_or_return (context_info c i) r else refuse invalid_context r))
    → Shape (of_context (some c) i)
checked_context c i true h = inr (context_info c i, refl, inr h)
checked_context c i false h = inl (invalid_context, (λ e. absurd cc), h)

checked_image :
    (m : MemState) (i : ImageInfo) (o : Option ImageState)
    → m.image ≡ o
    → Shape (of_image (some m) i)
unfolding run_query get_image_info
checked_image m i none e =
    refused (of_image (some m) i) invalid_mem_object (λ h. absurd cc)
      (λ r. elim (Bool-cases m.valid) [
        | inl y ↦ rw (y, get_image_info) (rw (e, get_image_info))
        | inr n ↦ rw (n, get_image_info)
      ])
checked_image m i (some image) e =
    checked (of_image (some m) i) m.valid invalid_mem_object (image_info image i) (λ h. absurd cc)
      (rw e)
      (λ r. elim (Bool-cases m.valid) [
        | inl y ↦ rw (y, get_image_info) (rw (e, get_image_info))
        | inr n ↦ rw (n, get_image_info)
      ])

pub run_query-Shape : (q : Query) → Shape q
unfolding run_query get_context_info get_event_info get_command_queue_info get_sampler_info
    get_kernel_info get_mem_object_info get_image_info
run_query-Shape (of_context none i) =
    refused (of_context none i) invalid_context (λ e. absurd cc) (λ r. refl)
run_query-Shape (of_event none i) =
    refused (of_event none i) invalid_event (λ e. absurd cc) (λ r. refl)
run_query-Shape (of_queue none i) =
    refused (of_queue none i) invalid_command_queue (λ e. absurd cc) (λ r. refl)
run_query-Shape (of_sampler none i) =
    refused (of_sampler none i) invalid_sampler (λ e. absurd cc) (λ r. refl)
run_query-Shape (of_kernel none i) =
    refused (of_kernel none i) invalid_kernel (λ e. absurd cc) (λ r. refl)
run_query-Shape (of_mem none i) =
    refused (of_mem none i) invalid_mem_object (λ e. absurd cc) (λ r. refl)
run_query-Shape (of_image none i) =
    refused (of_image none i) invalid_mem_object (λ e. absurd cc) (λ r. refl)
run_query-Shape (of_context (some c) i) = checked_context c i c.valid (λ r. refl)
run_query-Shape (of_event (some e) i) =
    checked (of_event (some e) i) e.valid invalid_event (event_info e i) (λ h. absurd cc) refl
      (λ r. refl)
run_query-Shape (of_queue (some q) i) =
    checked (of_queue (some q) i) q.valid invalid_command_queue (queue_info q i) (λ h. absurd cc)
      refl (λ r. refl)
run_query-Shape (of_sampler (some s) i) =
    checked (of_sampler (some s) i) s.valid invalid_sampler (sampler_info s i) (λ h. absurd cc) refl
      (λ r. refl)
run_query-Shape (of_kernel (some k) i) =
    checked (of_kernel (some k) i) k.valid invalid_kernel (kernel_info k i) (λ h. absurd cc) refl
      (λ r. refl)
run_query-Shape (of_mem (some m) i) =
    checked (of_mem (some m) i) m.valid invalid_mem_object (mem_info m i) (λ h. absurd cc) refl
      (λ r. refl)
run_query-Shape (of_image (some m) i) = checked_image m i m.image refl
