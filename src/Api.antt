-- ===== src/Api.antt =====
-- The validation layer of src/api.cpp: what an entry point answers before any work is done. A
-- handle is `none` for the null pointer. An object's `valid` is the test of its magic number.
pub mod Buffers
pub mod Commands
pub mod Safety
pub mod Accepts
pub mod Queries
mod Tests
use clvk.Common.{
  ℕ, zero, suc, ◌≡◌, Bool, true, false, ◌&&◌, ◌||◌, not, List, [], ◌∷◌, Option, none, some, ◌==◌,
  if◌then◌else◌,
}
use clvk.Codes.{Code, invalid_context, invalid_event_wait_list}

-- The bits of a `cl_mem_flags`.
pub record MemFlags : Type 0 where
  pub read_write : Bool
  pub write_only : Bool
  pub read_only : Bool
  pub use_host_ptr : Bool
  pub alloc_host_ptr : Bool
  pub copy_host_ptr : Bool
  pub host_write_only : Bool
  pub host_read_only : Bool
  pub host_no_access : Bool

pub data MemType : Type 0 where
  buffer image : MemType

pub record MemObject : Type 0 where
  pub valid : Bool
  pub type : MemType
  pub context : ℕ
  pub flags : MemFlags
  pub size : ℕ

pub record QueueObject : Type 0 where
  pub valid : Bool
  pub context : ℕ

pub record EventObject : Type 0 where
  pub valid : Bool
  pub context : ℕ

abbrev pub Handle : Type 0 → Type 0
Handle A = Option A

pub is_valid_command_queue : Handle QueueObject → Bool
is_valid_command_queue none = false
is_valid_command_queue (some q) = q.valid

abbrev pub is_buffer_type : MemType → Bool
is_buffer_type buffer = true
is_buffer_type image = false

-- The second test reads the object only if the first passed.
pub is_valid_buffer : Handle MemObject → Bool
is_valid_buffer none = false
is_valid_buffer (some m) = m.valid && is_buffer_type m.type

pub is_valid_event : Handle EventObject → Bool
is_valid_event none = false
is_valid_event (some e) = e.valid

-- A wait list: its number of events and its array, `none` for the null pointer.
pub record WaitList : Type 0 where
  pub num : ℕ
  pub events : Option (List (Handle EventObject))

-- The loop over the first `n` events; past its end an array has no event.
pub all_valid : ℕ → List (Handle EventObject) → Bool
all_valid zero es = true
all_valid (suc n) [] = false
all_valid (suc n) (e ∷ es) = is_valid_event e && all_valid n es

abbrev pub is_null {ℓ} : {A : Type ℓ} → Option A → Bool
is_null none = true
is_null (some a) = false

abbrev pub elements {ℓ} : {A : Type ℓ} → Option (List A) → List A
elements none = []
elements (some xs) = xs

pub is_valid_event_wait_list : WaitList → Bool
is_valid_event_wait_list w =
    if not (w.num == 0) && is_null w.events || w.num == 0 && not (is_null w.events)
    then false
    else all_valid w.num (elements w.events)

-- What a check, or the checks of an entry point, answer. `crashed` is an access through a null
-- pointer.
pub data Verdict : Type 0 where
  accepted : Verdict
  rejected : Code → Verdict
  crashed : Verdict

-- `if (!ok) return e;`
abbrev pub check : Bool → Code → Verdict
check true e = accepted
check false e = rejected e

infixr 30 ◌then_check◌
abbrev pub ◌then_check◌ : Verdict → Verdict → Verdict
accepted then_check v = v
rejected e then_check v = rejected e
crashed then_check v = crashed

-- `is_same_context` for a memory object reads both objects.
pub same_context : Handle QueueObject → Handle MemObject → Verdict
same_context (some q) (some m) = check (q.context == m.context) invalid_context
same_context (some q) none = crashed
same_context none m = crashed

-- The loop over the first `n` events; it reads each event that it meets.
pub same_context_from : ℕ → ℕ → List (Handle EventObject) → Verdict
same_context_from c zero es = accepted
same_context_from c (suc n) [] = crashed
same_context_from c (suc n) (none ∷ es) = crashed
same_context_from c (suc n) (some e ∷ es) =
    check (c == e.context) invalid_context then_check same_context_from c n es

-- `is_same_context` for a list of events: the queue is read only in the loop.
pub same_context_events : Handle QueueObject → WaitList → Verdict
same_context_events (some q) w = same_context_from q.context w.num (elements w.events)
same_context_events none w = if w.num == 0 then accepted else crashed

pub check_wait_list : WaitList → Verdict
check_wait_list w = check (is_valid_event_wait_list w) invalid_event_wait_list

-- A command is created: the constructor of `cvk_command` reads `m_queue->context()`.
abbrev pub create_command : Handle QueueObject → Verdict
create_command none = crashed
create_command (some q) = accepted
