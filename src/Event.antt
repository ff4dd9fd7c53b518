-- ===== src/Event.antt =====
-- The events of src/event.hpp and src/event.cpp, and the entry points of src/api.cpp on the status
-- and the callbacks of an event.
pub mod Callbacks
pub mod Combine
mod Tests
use clvk.Common.{
  ℕ, suc, Bool, true, false, ◌&&◌, ◌||◌, not, List, [], ◌∷◌, ◌++◌, map, Option, none, some, ltb,
  leb, ◌==◌, if◌then◌else◌,
}
use clvk.Codes.{Code, success, invalid_event, invalid_value}

-- `cl_int` statuses: `negsuc n` is the error -1 - n.
pub data ℤ : Type 0 where
  pos : ℕ → ℤ
  negsuc : ℕ → ℤ

abbrev pub complete : ℤ
complete = pos 0

abbrev pub submitted : ℤ
submitted = pos 2

abbrev pub queued : ℤ
queued = pos 3

abbrev pub leℤ : ℤ → ℤ → Bool
leℤ (pos a) (pos b) = leb a b
leℤ (pos a) (negsuc b) = false
leℤ (negsuc a) (pos b) = true
leℤ (negsuc a) (negsuc b) = leb b a

abbrev pub eqℤ : ℤ → ℤ → Bool
eqℤ (pos a) (pos b) = a == b
eqℤ (pos a) (negsuc b) = false
eqℤ (negsuc a) (pos b) = false
eqℤ (negsuc a) (negsuc b) = a == b

-- A `cvk_event_command`, without its profiling data. `callbacks` are the pairs of `m_callbacks`,
-- a type and the numbers of its callbacks; `calls` are the executed callbacks, in turn, with the
-- status that they got.
pub record Event : Type 0 where
  pub is_user : Bool
  pub status : ℤ
  pub callbacks : List (ℤ × List ℕ)
  pub calls : List (ℕ × ℤ)

-- The constructor; a user event has no command.
pub create : Bool → Event
create has_command = record {
  is_user = not has_command;
  status = if has_command then queued else submitted;
  callbacks = [];
  calls = [];
}

-- `completed() || terminated()`.
unfoldable pub is_finished : ℤ → Bool
is_finished s = leℤ s complete

-- `m_callbacks[type].push_back(cb)`.
pub push_callback : ℤ → ℕ → List (ℤ × List ℕ) → List (ℤ × List ℕ)
push_callback t c [] = (t, c ∷ []) ∷ []
push_callback t c ((u, cs) ∷ m) =
    let rest = push_callback t c m in if eqℤ u t then (u, cs ++ (c ∷ [])) ∷ m else (u, cs) ∷ rest

-- All callbacks, type by type.
pub flatten : List (ℤ × List ℕ) → List ℕ
flatten [] = []
flatten ((u, cs) ∷ m) = cs ++ flatten m

-- `cvk_event_command::register_callback`.
pub register_callback : ℤ → ℕ → Event → Event
register_callback t c e =
    if leℤ e.status t
    then record e { calls = e.calls ++ ((c, e.status) ∷ []) }
    else record e { callbacks = push_callback t c e.callbacks }

abbrev pub with_status : ℤ → ℕ → ℕ × ℤ
with_status s c = (c, s)

-- `cvk_event_command::set_status` with no profiling. That the status decreases is asserted in
-- debug builds only.
pub set_status : ℤ → Event → Event
set_status s e =
    if is_finished s
    then record e { status = s; calls = e.calls ++ map (with_status s) (flatten e.callbacks) }
    else record e { status = s }

-- `cvk_event_combine::get_status`, of the status of the first event and that of the last.
pub combine_status : ℤ → ℤ → ℤ
combine_status s e = if not (leℤ (pos 0) s) then s else if leℤ e complete then e else s

-- The entry points; an invalid event is `none`.
pub set_user_event_status : ℤ → Option Event → Code × Option Event
set_user_event_status s none = (invalid_event, none)
set_user_event_status s (some e) =
    if not e.is_user
    then (invalid_event, some e)
    else if not (leℤ s complete)
    then (invalid_value, some e)
    else (success, some (set_status s e))

-- `c` is `none` for a null function.
pub set_event_callback : ℤ → Option ℕ → Option Event → Code × Option Event
set_event_callback t c none = (invalid_event, none)
set_event_callback t none (some e) = (invalid_value, some e)
set_event_callback t (some c) (some e) = (success, some (register_callback t c e))
