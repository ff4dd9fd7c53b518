-- ===== src/Event/Callbacks.antt =====
-- How often the callbacks of an event run.
use clvk.Common.{
  ℕ, ◌+◌, ◌*◌, ◌≡◌, refl, Bool, true, false, List, [], ◌∷◌, ◌++◌, map, some, arith, ◌==◌,
  if◌then◌else◌,
}
use clvk.Codes.{success}
use clvk.Event.{
  ℤ, leℤ, complete, Event, create, is_finished, push_callback, flatten, with_status,
  register_callback, set_status, set_user_event_status, set_event_callback,
}

abbrev pub count : ℕ → List ℕ → ℕ
count k [] = 0
count k (c ∷ cs) = (if k == c then 1 else 0) + count k cs

abbrev fst_of : ℕ × ℤ → ℕ
fst_of (c, s) = c

-- The callbacks that have run.
abbrev pub ran : Event → List ℕ
ran e = map fst_of e.calls

-- The callbacks that will run when the event finishes.
abbrev pub pending : Event → List ℕ
pending e = if is_finished e.status then [] else flatten e.callbacks

-- `History cs e`: `e` got the callbacks `cs`, each for CL_COMPLETE or a status before it, and its
-- status was not set again once it had finished.
pub data History : List ℕ → Event → Type 0 where
  created : (has_command : Bool) → History [] (create has_command)
  registered :
      {cs : List ℕ} {e : Event}
      → (t : ℤ) → (c : ℕ) → leℤ complete t ≡ true
      → History cs e
      → History (c ∷ cs) (register_callback t c e)
  moved :
      {cs : List ℕ} {e : Event}
      → (s : ℤ) → is_finished e.status ≡ false
      → History cs e
      → History cs (set_status s e)

count-append : (k : ℕ) (xs ys : List ℕ) → count k (xs ++ ys) ≡ count k xs + count k ys
count-append k [] ys = omega arith
count-append k (x ∷ xs) ys = omega (arith, count-append k xs ys)

count-flatten-push :
    (k : ℕ) (t : ℤ) (c : ℕ) (m : List (ℤ × List ℕ))
    → count k (flatten (push_callback t c m)) ≡ count k (c ∷ []) + count k (flatten m)
unfolding flatten push_callback
count-flatten-push k t c [] = omega arith
count-flatten-push k t c ((u, cs) ∷ m) =
    let ih = count-flatten-push k t c m in
    let split = count-append k cs (c ∷ []) in
    let a1 = count-append k (cs ++ (c ∷ [])) (flatten m) in
    let a2 = count-append k cs (flatten m) in
    let a3 = count-append k cs (flatten (push_callback t c m)) in ground arith

count-fst-append :
    (k : ℕ) (xs ys : List (ℕ × ℤ))
    → count k (map fst_of (xs ++ ys)) ≡ count k (map fst_of xs) + count k (map fst_of ys)
count-fst-append k [] ys = omega arith
count-fst-append k ((c, s) ∷ xs) ys = omega (arith, count-fst-append k xs ys)

count-fst-with :
    (k : ℕ) (s : ℤ) (cs : List ℕ) → count k (map fst_of (map (with_status s) cs)) ≡ count k cs
count-fst-with k s [] = refl
count-fst-with k s (c ∷ cs) = omega (arith, count-fst-with k s cs)

-- A registered callback has run, or waits for the event to finish.
register-count :
    (k : ℕ) (t : ℤ) (c : ℕ) (e : Event)
    → leℤ complete t ≡ true
    → count k (ran (register_callback t c e)) + count k (pending (register_callback t c e))
      ≡ count k (c ∷ []) + (count k (ran e) + count k (pending e))
unfolding register_callback is_finished
register-count k t c e h =
    let p = count-flatten-push k t c e.callbacks in
    let a = count-fst-append k e.calls ((c, e.status) ∷ []) in ground arith

set_status-count :
    (k : ℕ) (s : ℤ) (e : Event)
    → is_finished e.status ≡ false
    → count k (ran (set_status s e)) + count k (pending (set_status s e))
      ≡ count k (ran e) + count k (pending e)
unfolding set_status
set_status-count k s e h =
    let a = count-fst-append k e.calls (map (with_status s) (flatten e.callbacks)) in
    let b = count-fst-with k s (flatten e.callbacks) in ground arith

-- Of the callbacks that an event got, each for CL_COMPLETE or a status before it, each has run as
-- often as it was registered when the event has finished, and otherwise has run or is pending as
-- often; the status is set no more once the event has finished.
pub callbacks_run_once :
    {cs : List ℕ} {e : Event}
    → History cs e
    → (k : ℕ) → count k (ran e) + count k (pending e) ≡ count k cs
unfolding create flatten
callbacks_run_once (created b) k = ground arith
callbacks_run_once (registered {cs} {e} t c ok h) k =
    omega (arith, register-count k t c e ok, callbacks_run_once h k)
callbacks_run_once (moved {cs} {e} s going h) k =
    omega (arith, set_status-count k s e going, callbacks_run_once h k)

-- When an event that has not finished gets a callback through clSetEventCallback, and
-- clSetUserEventStatus then finishes it, both succeed, and the callback and those that were waiting
-- have run once more each than before, and no other.
pub callback_runs_on_finish :
    (t s : ℤ) (c : ℕ) (e : Event)
    → e.is_user ≡ true
    → is_finished e.status ≡ false
    → leℤ s complete ≡ true
    → let (first, e1) = set_event_callback t (some c) (some e) in
      let (second, e2) = set_user_event_status s e1 in
      (first ≡ success)
      × ((second ≡ success)
          × ((e2 ≡ some (set_status s (register_callback t c e)))
              × ((k : ℕ)
                  → count k (ran (set_status s (register_callback t c e)))
                    ≡ count k (ran e) + count k (c ∷ flatten e.callbacks))))
unfolding set_user_event_status set_event_callback set_status is_finished register_callback
callback_runs_on_finish t s c e user going hs =
    let runs : (k : ℕ)
        → count k (ran (set_status s (register_callback t c e)))
          ≡ count k (ran e) + count k (c ∷ flatten e.callbacks) =
      λ k.
        let p = count-flatten-push k t c e.callbacks in
        let a = count-fst-append k e.calls ((c, e.status) ∷ []) in
        let b =
          count-fst-append k (register_callback t c e).calls
            (map (with_status s) (flatten (register_callback t c e).callbacks)) in
        let d = count-fst-with k s (flatten (register_callback t c e).callbacks) in ground arith in
    (refl, (ground arith, (ground arith, runs)))

-- clSetUserEventStatus succeeds on an event that it has finished before, and then runs each
-- callback of the event once more.
pub user_callbacks_run_again :
    (s t : ℤ) (e : Event)
    → e.is_user ≡ true
    → leℤ s complete ≡ true
    → leℤ t complete ≡ true
    → let (first, e1) = set_user_event_status s (some e) in
      let (second, e2) = set_user_event_status t e1 in
      (first ≡ success)
      × ((second ≡ success)
          × ((e2 ≡ some (set_status t (set_status s e)))
              × ((k : ℕ)
                  → count k (ran (set_status t (set_status s e)))
                    ≡ count k (ran e) + 2 * count k (flatten e.callbacks))))
unfolding set_user_event_status set_status is_finished
user_callbacks_run_again s t e user hs ht =
    let twice : (k : ℕ)
        → count k (ran (set_status t (set_status s e)))
          ≡ count k (ran e) + 2 * count k (flatten e.callbacks) =
      λ k.
        let a = count-fst-append k e.calls (map (with_status s) (flatten e.callbacks)) in
        let b =
          count-fst-append k (e.calls ++ map (with_status s) (flatten e.callbacks))
            (map (with_status t) (flatten e.callbacks)) in
        let c = count-fst-with k s (flatten e.callbacks) in
        let d = count-fst-with k t (flatten e.callbacks) in ground arith in
    (ground arith, (ground arith, (ground arith, twice)))
