-- ===== src/Queue/Order.antt =====
-- The queue is in order: each command waits for the one before it, also across flushes.
use mathlib.Core.List.{append-nil, append_assoc}
use clvk.Common.{
  ℕ, ◌≡◌, ◌≢◌, inl, inr, refl, sym, ap, ◌∙◌, subst, Bool, true, false, List, [], ◌∷◌, ◌++◌, Option,
  none, some, if◌then◌else◌,
}
use clvk.Codes.{Code, success}
use clvk.Queue.{
  Queue, Command, Request, Answers, push_command, add_dependency, batch_command, last_event,
  previous_event, end_current_command_batch, send_group, flush_no_lock, enqueue_batched,
  enqueue_alone, enqueue_command, add_command, current_batch, request_command, batch_is_full,
  group_is_full, end_if_full, push_built, flush_if_full, enqueue_request,
}
use clvk.Queue.Steps.{and_then_keeps, end_lem, send_lem, GroupSent}

-- The command waits for the event.
abbrev pub Waits : Option ℕ → Command → Type 0
Waits none c = Unit {0}
Waits (some e) c = (ds : List ℕ) × (c.deps ≡ ds ++ (e ∷ []))

-- Each command waits for the one before it, and the first for the event that is given.
abbrev pub Linked : Option ℕ → List Command → Type 0
Linked prev [] = Unit {0}
Linked prev (c ∷ cs) = Waits prev c × Linked (some c.event) cs

-- The event of the last command, or else the one that is given.
abbrev pub last_from : Option ℕ → List Command → Option ℕ
last_from prev [] = prev
last_from prev (c ∷ cs) = last_from (some c.event) cs

abbrev pub flat : List (List Command) → List Command
flat [] = []
flat (g ∷ gs) = g ++ flat gs

-- All commands that were pushed to the queue, the sent ones first.
abbrev pub pushed : Queue → List Command
pushed q = flat q.sent ++ q.group

pub record IsChained (q : Queue) : Type 0 where
  pub linked : Linked none (pushed q)
  pub finish : q.finish_event ≡ last_from none (flat q.sent)

flat-append : (gs : List (List Command)) (g : List Command) → flat (gs ++ (g ∷ [])) ≡ flat gs ++ g
flat-append [] g = append-nil g
flat-append (h ∷ gs) g = ap (λ t. h ++ t) (flat-append gs g) ∙ sym (append_assoc h (flat gs) g)

last_from-append :
    (p : Option ℕ) (cs ds : List Command) → last_from p (cs ++ ds) ≡ last_from (last_from p cs) ds
last_from-append p [] ds = refl
last_from-append p (c ∷ cs) ds = last_from-append (some c.event) cs ds

Linked-append :
    (p : Option ℕ) (cs : List Command) (c : Command)
    → Linked p cs
    → Waits (last_from p cs) c
    → Linked p (cs ++ (c ∷ []))
Linked-append p [] c h w = (w, tt)
Linked-append p (d ∷ cs) c h w = (h.0, Linked-append (some d.event) cs c h.1 w)

add_dependency-Waits : (e : Option ℕ) (c : Command) → Waits e (add_dependency e c)
add_dependency-Waits none c = tt
add_dependency-Waits (some e) c = (c.deps, refl)

-- The last event of a group that is not empty, whatever came before it.
abbrev or_else : Option ℕ → Option ℕ → Option ℕ
or_else o p = elim o [ none ↦ p | some e ↦ some e ]

or_else-last_event : (p : Option ℕ) (cs : List Command) → or_else (last_event cs) p ≡ last_from p cs
or_else-last_event p [] = refl
or_else-last_event p (c ∷ []) = refl
or_else-last_event p (c ∷ d ∷ cs) = or_else-last_event p (d ∷ cs)

last_event-last_from : (p : Option ℕ) (cs : List Command) → cs ≢ [] → last_event cs ≡ last_from p cs
last_event-last_from p [] ne = absurd (ne refl)
last_event-last_from p (c ∷ []) ne = refl
last_event-last_from p (c ∷ d ∷ cs) ne = last_event-last_from p (d ∷ cs) (λ e. cc)

push_same :
    (c : Command) (q : Queue)
    → ((push_command c q).sent ≡ q.sent) × ((push_command c q).finish_event ≡ q.finish_event)
unfolding push_command
push_same c q = (refl, refl)

-- A pushed command waits for the last of the queue.
previous_event-last_from : (q : Queue) → IsChained q → previous_event q ≡ last_from none (pushed q)
previous_event-last_from q h =
    or_else-last_event q.finish_event q.group
    ∙ ap (λ t. last_from t q.group) h.finish
    ∙ sym (last_from-append none (flat q.sent) q.group)

-- What the chain reads of a queue.
IsChained-same :
    (q r : Queue)
    → r.group ≡ q.group
    → r.sent ≡ q.sent
    → r.finish_event ≡ q.finish_event
    → IsChained q
    → IsChained r
IsChained-same q r g s f h = record { linked = rw (g, s) h.linked; finish = rw (f, s) h.finish }

push_command-IsChained :
    (c : Command) (q r : Queue)
    → r.group ≡ (push_command c q).group
    → r.sent ≡ q.sent
    → r.finish_event ≡ q.finish_event
    → IsChained q
    → IsChained r
unfolding push_command
push_command-IsChained c q r g s f h = record {
  linked =
      rw (g, s, sym (append_assoc (flat q.sent) q.group (with_dependency ∷ [])))
        (Linked-append none (pushed q) with_dependency h.linked (
          subst (λ t. Waits t with_dependency) (previous_event-last_from q h)
            (add_dependency-Waits (previous_event q) c)));
  finish = rw (f, s) h.finish;
}
  where
    with_dependency : Command
    with_dependency = add_dependency (previous_event q) c

end-IsChained :
    (a : Answers) (from_flush : Bool) (q : Queue)
    → IsChained q
    → IsChained (end_current_command_batch a from_flush q).1
end-IsChained a from_flush q h = elim (end_lem a from_flush q) [
  | inl (_, e, inl (g, _)) ↦ IsChained-same q _ g e.same_sent e.same_finish h
  | inl (_, e, inr (b, _, g)) ↦
      push_command-IsChained (batch_command b) (record q { command_batch = none }) _ g e.same_sent
        e.same_finish (IsChained-same q _ refl refl refl h)
  | inr (_, _, lost) ↦
      IsChained-same q _ (ap (λ t. t.1.group) lost) (ap (λ t. t.1.sent) lost)
        (ap (λ t. t.1.finish_event) lost) h
]

sent_of : (q r : Queue) → r.group ≡ [] → GroupSent q r → IsChained q → IsChained r
sent_of q r g (inl (z, s, f)) h = IsChained-same q r (g ∙ sym z) s f h
sent_of q r g (inr (ne, s, f)) h = record {
  linked = rw (g, s, flat-append q.sent q.group, append-nil (flat q.sent ++ q.group)) h.linked;
  finish =
      rw (f, s, flat-append q.sent q.group, last_from-append none (flat q.sent) q.group)
        (last_event-last_from (last_from none (flat q.sent)) q.group ne);
}

send_group-IsChained : (a : Answers) (q : Queue) → IsChained q → IsChained (send_group a q).1
send_group-IsChained a q h = let (_, g, _, s) = send_lem a q in sent_of q (send_group a q).1 g s h

flush-IsChained : (a : Answers) (q : Queue) → IsChained q → IsChained (flush_no_lock a q).1
unfolding flush_no_lock
flush-IsChained a q h =
    and_then_keeps IsChained (end_current_command_batch a true q) (send_group a)
      (end-IsChained a true q h) (send_group-IsChained a)

if-IsChained :
    (b : Bool) (t : Code × Queue) (q : Queue)
    → IsChained t.1
    → IsChained q
    → IsChained (if b then t else (success, q)).1
if-IsChained true t q h k = h
if-IsChained false t q h k = k

enqueue_batched-IsChained :
    (a : Answers) (r : Request) (q : Queue) → IsChained q → IsChained (enqueue_batched a r q).1
unfolding enqueue_batched
enqueue_batched-IsChained a r q h =
    let (e, b) = add_command a r.id (current_batch a q) in
    and_then_keeps IsChained (e, record q { command_batch = some b }) (end_if_full a)
      (IsChained-same q (record q { command_batch = some b }) refl refl refl h)
      (λ q1 k.
        if-IsChained (batch_is_full q1) (end_current_command_batch a false q1) q1
          (end-IsChained a false q1 k) k)

push_built-IsChained :
    (a : Answers) (r : Request) (q : Queue) → IsChained q → IsChained (push_built a r q).1
push_built-IsChained a r q h =
    and_then_keeps IsChained (if r.is_built_before_enqueue then success else a.build, q)
      (λ q1. (success, push_command (request_command r) q1)) h
      (λ q1 k.
        let same = push_same (request_command r) q1 in
        push_command-IsChained (request_command r) q1 (push_command (request_command r) q1) refl
          same.0 same.1 k)

enqueue_alone-IsChained :
    (a : Answers) (r : Request) (q : Queue) → IsChained q → IsChained (enqueue_alone a r q).1
unfolding enqueue_alone
enqueue_alone-IsChained a r q h =
    and_then_keeps IsChained (end_current_command_batch a true q) (push_built a r)
      (end-IsChained a true q h) (push_built-IsChained a r)

enqueue_request-IsChained :
    (a : Answers) (r : Request) (q : Queue) (b : Bool)
    → IsChained q
    → IsChained (if b then enqueue_batched a r q else enqueue_alone a r q).1
enqueue_request-IsChained a r q true h = enqueue_batched-IsChained a r q h
enqueue_request-IsChained a r q false h = enqueue_alone-IsChained a r q h

-- An enqueue and a flush, whatever they return, keep the queue chained: of all commands that were
-- pushed since its creation, in this group or in those sent before, each has the event of the one
-- before it as a dependency, and the finish event is that of the last command sent.
pub enqueue_and_flush-IsChained :
    (a : Answers) (r : Request) (q : Queue)
    → IsChained q
    → IsChained (enqueue_command a r q).1 × IsChained (flush_no_lock a q).1
unfolding enqueue_command
enqueue_and_flush-IsChained a r q h = (
  and_then_keeps IsChained (enqueue_request a r q) (flush_if_full a)
      (enqueue_request-IsChained a r q r.can_be_batched h)
      (λ q1 k. if-IsChained (group_is_full q1) (flush_no_lock a q1) q1 (flush-IsChained a q1 k) k),
  flush-IsChained a q h,
)
