-- ===== src/Queue/Contents.antt =====
-- The commands that a queue holds or has sent, in order.
use mathlib.Core.List.{append-nil, append_assoc}
use clvk.Common.{
  ℕ, ◌≡◌, inl, inr, refl, sym, ap, ap₂, ◌∙◌, Bool, true, false, List, [], ◌∷◌, ◌++◌, Option, none,
  some, if◌then◌else◌,
}
use clvk.Codes.{Code, success}
use clvk.Queue.{
  Queue, Batch, Command, Request, absent, Answers, push_command, add_dependency, batch_command,
  end_current_command_batch, and_then, send_group, flush_no_lock, enqueue_batched, enqueue_alone,
  enqueue_command, add_command, current_batch, request_command, previous_event, batch_is_full,
  group_is_full,
}
use clvk.Queue.Steps.{
  GroupSent, send_lem, and_then_ok, add_command_lem, end_lem, batch_members, Ended, GroupEnded,
}

abbrev pub members_of : List Command → List ℕ
members_of [] = []
members_of (c ∷ cs) = c.members ++ members_of cs

abbrev pub sent_members : List (List Command) → List ℕ
sent_members [] = []
sent_members (g ∷ gs) = members_of g ++ sent_members gs

-- What was sent to the executor, then the group, then the batch.
abbrev pub contents : Queue → List ℕ
contents q = sent_members q.sent ++ (members_of q.group ++ batch_members q.command_batch)

members_of-append : (cs ds : List Command) → members_of (cs ++ ds) ≡ members_of cs ++ members_of ds
members_of-append [] ds = refl
members_of-append (c ∷ cs) ds =
    ap (λ t. c.members ++ t) (members_of-append cs ds)
    ∙ sym (append_assoc c.members (members_of cs) (members_of ds))

sent_members-append :
    (gs hs : List (List Command)) → sent_members (gs ++ hs) ≡ sent_members gs ++ sent_members hs
sent_members-append [] hs = refl
sent_members-append (g ∷ gs) hs =
    ap (λ t. members_of g ++ t) (sent_members-append gs hs)
    ∙ sym (append_assoc (members_of g) (sent_members gs) (sent_members hs))

members-add_dependency : (e : Option ℕ) (c : Command) → (add_dependency e c).members ≡ c.members
members-add_dependency none c = refl
members-add_dependency (some e) c = refl

members-push_command :
    (c : Command) (q : Queue)
    → members_of (push_command c q).group ≡ members_of q.group ++ c.members
unfolding push_command
members-push_command c q =
    members_of-append q.group (add_dependency (previous_event q) c ∷ [])
    ∙ ap (λ t. members_of q.group ++ t)
        (append-nil (add_dependency (previous_event q) c).members
          ∙ members-add_dependency (previous_event q) c)

same_parts :
    (c : Command) (q : Queue)
    → ((push_command c q).sent ≡ q.sent) × ((push_command c q).command_batch ≡ q.command_batch)
unfolding push_command
same_parts c q = (refl, refl)

-- The end of a batch moves its commands, and keeps their order.
contents_after_end : (q r : Queue) → Ended q r → GroupEnded q r → contents r ≡ contents q
contents_after_end q r h (inl (g, none_left)) = rw (h.same_sent, h.no_batch, g, none_left)
contents_after_end q r h (inr (b, e, g)) = rw (
  h.same_sent,
  h.no_batch,
  g,
  ap batch_members e,
  members-push_command (batch_command b) (record q { command_batch = none }),
  append-nil (members_of q.group ++ b.commands),
)

contents_of_sent :
    (q r : Queue)
    → r.group ≡ []
    → r.command_batch ≡ q.command_batch
    → GroupSent q r
    → contents r ≡ contents q
contents_of_sent q r g b (inl (z, s, _)) = rw (g, b, s, z)
contents_of_sent q r g b (inr (_, s, _)) =
    rw (g, b, s, sent_members-append q.sent (q.group ∷ []), append-nil (members_of q.group))
      (append_assoc (sent_members q.sent) (members_of q.group) (batch_members q.command_batch))

contents-send_group : (a : Answers) (q : Queue) → contents (send_group a q).1 ≡ contents q
contents-send_group a q =
    let (_, g, b, s) = send_lem a q in contents_of_sent q (send_group a q).1 g b s

contents-end :
    (a : Answers) (from_flush : Bool) (q : Queue)
    → (end_current_command_batch a from_flush q).0 ≡ success
    → contents (end_current_command_batch a from_flush q).1 ≡ contents q
contents-end a from_flush q ok = elim (end_lem a from_flush q) [
  | inl (_, ended, g) ↦ contents_after_end q _ ended g
  | inr (_, _, lost) ↦ cc (lost, ok)
]

no_batch-end :
    (a : Answers) (from_flush : Bool) (q : Queue)
    → (end_current_command_batch a from_flush q).0 ≡ success
    → (end_current_command_batch a from_flush q).1.command_batch ≡ none
no_batch-end a from_flush q ok = elim (end_lem a from_flush q) [
  | inl (_, ended, g) ↦ ended.no_batch
  | inr (_, _, lost) ↦ cc (lost, ok)
]

-- A flush that returns CL_SUCCESS leaves no command behind in the queue, and has sent them to the
-- executor in the order in which they were enqueued: what was sent before the flush, then the
-- group, then the batch.
flush_sends_all :
    (a : Answers) (q : Queue)
    → (flush_no_lock a q).0 ≡ success
    → let r = (flush_no_lock a q).1 in
      (r.group ≡ []) × (r.command_batch ≡ none) × (sent_members r.sent ≡ contents q)
unfolding flush_no_lock
flush_sends_all a q ok =
    let m = end_current_command_batch a true q in
    let (here, _, eq) = and_then_ok m (send_group a) ok in
    let (_, g, b, s) = send_lem a m.1 in
    let no_batch = b ∙ no_batch-end a true q here in
    let r = (send_group a m.1).1 in
    rw eq (
      g,
      no_batch,
      sym (append-nil (sent_members r.sent))
          ∙ sym (ap₂ (λ x y. sent_members r.sent ++ (members_of x ++ batch_members y)) g no_batch)
          ∙ contents_of_sent m.1 r g b s
          ∙ contents-end a true q here,
    )

commands-current_batch :
    (a : Answers) (q : Queue) → (current_batch a q).commands ≡ batch_members q.command_batch
commands-current_batch a q = go q.command_batch
  where
    go :
        (o : Option Batch)
        → (elim o as (λ _. Batch) [
          | none ↦ record { batch_event = a.fresh_event; buffer = absent; commands = [] }
          | some b ↦ b
        ]).commands
          ≡ batch_members o
    go none = refl
    go (some b) = refl

regroup :
    (xs ys zs : List ℕ) (n : ℕ) → xs ++ (ys ++ (zs ++ (n ∷ []))) ≡ (xs ++ (ys ++ zs)) ++ (n ∷ [])
regroup xs ys zs n = simp append_assoc

-- The step by which the two ways to enqueue end.
abbrev Enqueues : ℕ → Queue → Code × Queue → Type 0
Enqueues id q t = t.0 ≡ success → contents t.1 ≡ contents q ++ (id ∷ [])

-- A part that is run on a condition, and keeps the contents.
Keeps-if :
    (b : Bool) (t : Code × Queue) (q : Queue)
    → (t.0 ≡ success → contents t.1 ≡ contents q)
    → (if b then t else (success, q)).0 ≡ success
    → contents (if b then t else (success, q)).1 ≡ contents q
Keeps-if true t q keep ok = keep ok
Keeps-if false t q keep ok = refl

contents-add_command :
    (a : Answers) (id : ℕ) (q : Queue) {e : Code} {b : Batch}
    → add_command a id (current_batch a q) ≡ (e, b)
    → e ≡ success
    → contents (record q { command_batch = some b }) ≡ contents q ++ (id ∷ [])
contents-add_command a id q {e} {b} eq ok =
    let (_, cases) = add_command_lem a id (current_batch a q) in
    elim cases [
      | inl (_, c) ↦
          rw
            (sym (ap (λ t. t.1.commands) eq)
              ∙ c
              ∙ ap (λ t. t ++ (id ∷ [])) (commands-current_batch a q))
            (regroup (sent_members q.sent) (members_of q.group) (batch_members q.command_batch) id)
      | inr (bad, _) ↦ absurd (bad (ap (λ t. t.0) eq ∙ ok))
    ]

contents-push_command :
    (c : Command) (id : ℕ) (q : Queue)
    → q.command_batch ≡ none
    → c.members ≡ id ∷ []
    → contents (push_command c q) ≡ contents q ++ (id ∷ [])
contents-push_command c id q e h =
    rw (parts.0, parts.1, members-push_command c q, h, ap batch_members e)
      (simp (append_assoc, append-nil))
  where
    parts :
        ((push_command c q).sent ≡ q.sent) × ((push_command c q).command_batch ≡ q.command_batch)
    parts = same_parts c q

enqueue_batched-Enqueues :
    (a : Answers) (r : Request) (q : Queue) → Enqueues r.id q (enqueue_batched a r q)
unfolding enqueue_batched
enqueue_batched-Enqueues a r q ok =
    let (e, b) = add_command a r.id (current_batch a q) in
    let q1 = record q { command_batch = some b } in
    let (here, there, eq) =
      and_then_ok (e, q1)
        (λ q1. if batch_is_full q1 then end_current_command_batch a false q1 else (success, q1))
        ok in
    rw eq (
      Keeps-if (batch_is_full q1) (end_current_command_batch a false q1) q1
        (contents-end a false q1) there
      ∙ contents-add_command a r.id q refl here)

enqueue_alone-Enqueues :
    (a : Answers) (r : Request) (q : Queue) → Enqueues r.id q (enqueue_alone a r q)
unfolding enqueue_alone
enqueue_alone-Enqueues a r q ok =
    let m = end_current_command_batch a true q in
    let built = if r.is_built_before_enqueue then success else a.build in
    let (here, there, eq) =
      and_then_ok m
        (λ q1. and_then (built, q1) λ q2. (success, push_command (request_command r) q2)) ok in
    let (_, _, eq') =
      and_then_ok (built, m.1) (λ q2. (success, push_command (request_command r) q2)) there in
    rw (eq, eq')
      (contents-push_command (request_command r) r.id m.1 (no_batch-end a true q here) refl
        ∙ ap (λ t. t ++ (r.id ∷ [])) (contents-end a true q here))

contents-flush :
    (a : Answers) (q : Queue)
    → (flush_no_lock a q).0 ≡ success
    → contents (flush_no_lock a q).1 ≡ contents q
unfolding flush_no_lock
contents-flush a q ok =
    let m = end_current_command_batch a true q in
    let (here, _, eq) = and_then_ok m (send_group a) ok in
    rw eq (contents-send_group a m.1 ∙ contents-end a true q here)

-- An enqueue that returns CL_SUCCESS, of a command that is batched or of one that is not, whether
-- it ends a batch or flushes the queue, adds the command behind all that were enqueued before it,
-- and loses, repeats or reorders none of them, sent ones included.
pub enqueue_command_appends :
    (a : Answers) (r : Request) (q : Queue)
    → (enqueue_command a r q).0 ≡ success
    → contents (enqueue_command a r q).1 ≡ contents q ++ (r.id ∷ [])
unfolding enqueue_command
enqueue_command_appends a r q ok =
    let m = if r.can_be_batched then enqueue_batched a r q else enqueue_alone a r q in
    let (here, there, eq) =
      and_then_ok m (λ q1. if group_is_full q1 then flush_no_lock a q1 else (success, q1)) ok in
    rw eq (
      Keeps-if (group_is_full m.1) (flush_no_lock a m.1) m.1 (contents-flush a m.1) there
      ∙ either r.can_be_batched here)
  where
    either : (b : Bool) → Enqueues r.id q (if b then enqueue_batched a r q else enqueue_alone a r q)
    either true = enqueue_batched-Enqueues a r q
    either false = enqueue_alone-Enqueues a r q
