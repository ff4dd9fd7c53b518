-- ===== src/Queue/Steps.antt =====
-- What each part of an operation does to the queue.
use clvk.Common.{
  ℕ, ◌≡◌, ◌≢◌, ◌⊎◌, inl, inr, refl, sym, ap, ◌∙◌, Bool, false, List, [], ◌∷◌, ◌++◌, Option, none,
  some, arith,
}
use clvk.Codes.{Code, success, out_of_resources}
use clvk.Queue.{
  Queue, Batch, Command, Answers, push_command, end_batch, build_into, add_command, batch_command,
  end_current_command_batch, and_then, send_group, last_event,
}

module _ {ℓ} (P : Queue → Type ℓ) where
  -- A property that each part keeps, whatever code it returns.
  pub and_then_keeps :
      (m : Code × Queue) (k : Queue → Code × Queue)
      → P m.1
      → ((q : Queue) → P q → P (k q).1)
      → P (and_then m k).1
  and_then_keeps (success, q) k h each = each q h
  and_then_keeps (_, q) k h each = h

-- A chain that succeeds is two parts that succeed.
pub and_then_ok :
    (m : Code × Queue) (k : Queue → Code × Queue)
    → (and_then m k).0 ≡ success
    → (m.0 ≡ success) × ((k m.1).0 ≡ success) × (and_then m k ≡ k m.1)
and_then_ok (success, q) k h = (refl, h, refl)
and_then_ok (_, q) k h = cc

-- A command that is added is the last of its batch; one that is not leaves the commands alone.
pub add_command_lem :
    (a : Answers) (id : ℕ) (b : Batch)
    → let (e, b') = add_command a id b in
      (b'.batch_event ≡ b.batch_event)
      × ((e ≡ success) × (b'.commands ≡ b.commands ++ (id ∷ []))
          ⊎ (e ≢ success) × (b'.commands ≡ b.commands))
unfolding add_command build_into
add_command_lem a id b = ground arith

-- The commands of a batch, in order.
abbrev pub batch_members : Option Batch → List ℕ
batch_members none = []
batch_members (some b) = b.commands

-- Nothing that was sent changes, and there is no batch.
pub record Ended (q r : Queue) : Type 0 where
  pub no_batch : r.command_batch ≡ none
  pub same_sent : r.sent ≡ q.sent
  pub same_finish : r.finish_event ≡ q.finish_event

-- The batch goes to the end of the group, if it has commands.
abbrev pub GroupEnded : Queue → Queue → Type 0
GroupEnded q r =
    ((r.group ≡ q.group) × (batch_members q.command_batch ≡ []))
    ⊎ ((b : Batch) × (q.command_batch ≡ some b)
        × (r.group ≡ (push_command (batch_command b) (record q { command_batch = none })).group))

-- The batch is lost: it had commands, and the driver could not end its command buffer.
abbrev pub BatchLost : Answers → Queue → Code × Queue → Type 0
BatchLost a q t =
    (a.end_ok ≡ false)
    × (batch_members q.command_batch ≢ [])
    × (t ≡ (out_of_resources, record q { command_batch = none }))

end_batch_lem :
    (a : Answers) (from_flush : Bool) (b : Batch) (q : Queue)
    → let moved = record q { command_batch = none } in
      let t = end_batch a from_flush b moved in
      (t.0 ≡ success)
        × Ended q t.1
        × ((t.1.group ≡ q.group) × (b.commands ≡ [])
            ⊎ (t.1.group ≡ (push_command (batch_command b) moved).group))
      ⊎ (a.end_ok ≡ false) × (b.commands ≢ []) × (t ≡ (out_of_resources, moved))
unfolding end_batch push_command
end_batch_lem a from_flush b q = ground arith

end_some :
    (a : Answers) (from_flush : Bool) (q : Queue) (b : Batch)
    → q.command_batch ≡ some b
    → end_current_command_batch a from_flush q
      ≡ end_batch a from_flush b (record q { command_batch = none })
unfolding end_current_command_batch
end_some a from_flush q b e = rw (e, end_current_command_batch)

end_lem_at :
    (a : Answers) (from_flush : Bool) (q : Queue) (batch : Option Batch)
    → q.command_batch ≡ batch
    → let t = end_current_command_batch a from_flush q in
      (t.0 ≡ success) × Ended q t.1 × GroupEnded q t.1 ⊎ BatchLost a q t
unfolding end_current_command_batch
end_lem_at a from_flush q none e = ground arith
end_lem_at a from_flush q (some b) e =
    let same = end_some a from_flush q b e in
    elim (end_batch_lem a from_flush b q) [
      | inl (ok, ended, inl (g, c)) ↦ rw same (inl (ok, ended, inl (g, ap batch_members e ∙ c)))
      | inl (ok, ended, inr g) ↦ rw same (inl (ok, ended, inr (b, e, g)))
      | inr (bad, left, lost) ↦ rw same (inr (bad, λ z. left (sym (ap batch_members e) ∙ z), lost))
    ]

-- The end of the current batch succeeds and leaves no batch, or the batch is lost.
pub end_lem :
    (a : Answers) (from_flush : Bool) (q : Queue)
    → let t = end_current_command_batch a from_flush q in
      (t.0 ≡ success) × Ended q t.1 × GroupEnded q t.1 ⊎ BatchLost a q t
end_lem a from_flush q = end_lem_at a from_flush q q.command_batch refl

-- Nothing was sent since the group is empty, or the group was sent.
abbrev pub GroupSent : Queue → Queue → Type 0
GroupSent q r =
    ((q.group ≡ []) × (r.sent ≡ q.sent) × (r.finish_event ≡ q.finish_event))
    ⊎ ((q.group ≢ []) × (r.sent ≡ q.sent ++ (q.group ∷ [])) × (r.finish_event ≡ last_event q.group))

send_lem_at :
    (a : Answers) (q : Queue) (g : List Command)
    → q.group ≡ g
    → let t = send_group a q in
      (t.0 ≡ success) × (t.1.group ≡ []) × (t.1.command_batch ≡ q.command_batch) × GroupSent q t.1
unfolding send_group
send_lem_at a q [] e = ground arith
send_lem_at a q (c ∷ cs) e = ground arith

pub send_lem :
    (a : Answers) (q : Queue)
    → let t = send_group a q in
      (t.0 ≡ success) × (t.1.group ≡ []) × (t.1.command_batch ≡ q.command_batch) × GroupSent q t.1
send_lem a q = send_lem_at a q q.group refl
