-- ===== src/Crdt/Clock.antt =====
-- The Lamport clock and the log of a replica.
use vibes.Common.{
  ℕ, ◌+◌, ◌≤◌, ◌<◌, max, String, Bool, false, ◌||◌, some, List, [], ◌∷◌, ◌++◌, ◌≡◌, ◌∙◌, refl, sym,
  ap, inl, inr, arith, All, Bool-cases, Option-cases,
}
use mathlib.Core.List.{append_assoc, append-nil}
use vibes.Common.Dict.{get, str_eq}
use vibes.Crdt.{
  NodeKind, CrdtOperation, AstTreeCrdt, returned, replica, OpType, insert_node, delete_node,
  update_attr, move_node, check_orphan, is_ancestor, kind_str, node_kind, insert_under,
  apply_insert, apply_delete, apply_move, dispatch, apply_operation, replay, sync_peers,
}

-- A handler leaves the clock and the log alone.
record SameClock (s s' : AstTreeCrdt) : Type 0 where
  clock : s'.clock ≡ s.clock
  op_log : s'.op_log ≡ s.op_log

check_orphan-SameClock :
    (crdt : AstTreeCrdt) (parent_id : String) (exists : Bool)
    → SameClock crdt (check_orphan crdt parent_id exists)
unfolding check_orphan
check_orphan-SameClock crdt parent_id exists =
    elim (Bool-cases (exists || str_eq parent_id "root")) [
      | inl e ↦ rw e (record { clock = refl; op_log = refl })
      | inr e ↦ rw e (record { clock = refl; op_log = refl })
    ]

insert_under-SameClock :
    (crdt : AstTreeCrdt) (op : CrdtOperation) (exists : Bool)
    → SameClock crdt (replica (insert_under crdt op exists))
unfolding insert_under
insert_under-SameClock crdt op exists =
    let same = check_orphan-SameClock crdt op.parent_id exists in
    elim (Option-cases (node_kind (kind_str op))) [
      | inl e ↦ rw (e, insert_under) same
      | inr (kind, e) ↦ rw (e, insert_under) (record { clock = same.clock; op_log = same.op_log })
    ]

dispatch-SameClock :
    (t : OpType) (crdt : AstTreeCrdt) (op : CrdtOperation)
    → SameClock crdt (replica (dispatch t crdt op))
unfolding dispatch apply_insert apply_delete apply_move
dispatch-SameClock insert_node crdt op = elim (Option-cases (get crdt.node_map op.node_id)) [
  | inr (n, e) ↦ rw (e, apply_insert) (record { clock = refl; op_log = refl })
  | inl e ↦ rw (e, apply_insert) (insert_under-SameClock crdt op _)
]
dispatch-SameClock delete_node crdt op = elim (Option-cases (get crdt.node_map op.node_id)) [
  | inr (n, e) ↦ rw (e, apply_delete) (record { clock = refl; op_log = refl })
  | inl e ↦ rw (e, apply_delete) (record { clock = refl; op_log = refl })
]
dispatch-SameClock move_node crdt op = elim (Option-cases (get crdt.node_map op.node_id)) [
  | inl e ↦ rw (e, apply_move) (record { clock = refl; op_log = refl })
  | inr (n, e) ↦ elim (Bool-cases (is_ancestor crdt.node_map op.node_id op.parent_id)) [
    | inl f ↦ rw (e, f, apply_move) (record { clock = refl; op_log = refl })
    | inr f ↦ rw (e, f, apply_move) (record { clock = refl; op_log = refl })
  ]
]
dispatch-SameClock update_attr crdt op = record { clock = refl; op_log = refl }

-- The clock is ahead of every operation in the log.
abbrev pub Ahead : AstTreeCrdt → Type 0
Ahead crdt = All (λ op. op.lamport < crdt.clock) crdt.op_log

All-snoc :
    {A : Type 0} (P : A → Type 0) (xs : List A) (x : A) → All P xs → P x → All P (xs ++ x ∷ [])
All-snoc P [] x all p = (p, tt)
All-snoc P (y ∷ xs) x (q, all) p = (q, All-snoc P xs x all p)

All-later :
    (ops : List CrdtOperation) (c c' : ℕ)
    → c ≤ c'
    → All (λ op. op.lamport < c) ops
    → All (λ op. op.lamport < c') ops
All-later [] c c' le all = tt
All-later (op ∷ ops) c c' le (p, all) = (omega arith, All-later ops c c' le all)

apply_operation-Ahead :
    (crdt : AstTreeCrdt) (op : CrdtOperation)
    → Ahead crdt
    → Ahead (replica (apply_operation crdt op))
      × ((replica (apply_operation crdt op)).op_log ≡ crdt.op_log ++ op ∷ [])
unfolding apply_operation
apply_operation-Ahead crdt op ahead =
    let s1 : AstTreeCrdt = record crdt {
      clock = max crdt.clock op.lamport + 1;
      op_log = crdt.op_log ++ op ∷ [];
    } in
    let same = dispatch-SameClock op.op_type s1 op in
    let now : Ahead s1 =
      All-snoc _ crdt.op_log op (All-later crdt.op_log crdt.clock s1.clock (omega arith) ahead)
        (omega arith) in
    (rw (same.op_log, same.clock) now, same.op_log)

-- An operation for which no handler raises: an insertion names a kind that there is.
abbrev pub WellKinded : OpType → CrdtOperation → Type 0
WellKinded insert_node op = (kind : NodeKind) × (node_kind (kind_str op) ≡ some kind)
WellKinded _ op = Unit

dispatch-returned :
    (t : OpType) (crdt : AstTreeCrdt) (op : CrdtOperation)
    → WellKinded t op
    → dispatch t crdt op ≡ returned (replica (dispatch t crdt op))
unfolding dispatch apply_insert insert_under apply_delete apply_move
dispatch-returned insert_node crdt op (kind, w) =
    elim (Option-cases (get crdt.node_map op.node_id)) [
      | inr (n, e) ↦ rw (e, apply_insert) refl
      | inl e ↦ rw (e, w, apply_insert, insert_under) refl
    ]
dispatch-returned delete_node crdt op w = elim (Option-cases (get crdt.node_map op.node_id)) [
  | inr (n, e) ↦ rw (e, apply_delete) refl
  | inl e ↦ rw (e, apply_delete) refl
]
dispatch-returned move_node crdt op w = elim (Option-cases (get crdt.node_map op.node_id)) [
  | inl e ↦ rw (e, apply_move) refl
  | inr (n, e) ↦ elim (Bool-cases (is_ancestor crdt.node_map op.node_id op.parent_id)) [
    | inl f ↦ rw (e, f, apply_move) refl
    | inr f ↦ rw (e, f, apply_move) refl
  ]
]
dispatch-returned update_attr crdt op w = refl

-- A replay of operations that name kinds returns, puts them on the log in their order, and keeps the
-- clock ahead.
pub replay-Ahead :
    (crdt : AstTreeCrdt) (ops : List CrdtOperation)
    → Ahead crdt
    → All (λ op. WellKinded op.op_type op) ops
    → (crdt' : AstTreeCrdt) × (replay crdt ops ≡ returned crdt')
      × Ahead crdt'
      × (crdt'.op_log ≡ crdt.op_log ++ ops)
unfolding replay apply_operation
replay-Ahead crdt [] ahead well = (crdt, refl, ahead, sym (append-nil crdt.op_log))
replay-Ahead crdt (op ∷ ops) ahead (w, well) =
    let (first, logged) = apply_operation-Ahead crdt op ahead in
    let crdt1 = replica (apply_operation crdt op) in
    let e : apply_operation crdt op ≡ returned crdt1 = dispatch-returned op.op_type _ op w in
    let (crdt', ran, rest, log) = replay-Ahead crdt1 ops first well in
    (
      crdt',
      rw (e, replay) ran,
      rest,
      log ∙ ap (λ l. l ++ ops) logged ∙ append_assoc crdt.op_log (op ∷ []) ops,
    )

-- For two replicas whose logs name kinds that there are and whose clocks are ahead of every
-- operation logged, `sync_peers` raises nothing, leaves each log followed by the other's log as
-- it was before, and leaves both clocks ahead of every operation logged.
pub sync_peers-Ahead :
    (peer_a peer_b : AstTreeCrdt)
    → Ahead peer_a
    → Ahead peer_b
    → All (λ op. WellKinded op.op_type op) peer_a.op_log
    → All (λ op. WellKinded op.op_type op) peer_b.op_log
    → (a b : AstTreeCrdt) × (sync_peers peer_a peer_b ≡ (a, b, false))
      × Ahead a
      × Ahead b
      × (a.op_log ≡ peer_a.op_log ++ peer_b.op_log)
      × (b.op_log ≡ peer_b.op_log ++ peer_a.op_log)
unfolding sync_peers
sync_peers-Ahead peer_a peer_b ahead_a ahead_b well_a well_b =
    let (b, ran_b, later_b, log_b) = replay-Ahead peer_b peer_a.op_log ahead_b well_a in
    let (a, ran_a, later_a, log_a) = replay-Ahead peer_a peer_b.op_log ahead_a well_b in
    (a, b, rw (ran_b, ran_a, sync_peers) refl, later_a, later_b, log_a, log_b)
