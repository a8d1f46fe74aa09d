-- ===== src/Crdt/Commute.antt =====
-- Operations that are received twice, or in another order.
use vibes.Common.{
  String, Bool, true, false, Option, none, some, ◌≡◌, ◌≢◌, ◌∙◌, refl, sym, ap, inl, inr, Bool-cases,
  Option-cases, if◌then◌else◌,
}
use text.Mathlib.TextEquality.{eq_iff}
use vibes.Common.Dict.{Dict, get, put, str_eq, get-put}
use vibes.Crdt.{
  CrdtNode, CrdtOperation, AstTreeCrdt, replica, OpType, insert_node, delete_node, update_attr,
  move_node, kind_str, inserted, is_some, node_kind, apply_insert, apply_delete, dispatch,
  apply_operation,
}
use vibes.Crdt.Nodes.{insert_under-node_map}

-- The operations that change no node but the one that they name, and look at no other but its
-- parent.
abbrev pub IsLocal : OpType → Type 0
IsLocal move_node = ⊥
IsLocal _ = Unit

-- What such an operation does to the node that it names, if the parent is there or not.
abbrev pub after : OpType → CrdtOperation → Bool → Option CrdtNode → Option CrdtNode
after insert_node op exists (some n) = some n
after insert_node op exists none = elim (node_kind (kind_str op)) [
  | none ↦ none
  | some kind ↦ some (inserted op exists kind)
]
after delete_node op exists (some n) = some (record n { is_tombstone = true })
after _ op exists o = o

changed-get :
    (m : Dict CrdtNode) (id : String) (node : CrdtNode) (k : String) (o : Option CrdtNode)
    → o ≡ some node
    → get (put m id node) k ≡ (if str_eq id k then o else get m k)
changed-get m id node k o e = get-put m id k node ∙ rw e

same-get :
    (m : Dict CrdtNode) (id k : String) (o : Option CrdtNode)
    → get m id ≡ o
    → get m k ≡ (if str_eq id k then o else get m k)
same-get m id k o e = elim (Bool-cases (str_eq id k)) [
  | inl same ↦ rw same (ap (get m) (sym ((eq_iff id k).0 same)) ∙ e)
  | inr other ↦ rw other
]

dispatch-get :
    (t : OpType) (crdt : AstTreeCrdt) (op : CrdtOperation) (k : String)
    → IsLocal t
    → get (replica (dispatch t crdt op)).node_map k ≡ (
        if str_eq op.node_id k
        then after t op (is_some (get crdt.node_map op.parent_id)) (get crdt.node_map op.node_id)
        else get crdt.node_map k)
unfolding dispatch apply_insert apply_delete
dispatch-get insert_node crdt op k local = elim (Option-cases (get crdt.node_map op.node_id)) [
  | inr (n, e) ↦ rw (e, apply_insert) (same-get crdt.node_map op.node_id k (some n) e)
  | inl e ↦
      let exists = is_some (get crdt.node_map op.parent_id) in
      let under = ap (λ m. get m k) (insert_under-node_map crdt op exists) in
      rw (e, apply_insert)
        (under ∙ (elim (Option-cases (node_kind (kind_str op))) [
          | inl f ↦ rw (f, after) (same-get crdt.node_map op.node_id k none e)
          | inr (kind, f) ↦
              rw (f, after) (get-put crdt.node_map op.node_id k (inserted op exists kind))
        ]))
]
dispatch-get delete_node crdt op k local = elim (Option-cases (get crdt.node_map op.node_id)) [
  | inl e ↦ rw (e, apply_delete) (same-get crdt.node_map op.node_id k none e)
  | inr (n, e) ↦
      rw (e, apply_delete) (get-put crdt.node_map op.node_id k (record n { is_tombstone = true }))
]
dispatch-get move_node crdt op k local = absurd local
dispatch-get update_attr crdt op k local = same-get crdt.node_map op.node_id k _ refl

-- The nodes after an operation.
abbrev pub nodes_after : AstTreeCrdt → CrdtOperation → Dict CrdtNode
nodes_after crdt op = (replica (apply_operation crdt op)).node_map

apply_operation-get :
    (crdt : AstTreeCrdt) (op : CrdtOperation) (k : String)
    → IsLocal op.op_type
    → get (nodes_after crdt op) k ≡ (
        if str_eq op.node_id k
        then after op.op_type op
            (is_some (get crdt.node_map op.parent_id))
            (get crdt.node_map op.node_id)
        else get crdt.node_map k)
unfolding apply_operation
apply_operation-get crdt op k local = dispatch-get op.op_type _ op k local

-- Two operations on different nodes, neither of which is the other's parent.
pub record Independent (op1 op2 : CrdtOperation) : Type 0 where
  pub local1 : IsLocal op1.op_type
  pub local2 : IsLocal op2.op_type
  pub apart : op1.node_id ≢ op2.node_id
  pub no_parent1 : op1.node_id ≢ op2.parent_id
  pub no_parent2 : op2.node_id ≢ op1.parent_id

apart_test : (a b : String) → a ≢ b → str_eq a b ≡ false
apart_test a b h = elim (Bool-cases (str_eq a b)) [
  | inl e ↦ absurd (h ((eq_iff a b).0 e))
  | inr e ↦ e
]

-- An operation leaves the other nodes alone.
apply_operation-others :
    (crdt : AstTreeCrdt) (op : CrdtOperation) (k : String)
    → IsLocal op.op_type
    → op.node_id ≢ k
    → get (nodes_after crdt op) k ≡ get crdt.node_map k
apply_operation-others crdt op k local h =
    rw (apart_test op.node_id k h) at (apply_operation-get crdt op k local)

-- After an independent operation the second does what it would have done without it.
second-get :
    (crdt : AstTreeCrdt) (op1 op2 : CrdtOperation) (k : String)
    → Independent op1 op2
    → get (nodes_after (replica (apply_operation crdt op1)) op2) k ≡ (
        if str_eq op2.node_id k
        then after op2.op_type op2
            (is_some (get crdt.node_map op2.parent_id))
            (get crdt.node_map op2.node_id)
        else get (nodes_after crdt op1) k)
second-get crdt op1 op2 k i =
    let own = apply_operation-others crdt op1 op2.node_id i.local1 i.apart in
    let parent = apply_operation-others crdt op1 op2.parent_id i.local1 i.no_parent1 in
    apply_operation-get (replica (apply_operation crdt op1)) op2 k i.local2 ∙ rw (own, parent)

-- Two insertions, deletions or updates that name different nodes, neither of them the parent that
-- the other names, give the same node under every identifier in either order.
pub Independent-commute :
    (crdt : AstTreeCrdt) (op1 op2 : CrdtOperation) (k : String)
    → Independent op1 op2
    → get (nodes_after (replica (apply_operation crdt op1)) op2) k
      ≡ get (nodes_after (replica (apply_operation crdt op2)) op1) k
Independent-commute crdt op1 op2 k i =
    let i' : Independent op2 op1 = record {
      local1 = i.local2;
      local2 = i.local1;
      apart = λ e. i.apart (sym e);
      no_parent1 = i.no_parent2;
      no_parent2 = i.no_parent1;
    } in
    second-get crdt op1 op2 k i
    ∙ (elim (Bool-cases (str_eq op1.node_id k)) [
      | inl e1 ↦ elim (Bool-cases (str_eq op2.node_id k)) [
        | inl e2 ↦ absurd (i.apart ((eq_iff _ _).0 e1 ∙ sym ((eq_iff _ _).0 e2)))
        | inr e2 ↦ rw (apply_operation-get crdt op1 k i.local1, e2, e1)
      ]
      | inr e1 ↦ elim (Bool-cases (str_eq op2.node_id k)) [
        | inl e2 ↦ rw (apply_operation-get crdt op2 k i.local2, e2, e1)
        | inr e2 ↦ rw (
          apply_operation-get crdt op1 k i.local1,
          apply_operation-get crdt op2 k i.local2,
          e2,
          e1,
        )
      ]
    ])
    ∙ sym (second-get crdt op2 op1 k i')

after-twice :
    (t : OpType) (op : CrdtOperation) (first second : Bool) (o : Option CrdtNode)
    → after t op second (after t op first o) ≡ after t op first o
after-twice insert_node op first second (some n) = refl
after-twice insert_node op first second none = elim (Option-cases (node_kind (kind_str op))) [
  | inl e ↦ rw (e, after) (rw (e, after))
  | inr (kind, e) ↦ rw (e, after)
]
after-twice delete_node op first second none = refl
after-twice delete_node op first second (some n) = refl
after-twice move_node op first second o = refl
after-twice update_attr op first second o = refl

-- An insertion, a deletion or an update that is applied twice leaves under every identifier the
-- node that it leaves when it is applied once.
pub local_idempotent :
    (crdt : AstTreeCrdt) (op : CrdtOperation) (k : String)
    → IsLocal op.op_type
    → get (nodes_after (replica (apply_operation crdt op)) op) k ≡ get (nodes_after crdt op) k
local_idempotent crdt op k local =
    let own =
      rw ((eq_iff op.node_id op.node_id).1 refl) at
        (apply_operation-get crdt op op.node_id local) in
    apply_operation-get (replica (apply_operation crdt op)) op k local
    ∙ (elim (Bool-cases (str_eq op.node_id k)) [
      | inl e ↦ rw (apply_operation-get crdt op k local, e, own) (after-twice op.op_type op _ _ _)
      | inr e ↦ rw e
    ])
