-- ===== src/Crdt/Nodes.antt =====
-- What operations do to the nodes that a replica has: none is lost, and no tombstone is taken back.
use vibes.Common.{
  String, Bool, true, false, ◌||◌, none, some, List, [], ◌∷◌, ◌≡◌, ◌⊎◌, ◌∙◌, refl, sym, ap, subst,
  inl, inr, Bool-cases, Option-cases,
}
use text.Mathlib.TextEquality.{eq_iff}
use vibes.Common.Dict.{Dict, get, put, str_eq, get-put}
use vibes.Crdt.{
  CrdtNode, CrdtOperation, AstTreeCrdt, Outcome, returned, value_error, replica, OpType,
  insert_node, delete_node, update_attr, move_node, kind_str, inserted, check_orphan, is_ancestor,
  node_kind, insert_under, apply_insert, apply_delete, apply_move, dispatch, apply_operation,
  replay,
}

-- A node after some operations: it is the same node, and a tombstone if it was one.
pub record Kept (n n' : CrdtNode) : Type 0 where
  pub node_id : n'.node_id ≡ n.node_id
  pub kind : n'.kind ≡ n.kind
  pub attrs : n'.attrs ≡ n.attrs
  pub tombstone : (n.is_tombstone ≡ false) ⊎ (n'.is_tombstone ≡ true)

-- A mark that does not change is not taken back.
still : {b : Bool} → (b ≡ true) ⊎ (b ≡ false) → (b ≡ false) ⊎ (b ≡ true)
still (inl e) = inr e
still (inr e) = inl e

Kept-refl : (n : CrdtNode) → Kept n n
Kept-refl n = record {
  node_id = refl;
  kind = refl;
  attrs = refl;
  tombstone = still (Bool-cases n.is_tombstone);
}

-- Every node of a map is kept in another.
abbrev pub Survives : Dict CrdtNode → Dict CrdtNode → Type 0
Survives m m' =
    (k : String) (n : CrdtNode)
    → get m k ≡ some n
    → (n' : CrdtNode) × (get m' k ≡ some n') × Kept n n'

Survives-refl : (m : Dict CrdtNode) → Survives m m
Survives-refl m k n e = (n, e, Kept-refl n)

either :
    (a b c : Bool) → (a ≡ false) ⊎ (b ≡ true) → (b ≡ false) ⊎ (c ≡ true) → (a ≡ false) ⊎ (c ≡ true)
either a b c (inl e) q = inl e
either a b c (inr e) (inl f) = absurd (cc (e, f))
either a b c (inr e) (inr f) = inr f

Survives-trans : (a b c : Dict CrdtNode) → Survives a b → Survives b c → Survives a c
Survives-trans a b c p q k n e =
    let (n1, e1, k1) = p k n e in
    let (n2, e2, k2) = q k n1 e1 in
    (
      n2,
      e2,
      record {
        node_id = k2.node_id ∙ k1.node_id;
        kind = k2.kind ∙ k1.kind;
        attrs = k2.attrs ∙ k1.attrs;
        tombstone = either n.is_tombstone n1.is_tombstone n2.is_tombstone k1.tombstone k2.tombstone;
      },
    )

put_new-Survives :
    (m : Dict CrdtNode) (id : String) (node : CrdtNode)
    → get m id ≡ none
    → Survives m (put m id node)
put_new-Survives m id node absent k n e = elim (Bool-cases (str_eq id k)) [
  | inl same ↦ absurd (let at : id ≡ k = (eq_iff id k).0 same in cc (absent, e, ap (get m) at))
  | inr other ↦ (n, get-put m id k node ∙ rw other e, Kept-refl n)
]

put_changed-Survives :
    (m : Dict CrdtNode) (id : String) (old node : CrdtNode)
    → get m id ≡ some old
    → Kept old node
    → Survives m (put m id node)
put_changed-Survives m id old node present kept k n e = elim (Bool-cases (str_eq id k)) [
  | inl same ↦
      let at : id ≡ k = (eq_iff id k).0 same in
      let whole : n ≡ old = cc (present, e, ap (get m) at) in
      (node, get-put m id k node ∙ rw same, rw whole kept)
  | inr other ↦ (n, get-put m id k node ∙ rw other e, Kept-refl n)
]

pub check_orphan-node_map :
    (crdt : AstTreeCrdt) (parent_id : String) (exists : Bool)
    → (check_orphan crdt parent_id exists).node_map ≡ crdt.node_map
unfolding check_orphan
check_orphan-node_map crdt parent_id exists =
    elim (Bool-cases (exists || str_eq parent_id "root")) [ inl e ↦ rw e | inr e ↦ rw e ]

-- The nodes after an insertion of a node that is not there yet.
pub insert_under-node_map :
    (crdt : AstTreeCrdt) (op : CrdtOperation) (exists : Bool)
    → (replica (insert_under crdt op exists)).node_map
      ≡ elim (node_kind (kind_str op)) as (λ k. Dict CrdtNode) [
        | none ↦ crdt.node_map
        | some kind ↦ put crdt.node_map op.node_id (inserted op exists kind)
      ]
unfolding insert_under
insert_under-node_map crdt op exists =
    let same = check_orphan-node_map crdt op.parent_id exists in
    elim (Option-cases (node_kind (kind_str op))) [
      | inl e ↦ rw (e, insert_under) same
      | inr (kind, e) ↦
          rw (e, insert_under) (ap (λ m. put m op.node_id (inserted op exists kind)) same)
    ]

insert_under-Survives :
    (crdt : AstTreeCrdt) (op : CrdtOperation) (exists : Bool)
    → get crdt.node_map op.node_id ≡ none
    → Survives crdt.node_map (replica (insert_under crdt op exists)).node_map
insert_under-Survives crdt op exists absent =
    subst (Survives crdt.node_map) (sym (insert_under-node_map crdt op exists))
      (elim (Option-cases (node_kind (kind_str op))) [
        | inl e ↦ rw e (Survives-refl crdt.node_map)
        | inr (kind, e) ↦
            rw e (put_new-Survives crdt.node_map op.node_id (inserted op exists kind) absent)
      ])

apply_insert-Survives :
    (crdt : AstTreeCrdt) (op : CrdtOperation)
    → Survives crdt.node_map (replica (apply_insert crdt op)).node_map
unfolding apply_insert
apply_insert-Survives crdt op = elim (Option-cases (get crdt.node_map op.node_id)) [
  | inr (n, e) ↦ rw (e, apply_insert) (Survives-refl crdt.node_map)
  | inl e ↦ rw (e, apply_insert) (insert_under-Survives crdt op _ e)
]

apply_delete-Survives :
    (crdt : AstTreeCrdt) (op : CrdtOperation)
    → Survives crdt.node_map (replica (apply_delete crdt op)).node_map
unfolding apply_delete
apply_delete-Survives crdt op = elim (Option-cases (get crdt.node_map op.node_id)) [
  | inl e ↦ rw (e, apply_delete) (Survives-refl crdt.node_map)
  | inr (n, e) ↦
      rw (e, apply_delete)
        (put_changed-Survives crdt.node_map op.node_id n _ e
          (record { node_id = refl; kind = refl; attrs = refl; tombstone = inr refl }))
]

apply_move-Survives :
    (crdt : AstTreeCrdt) (op : CrdtOperation)
    → Survives crdt.node_map (replica (apply_move crdt op)).node_map
unfolding apply_move
apply_move-Survives crdt op = elim (Option-cases (get crdt.node_map op.node_id)) [
  | inl e ↦ rw (e, apply_move) (Survives-refl crdt.node_map)
  | inr (n, e) ↦ elim (Bool-cases (is_ancestor crdt.node_map op.node_id op.parent_id)) [
    | inl f ↦ rw (e, f, apply_move) (Survives-refl crdt.node_map)
    | inr f ↦
        rw (e, f, apply_move)
          (put_changed-Survives crdt.node_map op.node_id n _ e (record {
            node_id = refl;
            kind = refl;
            attrs = refl;
            tombstone = still (Bool-cases n.is_tombstone);
          }))
  ]
]

dispatch-Survives :
    (t : OpType) (crdt : AstTreeCrdt) (op : CrdtOperation)
    → Survives crdt.node_map (replica (dispatch t crdt op)).node_map
unfolding dispatch
dispatch-Survives insert_node crdt op = apply_insert-Survives crdt op
dispatch-Survives delete_node crdt op = apply_delete-Survives crdt op
dispatch-Survives move_node crdt op = apply_move-Survives crdt op
dispatch-Survives update_attr crdt op = Survives-refl crdt.node_map

pub apply_operation-Survives :
    (crdt : AstTreeCrdt) (op : CrdtOperation)
    → Survives crdt.node_map (replica (apply_operation crdt op)).node_map
unfolding apply_operation
apply_operation-Survives crdt op = dispatch-Survives op.op_type _ op

pub Outcome-cases :
    (o : Outcome)
    → ((crdt : AstTreeCrdt) × (o ≡ returned crdt)) ⊎ ((crdt : AstTreeCrdt) × (o ≡ value_error crdt))
Outcome-cases (returned crdt) = inl (crdt, refl)
Outcome-cases (value_error crdt) = inr (crdt, refl)

-- Whatever operations are replayed, each node of the replica is still there.
pub replay-Survives :
    (crdt : AstTreeCrdt) (ops : List CrdtOperation)
    → Survives crdt.node_map (replica (replay crdt ops)).node_map
unfolding replay
replay-Survives crdt [] = Survives-refl crdt.node_map
replay-Survives crdt (op ∷ ops) =
    let first = apply_operation-Survives crdt op in
    elim (Outcome-cases (apply_operation crdt op)) [
      | inl (crdt', e) ↦
          let kept = subst (λ o. Survives crdt.node_map (replica o).node_map) e first in
          rw (e, replay)
            (Survives-trans crdt.node_map crdt'.node_map _ kept (replay-Survives crdt' ops))
      | inr (crdt', e) ↦
          rw (e, replay) (subst (λ o. Survives crdt.node_map (replica o).node_map) e first)
    ]

-- Whatever operations are replayed, a node that the replica has is still there afterwards, with
-- its identifier, its kind and its attributes, and if it was a tombstone it still is one.
pub replay_keeps_nodes :
    (crdt : AstTreeCrdt) (ops : List CrdtOperation) (k : String) (n : CrdtNode)
    → get crdt.node_map k ≡ some n
    → (n' : CrdtNode) × (get (replica (replay crdt ops)).node_map k ≡ some n') × Kept n n'
replay_keeps_nodes crdt ops k n e = replay-Survives crdt ops k n e
