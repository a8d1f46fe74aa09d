-- ===== src/Crdt.antt =====
-- examples/ast-crdt-collaborative-editor/ast_crdt.py: a replica of the tree and its operations. A
-- function that changes the replica returns the new one. Identifiers and attributes are strings.
pub mod Nodes
pub mod Commute
pub mod Clock
use vibes.Common.{
  ℕ, zero, suc, ◌+◌, max, String, Bool, true, false, ◌||◌, not, Option, none, some, List, [], ◌∷◌,
  ◌++◌, length, if◌then◌else◌,
}
use vibes.Common.Dict.{Dict, get, put, contains, str_eq}
use Prim.Native.String.{◌++◌ as ◌<>◌}

pub data NodeKind : Type 0 where
  root module_kind import_kind function class_kind decorator statement : NodeKind

pub data OpType : Type 0 where
  insert_node delete_node update_attr move_node : OpType

pub data DiagnosticRule : Type 0 where
  crdt001 crdt002 crdt003 crdt004 crdt005 : DiagnosticRule

-- `NodeKind(kind_str)`, with `none` for its `ValueError`
unfoldable pub node_kind : String → Option NodeKind
node_kind s =
    if str_eq s "ROOT"
    then some root
    else if str_eq s "MODULE"
    then some module_kind
    else if str_eq s "IMPORT"
    then some import_kind
    else if str_eq s "FUNCTION"
    then some function
    else if str_eq s "CLASS"
    then some class_kind
    else if str_eq s "DECORATOR"
    then some decorator
    else if str_eq s "STATEMENT"
    then some statement
    else none

-- `CRDTNode`
pub record CrdtNode : Type 0 where
  pub node_id : String
  pub kind : NodeKind
  pub parent_id : String
  pub pos : String
  pub attrs : Dict String
  pub is_tombstone : Bool

-- `CRDTOperation`
pub record CrdtOperation : Type 0 where
  pub op_type : OpType
  pub node_id : String
  pub parent_id : String
  pub pos : String
  pub attrs : Dict String
  pub lamport : ℕ
  pub agent_id : String

pub record Finding : Type 0 where
  pub rule : DiagnosticRule
  pub message : String
  pub target : String
  pub severity : String

-- `ASTTreeCRDT`
pub record AstTreeCrdt : Type 0 where
  pub agent_id : String
  pub clock : ℕ
  pub counter : ℕ
  pub node_map : Dict CrdtNode
  pub op_log : List CrdtOperation
  pub findings : List Finding

-- `ASTTreeCRDT(agent_id=agent_id)`
abbrev pub new_replica : String → AstTreeCrdt
new_replica agent_id = record {
  agent_id = agent_id;
  clock = 0;
  counter = 0;
  node_map =
      (
        "root",
        record {
          node_id = "root";
          kind = root;
          parent_id = "";
          pos = "0.0";
          attrs = [];
          is_tombstone = false;
        },
      )
      ∷ [];
  op_log = [];
  findings = [];
}

abbrev pub is_some {ℓ} : {A : Type ℓ} → Option A → Bool
is_some none = false
is_some (some a) = true

-- `_next_parent`
unfoldable pub next_parent : Dict CrdtNode → String → String
next_parent node_map curr = elim (get node_map curr) [ none ↦ "" | some node ↦ node.parent_id ]

-- The loop of `is_ancestor`, over the steps that are left.
unfoldable pub climb : ℕ → Dict CrdtNode → String → String → String
unfolding next_parent
climb zero node_map ancestor_id curr = curr
climb (suc n) node_map ancestor_id curr = elim (str_eq curr "" || str_eq curr ancestor_id) [
  | true ↦ curr
  | false ↦ climb n node_map ancestor_id (next_parent node_map curr)
]

unfoldable pub is_ancestor : Dict CrdtNode → String → String → Bool
unfolding climb
is_ancestor node_map ancestor_id target_id =
    str_eq (climb (length node_map + 2) node_map ancestor_id target_id) ancestor_id

-- A call returns, or `NodeKind(...)` raises in it; either way the replica is what it left.
pub data Outcome : Type 0 where
  returned value_error : AstTreeCrdt → Outcome

abbrev pub replica : Outcome → AstTreeCrdt
replica (returned crdt) = crdt
replica (value_error crdt) = crdt

abbrev pub add_finding : AstTreeCrdt → DiagnosticRule → String → String → AstTreeCrdt
add_finding crdt rule message target = record crdt {
  findings =
      crdt.findings
      ++ record { rule = rule; message = message; target = target; severity = "warning" } ∷ [];
}

-- `_check_orphan`
unfoldable pub check_orphan : AstTreeCrdt → String → Bool → AstTreeCrdt
check_orphan crdt parent_id exists =
    if exists || str_eq parent_id "root"
    then crdt
    else add_finding crdt crdt002
        ("Orphan node hazard: parent '" <> (parent_id <> "' absent, attached to root")) parent_id

-- `op.attrs.get("kind", NodeKind.STATEMENT)`
abbrev pub kind_str : CrdtOperation → String
kind_str op = elim (get op.attrs "kind") [ none ↦ "STATEMENT" | some k ↦ k ]

-- The node that `_apply_insert` makes.
abbrev pub inserted : CrdtOperation → Bool → NodeKind → CrdtNode
inserted op exists kind = record {
  node_id = op.node_id;
  kind = kind;
  parent_id = if exists then op.parent_id else "root";
  pos = op.pos;
  attrs = op.attrs;
  is_tombstone = false;
}

-- The end of `_apply_insert`, from whether it finds the parent.
unfoldable pub insert_under : AstTreeCrdt → CrdtOperation → Bool → Outcome
unfolding node_kind check_orphan
insert_under crdt op exists =
    let crdt = check_orphan crdt op.parent_id exists in
    elim (node_kind (kind_str op)) [
      | none ↦ value_error crdt
      | some kind ↦
          returned
            (record crdt { node_map = put crdt.node_map op.node_id (inserted op exists kind) })
    ]

-- `_apply_insert`
unfoldable pub apply_insert : AstTreeCrdt → CrdtOperation → Outcome
unfolding insert_under
apply_insert crdt op = elim (get crdt.node_map op.node_id) [
  | some existing ↦ returned crdt
  | none ↦ insert_under crdt op (is_some (get crdt.node_map op.parent_id))
]

-- `_apply_delete`
unfoldable pub apply_delete : AstTreeCrdt → CrdtOperation → Outcome
apply_delete crdt op = elim (get crdt.node_map op.node_id) [
  | none ↦ returned crdt
  | some node ↦ returned (record crdt {
    node_map = put crdt.node_map op.node_id (record node { is_tombstone = true });
  })
]

-- `_apply_move`
unfoldable pub apply_move : AstTreeCrdt → CrdtOperation → Outcome
unfolding is_ancestor
apply_move crdt op = elim (get crdt.node_map op.node_id) [
  | none ↦ returned crdt
  | some node ↦ elim (is_ancestor crdt.node_map op.node_id op.parent_id) [
    | true ↦ returned (
        add_finding crdt crdt001
          ("Cycle induction prevented: '"
            <> (op.node_id <> ("' is ancestor of '" <> (op.parent_id <> "'"))))
          op.node_id)
    | false ↦ returned (record crdt {
      node_map =
          put crdt.node_map op.node_id (record node { parent_id = op.parent_id; pos = op.pos });
    })
  ]
]

-- `_OP_DISPATCH`: an update of attributes has no handler.
unfoldable pub dispatch : OpType → AstTreeCrdt → CrdtOperation → Outcome
unfolding apply_insert apply_delete apply_move
dispatch insert_node crdt op = apply_insert crdt op
dispatch delete_node crdt op = apply_delete crdt op
dispatch move_node crdt op = apply_move crdt op
dispatch update_attr crdt op = returned crdt

unfoldable pub apply_operation : AstTreeCrdt → CrdtOperation → Outcome
unfolding dispatch
apply_operation crdt op =
    dispatch op.op_type
      (record crdt { clock = max crdt.clock op.lamport + 1; op_log = crdt.op_log ++ op ∷ [] }) op

-- `for op in log: apply_operation(peer, op)`
unfoldable pub replay : AstTreeCrdt → List CrdtOperation → Outcome
unfolding apply_operation
replay crdt [] = returned crdt
replay crdt (op ∷ ops) = elim (apply_operation crdt op) [
  | returned crdt' ↦ replay crdt' ops
  | value_error crdt' ↦ value_error crdt'
]

-- `sync_peers`: both peers, and whether a replay raised.
unfoldable pub sync_peers : AstTreeCrdt → AstTreeCrdt → AstTreeCrdt × AstTreeCrdt × Bool
unfolding replay
sync_peers peer_a peer_b = elim (replay peer_b peer_a.op_log) [
  | value_error peer_b' ↦ (peer_a, peer_b', true)
  | returned peer_b' ↦ elim (replay peer_a peer_b.op_log) [
    | value_error peer_a' ↦ (peer_a', peer_b', true)
    | returned peer_a' ↦ (peer_a', peer_b', false)
  ]
]
