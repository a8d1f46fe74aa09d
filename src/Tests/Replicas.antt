-- ===== src/Tests/Replicas.antt =====
-- Two replicas of a small tree.
use vibes.Common.{String, false, some, [], ◌∷◌, ◌++◌, ◌≡◌, ◌≢◌, refl, arith}
use vibes.Common.Dict.{get, str_eq}
use text.Mathlib.TextEquality.{eq_iff}
use vibes.Crdt.{
  AstTreeCrdt, CrdtOperation, CrdtNode, insert_node, delete_node, root, class_kind, function,
  replica, new_replica, node_kind, apply_operation, replay, sync_peers,
}
use vibes.Crdt.Nodes.{Kept, replay_keeps_nodes}
use vibes.Crdt.Clock.{Ahead, sync_peers-Ahead}
use vibes.Crdt.Commute.{Independent, nodes_after, Independent-commute, local_idempotent}

abbrev insertion : String → String → String → CrdtOperation
insertion id parent_id kind = record {
  op_type = insert_node;
  node_id = id;
  parent_id = parent_id;
  pos = "1.0";
  attrs = ("kind", kind) ∷ ("name", id) ∷ [];
  lamport = 1;
  agent_id = "a";
}

abbrev deletion : String → CrdtOperation
deletion id = record (insertion id "" "") { op_type = delete_node; attrs = []; lamport = 4 }

-- A replica with a class in it, and one with a function.
abbrev with_class : AstTreeCrdt
with_class = replica (apply_operation (new_replica "a") (insertion "a:1:1" "root" "CLASS"))

abbrev with_function : AstTreeCrdt
with_function = replica (apply_operation (new_replica "b") (insertion "b:1:1" "root" "FUNCTION"))

sync_peers-Ahead_example :
    (a b : AstTreeCrdt) × (sync_peers with_class with_function ≡ (a, b, false))
    × Ahead a
    × Ahead b
    × (a.op_log ≡ with_class.op_log ++ with_function.op_log)
    × (b.op_log ≡ with_function.op_log ++ with_class.op_log)
unfolding apply_operation get node_kind
sync_peers-Ahead_example =
    sync_peers-Ahead with_class with_function (omega arith, tt) (omega arith, tt)
      ((class_kind, refl), tt) ((function, refl), tt)

differ : (a b : String) → str_eq a b ≡ false → a ≢ b
differ a b h e = absurd (cc (h, (eq_iff a b).1 e))

class_and_function :
    Independent (insertion "a:1:1" "root" "CLASS") (insertion "b:1:1" "root" "FUNCTION")
class_and_function = record {
  local1 = tt;
  local2 = tt;
  apart = differ "a:1:1" "b:1:1" refl;
  no_parent1 = differ "a:1:1" "root" refl;
  no_parent2 = differ "b:1:1" "root" refl;
}

Independent-commute_example :
    get
      (nodes_after
        (replica (apply_operation (new_replica "a") (insertion "a:1:1" "root" "CLASS")))
        (insertion "b:1:1" "root" "FUNCTION"))
      "b:1:1"
    ≡ get
        (nodes_after
          (replica (apply_operation (new_replica "a") (insertion "b:1:1" "root" "FUNCTION")))
          (insertion "a:1:1" "root" "CLASS"))
        "b:1:1"
Independent-commute_example =
    Independent-commute (new_replica "a") (insertion "a:1:1" "root" "CLASS")
      (insertion "b:1:1" "root" "FUNCTION") "b:1:1" class_and_function

local_idempotent_example :
    get
      (nodes_after (replica (apply_operation with_class (deletion "a:1:1"))) (deletion "a:1:1"))
      "a:1:1"
    ≡ get (nodes_after with_class (deletion "a:1:1")) "a:1:1"
local_idempotent_example = local_idempotent with_class (deletion "a:1:1") "a:1:1" tt

replay_keeps_nodes_example :
    (n' : CrdtNode) × (get
        (replica (
          replay
            (new_replica "a")
            (insertion "a:1:1" "root" "CLASS" ∷ deletion "a:1:1" ∷ []))).node_map
        "root"
      ≡ some n')
    × Kept
        (record {
          node_id = "root";
          kind = root;
          parent_id = "";
          pos = "0.0";
          attrs = [];
          is_tombstone = false;
        })
        n'
unfolding get
replay_keeps_nodes_example =
    replay_keeps_nodes (new_replica "a") (insertion "a:1:1" "root" "CLASS" ∷ deletion "a:1:1" ∷ [])
      "root" _ refl
