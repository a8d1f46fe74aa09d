-- ===== src/Seccomp/Policy/Widening.antt =====
-- What `resolve` computes: for each call the strongest action of the groups that name it.
use text.Mathlib.Text.{is_le}
use text.Mathlib.TextEquality.{eq_iff}
use text.Mathlib.TextPositions.{compare_refl}
use Prim.Native.String.{compare}
use vibes.Common.{
  ℕ, max, String, Option, none, some, List, [], ◌∷◌, ◌≡◌, ◌≢◌, refl, arith, true, if◌then◌else◌,
  Bool-cases, inl, inr,
}
use vibes.Common.Dict.{Dict, contains, get, put, get-put, str_eq}
use vibes.Seccomp.Table.{deny_groups, group_actions}
use vibes.Seccomp.Policy.{
  Resolved, ok, unknown_groups, subscript, get_or_zero, deny_names, collect_group_actions,
  insert_item, sorted_items, resolve, >>=-eq-ok, refuse_unless_empty, no_number, unknown_among,
  unnumbered_among, with_numbers,
}

abbrev pub strongest : Option ℕ → Option ℕ → Option ℕ
strongest none o = o
strongest (some a) none = some a
strongest (some a) (some b) = some (max a b)

abbrev pub group_denial : String → String → Option ℕ
group_denial group name = elim (get deny_groups group) [
  | none ↦ none
  | some names ↦ if contains names name then get group_actions group else none
]

-- The strongest action that a list of groups asks for, by recursion on the list.
abbrev pub denial : List String → String → Option ℕ
denial [] name = none
denial (group ∷ groups) name = strongest (group_denial group name) (denial groups name)

get-insert_item :
    (k : String) (v : ℕ) (d : Dict ℕ) (j : String)
    → get (insert_item k v d) j ≡ (if str_eq k j then some v else get d j)
unfolding get insert_item
get-insert_item k v [] j = refl
get-insert_item k v ((i, w) ∷ d) j = elim (Bool-cases (is_le (compare k i))) [
  | inl before ↦ rw before
  | inr after ↦ rw after (ground (arith, get-insert_item k v d j, eq_iff k j, eq_iff i j, not_same))
]
  where
    not_same : (k ≡ i) → is_le (compare k i) ≡ true
    not_same e = rw e (rw compare_refl)

get-sorted_items : (d : Dict ℕ) (j : String) → get (sorted_items d) j ≡ get d j
unfolding get sorted_items
get-sorted_items [] j = refl
get-sorted_items ((k, v) ∷ d) j =
    ground (arith, get-insert_item k v (sorted_items d) j, get-sorted_items d j)

get-deny_names :
    (group : String) (names : List String) (actions : Dict ℕ) {actions' : Dict ℕ}
    → deny_names group names actions ≡ ok actions'
    → (k : String)
    → get actions' k
      ≡ strongest (get actions k) (if contains names k then get group_actions group else none)
unfolding deny_names contains
get-deny_names group [] actions h k = ground arith
get-deny_names group (name ∷ names) actions {actions'} h k =
    let (w, hw, h') = >>=-eq-ok (subscript group_actions group) _ h in
    let weight = max (get_or_zero (get actions name)) w in
    let step = get-put actions name k weight in
    ground (arith, step, eq_iff name k, get-deny_names group names (put actions name weight) h' k)

strongest_assoc : (a b c : Option ℕ) → strongest (strongest a b) c ≡ strongest a (strongest b c)
strongest_assoc a b c = ground arith

pub get-collect_group_actions :
    (groups : List String) (actions : Dict ℕ) {actions' : Dict ℕ}
    → collect_group_actions groups actions ≡ ok actions'
    → (k : String) → get actions' k ≡ strongest (get actions k) (denial groups k)
unfolding collect_group_actions
get-collect_group_actions [] actions h k = ground arith
get-collect_group_actions (group ∷ groups) actions h k =
    let (names, hn, h1) = >>=-eq-ok (subscript deny_groups group) _ h in
    let (mid, hm, h2) = >>=-eq-ok (deny_names group names actions) _ h1 in
    ground (
      arith,
      get-deny_names group names actions hm k,
      get-collect_group_actions groups mid h2 k,
      strongest_assoc (get actions k) (group_denial group k) (denial groups k),
    )

refuse_unless_empty-eq-ok :
    (error : List String → Resolved (Dict ℕ)) (names : List String) (next : Resolved (Dict ℕ))
    {actions : Dict ℕ}
    → ((xs : List String) → error xs ≢ ok actions)
    → refuse_unless_empty error names next ≡ ok actions
    → next ≡ ok actions
refuse_unless_empty-eq-ok error [] next never h = h
refuse_unless_empty-eq-ok error (x ∷ xs) next never h = absurd (never (x ∷ xs) h)

-- When `resolve` succeeds, every name gets exactly the strongest action among the wanted groups
-- that hold it, and a name that none of them holds gets none.
pub resolve_lem :
    (wanted : List String) {actions : Dict ℕ}
    → resolve wanted ≡ ok actions
    → (name : String) → get actions name ≡ denial wanted name
unfolding resolve get
resolve_lem wanted h name =
    let h1 = refuse_unless_empty-eq-ok unknown_groups (unknown_among wanted) _ (λ xs. cc) h in
    let (found, hf, h2) = >>=-eq-ok (collect_group_actions wanted []) with_numbers h1 in
    let h3 =
      refuse_unless_empty-eq-ok no_number (unnumbered_among found) (ok (sorted_items found))
        (λ xs. cc) h2 in
    ground (arith, h3, get-sorted_items found name, get-collect_group_actions wanted [] hf name)
