-- ===== src/Seccomp/Policy.antt =====
-- `_collect_group_actions` and `resolve` of examples/ephemeral-container-sandbox/syscall_filter.py.
pub mod Widening
pub mod Strictness
pub mod Total
use Prim.Native.String.{compare}
use text.Mathlib.Text.{is_le}
use vibes.Common.{ℕ, max, String, Option, none, some, List, [], ◌∷◌, ◌≡◌, refl, if◌then◌else◌}
use vibes.Common.Dict.{Dict, contains, get, put, keys}
use vibes.Seccomp.Table.{syscalls, deny_groups, group_actions}

-- `SeccompUnavailable` with the names that it lists, and the `KeyError` of a lookup.
pub data Resolved {ℓ} (A : Type ℓ) : Type ℓ where
  ok : A → Resolved A
  unknown_groups : List String → Resolved A
  no_number : List String → Resolved A
  key_error : String → Resolved A

infixl 5 ◌>>=◌
abbrev pub ◌>>=◌ {ℓ κ} : {A : Type ℓ} {B : Type κ} → Resolved A → (A → Resolved B) → Resolved B
ok a >>= f = f a
unknown_groups names >>= f = unknown_groups names
no_number names >>= f = no_number names
key_error name >>= f = key_error name

-- Inversion of a chain that succeeded.
pub >>=-eq-ok {ℓ κ} :
    {A : Type ℓ} {B : Type κ} (first : Resolved A) (next : A → Resolved B) {end : B}
    → (first >>= next) ≡ ok end
    → (a : A) × (first ≡ ok a) × (next a ≡ ok end)
>>=-eq-ok (ok a) next e = (a, refl, e)
>>=-eq-ok (unknown_groups names) next e = cc
>>=-eq-ok (no_number names) next e = cc
>>=-eq-ok (key_error name) next e = cc

-- `d[k]`
abbrev pub subscript {ℓ} : {V : Type ℓ} → Dict V → String → Resolved V
subscript d k = elim (get d k) [ none ↦ key_error k | some v ↦ ok v ]

-- `actions.get(name, 0)`
abbrev pub get_or_zero : Option ℕ → ℕ
get_or_zero none = 0
get_or_zero (some a) = a

-- The inner loop of `_collect_group_actions`.
deny_names : String → List String → Dict ℕ → Resolved (Dict ℕ)
deny_names group [] actions = ok actions
deny_names group (name ∷ names) actions = do
  action ← subscript group_actions group
  deny_names group names (put actions name (max (get_or_zero (get actions name)) action))

-- The outer loop.
pub collect_group_actions : List String → Dict ℕ → Resolved (Dict ℕ)
unfolding deny_names
collect_group_actions [] actions = ok actions
collect_group_actions (group ∷ groups) actions = do
  names ← subscript deny_groups group
  actions' ← deny_names group names actions
  collect_group_actions groups actions'

-- `sorted` of a set of names: in order, each once.
insert_name : String → List String → List String
insert_name x [] = x ∷ []
insert_name x (y ∷ ys) = if is_le (compare x y) then x ∷ y ∷ ys else y ∷ insert_name x ys

sorted_set : List String → List String
sorted_set [] = []
sorted_set (x ∷ xs) =
    let rest = sorted_set xs in if contains rest x then rest else insert_name x rest

-- The names that a dictionary lacks.
missing_from {ℓ} : {V : Type ℓ} → Dict V → List String → List String
missing_from d [] = []
missing_from d (x ∷ xs) =
    let rest = missing_from d xs in elim (get d x) [ none ↦ x ∷ rest | some _ ↦ rest ]

-- `dict(sorted(actions.items()))`: the keys of a dictionary differ, so they alone decide.
insert_item : String → ℕ → Dict ℕ → Dict ℕ
insert_item k v [] = (k, v) ∷ []
insert_item k v ((j, w) ∷ d) =
    if is_le (compare k j) then (k, v) ∷ (j, w) ∷ d else (j, w) ∷ insert_item k v d

pub sorted_items : Dict ℕ → Dict ℕ
unfolding insert_item
sorted_items [] = []
sorted_items ((k, v) ∷ d) = insert_item k v (sorted_items d)

abbrev refuse_unless_empty {ℓ} :
    {A : Type ℓ} → (List String → Resolved A) → List String → Resolved A → Resolved A
refuse_unless_empty error [] next = next
refuse_unless_empty error (x ∷ xs) next = error (x ∷ xs)

abbrev unknown_among : List String → List String
unknown_among wanted = sorted_set (missing_from deny_groups wanted)

abbrev unnumbered_among : Dict ℕ → List String
unnumbered_among actions = sorted_set (missing_from syscalls (keys actions))

-- The end of `resolve`, once the actions are collected.
abbrev with_numbers : Dict ℕ → Resolved (Dict ℕ)
with_numbers actions =
    refuse_unless_empty no_number (unnumbered_among actions) (ok (sorted_items actions))

unfoldable pub resolve : List String → Resolved (Dict ℕ)
unfolding collect_group_actions sorted_items sorted_set insert_name missing_from
resolve wanted =
    refuse_unless_empty unknown_groups (unknown_among wanted)
      (do actions ← collect_group_actions wanted []; with_numbers actions)
