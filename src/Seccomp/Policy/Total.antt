-- ===== src/Seccomp/Policy/Total.antt =====
-- When `resolve` and `build_program` succeed, and what `resolve` reports when it does not.
use text.Mathlib.TextEquality.{eq_iff}
use vibes.Common.{
  ℕ, max, String, Option, none, some, List, [], ◌∷◌, ◌≡◌, ◌≢◌, refl, arith, All, Bool, true, false,
  ◌&&◌, ◌||◌, ◌∙◌, subst, Bool-cases, Option-cases, inl, inr,
}
use vibes.Common.Dict.{Dict, contains, get, put, str_eq, keys}
use vibes.Seccomp.Table.{syscalls, deny_groups, group_actions}
use vibes.Seccomp.Policy.{
  ok, unknown_groups, get_or_zero, deny_names, collect_group_actions, sorted_items, resolve, ◌>>=◌,
  missing_from, sorted_set, insert_name, unknown_among, with_numbers, refuse_unless_empty,
}
use vibes.Seccomp.Policy.Widening.{denial, get-collect_group_actions}

abbrev is_some {ℓ} : {A : Type ℓ} → Option A → Bool
is_some none = false
is_some (some a) = true

all_numbered : List String → Bool
all_numbered [] = true
all_numbered (x ∷ xs) = is_some (get syscalls x) && all_numbered xs

-- Every group of a table has an action, and every call of it a number.
covered : Dict (List String) → Bool
covered [] = true
covered ((g, names) ∷ d) = is_some (get group_actions g) && all_numbered names && covered d

covered-deny_groups : covered deny_groups ≡ true
unfolding covered all_numbered get deny_groups syscalls group_actions
covered-deny_groups = refl

covered-get :
    (d : Dict (List String)) (g : String) {names : List String}
    → covered d ≡ true
    → get d g ≡ some names
    → (is_some (get group_actions g) ≡ true) × (all_numbered names ≡ true)
unfolding covered get
covered-get [] g c e = absurd (ground arith)
covered-get ((j, ns) ∷ d) g {names} c e =
    ground (arith, eq_iff j g, covered-get d g {names = names})

all_numbered-contains :
    (names : List String) (k : String)
    → all_numbered names ≡ true
    → contains names k ≡ true
    → is_some (get syscalls k) ≡ true
unfolding all_numbered contains
all_numbered-contains [] k a c = cc
all_numbered-contains (x ∷ xs) k a c = ground (arith, eq_iff x k, all_numbered-contains xs k)

-- A name with an action has a number.
denial-numbered :
    (groups : List String) (k : String) {a : ℕ}
    → denial groups k ≡ some a
    → is_some (get syscalls k) ≡ true
denial-numbered [] k h = absurd (ground arith)
denial-numbered (g ∷ groups) k {a} h = elim (Option-cases (get deny_groups g)) [
  | inl e ↦ denial-numbered groups k {a = a} (ground arith)
  | inr (names, e) ↦
      let c = covered-get deny_groups g covered-deny_groups e in
      elim (Option-cases (denial groups k)) [
        | inl none_here ↦ all_numbered-contains names k c.1 (ground arith)
        | inr (b, here) ↦ denial-numbered groups k here
      ]
]

deny_names-total :
    (group : String) (names : List String) (actions : Dict ℕ)
    → is_some (get group_actions group) ≡ true
    → (actions' : Dict ℕ) × (deny_names group names actions ≡ ok actions')
unfolding deny_names
deny_names-total group [] actions h = (actions, refl)
deny_names-total group (name ∷ names) actions h = elim (Option-cases (get group_actions group)) [
  | inl e ↦ absurd (ground arith)
  | inr (w, e) ↦
      let next = put actions name (max (get_or_zero (get actions name)) w) in
      let (actions', done) = deny_names-total group names next h in (actions', ground arith)
]

abbrev pub IsKnown : String → Type 0
IsKnown g = get deny_groups g ≢ none

collect-total :
    (groups : List String) (actions : Dict ℕ)
    → All IsKnown groups
    → (actions' : Dict ℕ) × (collect_group_actions groups actions ≡ ok actions')
unfolding collect_group_actions
collect-total [] actions h = (actions, refl)
collect-total (g ∷ groups) actions h = elim (Option-cases (get deny_groups g)) [
  | inl e ↦ absurd (h.0 e)
  | inr (names, e) ↦
      let c = covered-get deny_groups g covered-deny_groups e in
      let (mid, hm) = deny_names-total g names actions c.0 in
      let (actions', done) = collect-total groups mid h.1 in (actions', ground arith)
]

missing_from-nil {ℓ} :
    {V : Type ℓ} (d : Dict V) (names : List String)
    → ((k : String) → contains names k ≡ true → get d k ≢ none)
    → missing_from d names ≡ []
unfolding missing_from contains
missing_from-nil d [] h = refl
missing_from-nil d (x ∷ xs) h = elim (Option-cases (get d x)) [
  | inl e ↦ absurd (h x (ground (arith, eq_iff x x)) e)
  | inr (v, e) ↦ ground (arith, missing_from-nil d xs (λ k c. h k (ground arith)))
]

contains-keys : (d : Dict ℕ) (k : String) → contains (keys d) k ≡ true → get d k ≢ none
unfolding contains get
contains-keys [] k h = cc
contains-keys ((j, w) ∷ d) k h = ground (arith, eq_iff j k, contains-keys d k)

denial-some :
    (groups : List String) (k : String) → denial groups k ≢ none → is_some (get syscalls k) ≡ true
denial-some groups k h = elim (Option-cases (denial groups k)) [
  | inl e ↦ absurd (h e)
  | inr (a, e) ↦ denial-numbered groups k e
]

All-contains :
    (P : String → Type 0) (xs : List String) (k : String) → All P xs → contains xs k ≡ true → P k
unfolding contains
All-contains P [] k h c = absurd (cc c)
All-contains P (x ∷ xs) k h c = elim (Bool-cases (str_eq x k)) [
  | inl same ↦ subst P ((eq_iff x k).0 same) h.0
  | inr other ↦ All-contains P xs k h.1 (ground arith)
]

pub with_action-numbered :
    (wanted : List String) (d : Dict ℕ)
    → ((k : String) → get d k ≡ denial wanted k)
    → (k : String) → contains (keys d) k ≡ true
    → get syscalls k ≢ none
with_action-numbered wanted d same k c =
    let here = contains-keys d k c in
    let n = denial-some wanted k (λ e. here (same k ∙ e)) in λ e. ground arith

-- On known groups `resolve` succeeds: every call that a group names has a number.
pub resolve-total :
    (wanted : List String) → All IsKnown wanted → (actions : Dict ℕ) × (resolve wanted ≡ ok actions)
unfolding resolve sorted_set
resolve-total wanted h =
    let known = missing_from-nil deny_groups wanted (λ k c. All-contains IsKnown wanted k h c) in
    let (found, hf) = collect-total wanted [] h in
    let numbers = missing_from-nil syscalls (keys found) (
      with_action-numbered wanted found
        (λ k. get-collect_group_actions wanted [] hf k ∙ unfold get in refl)) in
    (sorted_items found, ground arith)

contains-insert_name :
    (x : String) (ys : List String) (k : String)
    → contains (insert_name x ys) k ≡ (str_eq x k || contains ys k)
unfolding contains insert_name
contains-insert_name x [] k = refl
contains-insert_name x (y ∷ ys) k = ground (arith, contains-insert_name x ys k)

contains-sorted_set : (xs : List String) (k : String) → contains (sorted_set xs) k ≡ contains xs k
unfolding contains sorted_set
contains-sorted_set [] k = refl
contains-sorted_set (x ∷ xs) k = ground (
  arith,
  contains-sorted_set xs k,
  contains-sorted_set xs x,
  contains-insert_name x (sorted_set xs) k,
  eq_iff x k,
)

contains-missing_from :
    (d : Dict (List String)) (xs : List String) (k : String)
    → contains xs k ≡ true
    → get d k ≡ none
    → contains (missing_from d xs) k ≡ true
unfolding contains missing_from
contains-missing_from d [] k c e = absurd (cc c)
contains-missing_from d (x ∷ xs) k c e = ground (arith, contains-missing_from d xs k, eq_iff x k)

-- A wanted group that the table does not know makes `resolve` refuse, and the error names it.
pub resolve_unknown :
    (wanted : List String) (group : String)
    → contains wanted group ≡ true
    → get deny_groups group ≡ none
    → (names : List String) × (resolve wanted ≡ unknown_groups names)
      × (contains names group ≡ true)
unfolding resolve
resolve_unknown wanted group c e =
    let listed =
      contains-sorted_set (missing_from deny_groups wanted) group
      ∙ contains-missing_from deny_groups wanted group c e in
    (unknown_among wanted, refused (unknown_among wanted) listed, listed)
  where
    refused :
        (names : List String)
        → contains names group ≡ true
        → refuse_unless_empty unknown_groups names
            (collect_group_actions wanted [] >>= with_numbers)
          ≡ unknown_groups names
    refused [] h = absurd (unfold contains in cc h)
    refused (x ∷ xs) h = refl
