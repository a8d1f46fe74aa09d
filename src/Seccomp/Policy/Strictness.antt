-- ===== src/Seccomp/Policy/Strictness.antt =====
-- The actions of examples/ephemeral-container-sandbox/syscall_filter.py in the order in which the
-- kernel takes them for strict.
use text.Mathlib.TextEquality.{eq_iff}
use vibes.Common.{
  ℕ, ◌≤◌, String, Option, none, some, List, [], ◌∷◌, ◌≡◌, refl, arith, All, true, if◌then◌else◌,
  Bool-cases, inl, inr, ◌⊎◌, Bool, ◌||◌, ◌==◌, ==_iff, false,
}
use vibes.Common.Dict.{Dict, contains, get, str_eq}
use vibes.Seccomp.Table.{deny_groups, group_actions, seccomp_ret_kill_process, deny_eperm}
use vibes.Seccomp.Kernel.{IsAsStrict}
use vibes.Seccomp.Numbers.{every, every-get}
use vibes.Seccomp.Policy.{ok, resolve}
use vibes.Seccomp.Policy.Widening.{strongest, group_denial, denial, resolve_lem}

-- The order of `max` on actions, with none as the least.
abbrev pub NoStronger : Option ℕ → Option ℕ → Type 0
NoStronger none o = Unit
NoStronger (some a) none = ⊥
NoStronger (some a) (some b) = a ≤ b

strongest-NoStronger :
    (a b c : Option ℕ) → NoStronger a c → NoStronger b c → NoStronger (strongest a b) c
strongest-NoStronger a b c p q = ground arith

NoStronger-strongest_left : (a b : Option ℕ) → NoStronger a (strongest a b)
NoStronger-strongest_left a b = ground arith

NoStronger-strongest_right : (a b c : Option ℕ) → NoStronger a c → NoStronger a (strongest b c)
NoStronger-strongest_right a b c h = ground arith

pub group_denial-NoStronger :
    (groups : List String) (group name : String)
    → contains groups group ≡ true
    → NoStronger (group_denial group name) (denial groups name)
unfolding contains
group_denial-NoStronger [] group name h = absurd (cc h)
group_denial-NoStronger (g ∷ groups) group name h = elim (Bool-cases (str_eq g group)) [
  | inl same ↦
      rw (← ((eq_iff g group).0 same))
        (NoStronger-strongest_left (group_denial g name) (denial groups name))
  | inr other ↦
      NoStronger-strongest_right (group_denial group name) (group_denial g name)
        (denial groups name) (group_denial-NoStronger groups group name (ground arith))
]

denial-NoStronger :
    (groups wider : List String) (name : String)
    → All (λ g. contains wider g ≡ true) groups
    → NoStronger (denial groups name) (denial wider name)
denial-NoStronger [] wider name h = tt
denial-NoStronger (g ∷ groups) wider name h =
    strongest-NoStronger (group_denial g name) (denial groups name) (denial wider name)
      (group_denial-NoStronger wider g name h.0) (denial-NoStronger groups wider name h.1)

-- An action that keeps the call from running: to kill the process, or to fail with EPERM.
abbrev pub IsRefusal : ℕ → Type 0
IsRefusal action = (action ≡ seccomp_ret_kill_process) ⊎ (action ≡ deny_eperm)

is_refusal : String → ℕ → Bool
is_refusal group action = action == seccomp_ret_kill_process || action == deny_eperm

is_refusal-table : every is_refusal group_actions ≡ true
unfolding every is_refusal group_actions
is_refusal-table = refl

pub group_actions-IsRefusal :
    (group : String) (action : ℕ) → get group_actions group ≡ some action → IsRefusal action
unfolding is_refusal
group_actions-IsRefusal group action h =
    let refused = every-get is_refusal group_actions group action is_refusal-table h in
    elim (Bool-cases (action == seccomp_ret_kill_process)) [
      | inl kill ↦ inl ((==_iff action seccomp_ret_kill_process).0 kill)
      | inr other ↦ inr (ground (arith, refused, other))
    ]

abbrev pub IsRefusalIfAny : Option ℕ → Type 0
IsRefusalIfAny none = Unit {0}
IsRefusalIfAny (some action) = IsRefusal action

group_actions-IsRefusalIfAny :
    (group : String) (given : Option ℕ) → get group_actions group ≡ given → IsRefusalIfAny given
group_actions-IsRefusalIfAny group none h = tt
group_actions-IsRefusalIfAny group (some action) h = group_actions-IsRefusal group action h

listed-IsRefusalIfAny :
    (listed : Bool) (given : Option ℕ)
    → IsRefusalIfAny given
    → IsRefusalIfAny (if listed then given else none)
listed-IsRefusalIfAny true given h = h
listed-IsRefusalIfAny false given h = tt

group_denial-IsRefusalIfAny : (group name : String) → IsRefusalIfAny (group_denial group name)
group_denial-IsRefusalIfAny group name =
    elim (get deny_groups group)
      as (λ found. IsRefusalIfAny (elim found [
        | none ↦ none
        | some names ↦ if contains names name then get group_actions group else none
      ])) [
        | none ↦ tt
        | some names ↦
            listed-IsRefusalIfAny (contains names name) (get group_actions group)
              (group_actions-IsRefusalIfAny group (get group_actions group) refl)
      ]

strongest-IsRefusalIfAny :
    (a b : Option ℕ) → IsRefusalIfAny a → IsRefusalIfAny b → IsRefusalIfAny (strongest a b)
strongest-IsRefusalIfAny none b p q = q
strongest-IsRefusalIfAny (some a) none p q = p
strongest-IsRefusalIfAny (some a) (some b) (inl p) (inl q) = inl (omega (arith, p, q))
strongest-IsRefusalIfAny (some a) (some b) (inl p) (inr q) = inl (omega (arith, p, q))
strongest-IsRefusalIfAny (some a) (some b) (inr p) (inl q) = inl (omega (arith, p, q))
strongest-IsRefusalIfAny (some a) (some b) (inr p) (inr q) = inr (omega (arith, p, q))

pub denial-IsRefusalIfAny :
    (groups : List String) (name : String) → IsRefusalIfAny (denial groups name)
denial-IsRefusalIfAny [] name = tt
denial-IsRefusalIfAny (group ∷ groups) name =
    strongest-IsRefusalIfAny (group_denial group name) (denial groups name)
      (group_denial-IsRefusalIfAny group name) (denial-IsRefusalIfAny groups name)

-- Among refusals the greater is the stricter one, in the kernel's order.
pub IsRefusal-IsAsStrict : (a b : ℕ) → IsRefusal a → IsRefusal b → a ≤ b → IsAsStrict b a
IsRefusal-IsAsStrict a b (inl p) (inl q) h = omega (arith, p, q)
IsRefusal-IsAsStrict a b (inl p) (inr q) h = omega (arith, p, q)
IsRefusal-IsAsStrict a b (inr p) (inl q) h = omega (arith, p, q)
IsRefusal-IsAsStrict a b (inr p) (inr q) h = omega (arith, p, q)

-- What is refused stays refused, at least as strictly in the kernel's order.
abbrev pub StaysRefused : Option ℕ → Option ℕ → Type 0
StaysRefused none after = Unit {0}
StaysRefused (some before) none = ⊥
StaysRefused (some before) (some after) = IsRefusal after × IsAsStrict after before

NoStronger-StaysRefused :
    (a b : Option ℕ) → IsRefusalIfAny a → IsRefusalIfAny b → NoStronger a b → StaysRefused a b
NoStronger-StaysRefused none b p q h = tt
NoStronger-StaysRefused (some a) none p q h = h
NoStronger-StaysRefused (some a) (some b) p q h = (q, IsRefusal-IsAsStrict a b p q h)

-- When a second list of groups holds every group of a first one and `resolve` succeeds on both,
-- each name with an action by the first list has one by the second that refuses the call and that
-- is at least as strict in the kernel's order of actions.
pub widening_never_weakens :
    (wanted wider : List String) {actions actions' : Dict ℕ}
    → resolve wanted ≡ ok actions
    → resolve wider ≡ ok actions'
    → All (λ g. contains wider g ≡ true) wanted
    → (name : String) → StaysRefused (get actions name) (get actions' name)
widening_never_weakens wanted wider h h' sub name =
    rw (resolve_lem wanted h name, resolve_lem wider h' name)
      (NoStronger-StaysRefused (denial wanted name) (denial wider name)
        (denial-IsRefusalIfAny wanted name) (denial-IsRefusalIfAny wider name)
        (denial-NoStronger wanted wider name sub))
