-- ===== src/Seccomp/Confinement.antt =====
-- From the names of the deny groups to what the kernel does: `build_program(resolve(groups))`.
use vibes.Common.{
  ℕ, ◌%◌, ◌^◌, ◌≤◌, ap, subst, String, Option, some, List, ◌≡◌, ◌∙◌, arith, All, true, Option-cases,
  inl, inr,
}
use vibes.Common.Dict.{Dict, contains, get}
use vibes.Seccomp.Table.{syscalls, deny_groups, group_actions, audit_arch_x86_64}
use vibes.Seccomp.Policy.{ok, resolve}
use vibes.Seccomp.Policy.Widening.{denial, group_denial, resolve_lem}
use vibes.Seccomp.Policy.Strictness.{
  group_denial-NoStronger, NoStronger, IsRefusal, IsRefusalIfAny, denial-IsRefusalIfAny,
  group_actions-IsRefusal, IsRefusal-IsAsStrict,
}
use vibes.Seccomp.Policy.Total.{IsKnown, resolve-total, with_action-numbered}
use vibes.Seccomp.Program.{SockFilter, assemble, build_program}
use vibes.Seccomp.Numbers.{numbered-total, syscalls-lt-x32}
use vibes.Seccomp.Kernel.{Call, IsBpf, IsAsStrict}
use vibes.Seccomp.Verdict.{denied_call_gets_its_action}

-- For groups that are all in the table, `resolve` and `build_program` both succeed.
pub known_groups_build :
    (wanted : List String)
    → All IsKnown wanted
    → (actions : Dict ℕ) × (program : List SockFilter) × (resolve wanted ≡ ok actions)
      × (build_program actions ≡ ok program)
unfolding build_program
known_groups_build wanted known =
    let (actions, resolved) = resolve-total wanted known in
    let (denied, hd) =
      numbered-total actions (with_action-numbered wanted actions (resolve_lem wanted resolved)) in
    (actions, assemble denied, resolved, ground arith)

IsRefusal-fits : (v : ℕ) → IsRefusal v → v % 2 ^ 32 ≡ v
IsRefusal-fits v (inl h) = omega (arith, h)
IsRefusal-fits v (inr h) = omega (arith, h)

module _ {run : List SockFilter → Call → ℕ → Option ℕ} (bpf : IsBpf run) where
  -- On a machine with the documented behaviour of classic BPF: when the groups `wanted` resolve
  -- and the program is built, an x86-64 call of a system call that one of the groups names is
  -- refused (the process is killed, or the call fails with EPERM), and the verdict is at least as
  -- strict, in the kernel's order of actions, as the action of that group.
  pub wanted_group_enforced :
      (wanted : List String) (group name : String) {names : List String} {actions : Dict ℕ}
      {program : List SockFilter} {action : ℕ}
      → resolve wanted ≡ ok actions
      → build_program actions ≡ ok program
      → contains wanted group ≡ true
      → get deny_groups group ≡ some names
      → contains names name ≡ true
      → get group_actions group ≡ some action
      → (c : Call) (a : ℕ) → c.arch ≡ audit_arch_x86_64
      → get syscalls name ≡ some c.nr
      → (verdict : ℕ) × (run program c a ≡ some verdict)
        × IsRefusal verdict
        × IsAsStrict verdict action
  wanted_group_enforced wanted group name {names} {actions} {program} {action} resolved built within
        table listed acts c a native number =
      elim (Option-cases (denial wanted name)) [
        | inl e ↦ absurd (rw (here, e) at stronger)
        | inr (v, e) ↦
            let refused : IsRefusal v =
              subst IsRefusalIfAny e (denial-IsRefusalIfAny wanted name) in
            let more : action ≤ v = rw (here, e) at stronger in
            let ran : run program c a ≡ some (v % 2 ^ 32) =
              denied_call_gets_its_action bpf actions name built
                (resolve_lem wanted resolved name ∙ e) c a native (syscalls-lt-x32 name number)
                number in
            (
              v,
              ran ∙ ap some (IsRefusal-fits v refused),
              refused,
              IsRefusal-IsAsStrict action v (group_actions-IsRefusal group action acts) refused
                  more,
            )
      ]
    where
      stronger : NoStronger (group_denial group name) (denial wanted name)
      stronger = group_denial-NoStronger wanted group name within

      here : group_denial group name ≡ some action
      here = ground arith
