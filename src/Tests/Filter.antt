-- ===== src/Tests/Filter.antt =====
-- The seccomp filter on a concrete kernel machine.
use vibes.Common.{
  ℕ, zero, suc, String, Option, none, some, List, [], ◌∷◌, ◌≡◌, ◌≢◌, ltb, Bool, inl, refl, arith,
  drop, leb, ◌==◌, if◌then◌else◌, true,
}
use vibes.Common.Dict.{Dict, contains, get, put}
use vibes.Seccomp.Table.{
  syscalls, deny_groups, group_actions, deny_eperm, seccomp_ret_kill_process, seccomp_ret_allow,
  audit_arch_x86_64,
}
use vibes.Seccomp.Policy.{ok, unknown_groups, resolve}
use vibes.Seccomp.Policy.Widening.{denial, resolve_lem}
use vibes.Seccomp.Policy.Strictness.{IsRefusal, StaysRefused, widening_never_weakens}
use vibes.Seccomp.Policy.Total.{resolve_unknown}
use vibes.Seccomp.Program.{
  SockFilter, load_word, jump_eq, jump_ge, return_k, build_program, assemble,
}
use vibes.Seccomp.Kernel.{Call, IsBpf, IsAsStrict}
use vibes.Seccomp.Numbers.{every, every-get}
use vibes.Seccomp.Verdict.{foreign_abi_killed, denied_call_gets_its_action, other_call_allowed}
use vibes.Seccomp.Confinement.{known_groups_build, wanted_group_enforced}

-- A machine of the four instructions; the first argument counts the instructions to skip.
machine_from : ℕ → List SockFilter → Call → ℕ → Option ℕ
machine_from n [] c a = none
machine_from (suc n) (i ∷ rest) c a = machine_from n rest c a
machine_from zero (i ∷ rest) c a =
    let skip : ℕ =
      if i.code == jump_eq
      then (if a == i.k then i.jt else i.jf)
      else if i.code == jump_ge
      then (if leb i.k a then i.jt else i.jf)
      else 0 in
    let a' : ℕ = if i.code == load_word then (if i.k == 4 then c.arch else c.nr) else a in
    let later = machine_from skip rest c a' in if i.code == return_k then some i.k else later

machine : List SockFilter → Call → ℕ → Option ℕ
machine = machine_from zero

machine_from-drop :
    (n : ℕ) (p : List SockFilter) (c : Call) (a : ℕ)
    → machine_from n p c a ≡ machine_from zero (drop n p) c a
unfolding machine_from
machine_from-drop zero p c a = refl
machine_from-drop (suc n) [] c a = refl
machine_from-drop (suc n) (i ∷ p) c a = machine_from-drop n p c a

machine-IsBpf : IsBpf machine
unfolding machine machine_from
machine-IsBpf = record {
  loads_arch = λ rest c a. refl;
  loads_nr = λ rest c a. refl;
  jumps_eq = λ jt jf k rest c a. machine_from-drop _ rest c a;
  jumps_ge = λ jt jf k rest c a. machine_from-drop _ rest c a;
  returns = λ k rest c a. refl;
}

abbrev wanted : List String
wanted = "network" ∷ "tracing" ∷ []

abbrev actions : Dict ℕ
actions = ("bind", deny_eperm) ∷ ("ptrace", seccomp_ret_kill_process) ∷ []

abbrev program : List SockFilter
program = assemble ((49, deny_eperm) ∷ (101, seccomp_ret_kill_process) ∷ [])

built : build_program actions ≡ ok program
unfolding build_program get syscalls
built = refl

resolve_tracing :
    resolve ("tracing" ∷ [])
    ≡ ok (
        ("perf_event_open", seccomp_ret_kill_process)
        ∷ ("process_vm_readv", seccomp_ret_kill_process)
        ∷ ("process_vm_writev", seccomp_ret_kill_process)
        ∷ ("ptrace", seccomp_ret_kill_process)
        ∷ [])
unfolding resolve get put contains deny_groups group_actions syscalls
resolve_tracing = refl

foreign_abi_killed_example :
    machine program (record { nr = 0; arch = 0x40000003 }) 0 ≡ some seccomp_ret_kill_process
foreign_abi_killed_example =
    foreign_abi_killed machine-IsBpf actions built (record { nr = 0; arch = 0x40000003 }) 0
      (inl (omega arith))

denied_call_gets_its_action_example :
    machine program (record { nr = 101; arch = audit_arch_x86_64 }) 7
    ≡ some seccomp_ret_kill_process
unfolding get syscalls
denied_call_gets_its_action_example =
    denied_call_gets_its_action machine-IsBpf actions "ptrace" built refl
      (record { nr = 101; arch = audit_arch_x86_64 }) 7 refl (omega arith) refl

-- No tabulated call has the number 0 (`read`).
not_zero : String → ℕ → Bool
not_zero k n = ltb 0 n

not_zero-table : every not_zero syscalls ≡ true
unfolding every not_zero syscalls
not_zero-table = refl

read_free : (name : String) → get actions name ≢ none → get syscalls name ≢ some 0
unfolding not_zero
read_free name kept e = absurd (ground (arith, every-get not_zero syscalls name 0 not_zero-table e))

other_call_allowed_example :
    machine program (record { nr = 0; arch = audit_arch_x86_64 }) 0 ≡ some seccomp_ret_allow
other_call_allowed_example =
    other_call_allowed machine-IsBpf actions built (record { nr = 0; arch = audit_arch_x86_64 }) 0
      refl (omega arith) read_free

abbrev tracing_actions : Dict ℕ
tracing_actions =
    ("perf_event_open", seccomp_ret_kill_process)
    ∷ ("process_vm_readv", seccomp_ret_kill_process)
    ∷ ("process_vm_writev", seccomp_ret_kill_process)
    ∷ ("ptrace", seccomp_ret_kill_process)
    ∷ []

tracing_build :
    (actions : Dict ℕ) × (program : List SockFilter) × (resolve ("tracing" ∷ []) ≡ ok actions)
    × (build_program actions ≡ ok program)
unfolding get deny_groups
tracing_build = known_groups_build ("tracing" ∷ []) (cc, tt)

tracing_program :
    build_program tracing_actions
    ≡ ok (
        assemble (
          (298, seccomp_ret_kill_process)
          ∷ (310, seccomp_ret_kill_process)
          ∷ (311, seccomp_ret_kill_process)
          ∷ (101, seccomp_ret_kill_process)
          ∷ []))
unfolding build_program get syscalls
tracing_program = refl

wanted_group_enforced_example :
    (verdict : ℕ) × (machine
        (assemble (
          (298, seccomp_ret_kill_process)
          ∷ (310, seccomp_ret_kill_process)
          ∷ (311, seccomp_ret_kill_process)
          ∷ (101, seccomp_ret_kill_process)
          ∷ []))
        (record { nr = 101; arch = audit_arch_x86_64 })
        0
      ≡ some verdict)
    × IsRefusal verdict
    × IsAsStrict verdict seccomp_ret_kill_process
unfolding get contains deny_groups group_actions syscalls
wanted_group_enforced_example =
    wanted_group_enforced machine-IsBpf ("tracing" ∷ []) "tracing" "ptrace" resolve_tracing
      tracing_program refl refl refl refl (record { nr = 101; arch = audit_arch_x86_64 }) 0 refl
      refl

resolve_lem_example : get tracing_actions "ptrace" ≡ denial ("tracing" ∷ []) "ptrace"
resolve_lem_example = resolve_lem ("tracing" ∷ []) resolve_tracing "ptrace"

resolve_keyring :
    resolve ("keyring" ∷ "tracing" ∷ [])
    ≡ ok (
        ("add_key", seccomp_ret_kill_process)
        ∷ ("keyctl", seccomp_ret_kill_process)
        ∷ ("perf_event_open", seccomp_ret_kill_process)
        ∷ ("process_vm_readv", seccomp_ret_kill_process)
        ∷ ("process_vm_writev", seccomp_ret_kill_process)
        ∷ ("ptrace", seccomp_ret_kill_process)
        ∷ ("request_key", seccomp_ret_kill_process)
        ∷ [])
unfolding resolve get put contains deny_groups group_actions syscalls
resolve_keyring = refl

widening_never_weakens_example : StaysRefused (get tracing_actions "ptrace") (
    get
      (("add_key", seccomp_ret_kill_process)
        ∷ ("keyctl", seccomp_ret_kill_process)
        ∷ ("perf_event_open", seccomp_ret_kill_process)
        ∷ ("process_vm_readv", seccomp_ret_kill_process)
        ∷ ("process_vm_writev", seccomp_ret_kill_process)
        ∷ ("ptrace", seccomp_ret_kill_process)
        ∷ ("request_key", seccomp_ret_kill_process)
        ∷ [])
      "ptrace")
unfolding contains
widening_never_weakens_example =
    widening_never_weakens ("tracing" ∷ []) ("keyring" ∷ "tracing" ∷ []) resolve_tracing
      resolve_keyring (refl, tt) "ptrace"

resolve_unknown_example :
    (names : List String) × (resolve ("tracing" ∷ "bogus" ∷ []) ≡ unknown_groups names)
    × (contains names "bogus" ≡ true)
unfolding contains get deny_groups
resolve_unknown_example = resolve_unknown ("tracing" ∷ "bogus" ∷ []) "bogus" refl refl
