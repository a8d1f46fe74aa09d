-- ===== src/Seccomp/Verdict.antt =====
-- What the kernel does with a call under the program of `build_program`.
use vibes.Common.{
  ℕ, ◌%◌, ◌^◌, ◌≤◌, ◌<◌, String, Option, none, some, List, [], ◌∷◌, ◌++◌, ◌≡◌, ◌≢◌, ◌⊎◌, arith, leb,
  ◌==◌, if◌then◌else◌, Bool-cases, inl, inr,
}
use vibes.Common.Dict.{Dict, get}
use vibes.Seccomp.Table.{
  syscalls, seccomp_ret_kill_process, seccomp_ret_allow, x32_syscall_bit, audit_arch_x86_64,
}
use vibes.Seccomp.Policy.{ok, >>=-eq-ok}
use vibes.Seccomp.Program.{
  SockFilter, instruction, return_k, numbered, comparisons, assemble, prologue, build_program,
}
use vibes.Seccomp.Kernel.{Call, IsBpf}
use vibes.Seccomp.Numbers.{by_number, by_number-denied, by_number-allowed}

module _ {run : List SockFilter → Call → ℕ → Option ℕ} (bpf : IsBpf run) where
  run-comparisons :
      (denied : List (ℕ × ℕ)) (c : Call) (nr : ℕ)
      → run (comparisons denied ++ instruction return_k 0 0 seccomp_ret_allow ∷ []) c nr
        ≡ some (by_number denied nr)
  unfolding comparisons
  run-comparisons [] c nr = bpf.returns _ _ c nr
  run-comparisons ((number, action) ∷ denied) c nr = elim (Bool-cases (nr == number % 2 ^ 32)) [
    | inl same ↦ rw (bpf.jumps_eq, same, bpf.returns)
    | inr other ↦ rw (bpf.jumps_eq, other) (run-comparisons denied c nr)
  ]

  run-prologue :
      (rest : List SockFilter) (c : Call) (a v : ℕ)
      → run rest c c.nr ≡ some v
      → run (prologue ++ rest) c a
        ≡ some (
            if c.arch == audit_arch_x86_64
            then (if leb x32_syscall_bit c.nr then seccomp_ret_kill_process else v)
            else seccomp_ret_kill_process)
  run-prologue rest c a v h = elim (Bool-cases (c.arch == audit_arch_x86_64)) [
    | inr foreign ↦ rw (bpf.loads_arch, bpf.jumps_eq, foreign) (bpf.returns _ _ c c.arch)
    | inl native ↦ elim (Bool-cases (leb x32_syscall_bit c.nr)) [
      | inl x32 ↦
          rw (bpf.loads_arch, bpf.jumps_eq, native, bpf.loads_nr, bpf.jumps_ge, x32)
            (bpf.returns _ _ c c.nr)
      | inr plain ↦ rw (bpf.loads_arch, bpf.jumps_eq, native, bpf.loads_nr, bpf.jumps_ge, plain) h
    ]
  ]

  program-verdict :
      (actions : Dict ℕ) {program : List SockFilter}
      → build_program actions ≡ ok program
      → (c : Call) (a : ℕ)
      → (denied : List (ℕ × ℕ)) × (numbered actions ≡ ok denied)
        × (run program c a
            ≡ some (
                if c.arch == audit_arch_x86_64
                then (if leb x32_syscall_bit c.nr
                    then seccomp_ret_kill_process
                    else by_number denied c.nr)
                else seccomp_ret_kill_process))
  unfolding build_program
  program-verdict actions {program} h c a =
      let (denied, hd, e) = >>=-eq-ok (numbered actions) _ h in
      let done : program ≡ assemble denied = ground arith in
      (denied, hd, rw done (run-prologue _ c a _ (run-comparisons denied c c.nr)))

  -- On a machine with the documented behaviour of classic BPF, under a program that
  -- `build_program` returns for some actions: a call of another architecture than x86-64 is
  -- killed, and so is a call whose number has reached the x32 bit.
  pub foreign_abi_killed :
      (actions : Dict ℕ) {program : List SockFilter}
      → build_program actions ≡ ok program
      → (c : Call) (a : ℕ) → (c.arch ≢ audit_arch_x86_64) ⊎ (x32_syscall_bit ≤ c.nr)
      → run program c a ≡ some seccomp_ret_kill_process
  foreign_abi_killed actions h c a foreign =
      let (denied, _, ran) = program-verdict actions h c a in ground arith

  -- On a machine with the documented behaviour of classic BPF, under a program that
  -- `build_program` returns for some actions: an x86-64 call with a number below the x32 bit that
  -- is the number of a name among the actions gets the action of that name, modulo 2 ** 32 as the
  -- 32 bits of the instruction hold it.
  pub denied_call_gets_its_action :
      (actions : Dict ℕ) {program : List SockFilter} (name : String) {action : ℕ}
      → build_program actions ≡ ok program
      → get actions name ≡ some action
      → (c : Call) (a : ℕ) → c.arch ≡ audit_arch_x86_64
      → c.nr < x32_syscall_bit
      → get syscalls name ≡ some c.nr
      → run program c a ≡ some (action % 2 ^ 32)
  denied_call_gets_its_action actions name h e c a native plain s =
      let (denied, hd, ran) = program-verdict actions h c a in
      ground (arith, by_number-denied actions name hd e s)

  -- On a machine with the documented behaviour of classic BPF, under a program that
  -- `build_program` returns for some actions: an x86-64 call with a number below the x32 bit that
  -- is the number of no name among the actions is allowed.
  pub other_call_allowed :
      (actions : Dict ℕ) {program : List SockFilter}
      → build_program actions ≡ ok program
      → (c : Call) (a : ℕ) → c.arch ≡ audit_arch_x86_64
      → c.nr < x32_syscall_bit
      → ((name : String) → get actions name ≢ none → get syscalls name ≢ some c.nr)
      → run program c a ≡ some seccomp_ret_allow
  other_call_allowed actions h c a native plain free =
      let (denied, hd, ran) = program-verdict actions h c a in
      ground (arith, by_number-allowed actions c.nr hd free)
