-- ===== src/Seccomp/Kernel.antt =====
-- The kernel's classic BPF machine, as far as the filter relies on it. The machine is not part of
-- the repository: `run` is a parameter, and `IsBpf` states what the kernel documents of the four
-- instructions that `build_program` emits.
use vibes.Common.{
  ℕ, ◌+◌, ◌/◌, ◌%◌, ◌^◌, ◌≤◌, List, ◌∷◌, Option, some, ◌≡◌, drop, leb, ◌==◌, if◌then◌else◌,
}
use vibes.Seccomp.Program.{
  SockFilter, load_word, jump_eq, jump_ge, return_k, offset_nr, offset_arch,
}

-- The two words of `struct seccomp_data` that the filter loads.
pub record Call : Type 0 where
  pub nr : ℕ
  pub arch : ℕ

-- An instruction as the kernel reads it.
abbrev pub word : ℕ → ℕ → ℕ → ℕ → SockFilter
word code jt jf k = record { code = code; jt = jt; jf = jf; k = k }

-- `run program call a` is the value that the rest of a program returns for a call, from the
-- accumulator `a`; `none` where it runs off its end. A jump skips instructions that follow.
pub record IsBpf (run : List SockFilter → Call → ℕ → Option ℕ) : Type 0 where
  pub loads_arch :
      (rest : List SockFilter) (c : Call) (a : ℕ)
      → run (word load_word 0 0 offset_arch ∷ rest) c a ≡ run rest c c.arch
  pub loads_nr :
      (rest : List SockFilter) (c : Call) (a : ℕ)
      → run (word load_word 0 0 offset_nr ∷ rest) c a ≡ run rest c c.nr
  pub jumps_eq :
      (jt jf k : ℕ) (rest : List SockFilter) (c : Call) (a : ℕ)
      → run (word jump_eq jt jf k ∷ rest) c a ≡ run (drop (if a == k then jt else jf) rest) c a
  pub jumps_ge :
      (jt jf k : ℕ) (rest : List SockFilter) (c : Call) (a : ℕ)
      → run (word jump_ge jt jf k ∷ rest) c a ≡ run (drop (if leb k a then jt else jf) rest) c a
  pub returns :
      (k : ℕ) (rest : List SockFilter) (c : Call) (a : ℕ)
      → run (word return_k 0 0 k ∷ rest) c a ≡ some k

-- How far a filter's verdict lets a call go. Of its 32 bits the upper half is the action, and the
-- kernel documents the order of the actions, from the strictest on: to kill the process
-- (0x80000000), to kill the thread (0), to trap (0x00030000), to fail with an errno (0x00050000), and
-- so on up to allowing (0x7FFF0000), which is the order of the halves as signed numbers.
abbrev pub leniency : ℕ → ℕ
leniency verdict = (verdict / 2 ^ 16 + 2 ^ 15) % 2 ^ 16

-- The first verdict is at least as strict as the second.
abbrev pub IsAsStrict : ℕ → ℕ → Type 0
IsAsStrict verdict other = leniency verdict ≤ leniency other
