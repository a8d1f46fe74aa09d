-- ===== src/Seccomp/Program.antt =====
-- `_SockFilter` and `build_program` of examples/ephemeral-container-sandbox/syscall_filter.py.
use Prim.Native.Nat.{bit_or}
use vibes.Common.{ℕ, ◌%◌, ◌^◌, List, [], ◌∷◌, ◌++◌}
use vibes.Common.Dict.{Dict}
use vibes.Seccomp.Table.{
  syscalls, seccomp_ret_kill_process, seccomp_ret_allow, x32_syscall_bit, audit_arch_x86_64,
}
use vibes.Seccomp.Policy.{Resolved, ok, ◌>>=◌, subscript}

abbrev bpf_ld : ℕ
bpf_ld = 0x00

abbrev bpf_w : ℕ
bpf_w = 0x00

abbrev bpf_abs : ℕ
bpf_abs = 0x20

abbrev bpf_jmp : ℕ
bpf_jmp = 0x05

abbrev bpf_jeq : ℕ
bpf_jeq = 0x10

abbrev bpf_jge : ℕ
bpf_jge = 0x30

abbrev bpf_k : ℕ
bpf_k = 0x00

abbrev bpf_ret : ℕ
bpf_ret = 0x06

-- The operation codes of the program's instructions.
abbrev pub load_word : ℕ
load_word = bit_or (bit_or bpf_ld bpf_w) bpf_abs

abbrev pub jump_eq : ℕ
jump_eq = bit_or (bit_or bpf_jmp bpf_jeq) bpf_k

abbrev pub jump_ge : ℕ
jump_ge = bit_or (bit_or bpf_jmp bpf_jge) bpf_k

abbrev pub return_k : ℕ
return_k = bit_or bpf_ret bpf_k

abbrev pub offset_nr : ℕ
offset_nr = 0

abbrev pub offset_arch : ℕ
offset_arch = 4

pub record SockFilter : Type 0 where
  pub code : ℕ
  pub jt : ℕ
  pub jf : ℕ
  pub k : ℕ

-- `_SockFilter(code, jt, jf, k)`: the fields are a c_uint16, two c_uint8 and a c_uint32, which take
-- a number modulo their width.
abbrev pub instruction : ℕ → ℕ → ℕ → ℕ → SockFilter
instruction code jt jf k = record {
  code = code % 2 ^ 16;
  jt = jt % 2 ^ 8;
  jf = jf % 2 ^ 8;
  k = k % 2 ^ 32;
}

-- `[(SYSCALLS[name], action) for name, action in actions.items()]`
unfoldable pub numbered : Dict ℕ → Resolved (List (ℕ × ℕ))
numbered [] = ok []
numbered ((name, action) ∷ actions) = do
  number ← subscript syscalls name
  denied ← numbered actions
  ok ((number, action) ∷ denied)

abbrev pub prologue : List SockFilter
prologue =
    instruction load_word 0 0 offset_arch
    ∷ instruction jump_eq 1 0 audit_arch_x86_64
    ∷ instruction return_k 0 0 seccomp_ret_kill_process
    ∷ instruction load_word 0 0 offset_nr
    ∷ instruction jump_ge 0 1 x32_syscall_bit
    ∷ instruction return_k 0 0 seccomp_ret_kill_process
    ∷ []

-- What the loop appends for the denied calls.
unfoldable pub comparisons : List (ℕ × ℕ) → List SockFilter
comparisons [] = []
comparisons ((number, action) ∷ denied) =
    instruction jump_eq 0 1 number ∷ instruction return_k 0 0 action ∷ comparisons denied

-- The program, from the numbers and the actions of the denied calls.
abbrev pub assemble : List (ℕ × ℕ) → List SockFilter
assemble denied =
    prologue ++ (comparisons denied ++ instruction return_k 0 0 seccomp_ret_allow ∷ [])

unfoldable pub build_program : Dict ℕ → Resolved (List SockFilter)
unfolding numbered comparisons
build_program actions = do denied ← numbered actions; ok (assemble denied)
