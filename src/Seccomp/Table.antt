-- ===== src/Seccomp/Table.antt =====
-- The tables of examples/ephemeral-container-sandbox/syscall_filter.py: the numbers of the system
-- calls on x86-64, the deny groups and what a denied call of each group does.
use Prim.Native.Nat.{bit_or}
use vibes.Common.{ℕ, String, List, [], ◌∷◌}
use vibes.Common.Dict.{Dict}

abbrev pub seccomp_ret_kill_process : ℕ
seccomp_ret_kill_process = 0x80000000

abbrev pub seccomp_ret_errno : ℕ
seccomp_ret_errno = 0x00050000

abbrev pub seccomp_ret_allow : ℕ
seccomp_ret_allow = 0x7FFF0000

abbrev pub eperm : ℕ
eperm = 1

abbrev pub deny_eperm : ℕ
deny_eperm = bit_or seccomp_ret_errno eperm

abbrev pub x32_syscall_bit : ℕ
x32_syscall_bit = 0x40000000

abbrev pub audit_arch_x86_64 : ℕ
audit_arch_x86_64 = 0xC000003E

unfoldable pub syscalls : Dict ℕ
syscalls =
    ("accept", 43)
    ∷ ("accept4", 288)
    ∷ ("bind", 49)
    ∷ ("connect", 42)
    ∷ ("listen", 50)
    ∷ ("recvfrom", 45)
    ∷ ("recvmsg", 47)
    ∷ ("sendmsg", 46)
    ∷ ("sendto", 44)
    ∷ ("socket", 41)
    ∷ ("socketpair", 53)
    ∷ ("capset", 126)
    ∷ ("ioperm", 173)
    ∷ ("iopl", 172)
    ∷ ("setgid", 106)
    ∷ ("setregid", 114)
    ∷ ("setresgid", 119)
    ∷ ("setresuid", 117)
    ∷ ("setreuid", 113)
    ∷ ("setuid", 105)
    ∷ ("perf_event_open", 298)
    ∷ ("process_vm_readv", 310)
    ∷ ("process_vm_writev", 311)
    ∷ ("ptrace", 101)
    ∷ ("chroot", 161)
    ∷ ("mount", 165)
    ∷ ("pivot_root", 155)
    ∷ ("setns", 308)
    ∷ ("umount2", 166)
    ∷ ("unshare", 272)
    ∷ ("adjtimex", 159)
    ∷ ("bpf", 321)
    ∷ ("clock_settime", 227)
    ∷ ("delete_module", 176)
    ∷ ("finit_module", 313)
    ∷ ("init_module", 175)
    ∷ ("kexec_file_load", 320)
    ∷ ("kexec_load", 246)
    ∷ ("reboot", 169)
    ∷ ("settimeofday", 164)
    ∷ ("swapoff", 168)
    ∷ ("swapon", 167)
    ∷ ("userfaultfd", 323)
    ∷ ("add_key", 248)
    ∷ ("keyctl", 250)
    ∷ ("request_key", 249)
    ∷ ("clone", 56)
    ∷ ("clone3", 435)
    ∷ ("fork", 57)
    ∷ ("vfork", 58)
    ∷ ("io_uring_setup", 425)
    ∷ ("io_uring_enter", 426)
    ∷ ("io_uring_register", 427)
    ∷ []

unfoldable pub deny_groups : Dict (List String)
deny_groups =
    (
      "network",
      "socket" ∷ "socketpair" ∷ "bind" ∷ "connect" ∷ "listen" ∷ "accept" ∷ "accept4" ∷ "sendto"
          ∷ "recvfrom" ∷ "sendmsg" ∷ "recvmsg" ∷ "io_uring_setup" ∷ "io_uring_enter"
          ∷ "io_uring_register" ∷ [],
    )
    ∷ (
      "privilege",
      "setuid" ∷ "setgid" ∷ "setreuid" ∷ "setregid" ∷ "setresuid" ∷ "setresgid" ∷ "capset"
          ∷ "ioperm" ∷ "iopl" ∷ [],
    )
    ∷ ("tracing", "ptrace" ∷ "process_vm_readv" ∷ "process_vm_writev" ∷ "perf_event_open" ∷ [])
    ∷ ("mount", "mount" ∷ "umount2" ∷ "pivot_root" ∷ "chroot" ∷ "unshare" ∷ "setns" ∷ [])
    ∷ (
      "kernel",
      "init_module" ∷ "delete_module" ∷ "finit_module" ∷ "kexec_load" ∷ "kexec_file_load" ∷ "reboot"
          ∷ "settimeofday" ∷ "clock_settime" ∷ "adjtimex" ∷ "swapon" ∷ "swapoff" ∷ "bpf"
          ∷ "userfaultfd" ∷ [],
    )
    ∷ ("keyring", "add_key" ∷ "keyctl" ∷ "request_key" ∷ [])
    ∷ ("process_creation", "clone" ∷ "clone3" ∷ "fork" ∷ "vfork" ∷ [])
    ∷ []

unfoldable pub group_actions : Dict ℕ
group_actions =
    ("network", deny_eperm)
    ∷ ("privilege", seccomp_ret_kill_process)
    ∷ ("tracing", seccomp_ret_kill_process)
    ∷ ("mount", seccomp_ret_kill_process)
    ∷ ("kernel", seccomp_ret_kill_process)
    ∷ ("keyring", seccomp_ret_kill_process)
    ∷ ("process_creation", seccomp_ret_kill_process)
    ∷ []

abbrev pub default_groups : List String
default_groups = "network" ∷ "privilege" ∷ "tracing" ∷ "mount" ∷ "kernel" ∷ "keyring" ∷ []
