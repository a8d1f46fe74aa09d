-- ===== src/Seccomp.antt =====
-- examples/ephemeral-container-sandbox/syscall_filter.py: the seccomp filter.
pub mod Table
pub mod Policy
pub mod Program
pub mod Kernel
pub mod Numbers
pub mod Verdict
pub mod Confinement
