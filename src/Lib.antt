-- ===== src/Lib.antt =====
-- A verification of the core components of this repository, for a reader of its Python sources.
--
-- Parts, and the files that model them:
--
--  - Seccomp: examples/ephemeral-container-sandbox/syscall_filter.py. Seccomp.Table holds the tables,
--    Seccomp.Policy `resolve` and `_collect_group_actions`, Seccomp.Program `build_program`. The kernel
--    is a parameter: Seccomp.Kernel states the documented behaviour of the instructions used, and
--    the theorems of Seccomp.Verdict and Seccomp.Confinement say what a machine that has it does with
--    the program. Its order of actions is `leniency`; Seccomp.Policy.Strictness compares the actions of
--    `resolve` in it. A field of `_SockFilter` takes a number modulo its width (`instruction`). Errors
--    are the constructors of `Resolved`.
--  - Sanitizer: examples/streaming-reasoning-sanitizer/sanitizer.py. The record `Sanitizer` is the
--    object; `feed` and `flush` return the changed record beside the result. The loop of `feed` gets
--    the length of the text as fuel, which is enough since each step shortens the text when the tags
--    are not empty. Children: Recording, Steps and Loop for the parts of the loop, Accounting and
--    Stream for the books, Absent, Hiding, Hidden and Transparent for streams without a tag.
--  - Packer: examples/binary-search-context-packer/context_packer.py. `pack_loop` gets one more than
--    the number of symbols as fuel, since each turn brings the bounds of the search closer by one.
--    Children: Tokens, Search, Levels, and Extract with the extraction of symbols. `repr` and
--    `ast.parse` are parameters; of a node the model has the fields that the code reads.
--  - Shrink: the reduction of failing inputs in tools/fuzz_core.py, for an arbitrary predicate. The
--    loop over the lines gets the rounds and the window together as fuel, as each turn uses a round or
--    halves the window; the loops over the tail get the length of the text and the step.
--  - Mutation: the mutators of tools/fuzz_core.py, over a generator of random numbers that is a
--    parameter (`Random`). `none` is a draw from an empty range, an index or a key that is missing.
--    Child: Returns.
--  - Crdt: the replica of examples/ast-crdt-collaborative-editor/ast_crdt.py. A dictionary is an
--    association list in insertion order. `Outcome` tells a call that returns from one in which
--    `NodeKind(...)` raises, with the replica as the call left it. Children: Nodes, Clock, Commute.
--  - Wasm: examples/wasm-capability-sandbox/wasm_sandbox.py, the integers and sections of a module,
--    the metered run, and the checks of imports and of network targets. The walk over the sections
--    gets the length of the payload as fuel, as each turn takes a byte or more. Costs are natural
--    numbers. Children: Varuint, Sections, Gas and Grants.
--  - Lsm: examples/ebpf-lsm-kernel-gate/lsm_gate.py, the evaluation of an event against a policy, and
--    in Lsm.Campaign the fuzz campaign. Sets of names are lists; `ipaddress` and `str.lower` are a
--    parameter (`Platform`). Children: Policies, Contained.
--  - Baseline: tools/finding_baseline.py. A baseline file is a document or `none`; an exception is a
--    result of `none`; the stamp of the clock is an argument. Sarif reads logs, Handlers has the
--    commands. Children with proofs: Presence, Resolved, Commands.
--  - Repomap: examples/valkey-l2-repomap-cache/repomap_cache.py. Resp is the wire format, over the
--    chunks that `recv` returns, so that the read loop recurs on the list of chunks; Json and Record
--    the records with `to_dict` and `from_dict`; Client the client with its fallback store, over a
--    network that is a parameter; Cache the two tiers. An exception is a result of `none`, and the
--    state it leaves is not modelled. Children with proofs: Resp.Bulk, Resp.Chunks, Resp.Lines,
--    Resp.Wire (the wire format as the protocol documents it), Record.Hydrated, Cache.Tier (the
--    interface of the second tier), Cache.Fallback and Cache.Server, which fill it, the latter over
--    Cache.Protocol, Cache.Coherent and Cache.Bounded.
--  - Gateway: examples/fastmcp-token-bucket-gateway/gateway.py. `float` is a type with its operations;
--    the readings of the clock are a list, on which the wait for tokens recurs. Child: Retries.
--  - Arbiter: examples/worktree-swarm-arbiter/worktree_arbiter.py, over a state of the world with the
--    clock, the lock file, git and the signals as operations (`World`). Children: Fleet, Locks.
--  - Handshake: examples/epistemic-context-handshake/context_handshake.py, over the digest, the clock
--    and the rounded quotient as a parameter (`Services`). Children: Audit, Order.
--  - Common: what these share. Python's str is a list of code points where the code walks it, and the
--    native string where it is a key; integers that the code never lets go below zero are natural
--    numbers. Tests: runs on concrete inputs.
--
-- Each component stands alone in the program; they share no state. Calls from several threads are
-- ordered by the program's own locks and are not modelled as interleaved.
--
-- Not modelled: system calls and their probes (`install`, `limiter`), floating point arithmetic (a
-- parameter in the gateway; the metrics of the analysers are left out), the reports, the command
-- lines, and the tools that drive git, GitHub and subprocesses. In ast_crdt.py the minting of
-- identifiers and the rendering to source are left out.
pub mod Arbiter
pub mod Baseline
pub mod Common
pub mod Crdt
pub mod Gateway
pub mod Handshake
pub mod Lsm
pub mod Mutation
pub mod Packer
pub mod Repomap
pub mod Sanitizer
pub mod Seccomp
pub mod Shrink
pub mod Tests
pub mod Wasm
