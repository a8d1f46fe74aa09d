-- ===== src/Wasm.antt =====
-- examples/wasm-capability-sandbox/wasm_sandbox.py: the sections of a module, the grants, and the
-- metered run of a workload. Bytes are natural numbers, of which the code reads the low eight bits.
-- The walk over the sections takes fuel, and `none` means that it ran out.
pub mod Varuint
pub mod Sections
pub mod Gas
pub mod Grants
use Prim.Native.String.{◌++◌ as ◌<>◌}
use vibes.Common.Dict.{contains, str_eq}
use vibes.Common.{
  ◌&&◌, ◌||◌, ℕ, zero, suc, ◌+◌, ◌-◌, ◌*◌, ◌%◌, ◌^◌, String, Bool, true, false, Option, none, some,
  List, [], ◌∷◌, ◌++◌, length, drop, leb, ltb, if◌then◌else◌,
}

pub data TrapKind : Type 0 where
  no_trap gas_exhausted memory_ceiling_breach capability_denied wit_contract_mismatch : TrapKind
  invalid_bytecode : TrapKind

-- `trap == TrapKind.NONE`
abbrev pub is_none : TrapKind → Bool
is_none no_trap = true
is_none _ = false

-- The loop of `_read_varuint`. The bits that a byte adds lie above those of `result`, so that `|=` is
-- an addition; `byte & 0x7F` and `byte & 0x80` are the remainder by 128 and the bit above it.
unfoldable pub varuint_loop : List ℕ → ℕ → ℕ → ℕ → ℕ × ℕ
varuint_loop [] result shift idx = (result, idx)
varuint_loop (byte ∷ buf) result shift idx =
    let result' = result + (byte % 128) * 2 ^ shift in
    elim (leb 128 (byte % 256)) [
      | true ↦ varuint_loop buf result' (shift + 7) (idx + 1)
      | false ↦ (result', idx + 1)
    ]

-- `_read_varuint`
unfoldable pub read_varuint : List ℕ → ℕ × ℕ
unfolding varuint_loop
read_varuint buf = varuint_loop buf 0 0 0

-- `_parse_section_ids` on what is left of the payload from `idx` on, with `_read_next_section` in it:
-- the slice that the next turn starts from is the one that `next_offset` points to.
unfoldable pub parse_sections : ℕ → List ℕ → Option (List ℕ)
parse_sections n [] = some []
parse_sections zero (sec_id ∷ rem) = none
parse_sections (suc n) (sec_id ∷ rem) =
    let (size, bytes_read) = read_varuint rem in
    elim (parse_sections n (drop (bytes_read + size) rem)) [
      | none ↦ none
      | some ids ↦ some (sec_id ∷ ids)
    ]

-- `_parse_section_ids`, with the length of the payload as fuel: a turn takes at least a byte.
unfoldable pub parse_section_ids : List ℕ → Option (List ℕ)
unfolding parse_sections
parse_section_ids payload = parse_sections (length payload) payload

-- `SandboxEnvironment`, less its capabilities and its log
pub record SandboxEnvironment : Type 0 where
  pub gas_budget : ℕ
  pub max_pages : ℕ
  pub allocated_pages : ℕ
  pub gas_consumed : ℕ

-- `execute_instruction`
unfoldable pub execute_instruction : SandboxEnvironment → ℕ → SandboxEnvironment × TrapKind
execute_instruction env cost =
    if ltb env.gas_budget (env.gas_consumed + cost)
    then (record env { gas_consumed = env.gas_budget }, gas_exhausted)
    else (record env { gas_consumed = env.gas_consumed + cost }, no_trap)

-- `grow_memory`
unfoldable pub grow_memory : SandboxEnvironment → ℕ → SandboxEnvironment × TrapKind
grow_memory env delta_pages =
    if ltb env.max_pages (env.allocated_pages + delta_pages)
    then (env, memory_ceiling_breach)
    else (record env { allocated_pages = env.allocated_pages + delta_pages }, no_trap)

-- `_step_workload`
unfoldable pub step_workload :
    SandboxEnvironment → List (String × ℕ) → SandboxEnvironment × TrapKind
unfolding execute_instruction
step_workload env [] = (env, no_trap)
step_workload env ((op, cost) ∷ instructions) =
    let (env', trap) = execute_instruction env cost in
    elim (is_none trap) [ true ↦ step_workload env' instructions | false ↦ (env', trap) ]

pub data DiagnosticRule : Type 0 where
  cap001 cap002 cap003 cap004 cap005 : DiagnosticRule

pub record Finding : Type 0 where
  pub rule : DiagnosticRule
  pub message : String
  pub target : String
  pub severity : String

-- `Finding(rule, message, target)`, an error
abbrev pub finding : DiagnosticRule → String → String → Finding
finding rule message target = record {
  rule = rule;
  message = message;
  target = target;
  severity = "error";
}

-- `_collect_trap_findings` on an empty list, with the entries of `_TRAP_RULES`
abbrev pub trap_findings : TrapKind → List Finding
trap_findings gas_exhausted =
    finding cap003 "Execution halted: gas budget exhausted" "instruction_stream" ∷ []
trap_findings memory_ceiling_breach =
    finding cap004 "Execution halted: linear memory ceiling breached" "linear_memory" ∷ []
trap_findings _ = []

-- `ExecutionResult`, less its output
pub record ExecutionResult : Type 0 where
  pub trap : TrapKind
  pub gas_consumed : ℕ
  pub gas_remaining : ℕ
  pub pages_allocated : ℕ
  pub findings : List Finding

-- What `run_metered_workload` does after `_step_workload`.
abbrev pub report : SandboxEnvironment × TrapKind → SandboxEnvironment × ExecutionResult
report (env, trap) = (
  env,
  record {
    trap = trap;
    gas_consumed = env.gas_consumed;
    gas_remaining = env.gas_budget - env.gas_consumed;
    pages_allocated = env.allocated_pages;
    findings = trap_findings trap;
  },
)

-- `run_metered_workload`: the environment that it leaves, and the result.
unfoldable pub run_metered_workload :
    SandboxEnvironment → List (String × ℕ) → SandboxEnvironment × ExecutionResult
unfolding step_workload
run_metered_workload env instructions = report (step_workload env instructions)

-- The imports of a `WITContract` that `verify_wit_contract` finds missing, as findings.
unfoldable pub verify_wit_imports : List String → List String → List Finding
verify_wit_imports [] granted = []
verify_wit_imports (req ∷ imports) granted =
    let rest = verify_wit_imports imports granted in
    if contains granted req
    then rest
    else finding cap005 ("Missing capability grant for WIT import '" <> (req <> "'")) req ∷ rest

-- A `CapabilityHandle` of the network kind grants its scope, and the scope `*` everything.
pub data CapabilityKind : Type 0 where
  filesystem_read filesystem_write network_dial clock_monotonic env_var : CapabilityKind

pub record CapabilityHandle : Type 0 where
  pub handle_id : String
  pub kind : CapabilityKind
  pub scope : String

abbrev pub is_network : CapabilityKind → Bool
is_network network_dial = true
is_network _ = false

-- `_matches_network_scope`
abbrev pub matches_network_scope : String → CapabilityHandle → Bool
matches_network_scope target handle =
    is_network handle.kind && (str_eq handle.scope "*" || str_eq handle.scope target)

-- `check_network_dial`
unfoldable pub check_network_dial : String → List CapabilityHandle → Option Finding
check_network_dial target [] =
    some (finding cap002 ("Ambient network egress denied to '" <> (target <> "'")) target)
check_network_dial target (handle ∷ handles) =
    let rest = check_network_dial target handles in
    if matches_network_scope target handle then none else rest
