-- ===== src/Lsm.antt =====
-- The authorisation of kernel operations, lines 22 to 228 of examples/ebpf-lsm-kernel-gate/lsm_gate.py.
-- The tables of Unicode behind `str.lower`, and the module `ipaddress`, are a parameter.
pub mod Campaign
pub mod Contained
pub mod Policies
use vibes.Common.{
  ℕ, zero, suc, Bool, true, false, ◌&&◌, ◌||◌, not, Option, none, some, List, [], ◌∷◌, ◌++◌, take,
  drop, length, leb, ◌==◌, if◌then◌else◌, String,
}
use vibes.Common.Int.{ℤ, is_negative, is_zero}
use vibes.Common.Texts.{Text, codes, starts_with, find, occurs, strip, text_eq, is_member}

abbrev pub disallowed_binaries : List Text
disallowed_binaries =
    codes "nc"
    ∷ codes "ncat"
    ∷ codes "netcat"
    ∷ codes "socat"
    ∷ codes "telnet"
    ∷ codes "chattr"
    ∷ codes "tcpdump"
    ∷ []

abbrev pub default_allowed_binaries : List Text
default_allowed_binaries =
    codes "python"
    ∷ codes "pytest"
    ∷ codes "git"
    ∷ codes "bash"
    ∷ codes "sh"
    ∷ codes "ruff"
    ∷ codes "cargo"
    ∷ codes "go"
    ∷ []

abbrev pub blocked_path_prefixes : List Text
blocked_path_prefixes =
    codes "/etc/shadow"
    ∷ codes "/etc/sudoers"
    ∷ codes "/root"
    ∷ codes "~/.ssh"
    ∷ codes "~/.aws"
    ∷ codes ".git/hooks"
    ∷ codes "/proc/kcore"
    ∷ []

abbrev pub metadata_endpoint : Text
metadata_endpoint = codes "169.254.169.254"

pub data LsmHookType : Type 0 where
  bprm_check file_open socket_connect task_setuid capset : LsmHookType

pub data LsmVerdict : Type 0 where
  allow block audit : LsmVerdict

pub record LsmEvent : Type 0 where
  pub hook : LsmHookType
  pub comm : Text
  pub target : Text
  pub flags : ℤ
  pub uid : ℤ
  pub pid : ℤ

-- The sets of binaries are lists.
pub record LsmPolicy : Type 0 where
  pub allowed_binaries : List Text
  pub blocked_binaries : List Text
  pub blocked_paths : List Text
  pub allow_loopback_only : Bool
  pub enforce_syz_bounds : Bool

abbrev pub default_policy : LsmPolicy
default_policy = record {
  allowed_binaries = default_allowed_binaries;
  blocked_binaries = disallowed_binaries;
  blocked_paths = blocked_path_prefixes;
  allow_loopback_only = true;
  enforce_syz_bounds = true;
}

pub record LsmFinding : Type 0 where
  pub rule_id : String
  pub verdict : LsmVerdict
  pub event : LsmEvent
  pub reason : Text

-- What the code reads of an address of `ipaddress`; `text` is `str(ip)`.
pub record Address : Type 0 where
  pub is_loopback : Bool
  pub is_private : Bool
  pub is_link_local : Bool
  pub text : Text

-- `ip_address` is `none` where `ipaddress.ip_address` raises ValueError.
pub record Platform : Type 0 where
  pub lower : Text → Text
  pub ip_address : Text → Option Address

abbrev pub blocked : String → LsmEvent → Text → Option LsmFinding
blocked rule_id event reason =
    some (record { rule_id = rule_id; verdict = block; event = event; reason = reason })

-- The zero byte, and a backslash before 0.
unfoldable pub is_suspicious_evasion : Text → Bool
unfolding occurs
is_suspicious_evasion target =
    if occurs (0 ∷ []) target || occurs (codes "\\0") target
    then true
    else occurs (codes "..//") target
      || occurs (codes ".../") target
      || occurs (codes "/..") target
      || occurs (codes "\\..") target

unfoldable pub evaluate_evasion : LsmEvent → Option LsmFinding
unfolding is_suspicious_evasion
evaluate_evasion event =
    if is_negative event.flags || is_suspicious_evasion event.target
    then blocked "LSM005" event (codes "Adversarial syscall evasion attempt: " ++ event.target)
    else none

abbrev is_nonempty : Text → Bool
is_nonempty [] = false
is_nonempty (c ∷ text) = true

-- The number of `:` in a text, and the text before the first.
abbrev count_colons : Text → ℕ
count_colons [] = 0
count_colons (c ∷ text) = let rest = count_colons text in if c == b':' then suc rest else rest

abbrev before_colon : Text → Text
before_colon [] = []
before_colon (c ∷ text) = let rest = before_colon text in if c == b':' then [] else c ∷ rest

-- `clean[1 : clean.index("]")]`, for a text that starts with a bracket
abbrev in_brackets : Text → ℕ → Text
in_brackets clean close = drop 1 (take close clean)

unfoldable pub clean_ip_target : Text → Text
unfolding strip find starts_with
clean_ip_target target =
    let clean = strip target in
    let host = if count_colons clean == 1 then before_colon clean else clean in
    if starts_with clean (codes "[")
    then elim (find clean (codes "]")) [ none ↦ host | some close ↦ in_brackets clean close ]
    else host

-- The rest of `_is_ip_blocked`, once the address is parsed.
abbrev is_address_blocked : Address → Bool → Bool
is_address_blocked ip allow_loopback_only =
    if ip.is_loopback
    then false
    else if ip.is_private || ip.is_link_local || text_eq ip.text metadata_endpoint
    then true
    else allow_loopback_only

-- The loop over the prefixes, for the stripped target.
unfoldable pub first_blocked : LsmEvent → Text → List Text → Option LsmFinding
unfolding starts_with occurs
first_blocked event norm [] = none
first_blocked event norm (prefix ∷ prefixes) =
    let later = first_blocked event norm prefixes in
    if starts_with norm prefix || occurs prefix norm
    then blocked "LSM003" event (codes "Sensitive filesystem path access blocked: " ++ norm)
    else later

unfoldable pub evaluate_file : LsmEvent → LsmPolicy → Option LsmFinding
unfolding strip first_blocked
evaluate_file event policy = first_blocked event (strip event.target) policy.blocked_paths

abbrev pub permitted : LsmEvent → LsmFinding
permitted event = record {
  rule_id = "LSM000";
  verdict = allow;
  event = event;
  reason = codes "Permitted by in-kernel LSM policy";
}

-- `policy or LSMPolicy()`
abbrev pub or_default : Option LsmPolicy → LsmPolicy
or_default none = default_policy
or_default (some policy) = policy

module _ (platform : Platform) where
  unfoldable pub evaluate_bprm : LsmEvent → LsmPolicy → Option LsmFinding
  unfolding strip is_member
  evaluate_bprm event policy =
      let comm = platform.lower (strip event.comm) in
      if is_member comm policy.blocked_binaries
      then blocked "LSM001" event (codes "Explicitly blocked binary execution: " ++ comm)
      else if is_nonempty comm && not (is_member comm policy.allowed_binaries)
      then blocked "LSM001" event (codes "Unauthorized binary outside sandbox allowlist: " ++ comm)
      else none

  unfoldable pub is_ip_blocked : Text → Bool → Bool
  unfolding clean_ip_target text_eq
  is_ip_blocked target allow_loopback_only = elim (platform.ip_address (clean_ip_target target)) [
    | none ↦ false
    | some ip ↦ is_address_blocked ip allow_loopback_only
  ]

  unfoldable pub evaluate_socket : LsmEvent → LsmPolicy → Option LsmFinding
  unfolding strip text_eq is_ip_blocked
  evaluate_socket event policy =
      let target = strip event.target in
      if text_eq target metadata_endpoint || is_ip_blocked target policy.allow_loopback_only
      then blocked "LSM002" event
          (codes "Network egress violation to unauthorized address: " ++ target)
      else none

  unfoldable pub evaluate_privilege : LsmEvent → LsmPolicy → Option LsmFinding
  unfolding is_member
  evaluate_privilege event policy =
      if is_zero event.uid
        || is_member (platform.lower event.target)
            (codes "root" ∷ codes "cap_sys_admin" ∷ codes "cap_net_admin" ∷ [])
      then blocked "LSM004" event (codes "Privilege escalation attempt: " ++ event.target)
      else none

  -- `_HOOK_EVALUATORS`
  abbrev pub hook_evaluator : LsmHookType → LsmEvent → LsmPolicy → Option LsmFinding
  unfolding evaluate_bprm evaluate_socket evaluate_file evaluate_privilege
  hook_evaluator bprm_check = evaluate_bprm
  hook_evaluator socket_connect = evaluate_socket
  hook_evaluator file_open = evaluate_file
  hook_evaluator task_setuid = evaluate_privilege
  hook_evaluator capset = evaluate_privilege

  unfoldable pub evaluate_event : LsmEvent → Option LsmPolicy → LsmFinding
  unfolding evaluate_evasion hook_evaluator
  evaluate_event event policy = elim (evaluate_evasion event) [
    | some evasion ↦ evasion
    | none ↦ elim (hook_evaluator event.hook event (or_default policy)) [
      | some finding ↦ finding
      | none ↦ permitted event
    ]
  ]
