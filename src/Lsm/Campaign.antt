-- ===== src/Lsm/Campaign.antt =====
-- The fuzz campaign against the gate, lines 231 to 275 of
-- examples/ebpf-lsm-kernel-gate/lsm_gate.py. The rounded quotient of the
-- report, of counts of which the second is never 0, is a parameter.
use vibes.Common.{
  ℕ, suc, ◌-◌, Bool, true, false, Option, some, List, [], ◌∷◌, ◌++◌, map, length, leb,
  if◌then◌else◌,
}
use vibes.Common.Int.{pos}
use vibes.Common.Texts.{Text, codes}
use vibes.Lsm.{
  Platform, LsmEvent, LsmPolicy, LsmHookType, LsmVerdict, allow, block, audit, file_open,
  socket_connect, bprm_check, task_setuid, metadata_endpoint, evaluate_event, or_default,
}

pub record FuzzReport (Rate : Type 0) : Type 0 where
  pub total_probes : ℕ
  pub blocked_probes : ℕ
  pub allowed_probes : ℕ
  pub containment_rate : Rate
  pub monotonically_contained : Bool

unfoldable pub generate_syz_path_mutations : Text → List Text
generate_syz_path_mutations base =
    (base ++ codes "/../../etc/shadow")
    ∷ (base ++ codes "//..//root")
    ∷ (base ++ codes "/.../etc/sudoers")
    ∷ (base ++ codes "/\\0.git/hooks")
    ∷ (base ++ codes "/.git/hooks/pre-commit")
    ∷ []

-- The texts of the addresses that the code builds from their bytes.
unfoldable pub generate_syz_socket_mutations : List Text
generate_syz_socket_mutations =
    metadata_endpoint
    ∷ codes "10.0.0.1"
    ∷ codes "172.16.0.1"
    ∷ codes "192.168.1.1"
    ∷ codes "fd00::1"
    ∷ codes "127.0.0.1"
    ∷ []

-- An event with the defaults for the flags and the process.
abbrev pub event_of : LsmHookType → Text → Text → ℕ → LsmEvent
event_of hook comm target uid = record {
  hook = hook;
  comm = comm;
  target = target;
  flags = pos 0;
  uid = pos uid;
  pid = pos 1001;
}

unfoldable pub collect_fuzz_events : Text → List LsmEvent
unfolding generate_syz_path_mutations generate_syz_socket_mutations
collect_fuzz_events base_path =
    map (λ p. event_of file_open (codes "runner") p 1000) (generate_syz_path_mutations base_path)
    ++ map (λ a. event_of socket_connect (codes "runner") a 1000) generate_syz_socket_mutations
    ++ map (λ b. event_of bprm_check b (codes "/bin/" ++ b) 1000)
        (codes "nc" ∷ codes "socat" ∷ codes "unknown_compiler" ∷ [])
    ++ event_of task_setuid (codes "runner") (codes "root") 0 ∷ []

abbrev pub is_block : LsmVerdict → Bool
is_block allow = false
is_block block = true
is_block audit = false

module _ (platform : Platform) where
  -- `sum(1 for e in events if evaluate_event(e, pol).verdict == LSMVerdict.BLOCK)`
  unfoldable pub count_blocked : LsmPolicy → List LsmEvent → ℕ
  unfolding evaluate_event
  count_blocked policy [] = 0
  count_blocked policy (e ∷ events) =
      let rest = count_blocked policy events in
      if is_block (evaluate_event platform e (some policy)).verdict then suc rest else rest

  unfoldable pub run_fuzz_campaign :
      {Rate : Type 0} → (ℕ → ℕ → Rate) → Option LsmPolicy → FuzzReport Rate
  unfolding collect_fuzz_events count_blocked
  run_fuzz_campaign rounded policy =
      let events = collect_fuzz_events (codes "/workspace") in
      let blocked = count_blocked (or_default policy) events in
      let total = length events in
      let allowed = total - blocked in
      record {
        total_probes = total;
        blocked_probes = blocked;
        allowed_probes = allowed;
        containment_rate = rounded blocked total;
        monotonically_contained = leb allowed 1;
      }
