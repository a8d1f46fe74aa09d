-- ===== src/Lsm/Contained.antt =====
-- The verdict of the fuzz campaign of examples/ebpf-lsm-kernel-gate/lsm_gate.py, on a platform that
-- knows the addresses and the names of the campaign.
use vibes.Common.{
  ℕ, true, false, some, List, [], ◌∷◌, ◌≡◌, refl, ◌≤◌, ◌+◌, arith, All, leb, ◌-◌, Bool-cases, inl,
  inr, length, take, drop, ◌++◌,
}
use vibes.Common.Texts.{Text, codes, strip}
use vibes.Lsm.{
  LsmPolicy, LsmEvent, Platform, Address, evaluate_event, evaluate_evasion, hook_evaluator,
  evaluate_bprm, evaluate_socket, evaluate_file, evaluate_privilege, is_ip_blocked, block,
  default_policy, clean_ip_target, socket_connect,
}
use vibes.Lsm.Campaign.{count_blocked, is_block, run_fuzz_campaign, collect_fuzz_events, event_of}
use vibes.Lsm.Policies.{Tightens, count_blocked-Tightens}

-- `ipaddress.ip_address` takes the text for a private address that is no loopback address.
abbrev IsPrivate : Platform → Text → Type 0
IsPrivate platform text =
    (ip : Address) × (platform.ip_address text ≡ some ip)
    × (ip.is_loopback ≡ false)
    × (ip.is_private ≡ true)

-- What Python documents of `str.lower` and of `ipaddress` for the texts of the campaign.
pub record KnowsCampaign (platform : Platform) : Type 0 where
  pub lower_nc : platform.lower (codes "nc") ≡ codes "nc"
  pub lower_socat : platform.lower (codes "socat") ≡ codes "socat"
  pub lower_compiler : platform.lower (codes "unknown_compiler") ≡ codes "unknown_compiler"
  pub lower_root : platform.lower (codes "root") ≡ codes "root"
  pub ten : IsPrivate platform (codes "10.0.0.1")
  pub sixteen : IsPrivate platform (codes "172.16.0.1")
  pub local : IsPrivate platform (codes "192.168.1.1")
  pub unique_local : IsPrivate platform (codes "fd00::1")

at_most_one : (n : ℕ) → 14 ≤ n → leb (15 - n) 1 ≡ true
at_most_one n h = ground arith

module _ (platform : Platform) (k : KnowsCampaign platform) where
  abbrev IsBlocked : LsmEvent → Type 0
  IsBlocked event = (evaluate_event platform event (some default_policy)).verdict ≡ block

  abbrev probes : List LsmEvent
  unfolding collect_fuzz_events
  probes = collect_fuzz_events (codes "/workspace")

  socket-IsBlocked :
      (a : Text)
      → clean_ip_target (strip a) ≡ a
      → IsPrivate platform a
      → IsBlocked (event_of socket_connect (codes "runner") a 1000)
  unfolding evaluate_event evaluate_evasion hook_evaluator evaluate_socket is_ip_blocked
  socket-IsBlocked a e (ip, known, far, private) = ground (arith)

  before_loopback : All IsBlocked (take 10 probes)
  unfolding collect_fuzz_events evaluate_event evaluate_evasion hook_evaluator evaluate_socket
      is_ip_blocked evaluate_file clean_ip_target strip
  before_loopback = (
    refl,
    (
      refl,
      (
        refl,
        (
          refl,
          (
            refl,
            (
              refl,
              (
                socket-IsBlocked _ refl k.ten,
                (
                  socket-IsBlocked _ refl k.sixteen,
                  (socket-IsBlocked _ refl k.local, (socket-IsBlocked _ refl k.unique_local, tt)),
                ),
              ),
            ),
          ),
        ),
      ),
    ),
  )

  after_loopback : All IsBlocked (drop 11 probes)
  unfolding collect_fuzz_events evaluate_event evaluate_evasion hook_evaluator evaluate_bprm
      evaluate_privilege
  after_loopback =
      (rw k.lower_nc refl, (rw k.lower_socat refl, (rw k.lower_compiler refl, (refl, tt))))

  count_blocked-append :
      (xs ys : List LsmEvent)
      → All IsBlocked xs
      → count_blocked platform default_policy (xs ++ ys)
        ≡ length xs + count_blocked platform default_policy ys
  unfolding count_blocked
  count_blocked-append [] ys h = omega arith
  count_blocked-append (e ∷ xs) ys (now, later) =
      rw now (omega (arith, count_blocked-append xs ys later))

  count_blocked-cons_le :
      (e : LsmEvent) (ys : List LsmEvent)
      → count_blocked platform default_policy ys ≤ count_blocked platform default_policy (e ∷ ys)
  unfolding count_blocked
  count_blocked-cons_le e ys =
      elim (Bool-cases (is_block (evaluate_event platform e (some default_policy)).verdict)) [
        | inl blocked ↦ rw blocked (omega arith)
        | inr free ↦ rw free (omega arith)
      ]

  default_blocks_most : 14 ≤ count_blocked platform default_policy probes
  unfolding collect_fuzz_events
  default_blocks_most =
      let before = count_blocked-append (take 10 probes) (drop 10 probes) before_loopback in
      let after = count_blocked-append (drop 11 probes) [] after_loopback in
      let loopback =
        count_blocked-cons_le (event_of socket_connect (codes "runner") (codes "127.0.0.1") 1000)
          (drop 11 probes) in
      omega (arith, before, after, loopback)

  -- On a platform that knows the campaign's private addresses and lowers its names to themselves:
  -- under every policy that is at least as strict as the default, the campaign has 15 probes,
  -- blocks at least 14 of them, and reports that it is contained.
  pub run_fuzz_campaign-contained :
      {Rate : Type 0} (rounded : ℕ → ℕ → Rate) (q : LsmPolicy)
      → Tightens default_policy q
      → ((run_fuzz_campaign platform rounded (some q)).monotonically_contained ≡ true)
        × (14 ≤ (run_fuzz_campaign platform rounded (some q)).blocked_probes)
        × ((run_fuzz_campaign platform rounded (some q)).total_probes ≡ 15)
  unfolding run_fuzz_campaign
  run_fuzz_campaign-contained rounded q t =
      let more = count_blocked-Tightens platform default_policy q t probes in
      (
        at_most_one _ (omega (arith, more, default_blocks_most)),
        omega (arith, more, default_blocks_most),
        refl,
      )
