-- ===== src/Lsm/Policies.antt =====
-- What a stricter policy does to the verdicts of examples/ebpf-lsm-kernel-gate/lsm_gate.py.
use vibes.Common.{
  Bool, true, false, ◌&&◌, ◌||◌, not, Option, none, some, List, [], ◌∷◌, ◌≡◌, refl, ◌≤◌, Bool-cases,
  inl, inr, arith, ap,
}
use vibes.Common.Texts.{Text, text_eq, text_eq→eq, is_member, occurs, strip, starts_with}
use vibes.Lsm.{
  LsmPolicy, LsmEvent, LsmVerdict, audit, LsmFinding, Platform, LsmHookType, evaluate_event,
  evaluate_evasion, hook_evaluator, evaluate_bprm, evaluate_socket, evaluate_file, first_blocked,
  is_ip_blocked, block, allow, file_open, bprm_check, socket_connect, task_setuid, capset,
}
use vibes.Lsm.Campaign.{count_blocked, is_block}

-- Every text of the one list is in the other.
unfoldable pub is_subset : List Text → List Text → Bool
unfolding is_member
is_subset [] ys = true
is_subset (x ∷ xs) ys = is_member x ys && is_subset xs ys

-- `q` allows no binary that `p` does not allow, and blocks all that `p` blocks.
pub record Tightens (p q : LsmPolicy) : Type 0 where
  pub fewer_allowed : is_subset q.allowed_binaries p.allowed_binaries ≡ true
  pub more_blocked : is_subset p.blocked_binaries q.blocked_binaries ≡ true
  pub more_paths : is_subset p.blocked_paths q.blocked_paths ≡ true
  pub still_loopback : (not p.allow_loopback_only || q.allow_loopback_only) ≡ true

is_member-subset :
    (x : Text) (xs ys : List Text)
    → is_subset xs ys ≡ true
    → is_member x xs ≡ true
    → is_member x ys ≡ true
unfolding is_subset is_member
is_member-subset x [] ys h m = cc
is_member-subset x (z ∷ xs) ys h m = ground (arith, text_eq→eq z x, is_member-subset x xs ys)

is_block→eq : (verdict : LsmVerdict) → is_block verdict ≡ true → verdict ≡ block
is_block→eq allow h = cc
is_block→eq block h = refl
is_block→eq audit h = cc

abbrev blocks : Option LsmFinding → Bool
blocks none = false
blocks (some finding) = is_block finding.verdict

-- A path that is blocked stays so under a longer list.
first_blocked_by :
    (event : LsmEvent) (norm prefix : Text) (paths : List Text)
    → is_member prefix paths ≡ true
    → (starts_with norm prefix || occurs prefix norm) ≡ true
    → blocks (first_blocked event norm paths) ≡ true
unfolding is_member first_blocked
first_blocked_by event norm prefix [] m h = cc
first_blocked_by event norm prefix (x ∷ paths) m h =
    elim (Bool-cases (starts_with norm x || occurs x norm)) [
      | inl here ↦ rw here refl
      | inr past ↦ elim (Bool-cases (text_eq x prefix)) [
        | inl same ↦
            let e : x ≡ prefix = text_eq→eq x prefix same in
            absurd (let p = rw e at past in cc (p, h))
        | inr other ↦ rw past (first_blocked_by event norm prefix paths (rw other at m) h)
      ]
    ]

first_blocked-subset :
    (event : LsmEvent) (norm : Text) (paths others : List Text)
    → is_subset paths others ≡ true
    → blocks (first_blocked event norm paths) ≡ true
    → blocks (first_blocked event norm others) ≡ true
unfolding is_subset first_blocked
first_blocked-subset event norm [] others h e = cc
first_blocked-subset event norm (x ∷ paths) others h e =
    let member : is_member x others ≡ true = ground arith in
    let rest : is_subset paths others ≡ true = ground arith in
    elim (Bool-cases (starts_with norm x || occurs x norm)) [
      | inl here ↦ first_blocked_by event norm x others member here
      | inr past ↦ first_blocked-subset event norm paths others rest (rw past at e)
    ]

module _ (platform : Platform) (event : LsmEvent) (p q : LsmPolicy) (t : Tightens p q) where
  abbrev StillBlocked : (LsmPolicy → Option LsmFinding) → Type 0
  StillBlocked evaluator = blocks (evaluator p) ≡ true → blocks (evaluator q) ≡ true

  evaluate_bprm-Tightens : StillBlocked (evaluate_bprm platform event)
  unfolding evaluate_bprm
  evaluate_bprm-Tightens e =
      let comm : Text = platform.lower (strip event.comm) in
      let more = is_member-subset comm p.blocked_binaries q.blocked_binaries t.more_blocked in
      let fewer = is_member-subset comm q.allowed_binaries p.allowed_binaries t.fewer_allowed in
      ground (arith, more, fewer)

  evaluate_socket-Tightens : StillBlocked (evaluate_socket platform event)
  unfolding evaluate_socket is_ip_blocked
  evaluate_socket-Tightens e = ground (arith, t.still_loopback)

  evaluate_file-Tightens : StillBlocked (evaluate_file event)
  unfolding evaluate_file
  evaluate_file-Tightens e =
      first_blocked-subset event (strip event.target) p.blocked_paths q.blocked_paths t.more_paths e

  hook_evaluator-Tightens : (hook : LsmHookType) → StillBlocked (hook_evaluator platform hook event)
  unfolding hook_evaluator evaluate_bprm evaluate_socket evaluate_file
  hook_evaluator-Tightens bprm_check e = evaluate_bprm-Tightens e
  hook_evaluator-Tightens socket_connect e = evaluate_socket-Tightens e
  hook_evaluator-Tightens file_open e = evaluate_file-Tightens e
  hook_evaluator-Tightens task_setuid e = e
  hook_evaluator-Tightens capset e = e

  -- For every platform and event, and two policies of which the second allows no binary that the
  -- first does not allow, blocks every binary and every path that the first blocks, and still
  -- confines to loopback if the first does: what `evaluate_event` blocks under the first policy
  -- it blocks under the second.
  pub evaluate_event-Tightens :
      (evaluate_event platform event (some p)).verdict ≡ block
      → (evaluate_event platform event (some q)).verdict ≡ block
  unfolding evaluate_event evaluate_evasion
  evaluate_event-Tightens h = ground (arith, hook_evaluator-Tightens event.hook)

pub count_blocked-Tightens :
    (platform : Platform) (p q : LsmPolicy) (t : Tightens p q) (events : List LsmEvent)
    → count_blocked platform p events ≤ count_blocked platform q events
unfolding count_blocked
count_blocked-Tightens platform p q t [] = omega arith
count_blocked-Tightens platform p q t (e ∷ events) =
    let ih = count_blocked-Tightens platform p q t events in
    let still = evaluate_event-Tightens platform e p q t in
    elim (Bool-cases (is_block (evaluate_event platform e (some p)).verdict)) [
      | inl before ↦
          let after : is_block (evaluate_event platform e (some q)).verdict ≡ true =
            ap is_block (still (is_block→eq _ before)) in
          rw (before, after) (omega (arith, ih))
      | inr free ↦ rw free (ground (arith, ih))
    ]
