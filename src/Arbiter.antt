-- ===== src/Arbiter.antt =====
-- The leases of git worktrees, lines 38 to 227 of
-- examples/worktree-swarm-arbiter/worktree_arbiter.py. Times are whole numbers of ticks. The file
-- system, git, the signals and the tables of Unicode are a parameter, over a state of the world.
pub mod Fleet
pub mod Locks
use vibes.Common.{
  ℕ, zero, suc, ◌+◌, ◌*◌, ◌/◌, Bool, true, false, not, Option, none, some, List, [], ◌∷◌, ◌++◌, map,
  length, leb, ◌==◌, if◌then◌else◌,
}
use vibes.Common.Int.{ℤ, pos, negsuc, is_zero}
use vibes.Common.Texts.{Text, codes, strip}
use vibes.Common.Decimal.{digits}

pub record WorktreeLease : Type 0 where
  pub lease_id : Text
  pub agent_id : Text
  pub branch_name : Text
  pub worktree_path : Text
  pub allocated_at : ℕ
  pub expires_at : ℕ
  pub last_heartbeat : ℕ
  pub process_group_id : ℤ

pub record SwarmFleetStatus : Type 0 where
  pub active_leases : List WorktreeLease
  pub stale_leases : List WorktreeLease
  pub lock_contention_events : ℕ
  pub total_allocated : ℕ
  pub pruned_count : ℕ

-- What a run of git ends in: its return code with both outputs, or TimeoutExpired or OSError.
pub data GitRun : Type 0 where
  completed : ℤ → Text → Text → GitRun
  not_run : Text → GitRun

-- `time` is the clock. `make_parent` is `Path(path).parent.mkdir(parents=True, exist_ok=True)`, with
-- `false` for an OSError; `path_str` is `str(Path(path))`; `killpg` says whether the group was found
-- and the signal permitted.
pub record World (W : Type 0) : Type 0 where
  pub time : W → ℕ
  pub ticks : ℕ
  pub index_lock_is_file : W → Bool
  pub sleep : W → W
  pub make_parent : Text → W → W × Bool
  pub run_git : List Text → W → W × GitRun
  pub killpg : ℤ → W → W × Bool
  pub path_under : Text → Text → Text
  pub resolve : Text → Text
  pub path_str : Text → Text
  pub lower : Text → Text
  pub is_alnum : ℕ → Bool

-- `timestamp or time.time()`
abbrev pub or_clock : Option ℕ → ℕ → ℕ
or_clock none clock = clock
or_clock (some zero) clock = clock
or_clock (some (suc n)) clock = suc n

-- `a or b`, for texts
abbrev pub or_else : Text → Text → Text
or_else [] b = b
or_else (c ∷ a) b = c ∷ a

-- `pgid <= 0`
abbrev is_unset : ℤ → Bool
is_unset (pos n) = n == 0
is_unset (negsuc n) = true

unfoldable pub is_lease_expired : WorktreeLease → Option ℕ → ℕ → Bool
is_lease_expired lease now clock = leb lease.expires_at (or_clock now clock)

unfoldable pub refresh_lease_heartbeat : WorktreeLease → ℕ → ℕ → WorktreeLease
refresh_lease_heartbeat lease extension now = record {
  lease_id = lease.lease_id;
  agent_id = lease.agent_id;
  branch_name = lease.branch_name;
  worktree_path = lease.worktree_path;
  allocated_at = lease.allocated_at;
  expires_at = now + extension;
  last_heartbeat = now;
  process_group_id = lease.process_group_id;
}

-- The loop of `audit_fleet_health`.
unfoldable pub audit_loop : ℕ → ℕ → List WorktreeLease → SwarmFleetStatus → SwarmFleetStatus
unfolding is_lease_expired
audit_loop current_time clock [] status = status
audit_loop current_time clock (lease ∷ leases) status = audit_loop current_time clock leases (
    if is_lease_expired lease (some current_time) clock
    then record status { stale_leases = status.stale_leases ++ lease ∷ [] }
    else record status { active_leases = status.active_leases ++ lease ∷ [] })

unfoldable pub audit_fleet_health : List WorktreeLease → Option ℕ → ℕ → SwarmFleetStatus
unfolding audit_loop
audit_fleet_health leases now clock = audit_loop (or_clock now clock) clock leases (record {
  active_leases = [];
  stale_leases = [];
  lock_contention_events = 0;
  total_allocated = length leases;
  pruned_count = 0;
})

module _ {W : Type 0} (world : World W) where
  open world use {time, ticks, index_lock_is_file, sleep, make_parent, run_git, killpg}

  unfoldable pub generate_lease_id : Text → Option ℕ → W → Text
  unfolding digits
  generate_lease_id agent_id timestamp w =
      let ts = or_clock timestamp (time w) / ticks in
      let sanitized = map (λ ch. if world.is_alnum ch then ch else b'-') (world.lower agent_id) in
      codes "wt-" ++ sanitized ++ codes "-" ++ digits ts

  unfoldable pub build_worktree_lease : Text → Text → ℕ → W → WorktreeLease
  unfolding generate_lease_id
  build_worktree_lease agent_id base_dir ttl w =
      let now = time w in
      let lease_id = generate_lease_id agent_id (some now) w in
      record {
        lease_id = lease_id;
        agent_id = agent_id;
        branch_name = codes "agent/" ++ lease_id;
        worktree_path = world.resolve (world.path_under base_dir lease_id);
        allocated_at = now;
        expires_at = now + ttl;
        last_heartbeat = now;
        process_group_id = pos 0;
      }

  unfoldable pub is_index_locked : W → Bool
  is_index_locked w = index_lock_is_file w

  -- The attempts that are left.
  unfoldable pub wait_for_index_lock : ℕ → W → W × Bool
  unfolding is_index_locked
  wait_for_index_lock zero w = (w, false)
  wait_for_index_lock (suc max_attempts) w =
      let later = wait_for_index_lock max_attempts (sleep w) in
      if not (is_index_locked w) then (w, true) else later

  unfoldable pub run_git_command : List Text → W → W × (ℤ × Text)
  unfolding strip
  run_git_command cmd w =
      let (w', run) = run_git cmd w in
      elim run [
        | completed code stdout stderr ↦ (w', (code, or_else (strip stdout) (strip stderr)))
        | not_run exc ↦ (w', (pos 1, codes "GIT_EXEC_ERROR: " ++ exc))
      ]

  -- `git worktree add` in `allocate_worktree`, from the state that the `mkdir` left.
  unfoldable pub add_worktree : WorktreeLease → W → W × (Bool × Text)
  unfolding run_git_command
  add_worktree lease w =
      let cmd =
        codes "worktree"
        ∷ codes "add"
        ∷ codes "-b"
        ∷ lease.branch_name
        ∷ world.path_str lease.worktree_path
        ∷ codes "HEAD"
        ∷ [] in
      let (w', answer) = run_git_command cmd w in
      if is_zero answer.0
      then (w', (true, lease.lease_id))
      else (w', (false, codes "WORKTREE_ADD_FAILED: " ++ answer.1))

  -- `none` is the OSError of the `mkdir`, which nothing catches.
  unfoldable pub allocate_worktree : WorktreeLease → W → W × Option (Bool × Text)
  unfolding wait_for_index_lock add_worktree
  allocate_worktree lease w =
      let (w1, free) = wait_for_index_lock 5 w in
      let (w2, made) = make_parent lease.worktree_path w1 in
      let (w3, answer) = add_worktree lease w2 in
      if not free
      then (w1, some (false, codes "INDEX_LOCK_TIMEOUT"))
      else if made
      then (w3, some answer)
      else (w2, none)

  unfoldable pub terminate_lease_process_group : WorktreeLease → W → W × Bool
  terminate_lease_process_group lease w =
      if is_unset lease.process_group_id then (w, true) else killpg lease.process_group_id w

  unfoldable pub release_worktree : WorktreeLease → W → W × (Bool × Text)
  unfolding terminate_lease_process_group run_git_command
  release_worktree lease w =
      let (w1, terminated) = terminate_lease_process_group lease w in
      let cmd =
        codes "worktree"
        ∷ codes "remove"
        ∷ codes "--force"
        ∷ world.path_str lease.worktree_path
        ∷ [] in
      let (w2, answer) = run_git_command cmd w1 in
      let (w3, pruned) = run_git_command (codes "worktree" ∷ codes "prune" ∷ []) w2 in
      let (w4, removed) =
        run_git_command (codes "branch" ∷ codes "-D" ∷ lease.branch_name ∷ []) w3 in
      (w4, (is_zero answer.0, answer.1))

  unfoldable pub prune_expired_lease : WorktreeLease → W → W × ℕ
  unfolding release_worktree
  prune_expired_lease lease w =
      let (w', done) = release_worktree lease w in (w', if done.0 then 1 else 0)

  -- The loop of `prune_stale_leases`.
  unfoldable pub prune_loop :
      ℕ → List WorktreeLease → List WorktreeLease → ℕ → W → W × (List WorktreeLease × ℕ)
  unfolding prune_expired_lease is_lease_expired
  prune_loop current_time [] retained pruned_count w = (w, (retained, pruned_count))
  prune_loop current_time (lease ∷ leases) retained pruned_count w =
      let (w', one) = prune_expired_lease lease w in
      let released = prune_loop current_time leases retained (pruned_count + one) w' in
      let kept = prune_loop current_time leases (retained ++ lease ∷ []) pruned_count w in
      if is_lease_expired lease (some current_time) (time w) then released else kept

  unfoldable pub prune_stale_leases :
      List WorktreeLease → Option ℕ → W → W × (List WorktreeLease × ℕ)
  unfolding prune_loop
  prune_stale_leases leases now w = prune_loop (or_clock now (time w)) leases [] 0 w
