-- ===== src/Tests/Calls.antt =====
-- A tool that is refused at first, and a worktree behind a lock.
use vibes.Common.{
  ℕ, ◌+◌, ◌-◌, ◌*◌, ◌/◌, ◌^◌, ◌≤◌, true, none, some, [], ◌∷◌, ◌++◌, length, ◌≡◌, refl, ltb,
  if◌then◌else◌, arith,
}
use vibes.Common.Int.{pos}
use vibes.Common.Texts.{codes}
use vibes.Gateway.{
  Floats, RateLimitConfig, FastMcpGateway, Outcome, value, limited, returned, limit_raised,
  invoke_with_backoff,
}
use vibes.Gateway.Retries.{
  pauses, succeeded, gave_up, after_of, invoke_with_backoff_recovers, invoke_with_backoff_gives_up,
}
use vibes.Arbiter.{
  World, WorktreeLease, completed, prune_stale_leases, audit_fleet_health, allocate_worktree,
}
use vibes.Arbiter.Fleet.{release_all, with_retained, prune_stale_leases-audit_fleet_health}
use vibes.Arbiter.Locks.{allocate_worktree_free}

-- Whole numbers in place of floating point ones.
abbrev whole : Floats ℕ
whole = record {
  lt = ltb;
  plus = ◌+◌;
  minus = ◌-◌;
  times = ◌*◌;
  over = ◌/◌;
  power = λ n. 2 ^ n;
  nought = 0;
  one = 1;
  tenth = 0;
}

abbrev config : RateLimitConfig ℕ
config = record {
  tokens_per_second = 5;
  burst_capacity = 10;
  max_retries = 3;
  base_backoff_seconds = 1;
  max_backoff_seconds = 5;
}

abbrev longest : ℕ → ℕ → ℕ → ℕ
longest attempt low high = high

abbrev at_third : ℕ → Outcome ℕ ℕ ℕ
at_third n = if ltb n 2 then limited (some 7) else value 42

abbrev never : ℕ → Outcome ℕ ℕ ℕ
never n = limited none

abbrev gateway : FastMcpGateway ℕ ℕ ℕ
gateway = record {
  limiter = record { tokens = 10; last_refill = 0 };
  telemetry = record {
    total_requests = 1;
    throttled_requests = 0;
    total_wait_seconds = 0;
    successful_invocations = 0;
    failed_invocations = 0;
  };
  tools = [];
  slept = [];
}

invoke_with_backoff_recovers_example : invoke_with_backoff whole config longest gateway at_third ≡ (
  record gateway {
    telemetry = succeeded gateway.telemetry;
    slept = gateway.slept ++ pauses whole config longest at_third 0 2;
  },
  returned 42,
)
invoke_with_backoff_recovers_example =
    invoke_with_backoff_recovers whole config longest at_third 2 gateway (omega arith)
      ((some 7, refl), ((some 7, refl), tt)) refl

invoke_with_backoff_gives_up_example : invoke_with_backoff whole config longest gateway never ≡ (
  record gateway {
    telemetry = gave_up gateway.telemetry;
    slept = gateway.slept ++ pauses whole config longest never 0 2;
  },
  limit_raised (after_of (never 2)),
)
invoke_with_backoff_gives_up_example =
    invoke_with_backoff_gives_up whole config longest never 2 gateway refl
      ((none, refl), ((none, refl), ((none, refl), tt)))

-- The world counts the pauses, and the lock goes at the second.
abbrev world : World ℕ
world = record {
  time = λ w. w + 100;
  ticks = 1;
  index_lock_is_file = λ w. ltb w 2;
  sleep = λ w. w + 1;
  make_parent = λ path w. (w, true);
  run_git = λ cmd w. (w, completed (pos 0) [] []);
  killpg = λ group w. (w, true);
  path_under = λ dir name. dir ++ name;
  resolve = λ path. path;
  path_str = λ path. path;
  lower = λ s. s;
  is_alnum = λ c. true;
}

abbrev lease : ℕ → WorktreeLease
lease end = record {
  lease_id = codes "wt-a-1";
  agent_id = codes "a";
  branch_name = codes "agent/wt-a-1";
  worktree_path = codes "/w/wt-a-1";
  allocated_at = 1;
  expires_at = end;
  last_heartbeat = 1;
  process_group_id = pos 0;
}

prune_stale_leases-audit_fleet_health_example :
    (prune_stale_leases world (lease 50 ∷ lease 500 ∷ []) none 0
      ≡ with_retained world
          (audit_fleet_health (lease 50 ∷ lease 500 ∷ []) none 100).active_leases
          (release_all world
            (audit_fleet_health (lease 50 ∷ lease 500 ∷ []) none 100).stale_leases
            0
            0))
    × ((prune_stale_leases world (lease 50 ∷ lease 500 ∷ []) none 0).1.1
        ≤ length (audit_fleet_health (lease 50 ∷ lease 500 ∷ []) none 100).stale_leases)
prune_stale_leases-audit_fleet_health_example =
    prune_stale_leases-audit_fleet_health world (lease 50 ∷ lease 500 ∷ []) none 0 (omega arith)

allocate_worktree_free_example :
    allocate_worktree world (lease 500) 0 ≡ (2, some (true, codes "wt-a-1"))
allocate_worktree_free_example =
    allocate_worktree_free world 2 (lease 500) 0 2 2 true (pos 0) [] [] (omega arith)
      (refl, (refl, tt)) refl refl (λ made. refl)
