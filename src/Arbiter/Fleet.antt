-- ===== src/Arbiter/Fleet.antt =====
-- The audit and the pruning of leases, of
-- examples/worktree-swarm-arbiter/worktree_arbiter.py.
use vibes.Common.{
  ℕ, zero, suc, ◌+◌, ◌≤◌, ◌<◌, Bool, not, Option, List, [], ◌∷◌, ◌++◌, length, leb, ◌≡◌, sym, ap,
  ◌∙◌, Bool-cases, inl, inr, arith,
}
use mathlib.Core.List.{append_assoc, append-nil}
use vibes.Common.Sorting.{keep}
use vibes.Arbiter.{
  WorktreeLease, SwarmFleetStatus, World, or_clock, is_lease_expired, audit_loop,
  audit_fleet_health, prune_expired_lease, prune_loop, prune_stale_leases,
}

-- Whether a lease has reached its end at a time.
abbrev pub expired_at : ℕ → WorktreeLease → Bool
expired_at t lease = leb lease.expires_at t

-- The status after the leases, when it was `status` before.
abbrev sorted_into : ℕ → List WorktreeLease → SwarmFleetStatus → SwarmFleetStatus
sorted_into t leases status = record status {
  active_leases = status.active_leases ++ keep (λ l. not (expired_at t l)) leases;
  stale_leases = status.stale_leases ++ keep (expired_at t) leases;
}

audit_loop_lem :
    (t clock : ℕ) (leases : List WorktreeLease) (status : SwarmFleetStatus)
    → 0 < t
    → audit_loop t clock leases status ≡ sorted_into t leases status
unfolding audit_loop keep
audit_loop_lem zero clock leases status h = absurd (omega arith)
audit_loop_lem (suc t) clock [] status h =
    ap (λ a. record status { active_leases = a }) (sym (append-nil status.active_leases))
    ∙ ap (λ s. record status { active_leases = status.active_leases ++ []; stale_leases = s })
        (sym (append-nil status.stale_leases))
audit_loop_lem (suc t) clock (lease ∷ leases) status h =
    elim (Bool-cases (expired_at (suc t) lease)) [
      | inl stale ↦
          rw (stale, is_lease_expired)
            (audit_loop_lem (suc t) clock leases
                (record status { stale_leases = status.stale_leases ++ lease ∷ [] }) h
              ∙ ap
                  (λ s. record status {
                    active_leases =
                        status.active_leases ++ keep (λ l. not (expired_at (suc t) l)) leases;
                    stale_leases = s;
                  })
                  (append_assoc status.stale_leases (lease ∷ [])
                    (keep (expired_at (suc t)) leases)))
      | inr fresh ↦
          rw (fresh, is_lease_expired)
            (audit_loop_lem (suc t) clock leases
                (record status { active_leases = status.active_leases ++ lease ∷ [] }) h
              ∙ ap
                  (λ a. record status {
                    active_leases = a;
                    stale_leases = status.stale_leases ++ keep (expired_at (suc t)) leases;
                  })
                  (append_assoc status.active_leases (lease ∷ [])
                    (keep (λ l. not (expired_at (suc t) l)) leases)))
    ]

-- At a time that is not 0, the audit splits the leases by their end and counts them all.
pub audit_fleet_health_lem :
    (leases : List WorktreeLease) (now : Option ℕ) (clock : ℕ)
    → 0 < or_clock now clock
    → audit_fleet_health leases now clock ≡ record {
      active_leases = keep (λ l. not (expired_at (or_clock now clock) l)) leases;
      stale_leases = keep (expired_at (or_clock now clock)) leases;
      lock_contention_events = 0;
      total_allocated = length leases;
      pruned_count = 0;
    }
unfolding audit_fleet_health
audit_fleet_health_lem leases now clock h =
    audit_loop_lem (or_clock now clock) clock leases
      (record {
        active_leases = [];
        stale_leases = [];
        lock_contention_events = 0;
        total_allocated = length leases;
        pruned_count = 0;
      })
      h

module _ {W : Type 0} (world : World W) where
  -- The leases released one after another, with the number of those that git removed.
  unfoldable pub release_all : List WorktreeLease → ℕ → W → W × ℕ
  unfolding prune_expired_lease
  release_all [] count w = (w, count)
  release_all (lease ∷ leases) count w =
      let (w', one) = prune_expired_lease world lease w in release_all leases (count + one) w'

  abbrev pub with_retained : List WorktreeLease → W × ℕ → W × (List WorktreeLease × ℕ)
  with_retained retained released = (released.0, (retained, released.1))

  prune_loop_lem :
      (t : ℕ) (leases retained : List WorktreeLease) (count : ℕ) (w : W)
      → 0 < t
      → prune_loop world t leases retained count w
        ≡ with_retained
            (retained ++ keep (λ l. not (expired_at t l)) leases)
            (release_all (keep (expired_at t) leases) count w)
  unfolding prune_loop keep release_all
  prune_loop_lem zero leases retained count w h = absurd (omega arith)
  prune_loop_lem (suc t) [] retained count w h =
      ap (λ r. (w, (r, count))) (sym (append-nil retained))
  prune_loop_lem (suc t) (lease ∷ leases) retained count w h =
      elim (Bool-cases (expired_at (suc t) lease)) [
        | inl stale ↦
            let (w', one) = prune_expired_lease world lease w in
            rw (stale, is_lease_expired) (prune_loop_lem (suc t) leases retained (count + one) w' h)
        | inr fresh ↦
            rw (fresh, is_lease_expired)
              (prune_loop_lem (suc t) leases (retained ++ lease ∷ []) count w h
                ∙ ap (λ r. with_retained r (release_all (keep (expired_at (suc t)) leases) count w))
                    (append_assoc retained (lease ∷ [])
                      (keep (λ l. not (expired_at (suc t) l)) leases)))
      ]

  prune_expired_lease-le :
      (lease : WorktreeLease) (w : W) → (prune_expired_lease world lease w).1 ≤ 1
  unfolding prune_expired_lease
  prune_expired_lease-le lease w = ground arith

  release_all-le :
      (leases : List WorktreeLease) (count : ℕ) (w : W)
      → (release_all leases count w).1 ≤ count + length leases
  unfolding release_all
  release_all-le [] count w = omega arith
  release_all-le (lease ∷ leases) count w =
      let one = prune_expired_lease-le lease w in
      let (w', n) = prune_expired_lease world lease w in
      omega (arith, one, release_all-le leases (count + n) w')

  -- At a time that is not 0, `prune_stale_leases` retains exactly the leases that
  -- `audit_fleet_health` finds active, in their order, releases exactly those that it finds
  -- stale, one after another, and counts no more of them than there are.
  pub prune_stale_leases-audit_fleet_health :
      (leases : List WorktreeLease) (now : Option ℕ) (w : W)
      → 0 < or_clock now (world.time w)
      → (prune_stale_leases world leases now w
          ≡ with_retained
              (audit_fleet_health leases now (world.time w)).active_leases
              (release_all (audit_fleet_health leases now (world.time w)).stale_leases 0 w))
        × ((prune_stale_leases world leases now w).1.1
            ≤ length (audit_fleet_health leases now (world.time w)).stale_leases)
  unfolding prune_stale_leases
  prune_stale_leases-audit_fleet_health leases now w h =
      let t : ℕ = or_clock now (world.time w) in
      let stale = keep (expired_at t) leases in
      let pruned = prune_loop_lem t leases [] 0 w h in
      let count = ap (λ p. p.1.1) pruned in
      let bound = release_all-le stale 0 w in
      rw (audit_fleet_health_lem leases now (world.time w) h) (pruned, omega (arith, count, bound))
