-- ===== src/Arbiter/Locks.antt =====
-- Allocation behind git's index lock, of
-- examples/worktree-swarm-arbiter/worktree_arbiter.py.
use vibes.Common.{
  ℕ, zero, suc, ◌<◌, Bool, true, false, not, List, [], ◌∷◌, ◌++◌, ◌≡◌, refl, ap, ◌∙◌, if◌then◌else◌,
  arith, Option, some, none, Bool-cases, inl, inr,
}
use vibes.Common.Int.{ℤ, pos, is_zero}
use vibes.Common.Texts.{Text, codes, strip}
use vibes.Arbiter.{
  WorktreeLease, World, GitRun, completed, not_run, wait_for_index_lock, run_git_command,
  allocate_worktree, add_worktree, or_else,
}

module _ {W : Type 0} (world : World W) where
  -- The world after `k` pauses.
  abbrev pub paused : ℕ → W → W
  paused zero w = w
  paused (suc k) w = paused k (world.sleep w)

  -- The lock is there at each of `k` looks, with a pause after each.
  abbrev pub LockedFor : ℕ → W → Type 0
  LockedFor zero w = Unit {0}
  LockedFor (suc k) w = (world.index_lock_is_file w ≡ true) × LockedFor k (world.sleep w)

  wait_for_index_lock_free :
      (k max_attempts : ℕ) (w : W)
      → k < max_attempts
      → LockedFor k w
      → world.index_lock_is_file (paused k w) ≡ false
      → wait_for_index_lock world max_attempts w ≡ (paused k w, true)
  unfolding wait_for_index_lock
  wait_for_index_lock_free k zero w h locked free = absurd (omega arith)
  wait_for_index_lock_free zero (suc max_attempts) w h locked free =
      rw (free, wait_for_index_lock) refl
  wait_for_index_lock_free (suc k) (suc max_attempts) w h (now, later) free =
      rw (now, wait_for_index_lock)
        (wait_for_index_lock_free k max_attempts (world.sleep w) (omega arith) later free)

  wait_for_index_lock_locked :
      (max_attempts : ℕ) (w : W)
      → LockedFor max_attempts w
      → wait_for_index_lock world max_attempts w ≡ (paused max_attempts w, false)
  unfolding wait_for_index_lock
  wait_for_index_lock_locked zero w locked = refl
  wait_for_index_lock_locked (suc max_attempts) w (now, later) =
      rw (now, wait_for_index_lock) (wait_for_index_lock_locked max_attempts (world.sleep w) later)

  -- The command that allocates.
  abbrev pub add_command : WorktreeLease → List Text
  add_command lease =
      codes "worktree"
      ∷ codes "add"
      ∷ codes "-b"
      ∷ lease.branch_name
      ∷ world.path_str lease.worktree_path
      ∷ codes "HEAD"
      ∷ []

  -- What `allocate_worktree` makes of the answer of git, of the `mkdir`, and of the wait.
  abbrev after_git : WorktreeLease → W × (ℤ × Text) → W × (Bool × Text)
  after_git lease (w, (code, output)) =
      if is_zero code
      then (w, (true, lease.lease_id))
      else (w, (false, codes "WORKTREE_ADD_FAILED: " ++ output))

  abbrev after_mkdir : WorktreeLease → W × Bool → W × Option (Bool × Text)
  after_mkdir lease (w, made) =
      let (w', answer) = add_worktree world lease w in if made then (w', some answer) else (w, none)

  abbrev after_wait : WorktreeLease → W × Bool → W × Option (Bool × Text)
  after_wait lease (w, free) =
      if not free
      then (w, some (false, codes "INDEX_LOCK_TIMEOUT"))
      else after_mkdir lease (world.make_parent lease.worktree_path w)

  -- What `run_git_command` makes of a run.
  abbrev answered : W × GitRun → W × (ℤ × Text)
  answered (w, completed code stdout stderr) = (w, (code, or_else (strip stdout) (strip stderr)))
  answered (w, not_run exc) = (w, (pos 1, codes "GIT_EXEC_ERROR: " ++ exc))

  run_git_command_completed :
      (cmd : List Text) (w : W) {w' : W} {code : ℤ} {stdout stderr : Text}
      → world.run_git cmd w ≡ (w', completed code stdout stderr)
      → run_git_command world cmd w ≡ (w', (code, or_else (strip stdout) (strip stderr)))
  unfolding run_git_command
  run_git_command_completed cmd w ran = ap answered ran

  add_worktree_completed :
      (lease : WorktreeLease) (w w' : W) (code : ℤ) (stdout stderr : Text)
      → world.run_git (add_command lease) w ≡ (w', completed code stdout stderr)
      → add_worktree world lease w ≡ (
          if is_zero code then (w', (true, lease.lease_id)) else (
            w',
            (false, codes "WORKTREE_ADD_FAILED: " ++ or_else (strip stdout) (strip stderr)),
          ))
  unfolding add_worktree
  add_worktree_completed lease w w' code stdout stderr ran =
      ap (after_git lease) (run_git_command_completed (add_command lease) w ran)

  -- After the `mkdir`.
  after_mkdir_lem :
      (lease : WorktreeLease) (w1 w2 : W) (made : Bool) (code : ℤ) (stdout stderr : Text)
      → (made ≡ true → world.run_git (add_command lease) w1 ≡ (w2, completed code stdout stderr))
      → after_mkdir lease (w1, made) ≡ (
          if not made
          then (w1, none)
          else if is_zero code
          then (w2, some (true, lease.lease_id))
          else (
            w2,
            some (false, codes "WORKTREE_ADD_FAILED: " ++ or_else (strip stdout) (strip stderr)),
          ))
  after_mkdir_lem lease w1 w2 false code stdout stderr ran = refl
  after_mkdir_lem lease w1 w2 true code stdout stderr ran =
      let after : W × (Bool × Text) → W × Option (Bool × Text) = λ r. (r.0, some r.1) in
      ap after (add_worktree_completed lease w1 w2 code stdout stderr (ran refl))
      ∙ elim (Bool-cases (is_zero code)) [ inl e ↦ rw e refl | inr e ↦ rw e refl ]

  -- Behind a lock that is there at five looks, nothing is allocated.
  pub allocate_worktree_timeout :
      (lease : WorktreeLease) (w : W)
      → LockedFor 5 w
      → allocate_worktree world lease w ≡ (paused 5 w, some (false, codes "INDEX_LOCK_TIMEOUT"))
  unfolding allocate_worktree
  allocate_worktree_timeout lease w locked =
      ap (after_wait lease) (wait_for_index_lock_locked 5 w locked)

  -- When the index lock is there at the first `k` looks, fewer than five, and gone at the next,
  -- `allocate_worktree` pauses `k` times and makes the parent directory. If that fails, the
  -- OSError goes to the caller and git is not run; else, when git then completes, it returns the
  -- identifier of the lease if git's return code is 0, and else the failure with git's output.
  pub allocate_worktree_free :
      (k : ℕ) (lease : WorktreeLease) (w w1 w2 : W) (made : Bool) (code : ℤ) (stdout stderr : Text)
      → k < 5
      → LockedFor k w
      → world.index_lock_is_file (paused k w) ≡ false
      → world.make_parent lease.worktree_path (paused k w) ≡ (w1, made)
      → (made ≡ true → world.run_git (add_command lease) w1 ≡ (w2, completed code stdout stderr))
      → allocate_worktree world lease w ≡ (
          if not made
          then (w1, none)
          else if is_zero code
          then (w2, some (true, lease.lease_id))
          else (
            w2,
            some (false, codes "WORKTREE_ADD_FAILED: " ++ or_else (strip stdout) (strip stderr)),
          ))
  unfolding allocate_worktree
  allocate_worktree_free k lease w w1 w2 made code stdout stderr h locked free parent ran =
      ap (after_wait lease) (wait_for_index_lock_free k 5 w h locked free)
      ∙ ap (after_mkdir lease) parent
      ∙ after_mkdir_lem lease w1 w2 made code stdout stderr ran
