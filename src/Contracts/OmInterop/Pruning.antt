-- ===== src/Contracts/OmInterop/Pruning.antt =====
-- The pruning loop: what it leaves, and how much gas is enough.
use money_interoperability.Prelude.{
  ℕ, zero, suc, ◌+◌, ◌<◌, ◌≤◌, ◌≡◌, ◌≢◌, ◌-◌, refl, true, false, Bool-cases, inl, inr, arith, ◌&&◌,
  ltb, leb, if◌then◌else◌, u64_mod,
}
use money_interoperability.World.{ok}
use money_interoperability.Contracts.OmInterop.Checkpoints.{is_complete, prune_earliest, prune_loop}
use money_interoperability.Contracts.OmInterop.State.{Layout, no_tally}

-- The loop stops at the first incomplete checkpoint from the earliest on, and forgets those before.
pub record Pruned (s s' : Layout) : Type 0 where
  pub onward : s.earliest_incompleted_checkpoint ≤ s'.earliest_incompleted_checkpoint
  pub stops : is_complete (s.checkpoint_tallies s'.earliest_incompleted_checkpoint) ≡ false
  pub passed :
      (j : ℕ)
      → s.earliest_incompleted_checkpoint ≤ j
      → j < s'.earliest_incompleted_checkpoint
      → is_complete (s.checkpoint_tallies j) ≡ true
  pub forgotten :
      (j : ℕ)
      → s'.checkpoint_tallies j ≡ (
          if leb s.earliest_incompleted_checkpoint j && ltb j s'.earliest_incompleted_checkpoint
          then no_tally
          else s.checkpoint_tallies j)

step-Pruned :
    (s s' : Layout)
    → is_complete (s.checkpoint_tallies s.earliest_incompleted_checkpoint) ≡ true
    → s.earliest_incompleted_checkpoint + 1 < u64_mod
    → Pruned (prune_earliest s) s'
    → Pruned s s'
step-Pruned s s' done small p = record {
  onward = omega (arith, p.onward);
  stops = ground (arith, p.stops, p.onward);
  passed = λ j a b. ground (arith, p.passed j);
  forgotten = λ j. ground (arith, p.forgotten j);
}

next_ne :
    (s : Layout) (k : ℕ)
    → k ≡ 0
    → is_complete (s.checkpoint_tallies s.earliest_incompleted_checkpoint) ≡ true
    → is_complete (s.checkpoint_tallies (s.earliest_incompleted_checkpoint + k)) ≡ false
    → ⊥
next_ne s k e done gap = ground arith

next_gap :
    (s : Layout) (k : ℕ)
    → k ≢ 0
    → s.earliest_incompleted_checkpoint + k < u64_mod
    → is_complete (s.checkpoint_tallies (s.earliest_incompleted_checkpoint + k)) ≡ false
    → is_complete (
        (prune_earliest s).checkpoint_tallies
          ((prune_earliest s).earliest_incompleted_checkpoint + (k - 1)))
      ≡ false
next_gap s k away small gap =
    let at : (prune_earliest s).earliest_incompleted_checkpoint + (k - 1)
        ≡ s.earliest_incompleted_checkpoint + k =
      omega arith in
    rw at (ground (arith, gap))

-- If some checkpoint that is fewer rounds away than the gas allows is incomplete, the loop returns.
pub prune_loop-Pruned :
    (gas k : ℕ) (s : Layout)
    → k < gas
    → s.earliest_incompleted_checkpoint + k < u64_mod
    → is_complete (s.checkpoint_tallies (s.earliest_incompleted_checkpoint + k)) ≡ false
    → (s' : Layout) × (prune_loop gas s ≡ ok s') × Pruned s s'
unfolding prune_loop
prune_loop-Pruned zero k s lt small gap = absurd (omega arith)
prune_loop-Pruned (suc gas) k s lt small gap =
    elim (Bool-cases (is_complete (s.checkpoint_tallies s.earliest_incompleted_checkpoint))) [
      | inr stays ↦ (
        s,
        rw stays refl,
        record {
          onward = omega arith;
          stops = stays;
          passed = λ j a b. absurd (omega arith);
          forgotten = λ j. ground arith;
        },
      )
      | inl done ↦
          let away : k ≢ 0 = λ zero_away. next_ne s k zero_away done gap in
          let (s', e, p) =
            prune_loop-Pruned gas (k - 1) (prune_earliest s) (omega arith) (omega arith)
              (next_gap s k away small gap) in
          (s', rw done e, step-Pruned s s' done (omega arith) p)
    ]
