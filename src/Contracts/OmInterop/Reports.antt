-- ===== src/Contracts/OmInterop/Reports.antt =====
-- The report of a checkpoint: the tally that it leaves.
use money_interoperability.Prelude.{
  not, ℕ, ◌+◌, ◌≡◌, ◌≢◌, refl, Bool, false, List, [], ◌∷◌, length, All, arith, ◌==◌,
}
use money_interoperability.World.{Hash}
use money_interoperability.Contracts.Mapping.{put}
use money_interoperability.Contracts.OmInterop.Checkpoints.{
  is_complete, try_prune_checkpoint, count_certified, count_processed, certify_new, certify,
  certify_all, store_tally, update_checkpoint_info,
}
use money_interoperability.Contracts.OmInterop.State.{Layout, Env, Error, CheckpointTally}
use money_interoperability.Contracts.Outcome.{
  Ends, accepted, revert_if-Ends, bind-Ends, if-Ends, map-Ends,
}

-- The earliest incomplete checkpoint is `n`, with `certified` burns of which `completed` are bridged,
-- and the one after it is incomplete too.
pub record Stands (n certified completed : ℕ) (s : Layout) : Type 0 where
  pub earliest : s.earliest_incompleted_checkpoint ≡ n
  pub certifies : (s.checkpoint_tallies n).certified ≡ certified
  pub completes : (s.checkpoint_tallies n).completed ≡ completed
  pub next_open : is_complete (s.checkpoint_tallies (n + 1)) ≡ false

-- Distinct hashes of which none is recorded and none is bridged.
abbrev pub AreNew : (Hash → ℕ) → (Hash → Bool) → List Hash → Type 0
AreNew ids processed [] = Unit
AreNew ids processed (h ∷ hs) =
    (ids h ≡ 0) × (processed h ≡ false) × All (λ j. h ≢ j) hs × AreNew ids processed hs

put-AreNew :
    (ids : Hash → ℕ) (processed : Hash → Bool) (h : Hash) (n : ℕ) (hs : List Hash)
    → All (λ j. h ≢ j) hs
    → AreNew ids processed hs
    → AreNew (put ids h n) processed hs
put-AreNew ids processed h n [] away new = tt
put-AreNew ids processed h n (j ∷ hs) away (unrecorded, unbridged, distinct, new) =
    (ground (arith, away.0), unbridged, distinct, put-AreNew ids processed h n hs away.1 new)

count_certified-Ends :
    (t : CheckpointTally)
    → Ends {E = Error}
        (λ t'. (t'.certified ≡ t.certified + 1) × (t'.completed ≡ t.completed))
        (λ _. Unit {0})
        (count_certified t)
unfolding count_certified
count_certified-Ends t = revert_if-Ends _ _ _ tt λ _. accepted (refl, refl)

count_unprocessed :
    (t : CheckpointTally)
    → Ends {E = Error}
        (λ t'. (t'.certified ≡ t.certified) × (t'.completed ≡ t.completed))
        (λ _. Unit {0})
        (count_processed false t)
unfolding count_processed
count_unprocessed t = accepted (refl, refl)

module _ (n : ℕ) where
  -- A new tally of the checkpoint `n`, and other recorded checkpoints.
  pub restored-Stands :
      {c k c' k' : ℕ} (s : Layout) (t : CheckpointTally) (ids : Hash → ℕ)
      → Stands n c k s
      → t.certified ≡ c'
      → t.completed ≡ k'
      → Stands n c' k' (record (store_tally n s t) { checkpoint_ids_by_source_hash = ids })
  restored-Stands s t ids st certifies completes = record {
    earliest = st.earliest;
    certifies = ground (arith, certifies);
    completes = ground (arith, completes);
    next_open = ground (arith, st.next_open);
  }

  certify-Stands :
      (h : Hash) (c : ℕ) (s : Layout)
      → Stands n c 0 s
      → s.checkpoint_ids_by_source_hash h ≡ 0
      → s.processed_bridges h ≡ false
      → Ends
          (λ s'.
            Stands n (c + 1) 0 s'
            × (s'.checkpoint_ids_by_source_hash ≡ put s.checkpoint_ids_by_source_hash h n)
            × (s'.processed_bridges ≡ s.processed_bridges))
          (λ _. Unit)
          (certify n h s)
  unfolding certify certify_new
  certify-Stands h c s st unrecorded unbridged =
      if-Ends (s.checkpoint_ids_by_source_hash h == 0) _ _
        (λ _. rw unbridged (
          bind-Ends _ _ (count_certified-Ends _) λ t (up, same).
            bind-Ends _ _ (count_unprocessed t) λ t' (same₁, same₂). accepted (
              restored-Stands s t' _ st (omega (arith, same₁, up, st.certifies))
                  (omega (arith, same₂, same, st.completes)),
              refl,
              refl,
            )))
        (λ recorded. absurd (ground arith))

  certify_all-Stands :
      (hs : List Hash) (c : ℕ) (s : Layout)
      → Stands n c 0 s
      → AreNew s.checkpoint_ids_by_source_hash s.processed_bridges hs
      → Ends
          (λ s'. (c' : ℕ) × (c' ≡ c + length hs) × Stands n c' 0 s')
          (λ _. Unit)
          (certify_all n hs s)
  unfolding certify_all
  certify_all-Stands [] c s st new = accepted (c, omega arith, st)
  certify_all-Stands (h ∷ hs) c s st (unrecorded, unbridged, distinct, new) =
      bind-Ends _ _ (certify-Stands h c s st unrecorded unbridged) λ s' (st', ids, processed).
        map-Ends _ (λ s'' (c', counts, st''). (c', omega (arith, counts), st'')) (λ _ _. tt)
          (certify_all-Stands hs (c + 1) s' st' (
            rw (ids, processed)
              (put-AreNew s.checkpoint_ids_by_source_hash s.processed_bridges h n hs distinct new)))

  -- The report leaves the checkpoint with all its burns certified, and none bridged.
  pub report-Stands :
      (env : Env) (hs : List Hash) (s : Layout)
      → Stands n 0 0 s
      → AreNew s.checkpoint_ids_by_source_hash s.processed_bridges hs
      → Ends (Stands n (length hs) 0) (λ _. Unit) (update_checkpoint_info env n hs s)
  unfolding update_checkpoint_info try_prune_checkpoint
  report-Stands env hs s st new = revert_if-Ends _ _ _ tt λ _. revert_if-Ends _ _ _ tt λ _.
      revert_if-Ends _ _ _ tt λ _.
        bind-Ends _ _ (certify_all-Stands hs 0 s st new) λ s' (c', counts, st').
          if-Ends (not (is_complete (s'.checkpoint_tallies n))) _ _
            (λ _. let total : c' ≡ length hs = omega (arith, counts) in accepted (rw total at st'))
            (λ complete. absurd (ground (arith, st'.completes)))
