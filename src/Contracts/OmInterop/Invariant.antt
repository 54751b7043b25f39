-- ===== src/Contracts/OmInterop/Invariant.antt =====
-- The invariant of OMInterop, and what a method does to the parts that the invariant reads.
use money_interoperability.Prelude.{
  ℕ, zero, suc, ◌+◌, ◌≤◌, ◌≡◌, ◌≢◌, refl, sym, ◌∙◌, Bool, List, [], ◌∷◌, ◌++◌, arith, ltb, u64_max,
}
use money_interoperability.World.{Address, Hash, Reply, ok, err, OmInteropEvents}
use money_interoperability.Contracts.OmInterop.Checkpoints.{
  update_checkpoint_info, count_processed, certify_new, prune_earliest, prune_loop,
  try_prune_checkpoint, count_certified, count_completed, certify, certify_all, complete_bridge,
  record_processed_bridge,
}
use money_interoperability.Contracts.OmInterop.Numbering.{
  nonces, upto, burns, nonces-append, burns-append,
}
use money_interoperability.Contracts.OmInterop.State.{Layout, Env, Error, CheckpointTally}
use money_interoperability.Contracts.Outcome.{
  Ends, accepted, refused, revert_if-Ends, if-Ends, bind-Ends, any-Ends,
}

-- No token has more in flight than its limit.
abbrev pub IsLimited : Layout → Type 0
IsLimited s =
    (token : Address)
    → (s.rate_limits_param token).window ≢ 0
    → (s.rate_limits_data token).amount_in_flight ≤ (s.rate_limits_param token).limit

-- The nonces of the events count up from 0 to the next one, the burn nonce of an account counts its
-- transfers, and the limits and the 64 bits hold.
pub record IsValid (s : Layout) : Type 0 where
  pub numbered : nonces s.events ≡ upto s.next_inbound_nonce
  pub counted : (a : Address) → burns a s.events ≡ s.latest_bb_nonce a
  pub limited : IsLimited s
  pub inbound_bounded : s.next_inbound_nonce ≤ u64_max
  pub burns_bounded : (a : Address) → s.latest_bb_nonce a ≤ u64_max
  pub unset_oracle : s.public_price_oracle ≡ 0

-- A change that emits `es`.
pub record Step (es : List OmInteropEvents) (s s' : Layout) : Type 0 where
  pub emitted : s'.events ≡ s.events ++ es
  pub inbound : upto s'.next_inbound_nonce ≡ upto s.next_inbound_nonce ++ nonces es
  pub accounts : (a : Address) → s'.latest_bb_nonce a ≡ s.latest_bb_nonce a + burns a es
  pub limits : IsLimited s → IsLimited s'
  pub inbound_bound : s.next_inbound_nonce ≤ u64_max → s'.next_inbound_nonce ≤ u64_max
  pub burns_bound : (a : Address) → s.latest_bb_nonce a ≤ u64_max → s'.latest_bb_nonce a ≤ u64_max
  pub oracle : s'.public_price_oracle ≡ s.public_price_oracle

pub Step-IsValid :
    {es : List OmInteropEvents} {s s' : Layout} → Step es s s' → IsValid s → IsValid s'
Step-IsValid {es} {s} p v = record {
  numbered = rw (p.emitted, nonces-append s.events es, v.numbered) (sym p.inbound);
  counted =
      λ a. rw (p.emitted) (omega (arith, burns-append a s.events es, v.counted a, p.accounts a));
  limited = p.limits v.limited;
  inbound_bounded = p.inbound_bound v.inbound_bounded;
  burns_bounded = λ a. p.burns_bound a (v.burns_bounded a);
  unset_oracle = p.oracle ∙ v.unset_oracle;
}

-- What the inner functions change: the next inbound nonce and the burn nonces, as given.
pub record Change (next : ℕ) (latest : Address → ℕ) (s s' : Layout) : Type 0 where
  pub inbound : s'.next_inbound_nonce ≡ next
  pub accounts : (a : Address) → s'.latest_bb_nonce a ≡ latest a
  pub limits : IsLimited s → IsLimited s'
  pub emitted : s'.events ≡ s.events
  pub oracle : s'.public_price_oracle ≡ s.public_price_oracle

abbrev pub Same : Layout → Layout → Type 0
Same s s' = Change s.next_inbound_nonce s.latest_bb_nonce s s'

pub Change-Same :
    {n : ℕ} {l : Address → ℕ} {a b c : Layout} → Change n l a b → Same b c → Change n l a c
Change-Same x y = record {
  inbound = y.inbound ∙ x.inbound;
  accounts = λ a. y.accounts a ∙ x.accounts a;
  limits = λ lim. y.limits (x.limits lim);
  emitted = y.emitted ∙ x.emitted;
  oracle = y.oracle ∙ x.oracle;
}

pub Same-refl : (s : Layout) → Same s s
Same-refl s = record {
  inbound = refl;
  accounts = λ a. refl;
  limits = λ lim. lim;
  emitted = refl;
  oracle = refl;
}

-- `Same`, by fields that compute.
abbrev pub Kept : Layout → Reply Error Layout → Type 0
Kept s = Ends (Same s) (λ _. Unit)

Kept-trans : {a b : Layout} (r : Reply Error Layout) → Same a b → Kept b r → Kept a r
Kept-trans (ok c) x (accepted y) = accepted (Change-Same x y)
Kept-trans (err e) x (refused q) = refused q

-- An update of the tallies, the recorded checkpoints and the processed burns.
stored-Same :
    (s : Layout) (earliest : ℕ) (tallies : ℕ → CheckpointTally) (ids : Hash → ℕ)
    (processed : Hash → Bool)
    → Same s (record s {
      earliest_incompleted_checkpoint = earliest;
      checkpoint_tallies = tallies;
      checkpoint_ids_by_source_hash = ids;
      processed_bridges = processed;
    })
stored-Same s earliest tallies ids processed = record {
  inbound = refl;
  accounts = λ a. refl;
  limits = λ l. l;
  emitted = refl;
  oracle = refl;
}

prune_loop-Kept : (gas : ℕ) (s : Layout) → Kept s (prune_loop gas s)
unfolding prune_loop
prune_loop-Kept zero s = refused tt
prune_loop-Kept (suc gas) s =
    let rest = prune_loop-Kept gas (prune_earliest s) in
    if-Ends _ _ _ (λ _. Kept-trans _ (stored-Same s _ _ _ _) rest) (λ _. accepted (Same-refl s))

try_prune_checkpoint-Kept : (gas id : ℕ) (s : Layout) → Kept s (try_prune_checkpoint gas id s)
unfolding try_prune_checkpoint
try_prune_checkpoint-Kept gas id s =
    if-Ends _ _ _ (λ _. accepted (Same-refl s)) (λ _. prune_loop-Kept gas s)

certify_new-Kept : (id : ℕ) (h : Hash) (s : Layout) → Kept s (certify_new id h s)
unfolding certify_new
certify_new-Kept id h s =
    bind-Ends _ _ (any-Ends (count_certified _))
      λ t _. bind-Ends _ _ (any-Ends (count_processed _ t)) λ t' _. accepted (stored-Same s _ _ _ _)

certify-Kept : (id : ℕ) (h : Hash) (s : Layout) → Kept s (certify id h s)
unfolding certify
certify-Kept id h s = if-Ends _ _ _ (λ _. certify_new-Kept id h s) (λ _. accepted (Same-refl s))

certify_all-Kept : (id : ℕ) (hs : List Hash) (s : Layout) → Kept s (certify_all id hs s)
unfolding certify_all
certify_all-Kept id [] s = accepted (Same-refl s)
certify_all-Kept id (h ∷ hs) s =
    bind-Ends _ _ (certify-Kept id h s) λ s' same. Kept-trans _ same (certify_all-Kept id hs s')

complete_bridge-Kept :
    (gas : ℕ) (h : Hash) (id : ℕ) (s : Layout) → Kept s (complete_bridge gas h id s)
unfolding complete_bridge
complete_bridge-Kept gas h id s =
    bind-Ends _ _ (any-Ends (count_completed _))
      λ t _. Kept-trans _ (stored-Same s _ _ _ _) (try_prune_checkpoint-Kept gas id _)

pub record_processed_bridge-Kept :
    (gas : ℕ) (h : Hash) (id : ℕ) (s : Layout) → Kept s (record_processed_bridge gas h id s)
unfolding record_processed_bridge
record_processed_bridge-Kept gas h id s =
    if-Ends (ltb 0 id) _ _
      (λ _. Kept-trans _ (stored-Same s _ _ _ _) (complete_bridge-Kept gas h id _))
      (λ _. accepted (stored-Same s _ _ _ _))

pub update_checkpoint_info-Kept :
    (env : Env) (id : ℕ) (hs : List Hash) (s : Layout) → Kept s (update_checkpoint_info env id hs s)
unfolding update_checkpoint_info
update_checkpoint_info-Kept env id hs s = revert_if-Ends _ _ _ tt λ _. revert_if-Ends _ _ _ tt λ _.
    revert_if-Ends _ _ _ tt λ _.
      bind-Ends _ _ (certify_all-Kept id hs s)
        λ s' same. Kept-trans _ same (try_prune_checkpoint-Kept env.gas id s')
