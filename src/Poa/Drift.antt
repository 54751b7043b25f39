-- ===== src/Poa/Drift.antt =====
-- The shared nonce over the relay of an epoch, which logs a failed update and goes on.
use money_interoperability.Prelude.{◌&&◌, none, false, some, Option, ℕ, ◌≡◌, refl, inl, inr, List}
use money_interoperability.World.{
  Address, reverted, send, ValidatorRegistration, Tx, get_validators, History, Fault, Secp256k1Key,
  World, ValidatorInfo, ok,
}
use money_interoperability.Action.{
  fetch_add, ask, pure, State, Exit, done, fail, panic, waiting, ◌>>=◌,
}
use money_interoperability.Action.Nonces.{IsAligned, IsAhead, Settled, Disciplined, discipline}
use money_interoperability.Submit.{settle_required, send_required}
use money_interoperability.Submit.Discipline.{send_required-Disciplined}
use money_interoperability.Onemoney.Stream.{attempt}
use money_interoperability.Onemoney.Types.{Epoch}
use money_interoperability.Sidechain.Diff.{compute_validator_diffs}
use money_interoperability.Sidechain.Error as SidechainErrors
use money_interoperability.Sidechain.Error.{validator_manager_contract_reverted}
use money_interoperability.Sidechain.Keys.{address}
use money_interoperability.Sidechain.Update.{
  registration, all_some, is_empty, send_update, process_new_validator_set, or_panic,
}
use money_interoperability.Poa.{Error, validator_infos, process_epoch}

module _ {base : ℕ} (w : World) where
  or_panic-Disciplined : {E A : Type 0} (o : Option A) → Disciplined base {E = E} (or_panic o)
  or_panic-Disciplined none = search discipline
  or_panic-Disciplined (some a) = search discipline

  send_update-Disciplined :
      (add : List ValidatorInfo) (remove : List Secp256k1Key)
      → Disciplined base (send_update w add remove)
  unfolding send_update
  send_update-Disciplined add remove =
      search (discipline, or_panic-Disciplined, send_required-Disciplined) depth 9

  process_new_validator_set-Disciplined :
      (new : List ValidatorInfo) → Disciplined base (process_new_validator_set w new)
  unfolding process_new_validator_set
  process_new_validator_set-Disciplined new = search (discipline, send_update-Disciplined) depth 9

-- The relay of an epoch returns although the update may have failed, with a nonce that is then one
-- ahead.
pub data Survived (base : ℕ) (exit : Exit Error (Unit {0})) (s : State) : Type 0 where
  in_step : exit ≡ done tt → IsAligned base s → Survived base exit s
  drifted : exit ≡ done tt → IsAhead base s → Survived base exit s
  panicked : exit ≡ panic → IsAligned base s → Survived base exit s
  unfinished : exit ≡ waiting → IsAligned base s → Survived base exit s

epoch-Survived :
    (base : ℕ) (w : World) (r : Exit SidechainErrors.Error (Unit {0})) (t s : State)
    → Settled base r t
    → let (exit, s') = (attempt w {F = Error} (λ _. (r, t)) >>= λ _. pure tt) s in
      Survived base exit s'
unfolding attempt ◌>>=◌
epoch-Survived base w (done a) t s h = in_step refl h
epoch-Survived base w (fail e) t s (inl h) = in_step refl h
epoch-Survived base w (fail e) t s (inr h) = drifted refl h
epoch-Survived base w panic t s h = panicked refl h
epoch-Survived base w waiting t s h = unfinished refl h

-- If the keys of an epoch are points, its relay from an aligned nonce returns with an aligned nonce or
-- with one that is one ahead, or it panics or waits with an aligned one; it never fails.
pub process_epoch-Survived :
    (base : ℕ) (w : World) (epoch : Epoch) (infos : List ValidatorInfo) (s : State)
    → validator_infos w epoch.validator_set.members ≡ ok infos
    → IsAligned base s
    → let (exit, s') = process_epoch w (ok epoch) s in Survived base exit s'
unfolding process_epoch ◌>>=◌ attempt
process_epoch-Survived base w epoch infos s valid aligned =
    rw valid
      (epoch-Survived base w _ _ s ((process_new_validator_set-Disciplined w infos).at s aligned))

-- The services during an update that the contract reverts.
pub record Rejects (w : World) (old : List ValidatorInfo) (e : Fault) : Type 0 where
  pub validators : (h : History) → w.respond h get_validators ≡ ok old
  pub rejects : (h : History) (tx : Tx) (n : ℕ) → w.respond h (send tx n) ≡ reverted e

update_rejected :
    (base : ℕ) (w : World) (infos old : List ValidatorInfo) (e : Fault)
    (registrations : List ValidatorRegistration) (addresses : List Address) (s : State)
    → Rejects w old e
    → (is_empty (compute_validator_diffs old infos).0
        && is_empty (compute_validator_diffs old infos).1)
      ≡ false
    → all_some (registration w) (compute_validator_diffs old infos).0 ≡ some registrations
    → all_some (address w) (compute_validator_diffs old infos).1 ≡ some addresses
    → IsAligned base s
    → let (exit, t) = process_new_validator_set w infos s in
      (exit ≡ fail (validator_manager_contract_reverted e)) × IsAhead base t
unfolding process_new_validator_set send_update send_required settle_required ◌>>=◌ ask fetch_add
update_rejected base w infos old e registrations addresses s world changed encoded removed aligned =
    rw (world.validators, changed, encoded, removed, world.rejects)
      (
        refl,
        record {
          due = s.relayer_nonce;
          bounded = aligned.bounded;
          skipped = refl;
          consecutive = aligned.consecutive;
        },
      )

-- After a failed update the relay of an epoch goes on from the state that the update left.
failure_logged :
    (base : ℕ) (w : World) (r : Exit SidechainErrors.Error (Unit {0})) (t s : State)
    (x : SidechainErrors.Error)
    → r ≡ fail x
    → IsAhead base t
    → let (exit, s') = (attempt w {F = Error} (λ _. (r, t)) >>= λ _. pure tt) s in
      (exit ≡ done tt) × IsAhead base s'
unfolding attempt ◌>>=◌
failure_logged base w r t s x e h = rw e (refl, h)

-- If the keys of an epoch are points, the difference to the old set is not empty, its keys encode,
-- and the contract reverts the update, then the relay of the epoch returns without an error, and the
-- nonce is one ahead.
pub process_epoch-IsAhead :
    (base : ℕ) (w : World) (epoch : Epoch) (infos old : List ValidatorInfo) (e : Fault)
    (registrations : List ValidatorRegistration) (addresses : List Address) (s : State)
    → validator_infos w epoch.validator_set.members ≡ ok infos
    → Rejects w old e
    → (is_empty (compute_validator_diffs old infos).0
        && is_empty (compute_validator_diffs old infos).1)
      ≡ false
    → all_some (registration w) (compute_validator_diffs old infos).0 ≡ some registrations
    → all_some (address w) (compute_validator_diffs old infos).1 ≡ some addresses
    → IsAligned base s
    → let (exit, s') = process_epoch w (ok epoch) s in (exit ≡ done tt) × IsAhead base s'
unfolding process_epoch ◌>>=◌ attempt
process_epoch-IsAhead base w epoch infos old e registrations addresses s valid world changed encoded
      removed aligned =
    let (failed, ahead) =
      update_rejected base w infos old e registrations addresses s world changed encoded removed
        aligned in
    rw valid (failure_logged base w _ _ s _ failed ahead)
