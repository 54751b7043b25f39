-- ===== src/Onemoney/Types.antt =====
-- code/crates/relayer/src/onemoney/types: epochs and their certificates, validators, and certified
-- transactions.
use money_interoperability.Prelude.{ℕ, Option, none, some, String, List}
use money_interoperability.World.{
  World, Address, Hash, TxPayload, token_burn_and_bridge, ValidatorInfo, Validator, ValidatorSet,
  Message, Certificate, genesis, epoch, RawEpoch, Reply, ok, err,
}
use money_interoperability.Onemoney.Error.{Error, invalid_validator_key}

pub record Epoch : Type 0 where
  pub epoch_id : ℕ
  pub certificate_hash : Hash
  pub validator_set : ValidatorSet

abbrev proposal_message : Certificate → Message
proposal_message (genesis proposal) = proposal.message
proposal_message (epoch proposal) = proposal.message

-- `impl From<RawEpoch> for Epoch`: the validators of the certificate's proposal, of either kind.
unfoldable pub epoch_from_raw : RawEpoch → Epoch
epoch_from_raw raw = record {
  epoch_id = raw.epoch_id;
  certificate_hash = raw.certificate_hash;
  validator_set = (proposal_message raw.certificate).validator_set;
}

module _ (w : World) where
  abbrev coordinate_or : Address → Option ℕ → Reply Error ℕ
  coordinate_or address none = err (invalid_validator_key address)
  coordinate_or address (some c) = ok c

  abbrev info_of_coordinates : Reply Error ℕ → Reply Error ℕ → Reply Error ValidatorInfo
  info_of_coordinates (err e) y = err e
  info_of_coordinates (ok x) (err e) = err e
  info_of_coordinates (ok x) (ok y) =
      ok (record { validator_key = record { x = x; y = y }; power = 100 })

  -- `impl TryFrom<Validator> for ValidatorInfo`: the coordinates of the key, with a power of 100.
  unfoldable pub validator_info : Validator → Reply Error ValidatorInfo
  validator_info v =
      let (x, y) = w.uncompressed_point v.consensus_public_key in
      info_of_coordinates (coordinate_or v.address x) (coordinate_or v.address y)

-- The payload of a burn-and-bridge transaction, as the certified transaction carries it.
pub record TokenBurnAndBridgePayload : Type 0 where
  pub chain_id : ℕ
  pub nonce : ℕ
  pub sender : Address
  pub value : ℕ
  pub token : Address
  pub destination_chain_id : ℕ
  pub destination_address : String
  pub escrow_fee : ℕ
  pub bridge_metadata : Option String
  pub bridge_param : Option (List ℕ)

pub record TokenBurnAndBridge : Type 0 where
  pub payload : TokenBurnAndBridgePayload

pub data RawTransactionEnvelope : Type 0 where
  burn_and_bridge : TokenBurnAndBridge → RawTransactionEnvelope

pub record TxEnvelope : Type 0 where
  pub envelope : RawTransactionEnvelope

pub data CertifiedTx : Type 0 where
  user_transaction : TxEnvelope → CertifiedTx

pub record CertificateV0 : Type 0 where
  pub tx : CertifiedTx

pub data CertificateEnvelope : Type 0 where
  v0 : CertificateV0 → CertificateEnvelope

pub record CertifiedTransactionResult : Type 0 where
  pub certificate : CertificateEnvelope
  pub tx_hash : Hash

pub record CertifiedTransaction : Type 0 where
  pub result : CertifiedTransactionResult

abbrev envelope_of_tx : CertifiedTx → RawTransactionEnvelope
envelope_of_tx (user_transaction e) = e.envelope

abbrev envelope_of_certificate : CertificateEnvelope → RawTransactionEnvelope
envelope_of_certificate (v0 c) = envelope_of_tx c.tx

-- `CertifiedTransaction::get_transaction_envelope`
unfoldable pub get_transaction_envelope : CertifiedTransaction → RawTransactionEnvelope
get_transaction_envelope c = envelope_of_certificate c.result.certificate

-- `RawTransactionEnvelope::to_tx_payload`
unfoldable pub to_tx_payload : World → RawTransactionEnvelope → TxPayload
to_tx_payload w (burn_and_bridge t) =
    token_burn_and_bridge (w.u256_to_string p.value) p.sender p.destination_chain_id
      p.destination_address (w.u256_to_string p.escrow_fee) p.bridge_metadata p.token
  where
    open t use {payload as p}
