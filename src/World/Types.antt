-- ===== src/World/Types.antt =====
-- The data that the relayer receives and sends: logs and events of the OMInterop contract,
-- transactions, checkpoints and receipts of 1Money, and the calls of the sidechain contracts.
-- Addresses, hashes, and 256-bit amounts are numbers; faults of third-party crates are opaque.
use money_interoperability.Prelude.{ℕ, Bool, Option, List, String}

abbrev pub Address : Type 0
Address = ℕ

abbrev pub Hash : Type 0
Hash = ℕ

abbrev pub Fault : Type 0
Fault = ℕ

-- A raw log as the node returns it: its topics and its bytes.
pub record LogData : Type 0 where
  pub topics : List ℕ
  pub bytes : List ℕ

-- `alloy_rpc_types_eth::Log<T>` with the fields of its inner log.
pub record Log (T : Type 0) : Type 0 where
  pub address : Address
  pub inner : T
  pub block_hash : Option Hash
  pub block_number : Option ℕ
  pub block_timestamp : Option ℕ
  pub transaction_hash : Option Hash
  pub transaction_index : Option ℕ
  pub log_index : Option ℕ
  pub removed : Bool

abbrev pub RpcLog : Type 0
RpcLog = Log LogData

pub record OmInteropReceived : Type 0 where
  pub nonce : ℕ
  pub to : Address
  pub amount : ℕ
  pub om_token : Address
  pub src_chain_id : ℕ

pub record OmInteropSent : Type 0 where
  pub nonce : ℕ
  pub from : Address
  pub refund_amount : ℕ
  pub om_token : Address
  pub dst_chain_id : ℕ
  pub source_hash : Hash

-- `OMInterop::OmInteropEvents`, generated from the contract's interface.
pub data OmInteropEvents : Type 0 where
  om_interop_received : OmInteropReceived → OmInteropEvents
  om_interop_sent : OmInteropSent → OmInteropEvents
  operator_updated : Address → OmInteropEvents
  relayer_updated : Address → OmInteropEvents
  ownership_transferred : Address → Address → OmInteropEvents
  rate_limits_changed : Address → ℕ → ℕ → OmInteropEvents
  initialized : ℕ → OmInteropEvents
  upgraded : Address → OmInteropEvents
  price_oracle_updated : Address → OmInteropEvents

abbrev pub OmInteropLog : Type 0
OmInteropLog = Log OmInteropEvents

-- `alloy_rpc_types_eth::Filter`, with the parts that the relayer sets.
pub record Filter : Type 0 where
  pub contract : Address
  pub topic1 : Option ℕ
  pub topic3 : Option ℕ
  pub from_block : ℕ
  pub to_block : ℕ

-- The payloads that the relayer signs for 1Money.
pub record TokenBridgeAndMintPayload : Type 0 where
  pub chain_id : ℕ
  pub nonce : ℕ
  pub recipient : Address
  pub value : ℕ
  pub token : Address
  pub source_chain_id : ℕ
  pub source_tx_hash : String
  pub bridge_metadata : Option String

pub record PaymentPayload : Type 0 where
  pub chain_id : ℕ
  pub nonce : ℕ
  pub recipient : Address
  pub value : ℕ
  pub token : Address

-- `onemoney_protocol::TxPayload`; `other_payload` stands for the variants that the relayer never
-- names.
pub data TxPayload : Type 0 where
  token_burn_and_bridge :
      (value : String) (sender : Address) (destination_chain_id : ℕ) (destination_address : String)
      (escrow_fee : String) (bridge_metadata : Option String) (token : Address)
      → TxPayload
  token_bridge_and_mint : (recipient : Address) (value : String) (token : Address) → TxPayload
  token_transfer : (value : String) (recipient : Address) (token : Option Address) → TxPayload
  other_payload : ℕ → TxPayload

-- `onemoney_protocol::Transaction`.
pub record Transaction : Type 0 where
  pub hash : Hash
  pub nonce : ℕ
  pub checkpoint_number : Option ℕ
  pub payload : TxPayload

pub data CheckpointTransactions : Type 0 where
  full : List Transaction → CheckpointTransactions
  hashes : List Hash → CheckpointTransactions

pub record BridgeInfo : Type 0 where
  pub bbnonce : ℕ

pub record SuccessInfo : Type 0 where
  pub bridge_info : Option BridgeInfo

-- A receipt of 1Money.
pub record OmReceipt : Type 0 where
  pub from : Address
  pub success_info : Option SuccessInfo

-- `TxHashMapping.WithdrawalEntry` as `getWithdrawal` returns it.
pub record WithdrawalHashes : Type 0 where
  pub bridge_to : Hash
  pub refund : Hash

-- `onemoney_protocol::Error`, of which the relayer looks at business errors only.
pub data OnemoneyError : Type 0 where
  business_logic : (operation reason : String) → OnemoneyError
  other_error : Fault → OnemoneyError

pub record Secp256k1Key : Type 0 where
  pub x : ℕ
  pub y : ℕ

pub record ValidatorInfo : Type 0 where
  pub validator_key : Secp256k1Key
  pub power : ℕ

pub record ValidatorRegistration : Type 0 where
  pub public_key : List ℕ
  pub power : ℕ

pub record BridgeTo : Type 0 where
  pub from : Address
  pub bbnonce : ℕ
  pub to : Address
  pub amount : ℕ
  pub dst_chain_id : ℕ
  pub escrow_fee : ℕ
  pub om_token : Address
  pub checkpoint_id : ℕ
  pub bridge_data : List ℕ
  pub source_hash : Hash

-- The transactions that the relayer sends to contracts of the sidechain.
pub data Tx : Type 0 where
  register_deposit : Hash → Tx
  link_deposit_hashes : Hash → Hash → Tx
  link_refund_hashes : Hash → Hash → Tx
  register_withdrawal : Hash → Tx
  link_withdrawal_hashes : Hash → Hash → Tx
  update_checkpoint_info : ℕ → List Hash → Tx
  bridge_to : BridgeTo → Tx
  update_validator_set : List ValidatorRegistration → List Address → Tx

-- An epoch as the 1Money node returns it (code/crates/relayer/src/onemoney/types/epoch.rs and
-- validator.rs): keys are the numbers of their points.
pub record Validator : Type 0 where
  pub consensus_public_key : ℕ
  pub address : Address
  pub peer_id : String
  pub archive : Bool

pub record ValidatorSet : Type 0 where
  pub members : List Validator

pub record SpecialAccounts : Type 0 where
  pub operator_public_key : ℕ
  pub operator_address : Address
  pub escrow_account_public_key : ℕ
  pub escrow_account_address : Address
  pub pricing_authority_public_key : ℕ
  pub pricing_authority_address : Address

pub record EpochId : Type 0 where
  pub epoch_id : ℕ

pub record Message : Type 0 where
  pub epoch : EpochId
  pub chain : ℕ
  pub special_accounts : SpecialAccounts
  pub validator_set : ValidatorSet

pub record GenesisProposal : Type 0 where
  pub message : Message

pub record GovernanceProposal : Type 0 where
  pub message : Message

pub data Certificate : Type 0 where
  genesis : GenesisProposal → Certificate
  epoch : GovernanceProposal → Certificate

pub record RawEpoch : Type 0 where
  pub epoch_id : ℕ
  pub certificate_hash : Hash
  pub certificate : Certificate
