-- ===== src/World/Calls.antt =====
-- The calls to services, their replies, and the pure functions of third-party crates.
use money_interoperability.Prelude.{ℕ, Option, List, String}
use money_interoperability.World.Types.{
  Address, Hash, Fault, LogData, RpcLog, OmInteropEvents, OmInteropReceived, OmInteropSent, Filter,
  TokenBridgeAndMintPayload, PaymentPayload, CheckpointTransactions, OmReceipt, WithdrawalHashes,
  OnemoneyError, ValidatorInfo, Tx, RawEpoch,
}

-- The reply of a service: a value or its error.
pub data Reply (E A : Type 0) : Type 0 where
  ok : A → Reply E A
  err : E → Reply E A

-- What `.send().await` gives, with the decoding of a revert that the code applies to it: a pending
-- transaction, a revert of the contract that decodes, or any other error.
pub data SendReply : Type 0 where
  pending : Hash → SendReply
  reverted : Fault → SendReply
  failed : Fault → SendReply

-- What a view call gives; a revert decodes or not, as for `SendReply`.
pub data ViewReply (A : Type 0) : Type 0 where
  value : A → ViewReply A
  view_reverted : Fault → ViewReply A
  view_failed : Fault → ViewReply A

-- A message of a WebSocket, `tungstenite::Message`.
pub data WsMessage : Type 0 where
  text : String → WsMessage
  close : WsMessage
  other_frame : WsMessage

pub data Call : Type 0 where
  -- the sidechain node
  get_block_number : Call
  get_logs : Filter → Call
  get_transaction_receipt : Hash → Call
  get_transaction_count : Address → Call
  connect_ws : Call
  subscribe_logs : Address → Call
  next_log : Call
  -- views of the contracts on the sidechain
  get_latest_inbound_nonce : ℕ → Call
  get_latest_completed_checkpoint : Call
  get_latest_processed_nonce : Address → Call
  incomplete_deposits : Call
  incomplete_withdrawals : Call
  get_withdrawal : Hash → Call
  get_validators : Call
  -- a transaction to a contract on the sidechain with its nonce, and the wait for its receipt
  send : Tx → ℕ → Call
  get_receipt : Hash → Call
  -- the 1Money node
  client_custom : Call
  fetch_chain_id : Call
  get_account_nonce : Address → Call
  bridge_and_mint : TokenBridgeAndMintPayload → Call
  send_payment : PaymentPayload → Call
  get_checkpoint_number : Call
  get_checkpoint_by_number : ℕ → Call
  get_transaction_receipt_by_hash : Hash → Call
  connect_async : Call
  subscribe : Call
  next_message : Call
  get_epoch : String → Call
  -- the clock
  sleep : Call
  tick : Call

abbrev pub Response : Call → Type 0
Response get_block_number = Reply Fault ℕ
Response (get_logs _) = Reply Fault (List RpcLog)
Response (get_transaction_receipt _) = Reply Fault (Option (List LogData))
Response (get_transaction_count _) = Reply Fault ℕ
Response connect_ws = Reply Fault (Unit {0})
Response (subscribe_logs _) = Reply Fault (Unit {0})
Response next_log = Option RpcLog
Response (get_latest_inbound_nonce _) = ViewReply ℕ
Response get_latest_completed_checkpoint = Reply Fault ℕ
Response (get_latest_processed_nonce _) = Reply Fault ℕ
Response incomplete_deposits = Reply Fault (List Hash)
Response incomplete_withdrawals = Reply Fault (List Hash)
Response (get_withdrawal _) = Reply Fault WithdrawalHashes
Response get_validators = Reply Fault (List ValidatorInfo)
Response (send _ _) = SendReply
Response (get_receipt _) = Reply Fault Hash
Response client_custom = Reply OnemoneyError (Unit {0})
Response fetch_chain_id = Reply OnemoneyError ℕ
Response (get_account_nonce _) = Reply OnemoneyError ℕ
Response (bridge_and_mint _) = Reply OnemoneyError Hash
Response (send_payment _) = Reply OnemoneyError Hash
Response get_checkpoint_number = Reply OnemoneyError ℕ
Response (get_checkpoint_by_number _) = Reply OnemoneyError CheckpointTransactions
Response (get_transaction_receipt_by_hash _) = Reply OnemoneyError OmReceipt
Response connect_async = Reply Fault (Unit {0})
Response subscribe = Reply Fault (Unit {0})
Response next_message = Option (Reply Fault WsMessage)
Response (get_epoch _) = Reply Fault RawEpoch
Response sleep = Unit {0}
Response tick = Unit {0}

pub record Exchange : Type 0 where
  pub call : Call
  pub reply : Response call

-- The exchanges so far, the newest first.
abbrev pub History : Type 0
History = List Exchange

-- The pure functions that the relayer calls and that are not its own.
pub record Crates : Type 0 where
  pub join_url : String → String → Reply Fault String
  pub decode_log : LogData → Option OmInteropEvents
  pub decode_received : LogData → Option OmInteropReceived
  pub decode_sent : LogData → Option OmInteropSent
  pub encode_hex : Hash → String
  pub parse_address : String → Option Address
  pub parse_u256 : String → Option ℕ
  pub u256_to_string : ℕ → String
  pub uncompressed_point : ℕ → Option ℕ × Option ℕ
  pub verifying_key : List ℕ → Option ℕ
  pub compressed_bytes : ℕ → List ℕ
  pub uncompressed_bytes : ℕ → List ℕ
  pub keccak256 : List ℕ → List ℕ

pub record World : Type 0 where
  pub crates : Crates
  pub open crates use *
  pub respond : History → (c : Call) → Response c
