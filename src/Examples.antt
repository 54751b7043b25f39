-- ===== src/Examples.antt =====
-- A sidechain and a 1Money node that answer every call, the configuration of a relayer, and tests
-- and examples that run the relayer against them.
pub mod Bridge
pub mod Nonces
pub mod Due
pub mod Burns
pub mod Recovery
pub mod Epochs
pub mod Streams
pub mod Validators
pub mod Windows
pub mod Mapping
pub mod Interop
pub mod Restart
pub mod Build
pub mod Linked
pub mod Oracle
pub mod Checkpoints
use money_interoperability.Prelude.{
  ℕ, ◌+◌, ◌/◌, ◌<◌, ◌≡◌, refl, arith, Bool, true, false, Option, none, some, String, List, [], ◌∷◌,
  u64_mod,
}
use money_interoperability.World.{
  om_interop_sent, World, Crates, Call, Response, History, ok, err, value, pending, text,
  get_block_number, get_logs, get_transaction_receipt, get_transaction_count, connect_ws,
  subscribe_logs, next_log, get_latest_inbound_nonce, get_latest_completed_checkpoint,
  get_latest_processed_nonce, incomplete_deposits, incomplete_withdrawals, get_withdrawal,
  get_validators, send, get_receipt, client_custom, fetch_chain_id, get_account_nonce,
  bridge_and_mint, send_payment, get_checkpoint_number, get_checkpoint_by_number,
  get_transaction_receipt_by_hash, connect_async, subscribe, next_message, get_epoch, sleep, tick,
  full, token_burn_and_bridge, TxPayload, OmInteropReceived, OmInteropSent, OmInteropLog,
  om_interop_received, OmReceipt, RawEpoch,
}
use money_interoperability.Action.{State}
use money_interoperability.Config.{Config}

abbrev pub crates : Crates
crates = record {
  join_url = λ url path. ok url;
  decode_log = λ log. none;
  decode_received = λ log. none;
  decode_sent = λ log. none;
  encode_hex = λ hash. "0x01";
  parse_address = λ s. some 77;
  parse_u256 = λ s. some 5;
  u256_to_string = λ n. "5";
  uncompressed_point = λ key. (some 1, some 2);
  verifying_key = λ bytes. some 9;
  compressed_bytes = λ point. 2 ∷ [];
  uncompressed_bytes = λ point. 4 ∷ [];
  keccak256 = λ bytes. [];
}

-- The contract's inbound nonce rises by one every four blocks.
abbrev pub inbound_nonce : ℕ → ℕ
inbound_nonce block = block / 4

abbrev pub receipt : OmReceipt
receipt = record {
  from = 31;
  success_info = some (record { bridge_info = some (record { bbnonce = 3 }) });
}

abbrev pub respond : History → (c : Call) → Response c
respond h get_block_number = ok 40
respond h (get_logs _) = ok []
respond h (get_transaction_receipt _) = ok none
respond h (get_transaction_count _) = ok 12
respond h connect_ws = ok tt
respond h (subscribe_logs _) = ok tt
respond h next_log = none
respond h (get_latest_inbound_nonce block) = value (inbound_nonce block)
respond h get_latest_completed_checkpoint = ok 6
respond h (get_latest_processed_nonce _) = ok 1
respond h incomplete_deposits = ok (101 ∷ [])
respond h incomplete_withdrawals = ok []
respond h (get_withdrawal _) = ok (record { bridge_to = 0; refund = 0 })
respond h get_validators = ok []
respond h (send _ _) = pending 500
respond h (get_receipt hash) = ok hash
respond h client_custom = ok tt
respond h fetch_chain_id = ok 1
respond h (get_account_nonce _) = ok 7
respond h (bridge_and_mint _) = ok 600
respond h (send_payment _) = ok 601
respond h get_checkpoint_number = ok 8
respond h (get_checkpoint_by_number _) = ok (full [])
respond h (get_transaction_receipt_by_hash _) = ok receipt
respond h connect_async = ok tt
respond h subscribe = ok tt
respond h next_message = none
respond h (get_epoch _) = err 1
respond h sleep = tt
respond h tick = tt

abbrev pub world : World
world = record { crates = crates; respond = respond }

abbrev pub config : Config
config = record {
  one_money_node_url = "http://om";
  one_money_ws_url = "ws://om";
  side_chain_http_url = "http://sc";
  side_chain_ws_url = "ws://sc";
  interop_contract_address = 11;
  tx_mapping_contract_address = 12;
  relayer_private_key = record { address = 21; key_hex = "0xaa" };
}

abbrev pub fresh : State
fresh = record { relayer_nonce = 12; history = [] }

-- A deposit whose nonce, 7, is the relayer's nonce on 1Money.
abbrev pub deposit : OmInteropReceived
deposit = record { nonce = 7; to = 31; amount = 5; om_token = 41; src_chain_id = 2 }

abbrev pub deposit_log : OmInteropLog
deposit_log = record {
  address = 11;
  inner = om_interop_received deposit;
  block_hash = none;
  block_number = some 29;
  block_timestamp = none;
  transaction_hash = some 900;
  transaction_index = none;
  log_index = some 0;
  removed = false;
}

abbrev pub burn : TxPayload
burn = token_burn_and_bridge "5" 31 2 "0x4d" "5" none 41

abbrev pub refund : OmInteropSent
refund = record {
  nonce = 7;
  from = 31;
  refund_amount = 5;
  om_token = 41;
  dst_chain_id = 2;
  source_hash = 800;
}

abbrev pub refund_log : OmInteropLog
refund_log = record {
  address = 11;
  inner = om_interop_sent refund;
  block_hash = none;
  block_number = some 30;
  block_timestamp = none;
  transaction_hash = some 901;
  transaction_index = none;
  log_index = some 2;
  removed = false;
}
