-- ===== src/Config.antt =====
-- The configuration of the relayer (code/crates/relayer/src/config/mod.rs), with the key pair of
-- the relayer as its address and the hex form of its key.
use money_interoperability.Prelude.{ℕ, String}
use money_interoperability.World.{World, Address, Fault, get_transaction_count}
use money_interoperability.Action.{Action, or_raise, ◌>>=◌, ask}

pub record PrivateKeySigner : Type 0 where
  pub address : Address
  pub key_hex : String

pub record Config : Type 0 where
  pub one_money_node_url : String
  pub one_money_ws_url : String
  pub side_chain_http_url : String
  pub side_chain_ws_url : String
  pub interop_contract_address : Address
  pub tx_mapping_contract_address : Address
  pub relayer_private_key : PrivateKeySigner

pub data Error : Type 0 where
  relayer_nonce : Fault → Error

-- `Config::sidechain_relayer_nonce`: the count of the relayer's transactions on the sidechain,
-- with which the shared nonce starts.
unfoldable pub sidechain_relayer_nonce : World → Config → Action Error ℕ
sidechain_relayer_nonce w config = do
  count ← ask w (get_transaction_count config.relayer_private_key.address)
  or_raise relayer_nonce count
