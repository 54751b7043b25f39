-- ===== src/Action/Writes.antt =====
-- What a history has written: the transactions sent to the sidechain and to 1Money, with their
-- replies. Queries, receipts, nonces and the clock are left out.
pub mod Rules
pub mod Results
pub mod Searches
pub mod Endings
use money_interoperability.Prelude.{ℕ, ◌≡◌, Option, none, some, List, [], ◌∷◌, ◌++◌}
use money_interoperability.World.{
  Call, Response, Exchange, History, Hash, Tx, SendReply, Reply, TokenBridgeAndMintPayload,
  PaymentPayload, OnemoneyError, send, bridge_and_mint, send_payment,
}

pub data Write : Type 0 where
  sent : Tx → SendReply → Write
  minted : TokenBridgeAndMintPayload → Reply OnemoneyError Hash → Write
  paid : PaymentPayload → Reply OnemoneyError Hash → Write

abbrev pub write_of : (c : Call) → Response c → Option Write
write_of (send tx n) r = some (sent tx r)
write_of (bridge_and_mint payload) r = some (minted payload r)
write_of (send_payment payload) r = some (paid payload r)
write_of _ _ = none

abbrev pub add_write : Option Write → List Write → List Write
add_write none ws = ws
add_write (some x) ws = x ∷ ws

-- The newest first.
abbrev pub writes : History → List Write
writes [] = []
writes (e ∷ h) = add_write (write_of e.call e.reply) (writes h)
