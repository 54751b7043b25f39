-- ===== src/Sidechain/Keys.antt =====
-- code/crates/validator_manager/src/lib.rs: the encodings of a validator's key. The curve's
-- operations are k256's; `expect` on a point that is not on the curve panics.
pub mod Encoding
use money_interoperability.Prelude.{
  ℕ, zero, suc, ◌+◌, ◌*◌, ◌/◌, ◌%◌, Option, none, some, List, [], ◌∷◌, ◌++◌, drop,
}
use money_interoperability.World.{World, Address, Secp256k1Key}

-- The low `n` bytes of a number, the highest first (`to_be_bytes`).
unfoldable pub to_be_bytes : ℕ → ℕ → List ℕ
to_be_bytes zero x = []
to_be_bytes (suc n) x = to_be_bytes n (x / 256) ++ (x % 256) ∷ []

unfoldable pub from_be_bytes_onto : ℕ → List ℕ → ℕ
from_be_bytes_onto acc [] = acc
from_be_bytes_onto acc (b ∷ bs) = from_be_bytes_onto (acc * 256 + b) bs

-- The number whose bytes are given, the highest first (`U256::from_be_slice`, `Address::from_slice`).
unfoldable pub from_be_bytes : List ℕ → ℕ
unfolding from_be_bytes_onto
from_be_bytes = from_be_bytes_onto 0

-- The uncompressed point: a prefix byte and the coordinates, 65 bytes.
unfoldable pub encoded_key : Secp256k1Key → List ℕ
unfolding to_be_bytes
encoded_key key = 0x04 ∷ (to_be_bytes 32 key.x ++ to_be_bytes 32 key.y)

module _ (w : World) where
  -- `none` where the code panics.
  unfoldable pub verifying_key : Secp256k1Key → Option ℕ
  unfolding encoded_key
  verifying_key key = w.verifying_key (encoded_key key)

  unfoldable pub public_key_bytes : Secp256k1Key → Option (List ℕ)
  unfolding verifying_key
  public_key_bytes key = elim (verifying_key key) [
    | none ↦ none
    | some point ↦ some (w.compressed_bytes point)
  ]

  -- The last 20 bytes of the hash of the uncompressed point without its prefix.
  unfoldable pub address : Secp256k1Key → Option Address
  unfolding verifying_key from_be_bytes
  address key = elim (verifying_key key) [
    | none ↦ none
    | some point ↦
        some (from_be_bytes (drop 12 (w.keccak256 (drop 1 (w.uncompressed_bytes point)))))
  ]
