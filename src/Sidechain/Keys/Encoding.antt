-- ===== src/Sidechain/Keys/Encoding.antt =====
-- The encoding of a key: 65 bytes, from which its coordinates can be read back.
use native.Mathlib.Numerals.{unary_clauses}
use money_interoperability.Prelude.{
  drop-append, take-append, drop, take, subst, ℕ, zero, suc, ◌+◌, ◌*◌, ◌/◌, ◌%◌, ◌^◌, ◌<◌, ◌≡◌,
  refl, sym, ap, ◌∙◌, List, [], ◌∷◌, ◌++◌, arith, length, length-append,
}
use money_interoperability.World.{Secp256k1Key}
use money_interoperability.Sidechain.Keys.{
  to_be_bytes, from_be_bytes, from_be_bytes_onto, encoded_key,
}

length-to_be_bytes : (n x : ℕ) → length (to_be_bytes n x) ≡ n
unfolding to_be_bytes
length-to_be_bytes zero x = refl
length-to_be_bytes (suc n) x =
    length-append (to_be_bytes n (x / 256)) (x % 256 ∷ [])
    ∙ rw (length-to_be_bytes n (x / 256)) (omega arith)

from_be_bytes_onto-append :
    (acc : ℕ) (bs cs : List ℕ)
    → from_be_bytes_onto acc (bs ++ cs) ≡ from_be_bytes_onto (from_be_bytes_onto acc bs) cs
unfolding from_be_bytes_onto
from_be_bytes_onto-append acc [] cs = refl
from_be_bytes_onto-append acc (b ∷ bs) cs = from_be_bytes_onto-append (acc * 256 + b) bs cs

quotient_small : (x b : ℕ) → x < b * 256 → x / 256 < b
quotient_small x b small = omega arith

pow_suc : (n : ℕ) → 256 ^ suc n ≡ 256 ^ n * 256
pow_suc n = simp unary_clauses (omega arith)

-- The bytes of a number, as many as are written, read back as the number.
pub from_be_bytes-to_be_bytes : (n x : ℕ) → x < 256 ^ n → from_be_bytes (to_be_bytes n x) ≡ x
unfolding from_be_bytes from_be_bytes_onto to_be_bytes
from_be_bytes-to_be_bytes zero x small = omega arith
from_be_bytes-to_be_bytes (suc n) x small =
    let earlier : from_be_bytes_onto 0 (to_be_bytes n (x / 256)) ≡ x / 256 =
      from_be_bytes-to_be_bytes n (x / 256)
        (quotient_small x (256 ^ n) (subst (λ b. x < b) (pow_suc n) small)) in
    from_be_bytes_onto-append 0 (to_be_bytes n (x / 256)) (x % 256 ∷ []) ∙ rw earlier (omega arith)

-- Two coordinates of 32 bytes, one after the other, read back.
pair_read :
    (x y : ℕ) (xs ys : List ℕ)
    → length xs ≡ 32
    → from_be_bytes xs ≡ x
    → from_be_bytes ys ≡ y
    → (from_be_bytes (take 32 (xs ++ ys)) ≡ x) × (from_be_bytes (drop 32 (xs ++ ys)) ≡ y)
pair_read x y xs ys size ex ey = (
  ap from_be_bytes (ap (λ n. take n (xs ++ ys)) (sym size) ∙ take-append xs ys) ∙ ex,
  ap from_be_bytes (ap (λ n. drop n (xs ++ ys)) (sym size) ∙ drop-append xs ys) ∙ ey,
)

pair_length : (xs ys : List ℕ) → length xs ≡ 32 → length ys ≡ 32 → suc (length (xs ++ ys)) ≡ 65
pair_length xs ys size_x size_y = omega (arith, length-append xs ys)

-- If both coordinates of a key have 256 bits, its encoding has 65 bytes, and the coordinates are read
-- back from the 32 bytes after the first and from the 32 bytes after these.
pub encoded_key-decoded :
    (key : Secp256k1Key)
    → key.x < 256 ^ 32
    → key.y < 256 ^ 32
    → (length (encoded_key key) ≡ 65)
      × (from_be_bytes (take 32 (drop 1 (encoded_key key))) ≡ key.x)
      × (from_be_bytes (drop 32 (drop 1 (encoded_key key))) ≡ key.y)
unfolding encoded_key
encoded_key-decoded key small_x small_y =
    let (ex, ey) =
      pair_read key.x key.y (to_be_bytes 32 key.x) (to_be_bytes 32 key.y)
        (length-to_be_bytes 32 key.x) (from_be_bytes-to_be_bytes 32 key.x small_x)
        (from_be_bytes-to_be_bytes 32 key.y small_y) in
    (
      pair_length (to_be_bytes 32 key.x) (to_be_bytes 32 key.y) (length-to_be_bytes 32 key.x)
          (length-to_be_bytes 32 key.y),
      ex,
      ey,
    )
