-- ===== src/Contracts/TxHashMapping/Tracking.antt =====
-- The hashes that are known and have no link yet are those that the array of incomplete hashes
-- lists, in the three ledgers of TxHashMapping.
use money_interoperability.Prelude.{
  Bool, true, false, ◌&&◌, ◌≡◌, refl, ◌≢◌, arith, ◌==◌, if◌then◌else◌,
}
use money_interoperability.World.{Hash}
use money_interoperability.Contracts.Pending.{nothing_pending, Pending, push, listed}
use money_interoperability.Contracts.Pending.Places.{
  nothing_pending-IsIndexed, IsIndexed, Removed, push-IsIndexed, listed-push,
}

pub record IsTracked (known : Hash → Bool) (link : Hash → Hash) (p : Pending) : Type 0 where
  pub indexed : IsIndexed p
  pub tracks : (h : Hash) → listed p h ≡ (known h && link h == 0)
  pub blank : (h : Hash) → known h ≡ false → link h ≡ 0

module _ {known : Hash → Bool} {link : Hash → Hash} {p : Pending} (t : IsTracked known link p)
    (h : Hash) (known' : Hash → Bool) (link' : Hash → Hash) where
  pub kept-IsTracked :
      ((j : Hash) → known' j ≡ known j) → ((j : Hash) → link' j ≡ link j) → IsTracked known' link' p
  kept-IsTracked k l = record {
    indexed = t.indexed;
    tracks = λ j. rw (k j, l j) (t.tracks j);
    blank = λ j e. ground (arith, k j, l j, t.blank j);
  }

  pub registered-IsTracked :
      known h ≡ false
      → ((j : Hash) → known' j ≡ (if h == j then true else known j))
      → ((j : Hash) → link' j ≡ link j)
      → IsTracked known' link' (push h p)
  registered-IsTracked new k l = record {
    indexed = push-IsIndexed t.indexed h;
    tracks = λ j. rw (listed-push t.indexed h j, k j, l j) (ground (arith, t.tracks j, t.blank j));
    blank = λ j e. ground (arith, k j, l j, t.blank j);
  }

  pub linked-IsTracked :
      (x : Hash) (q : Pending)
      → Removed p h q
      → known h ≡ true
      → x ≢ 0
      → ((j : Hash) → known' j ≡ known j)
      → ((j : Hash) → link' j ≡ (if h == j then x else link j))
      → IsTracked known' link' q
  linked-IsTracked x q r old nz k l = record {
    indexed = r.indexed;
    tracks = λ j. rw (r.rest j, k j, l j) (ground (arith, t.tracks j));
    blank = λ j e. ground (arith, k j, l j, t.blank j);
  }

pub new-IsTracked : IsTracked (λ _. false) (λ _. 0) nothing_pending
new-IsTracked = record {
  indexed = nothing_pending-IsIndexed;
  tracks = λ h. refl;
  blank = λ h e. refl;
}
