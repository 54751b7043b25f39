-- ===== src/Contracts/Pending/Places.antt =====
-- The index of an array of incomplete hashes agrees with the array, before and after each change.
use money_interoperability.Prelude.{
  Bool, ◌↔◌, ltb, ℕ, suc, ◌+◌, ◌-◌, ◌<◌, ◌≡◌, ◌≢◌, refl, inl, inr, none, some, List, true, false,
  arith, length, ◌==◌, if◌then◌else◌, Bool-cases,
}
use money_interoperability.World.{Hash}
use money_interoperability.Contracts.Mapping.{
  put, get_elem?, set, length-set, get_elem?-append, get_elem?-take, get_elem?-set, get_elem?-lt,
  get_elem?-some,
}
use money_interoperability.Contracts.Pending.{
  Pending, nothing_pending, push, pop, fill_gap, remove, listed,
}

-- Place `i` of the array holds `h` exactly if the index of `h` is `i + 1`: no hash stands twice, and
-- a hash with index 0 stands nowhere.
pub record IsIndexed (p : Pending) : Type 0 where
  pub placed : (h : Hash) (i : ℕ) → p.index h ≡ suc i → get_elem? p.hashes i ≡ some h
  pub found : (h : Hash) (i : ℕ) → get_elem? p.hashes i ≡ some h → p.index h ≡ suc i

pub nothing_pending-IsIndexed : IsIndexed nothing_pending
nothing_pending-IsIndexed = record {
  placed = λ h i e. absurd (omega arith);
  found = λ h i e. ground arith;
}

-- What the removal of a hash leaves: an array that agrees with its index, without the hash.
pub record Removed (p : Pending) (h : Hash) (q : Pending) : Type 0 where
  pub indexed : IsIndexed q
  pub rest : (j : Hash) → listed q j ≡ (if h == j then false else listed p j)

module _ {p : Pending} (ix : IsIndexed p) (h : Hash) where
  pub push-IsIndexed : IsIndexed (push h p)
  unfolding push
  push-IsIndexed = elim (Bool-cases (p.index h == 0)) [
    | inr old ↦ rw old ix
    | inl new ↦ rw new (record {
      placed = λ j i e.
          ground (arith, ix.placed j i, get_elem?-append p.hashes h i, get_elem?-lt p.hashes i j);
      found = λ j i e. ground (
        arith,
        ix.found j i,
        ix.found h i,
        get_elem?-append p.hashes h i,
        get_elem?-lt p.hashes i j,
      );
    })
  ]

  pub listed-push : (j : Hash) → listed (push h p) j ≡ (if h == j then true else listed p j)
  unfolding push
  listed-push j = ground arith

  module _ (idx : ℕ) (at : p.index h ≡ suc idx) where
    abbrev last : ℕ
    last = length p.hashes - 1

    idx_bounded : idx < length p.hashes
    idx_bounded = get_elem?-lt p.hashes idx h (ix.placed h idx at)

    last_filled : idx ≡ last → (q : Pending) × (fill_gap h idx p ≡ some q) × Removed p h q
    unfolding fill_gap
    last_filled e = (
      record { hashes = pop p.hashes; index = put p.index h 0 },
      ground arith,
      record {
        indexed = record {
          placed = λ j i e'. ground (
            arith,
            idx_bounded,
            ix.placed j i,
            ix.placed h idx,
            get_elem?-take last p.hashes i,
            get_elem?-lt p.hashes i j,
          );
          found = λ j i e'.
              ground
                (arith, idx_bounded, ix.found j i, ix.found h idx, get_elem?-take last p.hashes i);
        };
        rest = λ j. ground arith;
      },
    )

    module _ (moved : Hash) (far : idx ≢ last) (read : get_elem? p.hashes last ≡ some moved) where
      abbrev filled : Pending
      filled = record {
        hashes = pop (set p.hashes idx moved);
        index = put (put p.index moved (idx + 1)) h 0;
      }

      filled_get :
          (i : ℕ)
          → get_elem? filled.hashes i
            ≡ (if ltb i last then (if idx == i then some moved else get_elem? p.hashes i) else none)
      filled_get i =
          rw
            (
              get_elem?-take _ (set p.hashes idx moved) i,
              length-set,
              get_elem?-set p.hashes idx moved i idx_bounded,
            )
            refl

      filled_placed :
          (j : Hash) (i : ℕ) → filled.index j ≡ suc i → get_elem? filled.hashes i ≡ some j
      filled_placed j i e = ground (
        arith,
        filled_get i,
        idx_bounded,
        ix.placed j i,
        ix.placed h idx,
        ix.found moved last,
        get_elem?-lt p.hashes i j,
      )

      filled_found :
          (j : Hash) (i : ℕ) → get_elem? filled.hashes i ≡ some j → filled.index j ≡ suc i
      filled_found j i e =
          ground (arith, filled_get i, idx_bounded, ix.found j i, ix.found moved last)

      filled-Removed : Removed p h filled
      filled-Removed = record {
        indexed = record { placed = filled_placed; found = filled_found };
        rest = λ j. ground (arith, ix.found moved last);
      }

      fill_gap-filled : fill_gap h idx p ≡ some filled
      unfolding fill_gap
      fill_gap-filled = ground (arith, idx_bounded)

    fill_gap-Removed : (q : Pending) × (fill_gap h idx p ≡ some q) × Removed p h q
    fill_gap-Removed = elim (Bool-cases (idx == last)) [
      | inl e ↦ last_filled (ground arith)
      | inr ne ↦
          let (moved, read) = get_elem?-some p.hashes last (omega (arith, idx_bounded)) in
          (
            filled moved (ground arith) read,
            fill_gap-filled moved (ground arith) read,
            filled-Removed moved (ground arith) read,
          )
    ]

  -- A removal never panics.
  pub remove-Removed : (q : Pending) × (remove h p ≡ some q) × Removed p h q
  unfolding remove
  remove-Removed = elim (Bool-cases (p.index h == 0)) [
    | inl out ↦ rw out (p, refl, record { indexed = ix; rest = λ j. ground arith })
    | inr here ↦
        let at : p.index h ≡ suc (p.index h - 1) = ground arith in
        let some_left : length p.hashes ≢ 0 = omega (arith, idx_bounded (p.index h - 1) at) in
        let (q, e, r) = fill_gap-Removed (p.index h - 1) at in (q, ground (arith, e), r)
  ]

-- The array holds the hash at one place and at no other.
abbrev pub StandsOnce : List Hash → Hash → Type 0
StandsOnce xs h = (i : ℕ) × (get_elem? xs i ≡ some h) × ((j : ℕ) → get_elem? xs j ≡ some h → j ≡ i)

-- The hashes of a list that agrees with its index are those whose index is not 0, once each.
pub listed_iff :
    (p : Pending) (h : Hash) → IsIndexed p → StandsOnce p.hashes h ↔ (listed p h ≡ true)
listed_iff p h ix = (
  λ (i, at, _). ground (arith, ix.found h i at),
  λ e.
      let at : p.index h ≡ suc (p.index h - 1) = ground arith in
      (p.index h - 1, ix.placed h _ at, λ j here. omega (arith, ix.found h j here)),
)

-- The array holds the hash exactly if it is pending: at one place then, and at none if it is not.
abbrev pub HoldsIff : List Hash → Hash → Bool → Type 0
HoldsIff xs h pending =
    (StandsOnce xs h ↔ (pending ≡ true)) × ((i : ℕ) → get_elem? xs i ≡ some h → StandsOnce xs h)

pub listed-HoldsIff :
    (p : Pending) (h : Hash) (pending : Bool)
    → IsIndexed p
    → listed p h ≡ pending
    → HoldsIff p.hashes h pending
listed-HoldsIff p h pending ix e = (
  rw e at (listed_iff p h ix),
  λ i here. (listed_iff p h ix).1 (ground (arith, ix.found h i here)),
)
