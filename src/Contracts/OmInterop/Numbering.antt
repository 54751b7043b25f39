-- ===== src/Contracts/OmInterop/Numbering.antt =====
-- The nonces and the burns of a sequence of events.
use money_interoperability.Prelude.{
  sym, ℕ, zero, suc, ◌+◌, ◌≡◌, refl, List, [], ◌∷◌, ◌++◌, arith, ◌==◌, if◌then◌else◌,
}
use money_interoperability.World.{Address, OmInteropEvents, om_interop_received, om_interop_sent}

-- The inbound nonce that an event carries.
abbrev pub nonce_of : OmInteropEvents → List ℕ
nonce_of (om_interop_received e) = e.nonce ∷ []
nonce_of (om_interop_sent e) = e.nonce ∷ []
nonce_of other = []

abbrev pub nonces : List OmInteropEvents → List ℕ
nonces [] = []
nonces (e ∷ es) = nonce_of e ++ nonces es

-- 0, .. , n - 1.
abbrev pub upto : ℕ → List ℕ
upto zero = []
upto (suc n) = upto n ++ n ∷ []

-- Whether an event is the transfer of a burn of the account.
abbrev pub sent_by : Address → OmInteropEvents → ℕ
sent_by a (om_interop_sent e) = if e.from == a then 1 else 0
sent_by a other = 0

abbrev pub burns : Address → List OmInteropEvents → ℕ
burns a [] = 0
burns a (e ∷ es) = sent_by a e + burns a es

append_assoc : (xs ys zs : List ℕ) → (xs ++ ys) ++ zs ≡ xs ++ (ys ++ zs)
append_assoc [] ys zs = refl
append_assoc (x ∷ xs) ys zs = rw (append_assoc xs ys zs) refl

pub nonces-append : (es fs : List OmInteropEvents) → nonces (es ++ fs) ≡ nonces es ++ nonces fs
nonces-append [] fs = refl
nonces-append (e ∷ es) fs =
    rw (nonces-append es fs) (sym (append_assoc (nonce_of e) (nonces es) (nonces fs)))

pub burns-append :
    (a : Address) (es fs : List OmInteropEvents) → burns a (es ++ fs) ≡ burns a es + burns a fs
burns-append a [] fs = omega arith
burns-append a (e ∷ es) fs = omega (arith, burns-append a es fs)
