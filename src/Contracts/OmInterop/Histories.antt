-- ===== src/Contracts/OmInterop/Histories.antt =====
-- Every method of OMInterop keeps the invariant, so it holds after any transactions on a new proxy.
use mathlib.Core.List.{append-nil}
use money_interoperability.Prelude.{ℕ, refl, sym, Bool-cases, inl, inr, List, [], ◌∷◌, arith, ◌==◌}
use money_interoperability.World.{Address, Reply, ok, err, rate_limits_changed}
use money_interoperability.Contracts.OmInterop.Admin.{
  initialize, set_operator, set_relayer, set_price_oracle, map_token_addresses, Method,
  initializing, setting_operator, setting_relayer, setting_price_oracle, mapping_tokens,
  setting_rate_limit, bridging_from, bridging_to, updating_checkpoint, execute, history,
}
use money_interoperability.Contracts.OmInterop.Invariant.{
  IsValid, Step, Step-IsValid, update_checkpoint_info-Kept,
}
use money_interoperability.Contracts.OmInterop.RateLimits.{set_rate_limit, stored_limit}
use money_interoperability.Contracts.OmInterop.State.{Layout, Env, Error, settle, blank}
use money_interoperability.Contracts.OmInterop.Steps.{
  Moves, plain-Step, Kept-Moves, bridge_from-Moves, bridge_to-Moves,
}
use money_interoperability.Contracts.Outcome.{accepted, refused, revert_if-Ends}

stored_limit-Step :
    (time : ℕ) (token : Address) (limit window : ℕ) (s : Layout)
    → Step (rate_limits_changed token limit window ∷ []) s (stored_limit time token limit window s)
stored_limit-Step time token limit window s = elim (Bool-cases (window == 0)) [
  | inl cleared ↦
      rw cleared (
        plain-Step s _ _ refl refl (λ a. refl) refl (λ a. refl) (λ l t w. ground (arith, l t)) refl)
  | inr set ↦
      rw set (
        plain-Step s _ _ refl refl (λ a. refl) refl (λ a. refl) (λ l t w. ground (arith, l t)) refl)
]

pub execute-Moves : (env : Env) (method : Method) (s : Layout) → Moves s (execute env method s)
unfolding execute initialize set_operator set_relayer set_price_oracle map_token_addresses
    set_rate_limit
execute-Moves env (initializing owner operator relayer oracle) s = revert_if-Ends _ _ _ tt λ _.
    revert_if-Ends _ _ _ tt λ _. revert_if-Ends _ _ _ tt λ _. revert_if-Ends _ _ _ tt λ _.
      revert_if-Ends _ _ _ tt
        λ _. accepted (_, plain-Step s _ _ refl refl (λ a. refl) refl (λ a. refl) (λ l. l) refl)
execute-Moves env (setting_operator new) s = revert_if-Ends _ _ _ tt λ _.
    revert_if-Ends _ _ _ tt
      λ _. accepted (_, plain-Step s _ _ refl refl (λ a. refl) refl (λ a. refl) (λ l. l) refl)
execute-Moves env (setting_relayer new) s = revert_if-Ends _ _ _ tt λ _.
    revert_if-Ends _ _ _ tt
      λ _. accepted (_, plain-Step s _ _ refl refl (λ a. refl) refl (λ a. refl) (λ l. l) refl)
execute-Moves env (setting_price_oracle new) s = revert_if-Ends _ _ _ tt λ _.
    revert_if-Ends _ _ _ tt λ _. revert_if-Ends _ _ _ tt λ _.
      revert_if-Ends _ _ _ tt
        λ _. accepted (_, plain-Step s _ _ refl refl (λ a. refl) refl (λ a. refl) (λ l. l) refl)
execute-Moves env (mapping_tokens om sc protocol) s = revert_if-Ends _ _ _ tt λ _.
    revert_if-Ends _ _ _ tt λ _. revert_if-Ends _ _ _ tt λ _. accepted (
      [],
      plain-Step s _ [] (sym (append-nil s.events)) refl (λ a. refl) refl (λ a. refl) (λ l. l) refl,
    )
execute-Moves env (setting_rate_limit token limit window) s =
    revert_if-Ends _ _ _ tt λ _. accepted (_, stored_limit-Step env.timestamp token limit window s)
execute-Moves env (bridging_from to amount) s = bridge_from-Moves env to amount s
execute-Moves env (bridging_to req) s = bridge_to-Moves env req s
execute-Moves env (updating_checkpoint id hs) s =
    Kept-Moves _ (update_checkpoint_info-Kept env id hs s)

settle-IsValid :
    (s : Layout) (r : Reply Error Layout) → Moves s r → IsValid s → IsValid (settle s r)
settle-IsValid s (ok s') (accepted (es, p)) v = Step-IsValid p v
settle-IsValid s (err e) (refused q) v = v

-- From a storage where it holds, the invariant holds after any transactions.
pub history-IsValid :
    (calls : List (Env × Method)) {s : Layout} → IsValid s → IsValid (history calls s)
unfolding history
history-IsValid [] v = v
history-IsValid ((env, method) ∷ rest) {s} v =
    history-IsValid rest (settle-IsValid s _ (execute-Moves env method s) v)

pub blank-IsValid : IsValid blank
blank-IsValid = record {
  numbered = refl;
  counted = λ a. refl;
  limited = λ t w. absurd (w refl);
  inbound_bounded = omega arith;
  burns_bounded = λ a. omega arith;
  unset_oracle = refl;
}
