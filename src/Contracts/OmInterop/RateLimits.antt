-- ===== src/Contracts/OmInterop/RateLimits.antt =====
-- The rate limits of tokens.
use money_interoperability.Prelude.{ℕ, ◌+◌, ◌/◌, [], ◌∷◌, ◌++◌, ltb, ◌==◌, if◌then◌else◌}
use money_interoperability.World.{Address, Reply, ok, rate_limits_changed}
use money_interoperability.Contracts.Mapping.{u256_max, put, revert_if, ◌>>◌}
use money_interoperability.Contracts.OmInterop.State.{
  Layout, Env, Error, RateLimitParam, RateLimitData, no_param, no_data, panicked,
  rate_limit_exceeded, only_operator,
}

-- `_setRateLimit`.
abbrev pub stored_limit : ℕ → Address → ℕ → ℕ → Layout → Layout
stored_limit timestamp token limit window s =
    if window == 0
    then record s {
      rate_limits_param = put s.rate_limits_param token no_param;
      rate_limits_data = put s.rate_limits_data token no_data;
      events = s.events ++ rate_limits_changed token limit window ∷ [];
    }
    else record s {
      rate_limits_param = put s.rate_limits_param token (record { limit = limit; window = window });
      rate_limits_data =
          put s.rate_limits_data token
            (record { amount_in_flight = 0; last_epoch = timestamp / window });
      events = s.events ++ rate_limits_changed token limit window ∷ [];
    }

unfoldable pub set_rate_limit : Env → Address → ℕ → ℕ → Layout → Reply Error Layout
set_rate_limit env token limit window s = do
  only_operator env s
  ok (stored_limit env.timestamp token limit window s)

-- The data of a token at the time of a call: a later epoch starts from 0.
abbrev pub current_data : ℕ → RateLimitParam → RateLimitData → RateLimitData
current_data timestamp param d =
    if ltb d.last_epoch (timestamp / param.window)
    then record { amount_in_flight = 0; last_epoch = timestamp / param.window }
    else d

unfoldable pub check_and_update_rate_limit : ℕ → Address → ℕ → Layout → Reply Error Layout
check_and_update_rate_limit timestamp token amount s =
    if (s.rate_limits_param token).window == 0 then ok s else do
      let d = current_data timestamp (s.rate_limits_param token) (s.rate_limits_data token)
      revert_if (ltb u256_max (d.amount_in_flight + amount)) panicked
      revert_if (ltb (s.rate_limits_param token).limit (d.amount_in_flight + amount))
          rate_limit_exceeded
      ok (record s {
        rate_limits_data =
            put s.rate_limits_data token
              (record d { amount_in_flight = d.amount_in_flight + amount });
      })
