-- ===== src/Trigger/RateLimit.antt =====
-- internal/trigger/http/middleware_rate_limit.go: a token bucket for each user. The bucket is
-- `rate.Limiter` of golang.org/x/time, a parameter: how one starts, and whether it allows a request at
-- a time. The mutex makes `allow` one step. `lastSeen` is written and never read, and is left out.
pub mod PerUser
use group_buy_market.Prelude.{
  Bool, true, false, not, ◌||◌, ◌&&◌, if◌then◌else◌, leb_ℤ, ℤ, pos, String, str_eq, Option, none,
  some,
}
use group_buy_market.Types.Codes.{ResponseCode, rate_limiter}
use group_buy_market.Trade.Entities.{Time}

pub record Limiter (L : Type 0) : Type 0 where
  pub new_limiter : ℤ → L
  pub allow_at : Time → L → Bool × L

pub record RateLimitStore (L : Type 0) : Type 0 where
  pub users : String → Option L
  pub burst : ℤ
  pub enabled : Bool

module _ {L : Type 0} where
  -- `positive` is `qps > 0`.
  abbrev pub new_rate_limit_store : Bool → ℤ → RateLimitStore L
  new_rate_limit_store positive burst = record {
    users = λ u. none;
    burst = if leb_ℤ burst (pos 0) then pos 1 else burst;
    enabled = positive;
  }

module _ {L : Type 0} (lim : Limiter L) where
  -- The user's bucket, which is made at the first request.
  abbrev pub bucket : ℤ → Option L → L
  bucket burst none = lim.new_limiter burst
  bucket burst (some l) = l

  abbrev pub set_user : String → L → (String → Option L) → String → Option L
  set_user u l users v = if str_eq v u then some l else users v

  unfoldable pub allow : String → Time → RateLimitStore L → Bool × RateLimitStore L
  allow user_id now s =
      if not s.enabled || str_eq user_id ""
      then (true, s)
      else let (yes_or_no, l) = lim.allow_at now (bucket s.burst (s.users user_id)) in
        (yes_or_no, record s { users = set_user user_id l s.users })

  -- The middleware over the rest of the chain: the refusal, or what `c.Next` does.
  abbrev pub rate_limit_middleware :
      {A : Type 0}
      → (ResponseCode → A)
      → A
      → String
      → Time
      → RateLimitStore L
      → A × RateLimitStore L
  rate_limit_middleware refuse next key now s =
      if not (str_eq key "") && not (allow key now s).0
      then (refuse rate_limiter, (allow key now s).1)
      else (next, if str_eq key "" then s else (allow key now s).1)
