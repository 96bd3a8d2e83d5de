-- ===== src/Trigger/Http.antt =====
-- internal/trigger/http: market_index_controller.go, market_trade_controller.go, tag_controller.go and
-- dcc_controller.go, from the decoded request on. A body that is not read or is no JSON is none. The
-- binding of a request and the writing of an answer are gin's.
use group_buy_market.Prelude.{
  ℕ, Bool, true, false, not, ◌||◌, if◌then◌else◌, String, str_eq, Option, none, some, List,
}
use group_buy_market.Types.Codes.{illegal_parameter, un_error, rate_limiter}
use group_buy_market.Types.Outcome.{Result, ok, err, panic}
use group_buy_market.Trade.Entities.{Time}
use group_buy_market.Store.Rows.{World}
use group_buy_market.Store.Call.{Call, pure}
use group_buy_market.Dcc.{snapshot}
use group_buy_market.Dcc.Broadcast.{Instance, Attribute, update}
use group_buy_market.Service.Refund.{StrategyMap}
use group_buy_market.Tag.{exec_tag_batch_job}
use group_buy_market.App.Answer.{Response, succeed, fail}
use group_buy_market.App.{
  SettlementRequest, SettlementResponse, RefundRequest, RefundResponse, no_settlement, no_refund,
  settlement_market_pay_order_app, refund_market_pay_order_app,
}
use group_buy_market.App.Lock.{
  LockEnv, LockRequest, LockResponse, no_order, lock_market_pay_order_app,
}
use group_buy_market.App.IndexPage.{
  GoodsMarketRequest, GoodsMarketResponse, IndexEnv, no_page, query_group_buy_market_config,
}
use group_buy_market.Trigger.RateLimit.{Limiter, RateLimitStore, allow}

-- `c.rateLimit != nil && !c.rateLimit.allow(userId)`, and the store afterwards.
abbrev pub limited :
    {L : Type 0}
    → Limiter L
    → String
    → Time
    → Option (RateLimitStore L)
    → Bool × Option (RateLimitStore L)
limited lim user_id now none = (false, none)
limited lim user_id now (some s) =
    (not (allow lim user_id now s).0, some (allow lim user_id now s).1)

-- A query parameter that is empty is taken from the body, which may be empty too.
abbrev pub or_body : String → String → String
or_body query_value body_value = if str_eq query_value "" then body_value else query_value

module _ {D L : Type 0} (env : IndexEnv D) (lim : Limiter L) where
  -- The index page behind its limit: the store is changed first, then the page is made.
  unfoldable pub handle_query :
      Time
      → Option GoodsMarketRequest
      → Option (RateLimitStore L)
      → World D
      → (Result (Response (GoodsMarketResponse D)) × World D) × Option (RateLimitStore L)
  unfolding query_group_buy_market_config pure allow
  handle_query now none store w = (pure (fail no_page illegal_parameter) w, store)
  handle_query now (some req) store w = (
    (if (limited lim req.user_id now store).0
        then pure (fail no_page rate_limiter) w
        else query_group_buy_market_config env (some req) w),
    (limited lim req.user_id now store).1,
  )

module _ {D : Type 0} where
  unfoldable pub handle_lock : LockEnv D → Option LockRequest → Call D (Response (LockResponse D))
  unfolding lock_market_pay_order_app
  handle_lock env none = pure (fail (no_order env.zero_amount) illegal_parameter)
  handle_lock env (some req) = lock_market_pay_order_app env (some req)

  unfoldable pub handle_settlement :
      (String → String → Bool)
      → Time
      → String
      → Option SettlementRequest
      → Call D (Response SettlementResponse)
  unfolding settlement_market_pay_order_app
  handle_settlement black now topic none = pure (fail no_settlement illegal_parameter)
  handle_settlement black now topic (some req) =
      settlement_market_pay_order_app black now topic (some req)

  unfoldable pub handle_refund :
      StrategyMap D → String → Option RefundRequest → Call D (Response RefundResponse)
  unfolding refund_market_pay_order_app
  handle_refund strategies topic none = pure (fail no_refund illegal_parameter)
  handle_refund strategies topic (some req) =
      refund_market_pay_order_app strategies topic (some req)

  abbrev pub tag_answer : Result (Unit {0}) × World D → Result (Response Bool) × World D
  tag_answer (ok x, w) = (ok (succeed true), w)
  tag_answer (err e, w) = (ok (fail false un_error), w)
  tag_answer (panic, w) = (panic, w)

  unfoldable pub exec_tag_batch_job_api : Time → String → String → Call D (Response Bool)
  unfolding pure exec_tag_batch_job
  exec_tag_batch_job_api now tag_id batch_id w =
      if str_eq tag_id "" || str_eq batch_id ""
      then pure (fail false illegal_parameter) w
      else tag_answer (exec_tag_batch_job now tag_id batch_id w)

-- `UpdateConfig`: the answer, the instance and what is published.
unfoldable pub update_config :
    String → List ℕ → Instance → Response Bool × (Instance × Option Attribute)
unfolding update
update_config key value inst =
    if str_eq key ""
    then (fail false illegal_parameter, (inst, none))
    else (succeed true, update key value inst)

-- `Query`, at a key.
unfoldable pub query_config : Instance → String → Response (Option (List ℕ))
unfolding snapshot
query_config inst key = succeed (snapshot inst.settings key)
