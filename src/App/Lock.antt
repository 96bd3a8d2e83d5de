-- ===== src/App/Lock.antt =====
-- internal/application/market_trade_app.go: the use case of a lock, with its DTOs
-- (internal/api/dto/market_trade.go) and assembler functions. `index_trial` is the trial of the
-- activity context, and `zero` the zero amount of an answer without an order.
pub mod Repeats
pub mod Safety
use group_buy_market.Prelude.{
  ℕ, ◌==◌, Bool, true, false, not, ◌&&◌, ◌||◌, if◌then◌else◌, eq_ℤ, ℤ, pos, String, str_eq, Option,
  none, some, List,
}
use group_buy_market.Types.Codes.{illegal_parameter, e0006, e0007}
use group_buy_market.Types.Enums.{trade_order_create}
use group_buy_market.Types.Outcome.{as_app_exception}
use group_buy_market.Trade.Entities.{
  Time, NotifyConfigVo, notify_http, notify_mq_type, UserEntity, PayActivityEntity,
  PayDiscountEntity, MarketPayOrderEntity, GroupBuyProgressVo,
}
use group_buy_market.Store.Call.{Call, pure, non_nil, ◌>>=◌}
use group_buy_market.Repository.Queries.{
  query_market_pay_order_entity_by_out_trade_no, query_group_buy_progress,
}
use group_buy_market.Activity.Types.{
  MarketProductEntity, TrialBalanceEntity, GroupBuyActivityDiscountVo,
}
use group_buy_market.Service.Lock.{lock_order}
use group_buy_market.App.Answer.{Response, succeed, fail, answer}

pub record NotifyConfigDto : Type 0 where
  pub notify_type : String
  pub notify_mq : String
  pub notify_url : String

pub record LockRequest : Type 0 where
  pub user_id : String
  pub team_id : String
  pub activity_id : ℤ
  pub goods_id : String
  pub source : String
  pub channel : String
  pub out_trade_no : String
  pub notify_config : Option NotifyConfigDto
  pub notify_url : String

pub record LockResponse (D : Type 0) : Type 0 where
  pub order_id : String
  pub original_price : D
  pub deduction_price : D
  pub pay_price : D
  pub trade_order_status : ℕ
  pub team_id : String

-- `NormalizeLockNotify`: the configuration that the request has afterwards, which is never nil.
abbrev pub or_default : Option NotifyConfigDto → String → NotifyConfigDto
or_default (some cfg) url = cfg
or_default none url =
    if str_eq url ""
    then record { notify_type = "MQ"; notify_mq = ""; notify_url = "" }
    else record { notify_type = "HTTP"; notify_mq = ""; notify_url = url }

unfoldable pub normalize_lock_notify : LockRequest → NotifyConfigDto
normalize_lock_notify req = or_default req.notify_config req.notify_url

abbrev pub is_lock_request : LockRequest → NotifyConfigDto → Bool
is_lock_request req cfg = not (
    str_eq req.user_id ""
    || (str_eq req.source ""
        || (str_eq req.channel ""
            || (str_eq req.goods_id ""
                || (eq_ℤ req.activity_id (pos 0)
                    || (str_eq cfg.notify_type "HTTP" && str_eq cfg.notify_url ""))))))

-- `ToMarketProductWithActivity`.
abbrev pub to_market_product_with_activity : LockRequest → MarketProductEntity
to_market_product_with_activity req = record {
  user_id = req.user_id;
  goods_id = req.goods_id;
  source = req.source;
  channel = req.channel;
  activity_id = some req.activity_id;
}

abbrev pub to_notify_config_vo : Option NotifyConfigDto → NotifyConfigVo
to_notify_config_vo none = record { notify_type = notify_mq_type; notify_mq = ""; notify_url = "" }
to_notify_config_vo (some cfg) = record {
  notify_type = cfg.notify_type;
  notify_mq = cfg.notify_mq;
  notify_url = cfg.notify_url;
}

abbrev pub is_full : Option GroupBuyProgressVo → Bool
is_full none = false
is_full (some p) = eq_ℤ p.target_count p.lock_count

abbrev pub lock_activity : LockRequest → GroupBuyActivityDiscountVo → PayActivityEntity
lock_activity req g = record {
  team_id = req.team_id;
  activity_id = req.activity_id;
  activity_name = g.activity_name;
  start_time = g.start_time;
  end_time = g.end_time;
  valid_time = g.valid_time;
  target_count = g.target;
}

-- What the use case calls, and the clocks and draws of the lock.
pub record LockEnv (D : Type 0) : Type 0 where
  pub zero_amount : D
  pub index_trial : MarketProductEntity → Call D (TrialBalanceEntity D)
  pub checked_at : Time
  pub now : Time
  pub team_draws : List ℕ
  pub order_draws : List ℕ

module _ {D : Type 0} where
  abbrev pub to_lock_response : MarketPayOrderEntity D → LockResponse D
  to_lock_response order = record {
    order_id = order.order_id;
    original_price = order.original_price;
    deduction_price = order.deduction_price;
    pay_price = order.pay_price;
    trade_order_status = order.trade_order_status;
    team_id = order.team_id;
  }

  abbrev pub lock_discount :
      LockRequest → NotifyConfigDto → TrialBalanceEntity D → PayDiscountEntity D
  lock_discount req cfg trial = record {
    source = req.source;
    channel = req.channel;
    goods_id = req.goods_id;
    goods_name = trial.goods_name;
    original_price = trial.original_price;
    deduction_price = trial.deduction_price;
    pay_price = trial.pay_price;
    out_trade_no = req.out_trade_no;
    notify_config = some (to_notify_config_vo (some cfg));
  }

  abbrev pub no_order : D → LockResponse D
  no_order zero_amount = record {
    order_id = "";
    original_price = zero_amount;
    deduction_price = zero_amount;
    pay_price = zero_amount;
    trade_order_status = 0;
    team_id = "";
  }

  module _ (env : LockEnv D) (req : LockRequest) (cfg : NotifyConfigDto) where
    abbrev pub place : TrialBalanceEntity D → Call D (Response (LockResponse D))
    place trial = do
      g ← non_nil trial.group_buy_activity_discount_vo
      order ←
          lock_order env.checked_at env.now env.team_draws env.order_draws
            (record { user_id = req.user_id }) (lock_activity req g) (lock_discount req cfg trial)
      pure (succeed (to_lock_response order))

    -- The trial, and the lock if the buyer may take part.
    abbrev pub offer : Call D (Response (LockResponse D))
    offer = do
      trial ← env.index_trial (to_market_product_with_activity req)
      if trial.is_visible && trial.is_enable
          then place trial
          else pure (fail (no_order env.zero_amount) e0007)

    abbrev pub unless_full : Call D (Response (LockResponse D))
    unless_full =
        if str_eq req.team_id ""
        then offer
        else (query_group_buy_progress req.team_id >>= λ progress.
            if is_full progress then pure (fail (no_order env.zero_amount) e0006) else offer)

    -- An unpaid order under the number is the answer.
    abbrev pub unless_unpaid : Option (MarketPayOrderEntity D) → Call D (Response (LockResponse D))
    unless_unpaid none = unless_full
    unless_unpaid (some order) =
        if order.trade_order_status == trade_order_create
        then pure (succeed (to_lock_response order))
        else unless_full

    unfoldable pub lock_steps : Call D (Response (LockResponse D))
    lock_steps =
        query_market_pay_order_entity_by_out_trade_no req.user_id req.out_trade_no >>= λ exist.
        unless_unpaid exist

  -- Errors go to `failLock`, which is `answer`.
  unfoldable pub lock_market_pay_order_app :
      LockEnv D → Option LockRequest → Call D (Response (LockResponse D))
  unfolding lock_steps normalize_lock_notify as_app_exception
  lock_market_pay_order_app env none w = pure (fail (no_order env.zero_amount) illegal_parameter) w
  lock_market_pay_order_app env (some req) w =
      let cfg = normalize_lock_notify req in
      if is_lock_request req cfg
      then answer (no_order env.zero_amount) (λ r. r) (lock_steps env req cfg w)
      else pure (fail (no_order env.zero_amount) illegal_parameter) w
