-- ===== src/App.antt =====
-- internal/application/market_trade_app.go: the use cases of settlement and refund, with the DTOs of
-- internal/api/dto/market_trade.go and the two assembler functions that they use. A request pointer
-- that is nil is `none`.
pub mod Answer
pub mod Lock
pub mod IndexPage
pub mod Refunds
use group_buy_market.Prelude.{
  Bool, true, false, not, ◌||◌, if◌then◌else◌, eq_ℤ, ℤ, pos, String, str_eq, Option, none, some,
  List, [], ◌∷◌,
}
use group_buy_market.Types.Codes.{ResponseCode, illegal_parameter, un_error}
use group_buy_market.Types.Outcome.{AppException, GoError, as_app_exception, Result, ok, err, panic}
use group_buy_market.Trade.Entities.{
  Time, TradePaySuccessEntity, TradePaySettlementEntity, TradeRefundCommandEntity,
}
use group_buy_market.Trade.Refund.Types.{TradeRefundBehaviorEntity, behavior_code, behavior_info}
use group_buy_market.Store.Rows.{World}
use group_buy_market.Store.Call.{Call, pure}
use group_buy_market.App.Answer.{Response, succeed, fail, answer}
use group_buy_market.Service.Settlement.{settle_order}
use group_buy_market.Service.Refund.{StrategyMap, refund_order_of}

pub record SettlementRequest : Type 0 where
  pub user_id : String
  pub source : String
  pub channel : String
  pub out_trade_no : String
  pub out_trade_time : Time

pub record SettlementResponse : Type 0 where
  pub user_id : String
  pub team_id : String
  pub activity_id : ℤ
  pub out_trade_no : String

pub record RefundRequest : Type 0 where
  pub user_id : String
  pub out_trade_no : String
  pub source : String
  pub channel : String

pub record RefundResponse : Type 0 where
  pub user_id : String
  pub order_id : String
  pub team_id : String
  pub code : String
  pub info : String

abbrev pub no_settlement : SettlementResponse
no_settlement = record { user_id = ""; team_id = ""; activity_id = pos 0; out_trade_no = "" }

abbrev pub no_refund : RefundResponse
no_refund = record { user_id = ""; order_id = ""; team_id = ""; code = ""; info = "" }

abbrev pub is_settlement_request : SettlementRequest → Bool
is_settlement_request req = not (
    str_eq req.user_id ""
    || (str_eq req.source ""
        || (str_eq req.channel ""
            || (str_eq req.out_trade_no "" || eq_ℤ req.out_trade_time (pos 0)))))

abbrev pub is_refund_request : RefundRequest → Bool
is_refund_request req = not (
    str_eq req.user_id ""
    || (str_eq req.out_trade_no "" || (str_eq req.source "" || str_eq req.channel "")))

abbrev pub to_trade_pay_success : SettlementRequest → TradePaySuccessEntity
to_trade_pay_success req = record {
  source = req.source;
  channel = req.channel;
  user_id = req.user_id;
  out_trade_no = req.out_trade_no;
  out_trade_time = req.out_trade_time;
}

abbrev pub to_refund_command : RefundRequest → TradeRefundCommandEntity
to_refund_command req = record {
  user_id = req.user_id;
  out_trade_no = req.out_trade_no;
  source = req.source;
  channel = req.channel;
}

abbrev pub settlement_response : TradePaySettlementEntity → Response SettlementResponse
settlement_response result = succeed (record {
  user_id = result.user_id;
  team_id = result.team_id;
  activity_id = result.activity_id;
  out_trade_no = result.out_trade_no;
})

abbrev pub refund_response : TradeRefundBehaviorEntity → Response RefundResponse
refund_response result = succeed (record {
  user_id = result.user_id;
  order_id = result.order_id;
  team_id = result.team_id;
  code = behavior_code result.behavior;
  info = behavior_info result.behavior;
})

module _ {D : Type 0} where
  unfoldable pub settlement_market_pay_order_app :
      (String → String → Bool)
      → Time
      → String
      → Option SettlementRequest
      → Call D (Response SettlementResponse)
  unfolding pure as_app_exception
  settlement_market_pay_order_app black now topic none w =
      pure (fail no_settlement illegal_parameter) w
  settlement_market_pay_order_app black now topic (some req) w =
      if is_settlement_request req
      then answer no_settlement settlement_response
          (settle_order black now topic (to_trade_pay_success req) w)
      else pure (fail no_settlement illegal_parameter) w

  -- The result is read through its pointer.
  abbrev pub read_refund :
      Result (Option TradeRefundBehaviorEntity) × World D
      → Result TradeRefundBehaviorEntity × World D
  read_refund (ok none, w) = (panic, w)
  read_refund (ok (some b), w) = (ok b, w)
  read_refund (err e, w) = (err e, w)
  read_refund (panic, w) = (panic, w)

  unfoldable pub refund_market_pay_order_app :
      StrategyMap D → String → Option RefundRequest → Call D (Response RefundResponse)
  unfolding pure as_app_exception behavior_code behavior_info
  refund_market_pay_order_app strategies topic none w = pure (fail no_refund illegal_parameter) w
  refund_market_pay_order_app strategies topic (some req) w =
      if is_refund_request req
      then answer no_refund refund_response
          (read_refund (refund_order_of strategies topic (to_refund_command req) w))
      else pure (fail no_refund illegal_parameter) w
