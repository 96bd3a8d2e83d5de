-- ===== src/System/Requests.antt =====
-- The requests for a lock, a settlement and a refund over the teams and the orders.
use group_buy_market.Prelude.{Bool, String, Option, none, some, Bool-cases, inl, inr}
use group_buy_market.Types.Outcome.{Result, ok, err, panic}
use group_buy_market.Trade.Entities.{Time}
use group_buy_market.Trade.Refund.Types.{TradeRefundBehaviorEntity}
use group_buy_market.Store.Rows.{World}
use group_buy_market.Store.Call.{pure}
use group_buy_market.Consistency.Orders.{lock_market_pay_order-OrdersUnique}
use group_buy_market.Service.Lock.Safety.{lock_order-Keeps, lock_order-Consistent}
use group_buy_market.Service.Settlement.Safety.{OneTeam, settle_order-Consistent}
use group_buy_market.Service.Refund.{strategy_map, refund_order_of}
use group_buy_market.Service.Refund.Safety.{refund_order_of-Consistent}
use group_buy_market.Service.Unique.{
  Unique, settle_order-OrdersUnique, refund_order_of-OrdersUnique,
}
use group_buy_market.Dcc.{Service}
use group_buy_market.Activity.Decimals.{Decimal, IsOrdered}
use group_buy_market.App.{
  SettlementRequest, RefundRequest, is_settlement_request, is_refund_request, to_trade_pay_success,
  to_refund_command, read_refund, settlement_market_pay_order_app, refund_market_pay_order_app,
}
use group_buy_market.App.Lock.{LockEnv, LockRequest, lock_market_pay_order_app}
use group_buy_market.App.Lock.Safety.{
  WantsBuyers, with_trial, answer-Keeps, lock_market_pay_order_app-Keeps,
}
use group_buy_market.System.Blind.{Sound}

module _ {D : Type 0} (d : Decimal D) (o : IsOrdered d) where
  pub lock-Sound :
      (settings : Service) (acquire : Option String) (sku_first : Bool) (base : LockEnv D)
      (req : Option LockRequest) (w : World D)
      → WantsBuyers d o w.db
      → Sound w.db
      → Sound
          (lock_market_pay_order_app (with_trial d o settings acquire sku_first base) req w).1.db
  lock-Sound settings acquire sku_first base req w all h =
      lock_market_pay_order_app-Keeps d o settings acquire sku_first base Sound
        (λ user activity discount v room k. (
          lock_order-Consistent base.checked_at base.now base.team_draws base.order_draws user
              activity discount v room k.0,
          lock_order-Keeps Unique (λ n t r a u l. lock_market_pay_order-OrdersUnique n t r a u l)
              base.checked_at base.now base.team_draws base.order_draws user activity discount v
              k.1,
        ))
        req w all h

module _ {D : Type 0} where
  pub settlement-Sound :
      (black : String → String → Bool) (now : Time) (topic T : String) (req : SettlementRequest)
      (w : World D)
      → OneTeam req.user_id req.out_trade_no T w.db
      → Sound w.db
      → Sound (settlement_market_pay_order_app black now topic (some req) w).1.db
  unfolding settlement_market_pay_order_app pure
  settlement-Sound black now topic T req w own h = elim (Bool-cases (is_settlement_request req)) [
    | inl valid ↦ rw valid (
        answer-Keeps Sound _ _ _ _ (
          settle_order-Consistent black now topic T (to_trade_pay_success req) w own h.0,
          settle_order-OrdersUnique black now topic (to_trade_pay_success req) w h.1,
        ))
    | inr invalid ↦ rw invalid h
  ]

  read-Sound :
      (r : Result (Option TradeRefundBehaviorEntity)) (w : World D)
      → Sound w.db
      → Sound (read_refund (r, w)).1.db
  read-Sound (ok none) w h = h
  read-Sound (ok (some b)) w h = h
  read-Sound (err e) w h = h
  read-Sound panic w h = h

  pub refund-Sound :
      (now : Time) (topic refund_topic : String) (req : Option RefundRequest) (w : World D)
      → Sound w.db
      → Sound (refund_market_pay_order_app (strategy_map now refund_topic) topic req w).1.db
  unfolding refund_market_pay_order_app pure
  refund-Sound now topic refund_topic none w h = h
  refund-Sound now topic refund_topic (some req) w h = elim (Bool-cases (is_refund_request req)) [
    | inl valid ↦
        let done =
          refund_order_of (strategy_map now refund_topic) topic (to_refund_command req) w in
        rw valid (
          answer-Keeps Sound _ _ _ _ (
            read-Sound done.0 done.1 (
              refund_order_of-Consistent now topic refund_topic (to_refund_command req) w h.1 h.0,
              refund_order_of-OrdersUnique now topic refund_topic (to_refund_command req) w h.1,
            )))
    | inr invalid ↦ rw invalid h
  ]
