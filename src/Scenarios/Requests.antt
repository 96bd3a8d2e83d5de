-- ===== src/Scenarios/Requests.antt =====
-- The use cases at the market of `Market`.
use group_buy_market.Prelude.{ℕ, ◌≡◌, refl, pos, some, [], ◌∷◌, find}
use group_buy_market.Types.Outcome.{ok, panic}
use group_buy_market.Store.Rows.{GroupBuyOrderList, World}
use group_buy_market.Service.Refund.{strategy_map}
use group_buy_market.App.Answer.{succeed}
use group_buy_market.App.{RefundRequest, SettlementRequest, refund_market_pay_order_app}
use group_buy_market.App.Refunds.{
  refund_market_pay_order_app-repeated, refund_market_pay_order_app-unknown,
}
use group_buy_market.Scenarios.Market.{market, calm, paid_order, unpaid_order}

abbrev bob : RefundRequest
bob = record { user_id = "bob"; out_trade_no = "n2"; source = "s"; channel = "c" }

abbrev closed_order : GroupBuyOrderList ℕ
closed_order = record unpaid_order { status = 2 }

-- The market after bob's refund.
abbrev refunded_market : World ℕ
refunded_market = record calm { db = record market { orders = paid_order ∷ closed_order ∷ [] } }

refund_market_pay_order_app-repeated_example :
    refund_market_pay_order_app
      (strategy_map (pos 700) "refunds")
      "topic"
      (some bob)
      refunded_market
    ≡ (
      ok (
          succeed (record {
            user_id = "bob";
            order_id = "o2";
            team_id = "T";
            code = "repeat";
            info = "重复退单";
          })),
      refunded_market,
    )
unfolding find
refund_market_pay_order_app-repeated_example =
    refund_market_pay_order_app-repeated (strategy_map (pos 700) "refunds") "topic" bob closed_order
      refunded_market refl refl refl refl

refund_market_pay_order_app-unknown_example :
    refund_market_pay_order_app
      (strategy_map (pos 700) "refunds")
      "topic"
      (some (record bob { out_trade_no = "n9" }))
      calm
    ≡ (panic, calm)
unfolding find
refund_market_pay_order_app-unknown_example =
    refund_market_pay_order_app-unknown (strategy_map (pos 700) "refunds") "topic"
      (record bob { out_trade_no = "n9" }) calm refl refl refl

abbrev bob_settlement : SettlementRequest
bob_settlement = record {
  user_id = "bob";
  source = "s";
  channel = "c";
  out_trade_no = "n2";
  out_trade_time = pos 500;
}
