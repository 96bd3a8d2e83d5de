-- ===== src/Service/Refund.antt =====
-- internal/domain/trade/service/refund: the rule chain of filter/filters.go, the strategies of
-- business/strategy.go and trade_refund_order_service.go.
pub mod Safety
use group_buy_market.Prelude.{
  ℕ, ◌==◌, Bool, true, false, if◌then◌else◌, ◌||◌, not, ℤ, pos, negsuc, String, str_eq, Option,
  none, some, List, [], ◌∷◌, find,
}
use group_buy_market.Types.Enums.{trade_order_close}
use group_buy_market.Trade.Entities.{
  Time, MarketPayOrderEntity, GroupBuyTeamEntity, TradeRefundCommandEntity, TradeRefundOrderEntity,
  TimeoutUnpaidOrderEntity, TeamRefundSuccess, build_unpaid2refund_aggregate,
  build_paid2refund_aggregate, build_paid_team2refund_aggregate,
}
use group_buy_market.Trade.Notify.{NotifyTaskEntity}
use group_buy_market.Trade.Refund.Types.{
  TradeRefundBehaviorEntity, refund_behavior_success, refund_behavior_repeat, get_refund_strategy,
  get_refund_type_by_code,
}
use group_buy_market.Trade.StockKey.{generate_recovery_team_stock_key}
use group_buy_market.Store.Rows.{World}
use group_buy_market.Store.Call.{Call, pure, lift, non_nil, start_job, ◌>>=◌, ◌>>◌}
use group_buy_market.Repository.Queries.{
  query_market_pay_order_entity_by_out_trade_no, query_group_buy_team_by_team_id,
}
use group_buy_market.Repository.Refund.{unpaid2refund, paid2refund, paid_team2refund}
use group_buy_market.Repository.Stock.{refund2_add_recovery}
use group_buy_market.Design.Chain.{Apply, LogicHandler, linked_list}

-- `IRefundOrderStrategy`, without its `Name`, which is the key in the map.
pub record RefundOrderStrategy (D : Type 0) : Type 0 where
  pub refund_order : TradeRefundOrderEntity → Call D (Unit {0})
  pub reverse_stock : TeamRefundSuccess → Call D (Unit {0})

-- `StrategyMap`: a missing name is the nil interface.
abbrev pub StrategyMap : Type 0 → Type 0
StrategyMap D = String → Option (RefundOrderStrategy D)

module _ {D : Type 0} where
  unfoldable pub do_reverse_stock : TeamRefundSuccess → Call D (Unit {0})
  do_reverse_stock msg =
      refund2_add_recovery (generate_recovery_team_stock_key msg.activity_id msg.team_id)
        msg.order_id

  -- `RefundOrder` of the three strategies: the transaction, then the callback in a goroutine.
  unfoldable pub unpaid2refund_strategy : Time → String → RefundOrderStrategy D
  unpaid2refund_strategy now topic = record {
    refund_order = λ order. do
      notify ← unpaid2refund now topic (build_unpaid2refund_aggregate order (negsuc 0))
      start_job (some notify);
    reverse_stock = do_reverse_stock;
  }

  unfoldable pub paid2refund_strategy : Time → String → RefundOrderStrategy D
  paid2refund_strategy now topic = record {
    refund_order = λ order. do
      notify ← paid2refund now topic (build_paid2refund_aggregate order (negsuc 0) (negsuc 0))
      start_job (some notify);
    reverse_stock = do_reverse_stock;
  }

  unfoldable pub paid_team2refund_strategy : Time → String → RefundOrderStrategy D
  paid_team2refund_strategy now topic = record {
    refund_order = λ order. do
      notify ←
          paid_team2refund now topic (build_paid_team2refund_aggregate order (negsuc 0) (negsuc 0))
      start_job (some notify);
    reverse_stock = do_reverse_stock;
  }

  -- `NewStrategyMap` of the three, as wire.go builds it.
  unfoldable pub strategy_map : Time → String → StrategyMap D
  strategy_map now topic name =
      if str_eq name "unpaid2RefundStrategy"
      then some (unpaid2refund_strategy now topic)
      else if str_eq name "paid2RefundStrategy"
      then some (paid2refund_strategy now topic)
      else if str_eq name "paidTeam2RefundStrategy"
      then some (paid_team2refund_strategy now topic)
      else none

pub record RefundCtx (D : Type 0) : Type 0 where
  pub market_pay_order : Option (MarketPayOrderEntity D)
  pub group_buy_team : Option GroupBuyTeamEntity

abbrev pub RefundHandler : Type 0 → Type 0
RefundHandler D = LogicHandler D TradeRefundCommandEntity (RefundCtx D) TradeRefundBehaviorEntity

module _ {D : Type 0} where
  abbrev pub is_closed : Option (MarketPayOrderEntity D) → Bool
  is_closed none = false
  is_closed (some order) = order.trade_order_status == trade_order_close

  abbrev pub load_team :
      String
      → Apply D TradeRefundCommandEntity (RefundCtx D) TradeRefundBehaviorEntity
      → TradeRefundCommandEntity
      → Option (MarketPayOrderEntity D)
      → Call D (Option TradeRefundBehaviorEntity)
  load_team topic next req none = pure none
  load_team topic next req (some order) = do
    team ← query_group_buy_team_by_team_id topic order.team_id
    next req (record { market_pay_order = some order; group_buy_team = team })

  unfoldable pub data_node_filter : String → RefundHandler D
  data_node_filter topic next req dc = do
    order ← query_market_pay_order_entity_by_out_trade_no req.user_id req.out_trade_no
    load_team topic next req order

  abbrev pub repeated :
      TradeRefundCommandEntity
      → Option (MarketPayOrderEntity D)
      → Call D (Option TradeRefundBehaviorEntity)
  repeated req found = do
    order ← non_nil found
    pure (
        some (record {
          user_id = req.user_id;
          order_id = order.order_id;
          team_id = order.team_id;
          behavior = refund_behavior_repeat;
        }))

  unfoldable pub unique_refund_node_filter : RefundHandler D
  unique_refund_node_filter next req dc =
      if is_closed dc.market_pay_order then repeated req dc.market_pay_order else next req dc

  -- A strategy that the map does not have: `return nil, err` with a nil error.
  abbrev pub run_strategy :
      Option (RefundOrderStrategy D)
      → TradeRefundOrderEntity
      → Call D (Option TradeRefundBehaviorEntity)
  run_strategy none order = pure none
  run_strategy (some s) order = do
    s.refund_order order
    pure (
        some (record {
          user_id = order.user_id;
          order_id = order.order_id;
          team_id = order.team_id;
          behavior = refund_behavior_success;
        }))

  unfoldable pub refund_order_node_filter : StrategyMap D → RefundHandler D
  refund_order_node_filter strategies next req dc = do
    team ← non_nil dc.group_buy_team
    order ← non_nil dc.market_pay_order
    refund_type ← lift (get_refund_strategy team.status order.trade_order_status)
    run_strategy (strategies refund_type.strategy) (record {
      user_id = req.user_id;
      order_id = order.order_id;
      team_id = order.team_id;
      activity_id = team.activity_id;
      out_trade_no = req.out_trade_no;
    })

  unfoldable pub trade_refund_rule_filter :
      StrategyMap D
      → String
      → Apply D TradeRefundCommandEntity (RefundCtx D) TradeRefundBehaviorEntity
  unfolding linked_list
  trade_refund_rule_filter strategies topic = linked_list (
      data_node_filter topic ∷ unique_refund_node_filter ∷ refund_order_node_filter strategies ∷ [])

  -- `topic` is the repository's `topicTeamSuccess`.
  unfoldable pub refund_order_of :
      StrategyMap D → String → TradeRefundCommandEntity → Call D (Option TradeRefundBehaviorEntity)
  refund_order_of strategies topic cmd =
      trade_refund_rule_filter strategies topic cmd
        (record { market_pay_order = none; group_buy_team = none })

  abbrev pub reverse : Option (RefundOrderStrategy D) → TeamRefundSuccess → Call D (Unit {0})
  reverse none msg = pure tt
  reverse (some s) msg = s.reverse_stock msg

  unfoldable pub restore_team_lock_stock : StrategyMap D → TeamRefundSuccess → Call D (Unit {0})
  restore_team_lock_stock strategies msg = do
    rt ← lift (get_refund_type_by_code msg.refund_type)
    reverse (strategies rt.strategy) msg
