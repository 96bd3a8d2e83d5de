-- ===== src/Service/Settlement.antt =====
-- internal/domain/trade/service/settlement: the rule chain of filter/filters.go and
-- `SettlementMarketPayOrder` of trade_settlement_order_service.go.
pub mod Safety
pub mod Checks
use group_buy_market.Prelude.{
  ℕ, ◌==◌, Bool, true, false, if◌then◌else◌, ◌||◌, not, ltb_ℤ, ℤ, pos, String, Option, none, some,
  List, [], ◌∷◌, ◌++◌,
}
use group_buy_market.Types.Codes.{e0104, e0105, e0106}
use group_buy_market.Types.Enums.{trade_order_close}
use group_buy_market.Types.Outcome.{new_app_exception}
use group_buy_market.Trade.Entities.{
  Time, MarketPayOrderEntity, GroupBuyTeamEntity, TradePaySuccessEntity, TradePaySettlementEntity,
  TradeSettlementRuleCommandEntity, TradeSettlementRuleFilterBackEntity,
  GroupBuyTeamSettlementAggregate,
}
use group_buy_market.Trade.Notify.{NotifyTaskEntity}
use group_buy_market.Store.Rows.{World}
use group_buy_market.Store.Call.{Call, pure, require, non_nil, start_job, ◌>>=◌, ◌>>◌}
use group_buy_market.Repository.Queries.{
  query_market_pay_order_entity_by_out_trade_no, query_group_buy_team_by_team_id,
}
use group_buy_market.Repository.Settle.{settlement_market_pay_order}
use group_buy_market.Design.Chain.{Apply, LogicHandler, linked_list}

pub record SettleCtx (D : Type 0) : Type 0 where
  pub market_pay_order : Option (MarketPayOrderEntity D)
  pub group_buy_team : Option GroupBuyTeamEntity

-- An order that can be settled: one that exists and is not closed.
abbrev pub is_settlable : {D : Type 0} → Option (MarketPayOrderEntity D) → Bool
is_settlable none = false
is_settlable (some order) = not (order.trade_order_status == trade_order_close)

abbrev pub SettleHandler : Type 0 → Type 0
SettleHandler D =
    LogicHandler D TradeSettlementRuleCommandEntity (SettleCtx D)
      TradeSettlementRuleFilterBackEntity

abbrev pub settle_command : TradePaySuccessEntity → TradeSettlementRuleCommandEntity
settle_command pay = record {
  source = pay.source;
  channel = pay.channel;
  user_id = pay.user_id;
  out_trade_no = pay.out_trade_no;
  out_trade_time = pay.out_trade_time;
}

abbrev pub settle_aggregate :
    TradePaySuccessEntity → TradeSettlementRuleFilterBackEntity → GroupBuyTeamSettlementAggregate
settle_aggregate pay back = record {
  user_entity = record { user_id = pay.user_id };
  group_buy_team_entity = record {
    team_id = back.team_id;
    activity_id = back.activity_id;
    target_count = back.target_count;
    complete_count = back.complete_count;
    lock_count = back.lock_count;
    status = back.status;
    valid_start_time = back.valid_start_time;
    valid_end_time = back.valid_end_time;
    notify_config = back.notify_config;
  };
  trade_pay_success_entity = pay;
}

module _ {D : Type 0} where
  -- `black` is the repository's `IsSCBlackIntercept`.
  unfoldable pub sc_rule_filter : (String → String → Bool) → SettleHandler D
  sc_rule_filter black next req dc = do
    require (not (black req.source req.channel)) (new_app_exception e0105)
    next req dc

  unfoldable pub out_trade_no_rule_filter : SettleHandler D
  out_trade_no_rule_filter next req dc = do
    order ← query_market_pay_order_entity_by_out_trade_no req.user_id req.out_trade_no
    require (is_settlable order) (new_app_exception e0104)
    next req (record dc { market_pay_order = order })

  -- The team is read without a nil check.
  unfoldable pub settable_rule_filter : String → SettleHandler D
  settable_rule_filter topic next req dc = do
    order ← non_nil dc.market_pay_order
    read ← query_group_buy_team_by_team_id topic order.team_id
    team ← non_nil read
    require (ltb_ℤ req.out_trade_time team.valid_end_time) (new_app_exception e0106)
    next req (record dc { group_buy_team = some team })

  unfoldable pub end_rule_filter : SettleHandler D
  end_rule_filter next req dc = do
    t ← non_nil dc.group_buy_team
    pure (
        some (record {
          team_id = t.team_id;
          activity_id = t.activity_id;
          target_count = t.target_count;
          complete_count = t.complete_count;
          lock_count = t.lock_count;
          status = t.status;
          valid_start_time = t.valid_start_time;
          valid_end_time = t.valid_end_time;
          notify_config = t.notify_config;
        }))

  unfoldable pub trade_settlement_rule_filter :
      (String → String → Bool)
      → String
      → Apply D TradeSettlementRuleCommandEntity (SettleCtx D) TradeSettlementRuleFilterBackEntity
  unfolding linked_list
  trade_settlement_rule_filter black topic = linked_list (
      sc_rule_filter black
      ∷ out_trade_no_rule_filter
      ∷ settable_rule_filter topic
      ∷ end_rule_filter
      ∷ [])

  abbrev pub settle :
      Time
      → String
      → TradePaySuccessEntity
      → TradeSettlementRuleFilterBackEntity
      → Call D TradePaySettlementEntity
  settle now topic pay back = do
    notify_task ← settlement_market_pay_order now topic (settle_aggregate pay back)
    start_job notify_task
    pure (record {
      source = pay.source;
      channel = pay.channel;
      user_id = pay.user_id;
      team_id = back.team_id;
      activity_id = back.activity_id;
      out_trade_no = pay.out_trade_no;
    })

  -- `topic` is the repository's `topicTeamSuccess`.
  unfoldable pub settle_order :
      (String → String → Bool)
      → Time
      → String
      → TradePaySuccessEntity
      → Call D TradePaySettlementEntity
  settle_order black now topic pay = do
    back ←
        trade_settlement_rule_filter black topic (settle_command pay)
          (record { market_pay_order = none; group_buy_team = none })
    passed ← non_nil back
    settle now topic pay passed
