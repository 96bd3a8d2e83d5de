-- ===== src/Service/Lock.antt =====
-- internal/domain/trade/service/lock: the rule chain of filter/filters.go and `LockMarketPayOrder`
-- of trade_lock_order_service.go.
pub mod Safety
pub mod Admission
use group_buy_market.Prelude.{
  ℕ, ◌==◌, Bool, true, false, if◌then◌else◌, ◌&&◌, ◌||◌, not, ltb_ℤ, leb_ℤ, ℤ, pos, String, str_eq,
  Option, none, some, List, [], ◌∷◌,
}
use group_buy_market.Types.Codes.{e0008, e0101, e0102, e0103}
use group_buy_market.Types.Enums.{activity_effective}
use group_buy_market.Types.Outcome.{Result, ok, err, panic, new_app_exception}
use group_buy_market.Trade.Entities.{
  Time, UserEntity, PayActivityEntity, PayDiscountEntity, MarketPayOrderEntity,
  GroupBuyActivityEntity, TradeLockRuleCommandEntity, TradeLockRuleFilterBackEntity,
  GroupBuyOrderAggregate,
}
use group_buy_market.Trade.StockKey.{DynamicContext, team_stock_key, recovery_team_stock_key}
use group_buy_market.Store.Rows.{World}
use group_buy_market.Store.Call.{Call, pure, raise, require, non_nil, ◌>>=◌, ◌>>◌}
use group_buy_market.Repository.Queries.{
  query_group_buy_activity_entity_by_activity_id, query_order_count_by_activity_id,
}
use group_buy_market.Repository.Stock.{occupy_team_stock, recovery_team_stock}
use group_buy_market.Repository.Lock.{lock_market_pay_order}
use group_buy_market.Design.Chain.{Apply, LogicHandler, linked_list}

abbrev pub is_effective : Option GroupBuyActivityEntity → Bool
is_effective none = false
is_effective (some act) = act.status == activity_effective

-- Neither before the start nor after the end.
abbrev pub is_open_at : Time → GroupBuyActivityEntity → Bool
is_open_at now act = not (ltb_ℤ now act.start_time || ltb_ℤ act.end_time now)

-- The take limit, where a limit of 0 or less is none.
abbrev pub is_below_limit : Option GroupBuyActivityEntity → ℤ → Bool
is_below_limit none count = true
is_below_limit (some act) count =
    not (ltb_ℤ (pos 0) act.take_limit_count && leb_ℤ act.take_limit_count count)

abbrev pub empty_context : DynamicContext
empty_context = record { group_buy_activity = none; user_take_order_count = pos 0 }

abbrev pub lock_command : UserEntity → PayActivityEntity → TradeLockRuleCommandEntity
lock_command user activity = record {
  user_id = user.user_id;
  activity_id = activity.activity_id;
  team_id = activity.team_id;
}

abbrev pub LockHandler : Type 0 → Type 0
LockHandler D =
    LogicHandler D TradeLockRuleCommandEntity DynamicContext TradeLockRuleFilterBackEntity

module _ {D : Type 0} where
  unfoldable pub activity_usability_rule_filter : Time → LockHandler D
  activity_usability_rule_filter now next req dc = do
    found ← query_group_buy_activity_entity_by_activity_id req.activity_id
    require (is_effective found) (new_app_exception e0101)
    act ← non_nil found
    require (is_open_at now act) (new_app_exception e0102)
    next req (record dc { group_buy_activity = some act })

  unfoldable pub user_take_limit_rule_filter : LockHandler D
  user_take_limit_rule_filter next req dc = do
    count ← query_order_count_by_activity_id req.activity_id req.user_id
    require (is_below_limit dc.group_buy_activity count) (new_app_exception e0103)
    next req (record dc { user_take_order_count = count })

  -- The branch of a given team.
  abbrev pub occupy :
      TradeLockRuleCommandEntity → DynamicContext → Call D (Option TradeLockRuleFilterBackEntity)
  occupy req dc = do
    act ← non_nil dc.group_buy_activity
    granted ←
        occupy_team_stock (team_stock_key dc req.team_id) (recovery_team_stock_key dc req.team_id)
          act.target act.valid_time
    require granted (new_app_exception e0008)
    pure (
        some (record {
          user_take_order_count = dc.user_take_order_count;
          recovery_team_stock_key = recovery_team_stock_key dc req.team_id;
        }))

  unfoldable pub team_stock_occupy_rule_filter : LockHandler D
  team_stock_occupy_rule_filter next req dc =
      if str_eq req.team_id ""
      then pure (
          some (record {
            user_take_order_count = dc.user_take_order_count;
            recovery_team_stock_key = "";
          }))
      else occupy req dc

  unfoldable pub trade_lock_rule_filter :
      Time → Apply D TradeLockRuleCommandEntity DynamicContext TradeLockRuleFilterBackEntity
  unfolding linked_list
  trade_lock_rule_filter now = linked_list (
      activity_usability_rule_filter now
      ∷ user_take_limit_rule_filter
      ∷ team_stock_occupy_rule_filter
      ∷ [])

  -- On an error the stock is given back; what that call returns is dropped.
  abbrev pub or_recover : {A : Type 0} → String → ℤ → Result A × World D → Result A × World D
  or_recover recovery_key valid_time (ok a, w) = (ok a, w)
  or_recover recovery_key valid_time (err e, w) =
      (err e, (recovery_team_stock recovery_key valid_time w).1)
  or_recover recovery_key valid_time (panic, w) = (panic, w)

  -- What follows the rule chain. `now` is the clock at the insert.
  abbrev pub place_order :
      Time
      → List ℕ
      → List ℕ
      → UserEntity
      → PayActivityEntity
      → PayDiscountEntity D
      → TradeLockRuleFilterBackEntity
      → Call D (MarketPayOrderEntity D)
  place_order now team_draws order_draws user activity discount back w =
      or_recover back.recovery_team_stock_key activity.valid_time (
        lock_market_pay_order now team_draws order_draws
          (record {
            user_entity = user;
            pay_activity_entity = activity;
            pay_discount_entity = discount;
            user_take_order_count = back.user_take_order_count;
          })
          w)

  -- `checked_at` and `now` are the clocks at the rule chain and at the insert.
  unfoldable pub lock_order :
      Time
      → Time
      → List ℕ
      → List ℕ
      → UserEntity
      → PayActivityEntity
      → PayDiscountEntity D
      → Call D (MarketPayOrderEntity D)
  lock_order checked_at now team_draws order_draws user activity discount = do
    back ← trade_lock_rule_filter checked_at (lock_command user activity) empty_context
    passed ← non_nil back
    place_order now team_draws order_draws user activity discount passed
