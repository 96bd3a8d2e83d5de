-- ===== src/Service/Lock/Safety.antt =====
-- `LockMarketPayOrder` of the lock service: the counters, however the call ends.
use group_buy_market.Prelude.{
  ℕ, true, ◌≡◌, ℤ, pos, ◌≤ℤ◌, String, str_eq, List, Bool-cases, inl, inr,
}
use group_buy_market.Types.Outcome.{Result, ok, err, panic}
use group_buy_market.Trade.Entities.{
  Time, UserEntity, PayActivityEntity, PayDiscountEntity, TradeLockRuleCommandEntity,
  TradeLockRuleFilterBackEntity, GroupBuyOrderAggregate,
}
use group_buy_market.Trade.StockKey.{DynamicContext}
use group_buy_market.Store.Rows.{Db, World}
use group_buy_market.Store.Call.{pure}
use group_buy_market.Store.Keeps.{
  Keeps, command-Keeps, bind-Keeps, query-Keeps, non_nil-Keeps, require-Keeps,
}
use group_buy_market.Repository.Queries.{
  query_group_buy_activity_entity_by_activity_id, query_order_count_by_activity_id,
}
use group_buy_market.Repository.Stock.{occupy_team_stock, recovery_team_stock, incr}
use group_buy_market.Repository.Lock.{lock_market_pay_order}
use group_buy_market.Consistency.Counts.{Consistent}
use group_buy_market.Consistency.Lock.{lock_market_pay_order-Consistent}
use group_buy_market.Design.Chain.{Apply}
use group_buy_market.Service.Lock.{
  activity_usability_rule_filter, user_take_limit_rule_filter, team_stock_occupy_rule_filter,
  trade_lock_rule_filter, or_recover, lock_command, lock_order, empty_context,
}

module _ {D : Type 0} where
  recovery_team_stock-Keeps :
      (P : Db D → Type 0) (key : String) (valid_time : ℤ) (w : World D)
      → P w.db
      → Keeps P (recovery_team_stock key valid_time) w
  unfolding recovery_team_stock Keeps pure
  recovery_team_stock-Keeps P key valid_time w h = elim (Bool-cases (str_eq key "")) [
    | inl e ↦ rw e h
    | inr e ↦ rw e (bind-Keeps P _ _ w (command-Keeps P (incr key) w h) (λ a v k. k))
  ]

  or_recover-Keeps :
      {A : Type 0} (P : Db D → Type 0) (key : String) (valid_time : ℤ) (r : Result A) (w : World D)
      → P w.db
      → P (or_recover key valid_time (r, w)).1.db
  unfolding Keeps
  or_recover-Keeps P key valid_time (ok a) w h = h
  or_recover-Keeps P key valid_time (err e) w h = recovery_team_stock-Keeps P key valid_time w h
  or_recover-Keeps P key valid_time panic w h = h

  stock-Keeps :
      (P : Db D → Type 0) (req : TradeLockRuleCommandEntity) (dc : DynamicContext) (w : World D)
      (next : Apply D TradeLockRuleCommandEntity DynamicContext TradeLockRuleFilterBackEntity)
      → P w.db
      → Keeps P (team_stock_occupy_rule_filter next req dc) w
  unfolding team_stock_occupy_rule_filter Keeps occupy_team_stock pure
  stock-Keeps P req dc w next h = elim (Bool-cases (str_eq req.team_id "")) [
    | inl e ↦ rw e h
    | inr e ↦ rw e (
        non_nil-Keeps P dc.group_buy_activity _ w h λ act e.
          bind-Keeps P _ _ w (command-Keeps P _ w h)
            λ granted v k. require-Keeps P granted _ _ v k λ e. k)
  ]

  -- The rule chain writes no table.
  pub trade_lock_rule_filter-Keeps :
      (P : Db D → Type 0) (now : Time) (req : TradeLockRuleCommandEntity) (w : World D)
      → P w.db
      → Keeps P (trade_lock_rule_filter now req empty_context) w
  unfolding trade_lock_rule_filter activity_usability_rule_filter user_take_limit_rule_filter
      query_group_buy_activity_entity_by_activity_id query_order_count_by_activity_id
  trade_lock_rule_filter-Keeps P now req w h = query-Keeps P _ _ w h λ fs.
      require-Keeps P _ _ _ _ h λ e. non_nil-Keeps P _ _ _ h λ act e.
        require-Keeps P _ _ _ _ h
          λ e. query-Keeps P _ _ _ h λ fs'. require-Keeps P _ _ _ _ h λ e. stock-Keeps P req _ _ _ h

  -- What every lock transaction keeps, the lock service keeps.
  pub lock_order-Keeps :
      (P : Db D → Type 0)
      → ((now : Time) (team_draws order_draws : List ℕ) (agg : GroupBuyOrderAggregate D)
            (v : World D)
          → P v.db
          → P (lock_market_pay_order now team_draws order_draws agg v).1.db)
      → (checked_at now : Time) (team_draws order_draws : List ℕ) (user : UserEntity)
        (activity : PayActivityEntity) (discount : PayDiscountEntity D) (w : World D)
      → P w.db
      → P (lock_order checked_at now team_draws order_draws user activity discount w).1.db
  unfolding lock_order Keeps
  lock_order-Keeps P step checked_at now team_draws order_draws user activity discount w h =
      bind-Keeps P _ _ w
        (trade_lock_rule_filter-Keeps P checked_at (lock_command user activity) w h)
        λ back v k. non_nil-Keeps P back _ v k λ passed e.
          or_recover-Keeps P passed.recovery_team_stock_key activity.valid_time _ _
            (step now team_draws order_draws _ v k)

  -- From consistent tables the whole lock operation, with its rule chain and its stock recovery,
  -- leaves consistent tables if a request that opens a team has a target of at least one, however it
  -- ends: with an order, an error of a rule, a database or
  -- Redis failure at any point, or a crash.
  pub lock_order-Consistent :
      (checked_at now : Time) (team_draws order_draws : List ℕ) (user : UserEntity)
      (activity : PayActivityEntity) (discount : PayDiscountEntity D) (w : World D)
      → (str_eq activity.team_id "" ≡ true → pos 1 ≤ℤ activity.target_count)
      → Consistent w.db
      → Consistent (lock_order checked_at now team_draws order_draws user activity discount w).1.db
  unfolding lock_order Keeps
  lock_order-Consistent checked_at now team_draws order_draws user activity discount w room c =
      bind-Keeps Consistent _ _ w
        (trade_lock_rule_filter-Keeps Consistent checked_at (lock_command user activity) w c)
        λ back v k. non_nil-Keeps Consistent back _ v k λ passed e.
          or_recover-Keeps Consistent passed.recovery_team_stock_key activity.valid_time _ _
            (lock_market_pay_order-Consistent now team_draws order_draws _ v room k)
