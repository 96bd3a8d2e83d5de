-- ===== src/Service/Settlement/Checks.antt =====
-- `SettlementMarketPayOrder` of the settlement service: what has been checked when it returns.
use group_buy_market.Prelude.{
  Bool, true, false, not, ◌≡◌, refl, ◌≢◌, ◌<ℤ◌, ltb_ℤ, String, str_eq, Option, none, some, find,
  arith,
}
use group_buy_market.Trade.Entities.{
  Time, MarketPayOrderEntity, GroupBuyTeamEntity, TradePaySuccessEntity,
}
use group_buy_market.Store.Rows.{GroupBuyOrder, GroupBuyOrderList, Db, World}
use group_buy_market.Store.Rules.{Post, require-Post}
use group_buy_market.Store.Facts.{always-Post, first-Post, query-Post, non_nil-Post}
use group_buy_market.Repository.Queries.{
  to_market_pay_order, to_team, has_out_trade_no, query_market_pay_order_entity_by_out_trade_no,
  query_group_buy_team_by_team_id,
}
use group_buy_market.Service.Settlement.{
  sc_rule_filter, out_trade_no_rule_filter, settable_rule_filter, is_settlable,
  trade_settlement_rule_filter, settle_order,
}
use mathlib.Core.Option

module _ {D : Type 0} where
  -- The channel is not black, the first order under the outside trade number is not closed, and the
  -- payment lies before the end of its team.
  pub record Settlable (black : String → String → Bool) (pay : TradePaySuccessEntity) (db : Db D)
      : Type 0 where
    pub allowed : black pay.source pay.channel ≡ false
    pub order : GroupBuyOrderList D
    pub stored : find (has_out_trade_no pay.user_id pay.out_trade_no) db.orders ≡ some order
    pub not_closed : order.status ≢ 2
    pub team : GroupBuyOrder D
    pub team_stored : find (λ t. str_eq t.team_id order.team_id) db.teams ≡ some team
    pub in_time : pay.out_trade_time <ℤ team.valid_end_time

  settlable :
      (black : String → String → Bool) (topic : String) (pay : TradePaySuccessEntity) (db : Db D)
      (o : Option (GroupBuyOrderList D)) (order : MarketPayOrderEntity D)
      (r : Option (GroupBuyOrder D)) (team : GroupBuyTeamEntity)
      → not (black pay.source pay.channel) ≡ true
      → find (has_out_trade_no pay.user_id pay.out_trade_no) db.orders ≡ o
      → Option.map to_market_pay_order o ≡ some order
      → is_settlable (Option.map to_market_pay_order o) ≡ true
      → find (λ t. str_eq t.team_id order.team_id) db.teams ≡ r
      → Option.map (to_team topic) r ≡ some team
      → ltb_ℤ pay.out_trade_time team.valid_end_time ≡ true
      → Settlable black pay db
  settlable black topic pay db none order r team b s e f s' e' t = cc
  settlable black topic pay db (some row) order none team b s e f s' e' t = cc
  settlable black topic pay db (some row) order (some u) team b s e f s' e' t =
      let same : order.team_id ≡ row.team_id = ground (arith, e) in
      record {
        allowed = ground (arith, b);
        order = row;
        stored = s;
        not_closed = λ p. ground (arith, f, p);
        team = u;
        team_stored = rw same at s';
        in_time = ground (arith, e', t);
      }

  -- If the settlement service returns, then the channel was not on the black list, the first order
  -- of the user under the outside trade number was not closed, its team was stored, and the payment
  -- time lies before the end of that team.
  pub settle_order-Settlable :
      (black : String → String → Bool) (now : Time) (topic : String) (pay : TradePaySuccessEntity)
      (w : World D)
      → Post (settle_order black now topic pay) w (λ result v. Settlable black pay w.db)
  unfolding settle_order trade_settlement_rule_filter sc_rule_filter out_trade_no_rule_filter
      settable_rule_filter query_market_pay_order_entity_by_out_trade_no
      query_group_buy_team_by_team_id
  settle_order-Settlable black now topic pay w = first-Post _ _ _ w (
      require-Post _ _ _ w _ λ allowed. query-Post _ _ _ _ λ fs.
        require-Post _ _ _ _ _ λ open_order. non_nil-Post _ _ _ _ λ order is_order.
          query-Post _ _ _ _ λ fs'. non_nil-Post _ _ _ _ λ team is_team.
            require-Post _ _ _ _ _ λ in_time. always-Post _ _ _ (
              settlable black topic pay w.db
                (find (has_out_trade_no pay.user_id pay.out_trade_no) w.db.orders) order
                (find (λ t. str_eq t.team_id order.team_id) w.db.teams) team allowed refl is_order
                open_order refl is_team in_time))
