-- ===== src/Service/Settlement/Safety.antt =====
-- `SettlementMarketPayOrder` of the settlement service: the counters, however the call ends.
use group_buy_market.Prelude.{
  Bool, true, ◌≡◌, refl, ◌∙◌, sym, String, str_eq, str_eq_eq, Option, none, some, List, find,
  find-test, All, All-map, All-find, arith,
}
use group_buy_market.Trade.Entities.{
  Time, MarketPayOrderEntity, GroupBuyTeamEntity, TradePaySuccessEntity,
  TradeSettlementRuleFilterBackEntity,
}
use group_buy_market.Store.Rows.{GroupBuyOrder, GroupBuyOrderList, Db, World}
use group_buy_market.Store.Keeps.{
  Keeps, to_Keeps, of_Keeps, pure-Keeps, bind-Keeps, query-Keeps, non_nil-Keeps, require-Keeps,
  regroup-Keeps, start_job-Keeps, pure_bind-Keeps, some_bind-Keeps,
}
use group_buy_market.Repository.Queries.{
  to_market_pay_order, to_team, has_out_trade_no, query_market_pay_order_entity_by_out_trade_no,
  query_group_buy_team_by_team_id,
}
use group_buy_market.Repository.Settle.{is_unpaid}
use group_buy_market.Consistency.Counts.{Consistent}
use group_buy_market.Consistency.Settle.{Belongs, settlement_market_pay_order-Consistent}
use group_buy_market.Service.Settlement.{
  sc_rule_filter, out_trade_no_rule_filter, settable_rule_filter, end_rule_filter,
  trade_settlement_rule_filter, settle_aggregate, settle, settle_order,
}
use mathlib.Core.Option

module _ {D : Type 0} where
  -- All orders of the user under this outside trade number are of one team.
  abbrev pub OneTeam : String → String → String → Db D → Type 0
  OneTeam user_id out_trade_no T db =
      All (λ o. has_out_trade_no user_id out_trade_no o ≡ true → o.team_id ≡ T) db.orders

  settle-Keeps :
      (now : Time) (topic : String) (pay : TradePaySuccessEntity)
      (back : TradeSettlementRuleFilterBackEntity) (w : World D)
      → Belongs (settle_aggregate pay back) w.db
      → Consistent w.db
      → Keeps Consistent (settle now topic pay back) w
  settle-Keeps now topic pay back w own c =
      bind-Keeps Consistent _ _ w
        (to_Keeps Consistent _ w
          (settlement_market_pay_order-Consistent now topic (settle_aggregate pay back) w own c))
        λ task v k.
          bind-Keeps Consistent _ _ v (start_job-Keeps Consistent task v k)
            λ u v' k'. pure-Keeps Consistent _ v' k'

  order_team :
      (user_id out_trade_no T : String) (db : Db D) (o : Option (GroupBuyOrderList D))
      (order : MarketPayOrderEntity D)
      → OneTeam user_id out_trade_no T db
      → find (has_out_trade_no user_id out_trade_no) db.orders ≡ o
      → Option.map to_market_pay_order o ≡ some order
      → order.team_id ≡ T
  order_team user_id out_trade_no T db none order own s e = cc
  order_team user_id out_trade_no T db (some row) order own s e =
      let same : order.team_id ≡ row.team_id = ground (arith, e) in
      same ∙ All-find _ _ db.orders row own s (find-test _ db.orders row s)

  row_team :
      (topic T : String) (ts : List (GroupBuyOrder D)) (o : Option (GroupBuyOrder D))
      (team : GroupBuyTeamEntity)
      → find (λ t. str_eq t.team_id T) ts ≡ o
      → Option.map (to_team topic) o ≡ some team
      → team.team_id ≡ T
  row_team topic T ts none team s e = cc
  row_team topic T ts (some row) team s e =
      let same : team.team_id ≡ row.team_id = ground (arith, e) in
      same ∙ str_eq_eq row.team_id T (find-test _ ts row s)

  belongs :
      (topic T : String) (pay : TradePaySuccessEntity) (db : Db D)
      → OneTeam pay.user_id pay.out_trade_no T db
      → (order : MarketPayOrderEntity D) (team t : GroupBuyTeamEntity)
      → Option.map to_market_pay_order
          (find (has_out_trade_no pay.user_id pay.out_trade_no) db.orders)
        ≡ some order
      → Option.map (to_team topic) (find (λ r. str_eq r.team_id order.team_id) db.teams) ≡ some team
      → some team ≡ some t
      → All (λ o. is_unpaid pay.out_trade_no pay.user_id o ≡ true → o.team_id ≡ t.team_id) db.orders
  belongs topic T pay db own order team t is_order is_team is_t =
      let here : order.team_id ≡ T =
        order_team pay.user_id pay.out_trade_no T db _ order own refl is_order in
      let row : team.team_id ≡ order.team_id =
        row_team topic order.team_id db.teams _ team refl is_team in
      let same : t.team_id ≡ team.team_id = ground (arith, is_t) in
      All-map _ _ db.orders (λ o f e. f (ground (arith, e)) ∙ sym (same ∙ row ∙ here)) own

  -- From consistent tables, where all orders of the user under the paid outside trade number are of
  -- one team, the whole settlement leaves consistent tables, however it ends: settled, refused by a
  -- rule, with a database failure at any point, or a crash on a missing team.
  pub settle_order-Consistent :
      (black : String → String → Bool) (now : Time) (topic T : String) (pay : TradePaySuccessEntity)
      (w : World D)
      → OneTeam pay.user_id pay.out_trade_no T w.db
      → Consistent w.db
      → Consistent (settle_order black now topic pay w).1.db
  unfolding settle_order trade_settlement_rule_filter sc_rule_filter out_trade_no_rule_filter
      settable_rule_filter end_rule_filter query_market_pay_order_entity_by_out_trade_no
      query_group_buy_team_by_team_id
  settle_order-Consistent black now topic T pay w own c = of_Keeps P _ w (
      regroup-Keeps P _ _ _ w (
        require-Keeps P _ _ _ w c λ e. regroup-Keeps P _ _ _ _ (
          query-Keeps P _ _ w c λ fs. regroup-Keeps P _ _ _ _ (
            require-Keeps P _ _ _ _ c λ e. regroup-Keeps P _ _ _ _ (
              non_nil-Keeps P _ _ _ c λ order is_order. regroup-Keeps P _ _ _ _ (
                query-Keeps P _ _ _ c λ fs'. regroup-Keeps P _ _ _ _ (
                  non_nil-Keeps P _ _ _ c λ team is_team. regroup-Keeps P _ _ _ _ (
                    require-Keeps P _ _ _ _ c λ e. regroup-Keeps P _ _ _ _ (
                      non_nil-Keeps P _ _ _ c λ t is_t. pure_bind-Keeps P _ _ _ (
                        some_bind-Keeps P _ _ _ (
                          settle-Keeps now topic pay _ _
                            (belongs topic T pay w.db own order team t is_order is_team is_t)
                            c)))))))))))
    where
      P : Db D → Type 0
      P = Consistent
