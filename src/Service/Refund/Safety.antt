-- ===== src/Service/Refund/Safety.antt =====
-- The refund service: the counters, however the call ends.
use group_buy_market.Prelude.{
  ℕ, ◌==◌, Bool, ◌≡◌, refl, ◌∙◌, sym, String, str_eq, str_eq_eq, Option, none, some, List, [], ◌∷◌,
  find, All, All-map, All-find, arith, Bool-cases, inl, inr,
}
use group_buy_market.Trade.Entities.{
  Time, GroupBuyTeamEntity, TradeRefundCommandEntity, TradeRefundOrderEntity,
}
use group_buy_market.Trade.Refund.Types.{TradeRefundBehaviorEntity}
use group_buy_market.Store.Rows.{GroupBuyOrderList, World}
use group_buy_market.Store.Keeps.{
  Keeps, to_Keeps, of_Keeps, pure-Keeps, bind-Keeps, query-Keeps, non_nil-Keeps, lift_bind-Keeps,
  start_job-Keeps, some_bind-Keeps,
}
use group_buy_market.Repository.Queries.{
  to_market_pay_order, has_out_trade_no, query_market_pay_order_entity_by_out_trade_no,
  query_group_buy_team_by_team_id,
}
use group_buy_market.Consistency.Counts.{Consistent, OrdersUnique}
use group_buy_market.Consistency.Refund.{
  RefundBelongs, unpaid2refund-Consistent, paid2refund-Consistent, paid_team2refund-Consistent,
}
use group_buy_market.Design.Chain.{Apply, linked_list}
use group_buy_market.Service.Refund.{
  RefundOrderStrategy, unpaid2refund_strategy, paid2refund_strategy, paid_team2refund_strategy,
  strategy_map, data_node_filter, load_team, unique_refund_node_filter, run_strategy,
  refund_order_node_filter, trade_refund_rule_filter, refund_order_of, RefundCtx,
}
use mathlib.Core.Option

module _ {D : Type 0} where
  -- Under the unique key, a row with the number of the row that was read is of the same team.
  same_team :
      (p : GroupBuyOrderList D → Bool) (row : GroupBuyOrderList D)
      (orders : List (GroupBuyOrderList D))
      → OrdersUnique orders
      → find p orders ≡ some row
      → All (λ o. o.order_id ≡ row.order_id → o.team_id ≡ row.team_id) orders
  unfolding find
  same_team p row [] u e = tt
  same_team p row (o ∷ os) u e = elim (Bool-cases (p o)) [
    | inl hit ↦
        let same : o ≡ row = ground arith in
        ((λ q. cc), All-map _ _ os (λ v ne q. absurd (ne (q ∙ cc))) u.0)
    | inr miss ↦
        let rest : find p os ≡ some row = ground arith in
        ((λ q. absurd (All-find _ p os row u.0 rest (sym q))), same_team p row os u.1 rest)
  ]

  -- A strategy that keeps the tables consistent when it closes an order of the team it names.
  abbrev Safe : RefundOrderStrategy D → Type 0
  Safe s =
      (order : TradeRefundOrderEntity) (w : World D)
      → ((status : ℕ) → RefundBelongs order status w.db)
      → Consistent w.db
      → Keeps Consistent (s.refund_order order) w

  unpaid2refund_strategy-Safe :
      (now : Time) (topic : String) → Safe (unpaid2refund_strategy now topic)
  unfolding unpaid2refund_strategy
  unpaid2refund_strategy-Safe now topic order w own c =
      bind-Keeps Consistent _ _ w
        (to_Keeps Consistent _ w (unpaid2refund-Consistent now topic order w (own 0) c))
        λ t v k. start_job-Keeps Consistent (some t) v k

  paid2refund_strategy-Safe : (now : Time) (topic : String) → Safe (paid2refund_strategy now topic)
  unfolding paid2refund_strategy
  paid2refund_strategy-Safe now topic order w own c =
      bind-Keeps Consistent _ _ w
        (to_Keeps Consistent _ w (paid2refund-Consistent now topic order w (own 1) c))
        λ t v k. start_job-Keeps Consistent (some t) v k

  paid_team2refund_strategy-Safe :
      (now : Time) (topic : String) → Safe (paid_team2refund_strategy now topic)
  unfolding paid_team2refund_strategy
  paid_team2refund_strategy-Safe now topic order w own c =
      bind-Keeps Consistent _ _ w
        (to_Keeps Consistent _ w (paid_team2refund-Consistent now topic order w (own 1) c))
        λ t v k. start_job-Keeps Consistent (some t) v k

  SafeOption : Option (RefundOrderStrategy D) → Type 0
  SafeOption none = Unit
  SafeOption (some s) = Safe s

strategy_map-Safe :
    (D : Type 0) (now : Time) (topic name : String)
    → SafeOption (strategy_map {D = D} now topic name)
unfolding strategy_map SafeOption
strategy_map-Safe D now topic name = elim (Bool-cases (str_eq name "unpaid2RefundStrategy")) [
  | inl e ↦ rw e (unpaid2refund_strategy-Safe now topic)
  | inr e ↦ elim (Bool-cases (str_eq name "paid2RefundStrategy")) [
    | inl f ↦ rw (e, f) (paid2refund_strategy-Safe now topic)
    | inr f ↦ elim (Bool-cases (str_eq name "paidTeam2RefundStrategy")) [
      | inl g ↦ rw (e, f, g) (paid_team2refund_strategy-Safe now topic)
      | inr g ↦ rw (e, f, g) tt
    ]
  ]
]

module _ {D : Type 0} where
  run_strategy-Keeps :
      (s : Option (RefundOrderStrategy D)) (order : TradeRefundOrderEntity) (w : World D)
      → SafeOption s
      → ((status : ℕ) → RefundBelongs order status w.db)
      → Consistent w.db
      → Keeps Consistent (run_strategy s order) w
  unfolding SafeOption
  run_strategy-Keeps none order w safe own c = pure-Keeps Consistent none w c
  run_strategy-Keeps (some s) order w safe own c =
      bind-Keeps Consistent _ _ w (safe order w own c) λ u v k. pure-Keeps Consistent _ v k

  -- The node that runs the strategy, on a row that was read under the unique key.
  run-Keeps :
      (now : Time) (topic : String) (cmd : TradeRefundCommandEntity) (row : GroupBuyOrderList D)
      (team : Option GroupBuyTeamEntity) (w : World D)
      (next : Apply D TradeRefundCommandEntity (RefundCtx D) TradeRefundBehaviorEntity)
      → find (has_out_trade_no cmd.user_id cmd.out_trade_no) w.db.orders ≡ some row
      → OrdersUnique w.db.orders
      → Consistent w.db
      → Keeps Consistent
          (refund_order_node_filter
            (strategy_map now topic)
            next
            cmd
            (record { market_pay_order = some (to_market_pay_order row); group_buy_team = team }))
          w
  unfolding refund_order_node_filter
  run-Keeps now topic cmd row team w next s u c = non_nil-Keeps Consistent team _ w c λ t is_t.
      some_bind-Keeps Consistent _ _ w (
        lift_bind-Keeps Consistent _ _ w c λ kind e.
          run_strategy-Keeps (strategy_map now topic kind.strategy) _ w
            (strategy_map-Safe D now topic kind.strategy)
            (λ status.
              All-map _ _ w.db.orders
                (λ o f m. f (str_eq_eq o.order_id row.order_id (ground (arith, m))))
                (same_team _ row w.db.orders u s))
            c)

  unique-Keeps :
      (now : Time) (topic : String) (cmd : TradeRefundCommandEntity) (row : GroupBuyOrderList D)
      (team : Option GroupBuyTeamEntity) (w : World D)
      → find (has_out_trade_no cmd.user_id cmd.out_trade_no) w.db.orders ≡ some row
      → OrdersUnique w.db.orders
      → Consistent w.db
      → Keeps Consistent
          (unique_refund_node_filter
            (linked_list (refund_order_node_filter (strategy_map now topic) ∷ []))
            cmd
            (record { market_pay_order = some (to_market_pay_order row); group_buy_team = team }))
          w
  unfolding unique_refund_node_filter linked_list
  unique-Keeps now topic cmd row team w s u c = elim (Bool-cases (row.status == 2)) [
    | inl e ↦ rw e (some_bind-Keeps Consistent _ _ w (pure-Keeps Consistent _ w c))
    | inr e ↦ rw e (run-Keeps now topic cmd row team w _ s u c)
  ]

  load-Keeps :
      (now : Time) (topic refund_topic : String) (cmd : TradeRefundCommandEntity)
      (o : Option (GroupBuyOrderList D)) (w : World D)
      → find (has_out_trade_no cmd.user_id cmd.out_trade_no) w.db.orders ≡ o
      → OrdersUnique w.db.orders
      → Consistent w.db
      → Keeps Consistent
          (load_team topic
            (linked_list (
              unique_refund_node_filter
              ∷ refund_order_node_filter (strategy_map now refund_topic)
              ∷ []))
            cmd
            (Option.map to_market_pay_order o))
          w
  unfolding query_group_buy_team_by_team_id linked_list
  load-Keeps now topic refund_topic cmd none w s u c = pure-Keeps Consistent none w c
  load-Keeps now topic refund_topic cmd (some row) w s u c =
      query-Keeps Consistent _ _ w c λ fs. unique-Keeps now refund_topic cmd row _ _ s u c

  -- From consistent tables with unique order numbers, a refund leaves consistent tables whichever
  -- strategy the team and the order call for and however it ends: done, a repeated refund, an
  -- unknown order, a status pair that no strategy has, a database failure at any point, or a crash
  -- on a missing team.
  pub refund_order_of-Consistent :
      (now : Time) (topic refund_topic : String) (cmd : TradeRefundCommandEntity) (w : World D)
      → OrdersUnique w.db.orders
      → Consistent w.db
      → Consistent (refund_order_of (strategy_map now refund_topic) topic cmd w).1.db
  unfolding refund_order_of trade_refund_rule_filter data_node_filter linked_list
      query_market_pay_order_entity_by_out_trade_no
  refund_order_of-Consistent now topic refund_topic cmd w u c = of_Keeps Consistent _ w (
      query-Keeps Consistent _ _ w c λ fs.
        load-Keeps now topic refund_topic cmd
          (find (has_out_trade_no cmd.user_id cmd.out_trade_no) w.db.orders) _ refl u c)
