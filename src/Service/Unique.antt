-- ===== src/Service/Unique.antt =====
-- The unique key on order numbers, through the services.
use group_buy_market.Prelude.{
  Bool, String, str_eq, Option, none, some, [], ◌∷◌, Bool-cases, inl, inr,
}
use group_buy_market.Trade.Entities.{
  Time, MarketPayOrderEntity, TradePaySuccessEntity, TradeRefundCommandEntity,
  TradeRefundOrderEntity,
}
use group_buy_market.Store.Rows.{Db, World}
use group_buy_market.Store.Keeps.{
  Keeps, to_Keeps, of_Keeps, pure-Keeps, bind-Keeps, query-Keeps, non_nil-Keeps, require-Keeps,
  lift_bind-Keeps, start_job-Keeps,
}
use group_buy_market.Repository.Queries.{
  query_market_pay_order_entity_by_out_trade_no, query_group_buy_team_by_team_id,
}
use group_buy_market.Design.Chain.{linked_list}
use group_buy_market.Consistency.Counts.{OrdersUnique}
use group_buy_market.Consistency.Orders.{
  settlement_market_pay_order-OrdersUnique, unpaid2refund-OrdersUnique, paid2refund-OrdersUnique,
  paid_team2refund-OrdersUnique,
}
use group_buy_market.Service.Settlement.{
  sc_rule_filter, out_trade_no_rule_filter, settable_rule_filter, end_rule_filter,
  trade_settlement_rule_filter, settle_order,
}
use group_buy_market.Service.Refund.{
  RefundOrderStrategy, unpaid2refund_strategy, paid2refund_strategy, paid_team2refund_strategy,
  strategy_map, data_node_filter, load_team, unique_refund_node_filter, is_closed, run_strategy,
  refund_order_node_filter, trade_refund_rule_filter, refund_order_of, RefundCtx,
}

module _ {D : Type 0} where
  abbrev pub Unique : Db D → Type 0
  Unique db = OrdersUnique db.orders

  pub settle_order-OrdersUnique :
      (black : String → String → Bool) (now : Time) (topic : String) (pay : TradePaySuccessEntity)
      (w : World D)
      → OrdersUnique w.db.orders
      → OrdersUnique (settle_order black now topic pay w).1.db.orders
  unfolding settle_order trade_settlement_rule_filter sc_rule_filter out_trade_no_rule_filter
      settable_rule_filter end_rule_filter query_market_pay_order_entity_by_out_trade_no
      query_group_buy_team_by_team_id linked_list
  settle_order-OrdersUnique black now topic pay w u = of_Keeps Unique _ w (
      bind-Keeps Unique _ _ w
        (require-Keeps Unique _ _ _ w u λ e. query-Keeps Unique _ _ _ u λ fs.
          require-Keeps Unique _ _ _ _ u λ e. non_nil-Keeps Unique _ _ _ u λ order e.
            query-Keeps Unique _ _ _ u λ fs'. non_nil-Keeps Unique _ _ _ u λ team e.
              require-Keeps Unique _ _ _ _ u
                λ e. non_nil-Keeps Unique _ _ _ u λ t e. pure-Keeps Unique _ _ u)
        λ back v k. non_nil-Keeps Unique _ _ v k λ passed e.
          bind-Keeps Unique _ _ v
            (to_Keeps Unique _ v (settlement_market_pay_order-OrdersUnique now topic _ v k))
            λ task v' k'.
              bind-Keeps Unique _ _ v' (start_job-Keeps Unique task v' k')
                λ x v2 k2. pure-Keeps Unique _ v2 k2)

-- What a strategy keeps, if there is one.
Keeping : (D : Type 0) → Option (RefundOrderStrategy D) → Type 0
Keeping D none = Unit
Keeping D (some s) =
    (order : TradeRefundOrderEntity) (w : World D)
    → OrdersUnique w.db.orders
    → Keeps (λ db. OrdersUnique db.orders) (s.refund_order order) w

strategy_map-Keeping :
    (D : Type 0) (now : Time) (topic name : String) → Keeping D (strategy_map now topic name)
unfolding strategy_map Keeping unpaid2refund_strategy paid2refund_strategy paid_team2refund_strategy
strategy_map-Keeping D now topic name = elim (Bool-cases (str_eq name "unpaid2RefundStrategy")) [
  | inl e ↦ rw e λ order w u.
      bind-Keeps Unique _ _ w (to_Keeps Unique _ w (unpaid2refund-OrdersUnique now topic _ w u))
        λ t v k. start_job-Keeps Unique (some t) v k
  | inr e ↦ elim (Bool-cases (str_eq name "paid2RefundStrategy")) [
    | inl f ↦
        rw (e, f)
          λ order w u.
            bind-Keeps Unique _ _ w (to_Keeps Unique _ w (paid2refund-OrdersUnique now topic _ w u))
              λ t v k. start_job-Keeps Unique (some t) v k
    | inr f ↦ elim (Bool-cases (str_eq name "paidTeam2RefundStrategy")) [
      | inl g ↦
          rw (e, f, g)
            λ order w u.
              bind-Keeps Unique _ _ w
                (to_Keeps Unique _ w (paid_team2refund-OrdersUnique now topic _ w u))
                λ t v k. start_job-Keeps Unique (some t) v k
      | inr g ↦ rw (e, f, g) tt
    ]
  ]
]

module _ {D : Type 0} where
  run_strategy-Unique :
      (s : Option (RefundOrderStrategy D)) (order : TradeRefundOrderEntity) (w : World D)
      → Keeping D s
      → OrdersUnique w.db.orders
      → Keeps Unique (run_strategy s order) w
  unfolding Keeping
  run_strategy-Unique none order w k u = pure-Keeps Unique none w u
  run_strategy-Unique (some s) order w k u =
      bind-Keeps Unique _ _ w (k order w u) λ x v h. pure-Keeps Unique _ v h

  unique_refund_node_filter-Unique :
      (now : Time) (topic : String) (cmd : TradeRefundCommandEntity) (dc : RefundCtx D)
      (w : World D)
      → OrdersUnique w.db.orders
      → Keeps Unique
          (unique_refund_node_filter
            (linked_list (refund_order_node_filter (strategy_map now topic) ∷ []))
            cmd
            dc)
          w
  unfolding unique_refund_node_filter refund_order_node_filter linked_list
  unique_refund_node_filter-Unique now topic cmd dc w u =
      elim (Bool-cases (is_closed dc.market_pay_order)) [
        | inl e ↦
            rw e (non_nil-Keeps Unique dc.market_pay_order _ w u λ order e. pure-Keeps Unique _ w u)
        | inr e ↦ rw e (
            non_nil-Keeps Unique _ _ w u λ team e. non_nil-Keeps Unique _ _ w u λ order e.
              lift_bind-Keeps Unique _ _ w u λ kind e.
                run_strategy-Unique (strategy_map now topic kind.strategy) _ w
                  (strategy_map-Keeping D now topic kind.strategy) u)
      ]

  load_team-Unique :
      (now : Time) (topic refund_topic : String) (cmd : TradeRefundCommandEntity)
      (order : Option (MarketPayOrderEntity D)) (w : World D)
      → OrdersUnique w.db.orders
      → Keeps Unique
          (load_team topic
            (linked_list (
              unique_refund_node_filter
              ∷ refund_order_node_filter (strategy_map now refund_topic)
              ∷ []))
            cmd
            order)
          w
  unfolding query_group_buy_team_by_team_id linked_list
  load_team-Unique now topic refund_topic cmd none w u = pure-Keeps Unique none w u
  load_team-Unique now topic refund_topic cmd (some order) w u =
      query-Keeps Unique _ _ w u λ fs. unique_refund_node_filter-Unique now refund_topic cmd _ _ u

  pub refund_order_of-OrdersUnique :
      (now : Time) (topic refund_topic : String) (cmd : TradeRefundCommandEntity) (w : World D)
      → OrdersUnique w.db.orders
      → OrdersUnique (refund_order_of (strategy_map now refund_topic) topic cmd w).1.db.orders
  unfolding refund_order_of trade_refund_rule_filter data_node_filter linked_list
      query_market_pay_order_entity_by_out_trade_no
  refund_order_of-OrdersUnique now topic refund_topic cmd w u =
      of_Keeps Unique _ w
        (query-Keeps Unique _ _ w u λ fs. load_team-Unique now topic refund_topic cmd _ _ u)
