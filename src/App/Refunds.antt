-- ===== src/App/Refunds.antt =====
-- Refund requests at the edges: an order that is refunded already, an order that does not exist,
-- and the answers of both use cases.
use group_buy_market.Prelude.{
  ◌≡◌, refl, sym, ap, ◌⊎◌, inl, inr, Bool, true, String, Option, none, some, [], find, Bool-cases,
}
use group_buy_market.Types.Outcome.{Result, ok, err, panic}
use group_buy_market.Trade.Entities.{Time}
use group_buy_market.Store.Rows.{GroupBuyOrderList, World}
use group_buy_market.Store.Call.{statement, ◌>>=◌}
use group_buy_market.Repository.Queries.{
  has_out_trade_no, query_market_pay_order_entity_by_out_trade_no, query_group_buy_team_by_team_id,
}
use group_buy_market.Design.Chain.{linked_list}
use group_buy_market.Service.Settlement.{settle_order}
use group_buy_market.Service.Refund.{
  StrategyMap, data_node_filter, unique_refund_node_filter, trade_refund_rule_filter,
  refund_order_of,
}
use group_buy_market.App.Answer.{Response, succeed, answer}
use group_buy_market.App.{
  RefundRequest, SettlementRequest, is_refund_request, is_settlement_request,
  settlement_market_pay_order_app, refund_market_pay_order_app,
}

-- A use case never passes an error on: it answers, or it has crashed.
abbrev pub Answers : {T : Type 0} → Result (Response T) → Type 0
Answers {T} r = ((a : Response T) × (r ≡ ok a)) ⊎ (r ≡ panic)

module _ {D A T : Type 0} where
  answer-Answers :
      (zero_value : T) (f : A → Response T) (r : Result A) (w : World D)
      → Answers (answer zero_value f (r, w)).0
  answer-Answers zero_value f (ok a) w = inl (f a, refl)
  answer-Answers zero_value f (err e) w = inl (_, refl)
  answer-Answers zero_value f panic w = inr refl

module _ {D : Type 0} where
  -- When no statement fails, a request with all its fields to refund an order that is closed, the
  -- first under its number, answers "repeat" with the order's numbers and leaves the world as it
  -- was, whatever the strategies are.
  pub refund_market_pay_order_app-repeated :
      (strategies : StrategyMap D) (topic : String) (req : RefundRequest)
      (row : GroupBuyOrderList D) (w : World D)
      → is_refund_request req ≡ true
      → w.faults ≡ []
      → find (has_out_trade_no req.user_id req.out_trade_no) w.db.orders ≡ some row
      → row.status ≡ 2
      → refund_market_pay_order_app strategies topic (some req) w ≡ (
        ok (
            succeed (record {
              user_id = req.user_id;
              order_id = row.order_id;
              team_id = row.team_id;
              code = "repeat";
              info = "重复退单";
            })),
        w,
      )
  unfolding refund_market_pay_order_app refund_order_of trade_refund_rule_filter data_node_filter
      unique_refund_node_filter linked_list query_market_pay_order_entity_by_out_trade_no
      query_group_buy_team_by_team_id statement ◌>>=◌
  refund_market_pay_order_app-repeated strategies topic req row w valid f found closed =
      simp (valid, f, found, closed)
        (ap
          (λ fs. (
            ok (
                succeed (record {
                  user_id = req.user_id;
                  order_id = row.order_id;
                  team_id = row.team_id;
                  code = "repeat";
                  info = "重复退单";
                })),
            record w { faults = fs },
          ))
          (sym f))

  -- When no statement fails, a request with all its fields to refund an outside trade number that
  -- the user has no order under crashes, with no change of the world.
  pub refund_market_pay_order_app-unknown :
      (strategies : StrategyMap D) (topic : String) (req : RefundRequest) (w : World D)
      → is_refund_request req ≡ true
      → w.faults ≡ []
      → find (has_out_trade_no req.user_id req.out_trade_no) w.db.orders ≡ none
      → refund_market_pay_order_app strategies topic (some req) w ≡ (panic, w)
  unfolding refund_market_pay_order_app refund_order_of trade_refund_rule_filter data_node_filter
      linked_list query_market_pay_order_entity_by_out_trade_no statement ◌>>=◌
  refund_market_pay_order_app-unknown strategies topic req w valid f missing =
      simp (valid, f, missing) (ap (λ fs. (panic, record w { faults = fs })) (sym f))

  -- Every settlement request is answered with a response code or crashes, whatever fails.
  pub settlement_market_pay_order_app-Answers :
      (black : String → String → Bool) (now : Time) (topic : String)
      (req : Option SettlementRequest) (w : World D)
      → Answers (settlement_market_pay_order_app black now topic req w).0
  unfolding settlement_market_pay_order_app
  settlement_market_pay_order_app-Answers black now topic none w = inl (_, refl)
  settlement_market_pay_order_app-Answers black now topic (some req) w =
      elim (Bool-cases (is_settlement_request req)) [
        | inl e ↦ rw e (
            answer-Answers _ _ (settle_order black now topic _ w).0
              (settle_order black now topic _ w).1)
        | inr e ↦ rw e (inl (_, refl))
      ]
