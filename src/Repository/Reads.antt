-- ===== src/Repository/Reads.antt =====
-- What the queries of trade_repository.go answer from the tables when their statement does not fail.
use group_buy_market.Prelude.{◌≡◌, refl, String, str_eq, some, [], find}
use group_buy_market.Types.Outcome.{ok}
use group_buy_market.Store.Rows.{GroupBuyOrder, GroupBuyOrderList, World}
use group_buy_market.Store.Call.{statement}
use group_buy_market.Repository.Queries.{
  has_out_trade_no, query_market_pay_order_entity_by_out_trade_no, query_group_buy_progress,
}

module _ {D : Type 0} (w : World D) (calm : w.faults ≡ []) where
  pub query_market_pay_order_entity_by_out_trade_no-found :
      (user_id out_trade_no : String) (o : GroupBuyOrderList D)
      → find (has_out_trade_no user_id out_trade_no) w.db.orders ≡ some o
      → (query_market_pay_order_entity_by_out_trade_no user_id out_trade_no w).0
        ≡ ok (
            some (record {
              team_id = o.team_id;
              order_id = o.order_id;
              original_price = o.original_price;
              deduction_price = o.deduction_price;
              pay_price = o.pay_price;
              trade_order_status = o.status;
            }))
  unfolding query_market_pay_order_entity_by_out_trade_no statement
  query_market_pay_order_entity_by_out_trade_no-found user_id out_trade_no o e = rw (calm, e) refl

  pub query_group_buy_progress-found :
      (team_id : String) (row : GroupBuyOrder D)
      → find (λ t. str_eq t.team_id team_id) w.db.teams ≡ some row
      → (query_group_buy_progress team_id w).0
        ≡ ok (
            some (record {
              target_count = row.target_count;
              complete_count = row.complete_count;
              lock_count = row.lock_count;
            }))
  unfolding query_group_buy_progress statement
  query_group_buy_progress-found team_id row e = rw (calm, e) refl
