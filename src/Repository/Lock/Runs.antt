-- ===== src/Repository/Lock/Runs.antt =====
-- The run of `LockMarketPayOrder` over the functions of its transaction.
use group_buy_market.Prelude.{
  ℕ, ◌≡◌, refl, find, str_eq_self, some, Bool, true, false, ◌||◌, String, str_eq, List, [], ◌∷◌,
  ◌++◌, count_where,
}
use group_buy_market.Types.Outcome.{ok}
use group_buy_market.Trade.Entities.{Time, GroupBuyOrderAggregate}
use group_buy_market.Store.Rows.{GroupBuyOrderList, Db, World}
use group_buy_market.Store.Call.{statement, transaction, ◌>>=◌}
use group_buy_market.Store.Table.{update_where}
use group_buy_market.Store.Only.{find-split, count_where-none}
use group_buy_market.Repository.Queries.{has_out_trade_no}
use group_buy_market.Repository.Text.{random_numeric}
use group_buy_market.Repository.Lock.{
  has_room, lock_one, new_team, new_order, biz_id, locked_order, lock_market_pay_order,
}

module _ {D : Type 0} where
  -- The rows that stand in the way of a new order: those with its number or its business number.
  abbrev pub clashes : String → GroupBuyOrderAggregate D → GroupBuyOrderList D → Bool
  clashes order_id agg o = str_eq o.order_id order_id || str_eq o.biz_id (biz_id agg)

  abbrev pub joined_db : Time → List ℕ → GroupBuyOrderAggregate D → Db D → Db D
  joined_db now order_draws agg db = record db {
    teams = update_where (has_room agg.pay_activity_entity.team_id) (lock_one now) db.teams;
    orders =
        db.orders
        ++ new_order now agg.pay_activity_entity.team_id (random_numeric order_draws) agg ∷ [];
  }

  abbrev pub opened_db : Time → List ℕ → List ℕ → GroupBuyOrderAggregate D → Db D → Db D
  opened_db now team_draws order_draws agg db = record db {
    teams =
        db.teams
        ++ new_team now (random_numeric team_draws) agg.pay_activity_entity agg.pay_discount_entity
          ∷ [];
    orders =
        db.orders
        ++ new_order now (random_numeric team_draws) (random_numeric order_draws) agg ∷ [];
  }

  -- The run of a lock that joins a team, over the functions of the transaction.
  pub joined_lem :
      (now : Time) (team_draws order_draws : List ℕ) (agg : GroupBuyOrderAggregate D) (w : World D)
      → w.faults ≡ []
      → str_eq agg.pay_activity_entity.team_id "" ≡ false
      → count_where (has_room agg.pay_activity_entity.team_id) w.db.teams ≡ 1
      → count_where (clashes (random_numeric order_draws) agg) w.db.orders ≡ 0
      → lock_market_pay_order now team_draws order_draws agg w ≡ (
        ok (
            locked_order agg.pay_activity_entity.team_id
              (random_numeric order_draws)
              agg.pay_discount_entity),
        record w { db = joined_db now order_draws agg w.db },
      )
  unfolding lock_market_pay_order transaction ◌>>=◌ statement
  joined_lem now team_draws order_draws agg w f named room fresh = simp (f, named, room, fresh) refl

  -- The run of a lock that opens a team, over the functions of the transaction.
  pub opened_lem :
      (now : Time) (team_draws order_draws : List ℕ) (agg : GroupBuyOrderAggregate D) (w : World D)
      → w.faults ≡ []
      → str_eq agg.pay_activity_entity.team_id "" ≡ true
      → count_where (λ t. str_eq t.team_id (random_numeric team_draws)) w.db.teams ≡ 0
      → count_where (clashes (random_numeric order_draws) agg) w.db.orders ≡ 0
      → lock_market_pay_order now team_draws order_draws agg w ≡ (
        ok (
            locked_order
              (random_numeric team_draws)
              (random_numeric order_draws)
              agg.pay_discount_entity),
        record w { db = opened_db now team_draws order_draws agg w.db },
      )
  unfolding lock_market_pay_order transaction ◌>>=◌ statement
  opened_lem now team_draws order_draws agg w f none_named free fresh =
      simp (f, none_named, free, fresh) refl

  pub new_order-found :
      (now : Time) (team_id order_id : String) (agg : GroupBuyOrderAggregate D)
      (orders : List (GroupBuyOrderList D))
      → count_where
          (has_out_trade_no agg.user_entity.user_id agg.pay_discount_entity.out_trade_no)
          orders
        ≡ 0
      → find
          (has_out_trade_no agg.user_entity.user_id agg.pay_discount_entity.out_trade_no)
          (orders ++ new_order now team_id order_id agg ∷ [])
        ≡ some (new_order now team_id order_id agg)
  new_order-found now team_id order_id agg orders none_yet =
      let numbered =
        has_out_trade_no agg.user_entity.user_id agg.pay_discount_entity.out_trade_no in
      find-split numbered orders (new_order now team_id order_id agg) []
        (rw (str_eq_self agg.user_entity.user_id, str_eq_self agg.pay_discount_entity.out_trade_no)
          refl)
        (count_where-none numbered orders none_yet)
