-- ===== src/Scenarios/Overlap.antt =====
-- Two payments that run at the same time: both read the team before the other commits.
use group_buy_market.Prelude.{
  ℕ, ◌≡◌, refl, pos, ◌+ℤ◌, ◌-ℤ◌, String, [], ◌∷◌, map, count_where, arith,
}
use group_buy_market.Trade.Entities.{
  PayActivityEntity, GroupBuyOrderAggregate, GroupBuyTeamSettlementAggregate,
}
use group_buy_market.Trade.StockKey.{digit, digits_loop, itoa}
use group_buy_market.Store.Rows.{World}
use group_buy_market.Store.Call.{statement, transaction, ◌>>=◌}
use group_buy_market.Store.Table.{update_where}
use group_buy_market.Service.Reach.{empty_db}
use group_buy_market.Repository.Text.{random_numeric}
use group_buy_market.Repository.Queries.{to_team}
use group_buy_market.Repository.Lock.{lock_market_pay_order}
use group_buy_market.Repository.Settle.{settlement_market_pay_order}
use group_buy_market.Consistency.Settle.{Belongs}
use group_buy_market.System.Reach.{Reached, start, lock_committed, settlement_committed}
use group_buy_market.Scenarios.Amounts.{whole, whole-IsOrdered}
use group_buy_market.Scenarios.Market.{
  activity, catalog, calm, no_keys, no_bitmaps, team, join_request, price,
}

abbrev team_id : String
team_id = random_numeric (7 ∷ [])

-- A buyer of a team of two, named or to be opened.
abbrev buyer : String → String → PayActivityEntity → GroupBuyOrderAggregate ℕ
buyer user_id out_trade_no act = record {
  user_entity = record { user_id = user_id };
  pay_activity_entity = record act { target_count = pos 2 };
  pay_discount_entity = record price { out_trade_no = out_trade_no };
  user_take_order_count = pos 0;
}

abbrev empty_market : World ℕ
empty_market = record calm { db = empty_db (activity ∷ []) catalog }

abbrev ann_opens : GroupBuyOrderAggregate ℕ
ann_opens = buyer "ann" "n1" (record join_request { team_id = "" })

abbrev bob_joins : GroupBuyOrderAggregate ℕ
bob_joins = buyer "bob" "n2" (record join_request { team_id = team_id })

abbrev opened : World ℕ
opened = (lock_market_pay_order (pos 1) (7 ∷ []) (1 ∷ []) ann_opens empty_market).1

abbrev joined : World ℕ
joined = (lock_market_pay_order (pos 2) [] (2 ∷ []) bob_joins opened).1

-- The team as both payments read it, with no payment yet.
abbrev payment : String → String → GroupBuyTeamSettlementAggregate
payment user_id out_trade_no = record {
  user_entity = record { user_id = user_id };
  group_buy_team_entity =
      to_team "topic"
        (record team { team_id = team_id; target_count = pos 2; complete_count = pos 0 });
  trade_pay_success_entity = record {
    source = "s";
    channel = "c";
    user_id = user_id;
    out_trade_no = out_trade_no;
    out_trade_time = pos 3;
  };
}

abbrev paid_by_ann : World ℕ
paid_by_ann = (settlement_market_pay_order (pos 4) "topic" (payment "ann" "n1") joined).1

abbrev paid_by_both : World ℕ
paid_by_both = (settlement_market_pay_order (pos 5) "topic" (payment "bob" "n2") paid_by_ann).1

joined-Belongs : Belongs (payment "ann" "n1") joined.db
unfolding lock_market_pay_order transaction ◌>>=◌ statement update_where count_where random_numeric
    digit itoa digits_loop ◌+ℤ◌
joined-Belongs = ((λ e. refl), ((λ e. refl), tt))

paid_by_ann-Belongs : Belongs (payment "bob" "n2") paid_by_ann.db
unfolding lock_market_pay_order settlement_market_pay_order transaction ◌>>=◌ statement update_where
    count_where random_numeric digit itoa digits_loop ◌+ℤ◌ ◌-ℤ◌
paid_by_ann-Belongs = ((λ e. refl), ((λ e. refl), tt))

paid_by_both-Reached : Reached whole whole-IsOrdered paid_by_both
paid_by_both-Reached =
    settlement_committed paid_by_ann (pos 5) "topic" (payment "bob" "n2") paid_by_ann-Belongs (
      settlement_committed joined (pos 4) "topic" (payment "ann" "n1") joined-Belongs (
        lock_committed opened (pos 2) [] (2 ∷ []) bob_joins (λ e. omega arith)
          (lock_committed empty_market (pos 1) (7 ∷ []) (1 ∷ []) ann_opens (λ e. omega arith)
            (start (activity ∷ []) catalog no_keys no_bitmaps []))))

-- The team is complete by its counts and still in progress, and there is no callback.
paid_by_both_lem :
    (map (λ t. t.complete_count) paid_by_both.db.teams ≡ pos 2 ∷ [])
    × (map (λ t. t.status) paid_by_both.db.teams ≡ 0 ∷ [])
    × (paid_by_both.db.tasks ≡ [])
unfolding lock_market_pay_order settlement_market_pay_order transaction ◌>>=◌ statement update_where
    count_where random_numeric digit itoa digits_loop ◌+ℤ◌ ◌-ℤ◌
paid_by_both_lem = (refl, refl, refl)
