-- ===== src/Scenarios/Trades.antt =====
-- The transactions of the repository at the market of `Market`.
use group_buy_market.Prelude.{
  ℕ, ◌≡◌, ◌==◌, ◌&&◌, true, str_eq, map, select, ◌*ℤ◌, refl, pos, ◌+ℤ◌, ◌-ℤ◌, none, some, List, [],
  ◌∷◌, count_where,
}
use group_buy_market.Types.Codes.{update_zero}
use group_buy_market.Types.Outcome.{ok, err, new_app_exception}
use group_buy_market.Trade.Entities.{GroupBuyTeamSettlementAggregate, team_settled}
use group_buy_market.Trade.StockKey.{digit, digits_loop, itoa}
use group_buy_market.Store.Table.{update_where}
use group_buy_market.Repository.Text.{random_numeric}
use group_buy_market.Repository.Queries.{
  to_team, has_out_trade_no, query_market_pay_order_entity_by_out_trade_no,
  query_group_buy_progress,
}
use group_buy_market.Repository.Tasks.{to_notify_entity}
use group_buy_market.Repository.Lock.{lock_market_pay_order}
use group_buy_market.Repository.Lock.Success.{
  unpaid, found_order, lock_market_pay_order-joins, lock_market_pay_order-opens,
}
use group_buy_market.Repository.Settle.{settlement_market_pay_order}
use group_buy_market.Repository.Settle.Success.{
  found_paid, settlement_market_pay_order-pays, settlement_market_pay_order-forms,
  settlement_market_pay_order-refilled,
}
use group_buy_market.Store.Rows.{GroupBuyOrder, NotifyTask, World}
use group_buy_market.Store.Only.{Only}
use group_buy_market.Scenarios.Market.{
  team, paid_order, unpaid_order, market, calm, joining, opening, bob_settles,
}

abbrev team_draws : List ℕ
team_draws = 1 ∷ 2 ∷ 3 ∷ 4 ∷ 5 ∷ 6 ∷ 7 ∷ 8 ∷ []

abbrev order_draws : List ℕ
order_draws = 9 ∷ 8 ∷ 7 ∷ 6 ∷ 5 ∷ 4 ∷ 3 ∷ 2 ∷ 1 ∷ 0 ∷ 1 ∷ 2 ∷ []

-- The team is the only row of its number.
team-Only :
    {t : GroupBuyOrder ℕ}
    → str_eq t.team_id "T" ≡ true
    → Only (λ r. str_eq r.team_id "T") (t ∷ []) [] t []
team-Only hit = record { at = refl; hit = hit; front = tt; back = tt }

lock_market_pay_order-joins_example :
    let order = unpaid "T" (random_numeric order_draws) joining in
    let done = lock_market_pay_order (pos 10) team_draws order_draws joining calm in
    (done.0 ≡ ok order)
    × (done.1.db.teams ≡ record team { lock_count = pos 3; update_time = pos 10 } ∷ [])
    × (found_order joining done.1 ≡ ok (some order))
    × ((query_group_buy_progress "T" done.1).0
        ≡ ok (some (record { target_count = pos 3; complete_count = pos 1; lock_count = pos 3 })))
unfolding count_where random_numeric digit itoa digits_loop ◌+ℤ◌
lock_market_pay_order-joins_example =
    lock_market_pay_order-joins (pos 10) team_draws order_draws joining calm [] team [] refl refl
      (team-Only refl) refl refl refl

lock_market_pay_order-opens_example :
    let order = unpaid (random_numeric team_draws) (random_numeric order_draws) opening in
    let done = lock_market_pay_order (pos 10) team_draws order_draws opening calm in
    (done.0 ≡ ok order)
    × ((t : GroupBuyOrder ℕ) × (done.1.db.teams ≡ team ∷ t ∷ [])
        × (t.status ≡ 0)
        × (t.activity_id ≡ pos 100)
        × (t.valid_start_time ≡ pos 10)
        × (t.valid_end_time ≡ pos 10 +ℤ pos 15 *ℤ pos 60000000000))
    × (found_order opening done.1 ≡ ok (some order))
    × ((query_group_buy_progress (random_numeric team_draws) done.1).0
        ≡ ok (some (record { target_count = pos 3; complete_count = pos 0; lock_count = pos 1 })))
unfolding count_where random_numeric digit itoa digits_loop ◌+ℤ◌
lock_market_pay_order-opens_example =
    lock_market_pay_order-opens (pos 10) team_draws order_draws opening calm refl refl refl refl
      refl

abbrev filled : GroupBuyOrder ℕ
filled = record team { lock_count = pos 3; complete_count = pos 2 }

-- The market with the team's last place taken.
abbrev full_market : World ℕ
full_market = record calm { db = record market { teams = filled ∷ [] } }

-- The unpaid order is the only one of bob's number.
unpaid_order-Only :
    Only (has_out_trade_no "bob" "n2") full_market.db.orders (paid_order ∷ []) unpaid_order []
unpaid_order-Only = record { at = refl; hit = refl; front = (refl, tt); back = tt }

settlement_market_pay_order-pays_example :
    let done = settlement_market_pay_order (pos 500) "topic" bob_settles full_market in
    (done.0 ≡ ok none)
    × (done.1.db.orders
        ≡ paid_order
          ∷ record unpaid_order {
            status = 1;
            out_trade_time = some (pos 500);
            update_time = pos 500;
          }
          ∷ [])
    × (done.1.db.teams ≡ record filled { complete_count = pos 3; update_time = pos 500 } ∷ [])
    × (done.1.db.tasks ≡ [])
    × ((query_market_pay_order_entity_by_out_trade_no "bob" "n2" done.1).0
        ≡ ok (some (found_paid unpaid_order)))
unfolding ◌-ℤ◌ ◌+ℤ◌
settlement_market_pay_order-pays_example =
    settlement_market_pay_order-pays (pos 500) "topic" bob_settles full_market (paid_order ∷ [])
      unpaid_order [] [] filled [] refl unpaid_order-Only refl (team-Only refl) refl refl

-- The payment that the counts of `full_market` call the last.
abbrev last_payment : GroupBuyTeamSettlementAggregate
last_payment = record bob_settles {
  group_buy_team_entity =
      to_team "topic" (record team { lock_count = pos 3; complete_count = pos 2 });
}

settlement_market_pay_order-forms_example :
    let done = settlement_market_pay_order (pos 500) "topic" last_payment full_market in
    (done.1.db.orders
      ≡ paid_order
        ∷ record unpaid_order { status = 1; out_trade_time = some (pos 500); update_time = pos 500 }
        ∷ [])
    × (done.1.db.teams
        ≡ record filled { complete_count = pos 3; status = 1; update_time = pos 500 } ∷ [])
    × ((task : NotifyTask) × (done.0 ≡ ok (some (to_notify_entity task)))
        × (done.1.db.tasks ≡ task ∷ [])
        × (task.notify_status ≡ 0)
        × (task.notify_count ≡ pos 0)
        × (task.parameter_json
            ≡ team_settled "T" (
                map
                  (λ r. r.out_trade_no)
                  (select (λ r. str_eq r.team_id "T" && r.status == 1) done.1.db.orders))))
unfolding ◌-ℤ◌ ◌+ℤ◌
settlement_market_pay_order-forms_example =
    settlement_market_pay_order-forms (pos 500) "topic" last_payment full_market (paid_order ∷ [])
      unpaid_order [] [] filled [] refl unpaid_order-Only refl (team-Only refl) refl refl refl

-- The team after the refund of a paid order of a complete team, filled up again.
abbrev refilled_market : World ℕ
refilled_market = record full_market {
  db = record full_market.db {
    teams = record team { lock_count = pos 3; complete_count = pos 2; status = 3 } ∷ [];
  };
}

settlement_market_pay_order-refilled_example :
    settlement_market_pay_order (pos 500) "topic" last_payment refilled_market
    ≡ (err (new_app_exception update_zero), refilled_market)
unfolding count_where update_where ◌-ℤ◌ ◌+ℤ◌
settlement_market_pay_order-refilled_example =
    settlement_market_pay_order-refilled (pos 500) "topic" last_payment refilled_market refl refl
      refl refl refl
