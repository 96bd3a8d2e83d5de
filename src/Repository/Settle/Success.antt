-- ===== src/Repository/Settle/Success.antt =====
-- What `SettlementMarketPayOrder` does when nothing fails.
use group_buy_market.Prelude.{
  ◌≡◌, ◌==◌, ◌&&◌, refl, sym, ap, true, false, ltb_ℤ, eq_ℤ, pos, ◌+ℤ◌, ◌-ℤ◌, String, str_eq, none,
  some, List, [], ◌∷◌, ◌++◌, map, select, count_where,
}
use group_buy_market.Types.Outcome.{ok, err, new_app_exception}
use group_buy_market.Types.Codes.{update_zero}
use group_buy_market.Trade.Entities.{
  Time, GroupBuyTeamSettlementAggregate, MarketPayOrderEntity, team_settled,
}
use group_buy_market.Store.Rows.{GroupBuyOrder, GroupBuyOrderList, NotifyTask, World}
use group_buy_market.Store.Call.{statement, transaction, ◌>>=◌}
use group_buy_market.Store.Only.{Only, update_where-Only, count_where-Only, find-split}
use group_buy_market.Repository.Queries.{
  has_out_trade_no, query_market_pay_order_entity_by_out_trade_no,
}
use group_buy_market.Repository.Reads.{query_market_pay_order_entity_by_out_trade_no-found}
use group_buy_market.Repository.Tasks.{to_notify_entity}
use group_buy_market.Repository.Settle.{
  is_unpaid, pay, is_incomplete, complete_one, is_in_progress, form, is_last,
  settlement_market_pay_order,
}
use group_buy_market.Repository.Settle.Runs.{
  paid_db, formed_row, paid_lem, formed_lem, unpaid-Only, incomplete-Only, forming-Only,
}

module _ {D : Type 0} where
  -- What the buyer's number finds of a paid order.
  abbrev pub found_paid : GroupBuyOrderList D → MarketPayOrderEntity D
  found_paid o = record {
    team_id = o.team_id;
    order_id = o.order_id;
    original_price = o.original_price;
    deduction_price = o.deduction_price;
    pay_price = o.pay_price;
    trade_order_status = 1;
  }

  -- When no statement fails, the buyer's order of the outside number is the only one and unpaid, the
  -- team's row is the only one of its number and lacks a payment, a payment that is not the last by
  -- the counts in the aggregate answers no task. Afterwards the order is paid (1) at the given time
  -- and the team's row counts one more payment, both as before in all else but their times, the
  -- other orders and teams and all tasks are as before, and the buyer's number finds the order paid.
  pub settlement_market_pay_order-pays :
      (now : Time) (topic : String) (agg : GroupBuyTeamSettlementAggregate) (w : World D)
      (orders_before : List (GroupBuyOrderList D)) (o : GroupBuyOrderList D)
      (orders_after : List (GroupBuyOrderList D)) (teams_before : List (GroupBuyOrder D))
      (t : GroupBuyOrder D) (teams_after : List (GroupBuyOrder D))
      → w.faults ≡ []
      → Only
          (has_out_trade_no agg.user_entity.user_id agg.trade_pay_success_entity.out_trade_no)
          w.db.orders
          orders_before
          o
          orders_after
      → o.status ≡ 0
      → Only
          (λ r. str_eq r.team_id agg.group_buy_team_entity.team_id)
          w.db.teams
          teams_before
          t
          teams_after
      → ltb_ℤ t.complete_count t.target_count ≡ true
      → eq_ℤ
          (agg.group_buy_team_entity.target_count -ℤ agg.group_buy_team_entity.complete_count)
          (pos 1)
        ≡ false
      → let done = settlement_market_pay_order now topic agg w in
        (done.0 ≡ ok none)
        × (done.1.db.orders
            ≡ orders_before
              ++ record o {
                status = 1;
                out_trade_time = some agg.trade_pay_success_entity.out_trade_time;
                update_time = now;
              }
                ∷ orders_after)
        × (done.1.db.teams
            ≡ teams_before
              ++ record t { complete_count = t.complete_count +ℤ pos 1; update_time = now }
                ∷ teams_after)
        × (done.1.db.tasks ≡ w.db.tasks)
        × ((query_market_pay_order_entity_by_out_trade_no agg.user_entity.user_id
              agg.trade_pay_success_entity.out_trade_no done.1).0
            ≡ ok (some (found_paid o)))
  settlement_market_pay_order-pays now topic agg w orders_before o orders_after teams_before t
        teams_after f order unpaid team room last =
      let user_id = agg.user_entity.user_id in
      let out_trade_no = agg.trade_pay_success_entity.out_trade_no in
      let paid_at = agg.trade_pay_success_entity.out_trade_time in
      let v = record w { db = paid_db now agg w.db } in
      let payable =
        unpaid-Only user_id out_trade_no w.db.orders orders_before o orders_after order unpaid in
      let open_team =
        incomplete-Only agg.group_buy_team_entity.team_id w.db.teams teams_before t teams_after team
          room in
      let orders = update_where-Only payable (pay now paid_at) in
      rw (paid_lem now topic agg w f (count_where-Only payable) (count_where-Only open_team) last) (
        refl,
        orders,
        update_where-Only open_team (complete_one now),
        refl,
        query_market_pay_order_entity_by_out_trade_no-found v f user_id out_trade_no
            (pay now paid_at o)
            (rw orders (
              find-split (has_out_trade_no user_id out_trade_no) orders_before (pay now paid_at o)
                orders_after order.hit order.front)),
      )

  -- When no statement fails, the buyer's order of the outside number is the only one and unpaid, the
  -- team's row is the only one of its number, in progress (0) and lacks a payment, the last payment
  -- by the counts in the aggregate also forms the team. Afterwards the order is paid (1) at the given
  -- time, the team's row is complete (1) and counts one more payment, and there is one task more: it
  -- waits for its first delivery (0), was tried no time, and tells of the team with the outside
  -- numbers of its orders that are then paid. The answer is this task.
  pub settlement_market_pay_order-forms :
      (now : Time) (topic : String) (agg : GroupBuyTeamSettlementAggregate) (w : World D)
      (orders_before : List (GroupBuyOrderList D)) (o : GroupBuyOrderList D)
      (orders_after : List (GroupBuyOrderList D)) (teams_before : List (GroupBuyOrder D))
      (t : GroupBuyOrder D) (teams_after : List (GroupBuyOrder D))
      → w.faults ≡ []
      → Only
          (has_out_trade_no agg.user_entity.user_id agg.trade_pay_success_entity.out_trade_no)
          w.db.orders
          orders_before
          o
          orders_after
      → o.status ≡ 0
      → Only
          (λ r. str_eq r.team_id agg.group_buy_team_entity.team_id)
          w.db.teams
          teams_before
          t
          teams_after
      → ltb_ℤ t.complete_count t.target_count ≡ true
      → t.status ≡ 0
      → eq_ℤ
          (agg.group_buy_team_entity.target_count -ℤ agg.group_buy_team_entity.complete_count)
          (pos 1)
        ≡ true
      → let done = settlement_market_pay_order now topic agg w in
        let team_id = agg.group_buy_team_entity.team_id in
        (done.1.db.orders
          ≡ orders_before
            ++ record o {
              status = 1;
              out_trade_time = some agg.trade_pay_success_entity.out_trade_time;
              update_time = now;
            }
              ∷ orders_after)
        × (done.1.db.teams
            ≡ teams_before
              ++ record t {
                complete_count = t.complete_count +ℤ pos 1;
                status = 1;
                update_time = now;
              }
                ∷ teams_after)
        × ((task : NotifyTask) × (done.0 ≡ ok (some (to_notify_entity task)))
            × (done.1.db.tasks ≡ w.db.tasks ++ task ∷ [])
            × (task.notify_status ≡ 0)
            × (task.notify_count ≡ pos 0)
            × (task.parameter_json
                ≡ team_settled team_id (
                    map
                      (λ r. r.out_trade_no)
                      (select (λ r. str_eq r.team_id team_id && r.status == 1) done.1.db.orders))))
  settlement_market_pay_order-forms now topic agg w orders_before o orders_after teams_before t
        teams_after f order unpaid team room going last =
      let team_id = agg.group_buy_team_entity.team_id in
      let payable =
        unpaid-Only agg.user_entity.user_id agg.trade_pay_success_entity.out_trade_no w.db.orders
          orders_before o orders_after order unpaid in
      let open_team = incomplete-Only team_id w.db.teams teams_before t teams_after team room in
      let counted = update_where-Only open_team (complete_one now) in
      let forming =
        forming-Only team_id (paid_db now agg w.db).teams teams_before (complete_one now t)
          teams_after
          (record { at = counted; hit = team.hit; front = team.front; back = team.back }) going in
      rw
        (formed_lem now topic agg w f (count_where-Only payable) (count_where-Only open_team)
          (count_where-Only forming) last)
        (
          update_where-Only payable (pay now agg.trade_pay_success_entity.out_trade_time),
          update_where-Only forming (form now),
          (formed_row now topic agg w.db, refl, refl, refl, refl, refl),
        )

  -- When no statement fails, one unpaid order matches and the team's row takes one more payment but
  -- is not in progress, the last payment by the counts in the aggregate is refused with code 0004
  -- and leaves the world as it was.
  pub settlement_market_pay_order-refilled :
      (now : Time) (topic : String) (agg : GroupBuyTeamSettlementAggregate) (w : World D)
      → w.faults ≡ []
      → count_where
          (is_unpaid agg.trade_pay_success_entity.out_trade_no agg.user_entity.user_id)
          w.db.orders
        ≡ 1
      → count_where (is_incomplete agg.group_buy_team_entity.team_id) w.db.teams ≡ 1
      → count_where (is_in_progress agg.group_buy_team_entity.team_id) (paid_db now agg w.db).teams
        ≡ 0
      → is_last agg.group_buy_team_entity ≡ true
      → settlement_market_pay_order now topic agg w ≡ (err (new_app_exception update_zero), w)
  unfolding settlement_market_pay_order transaction ◌>>=◌ statement
  settlement_market_pay_order-refilled now topic agg w f one_order one_team going last =
      simp (f, one_order, one_team, last, going)
        (ap (λ fs. (err (new_app_exception update_zero), record w { faults = fs })) (sym f))
