-- ===== src/Repository/Lock/Success.antt =====
-- What `LockMarketPayOrder` does when nothing fails, on each of its branches.
use group_buy_market.Prelude.{
  ℕ, ◌≡◌, refl, sym, ap, pos, ◌+ℤ◌, ◌*ℤ◌, ltb_ℤ, str_eq_self, Option, some, Bool, true, false,
  String, str_eq, List, [], ◌∷◌, ◌++◌, count_where,
}
use group_buy_market.Types.Codes.{e0005}
use group_buy_market.Types.Outcome.{Result, ok, err, new_app_exception}
use group_buy_market.Trade.Entities.{Time, GroupBuyOrderAggregate, MarketPayOrderEntity}
use group_buy_market.Store.Rows.{GroupBuyOrder, World}
use group_buy_market.Store.Call.{statement, transaction, ◌>>=◌}
use group_buy_market.Store.Only.{
  Only, Only-narrow, update_where-Only, count_where-Only, find-split, count_where-none,
}
use group_buy_market.Repository.Queries.{
  has_out_trade_no, query_market_pay_order_entity_by_out_trade_no, query_group_buy_progress,
}
use group_buy_market.Repository.Reads.{
  query_market_pay_order_entity_by_out_trade_no-found, query_group_buy_progress-found,
}
use group_buy_market.Repository.Text.{random_numeric}
use group_buy_market.Repository.Lock.{
  has_room, lock_one, new_team, new_order, lock_market_pay_order,
}
use group_buy_market.Repository.Lock.Runs.{
  clashes, joined_db, opened_db, joined_lem, opened_lem, new_order-found,
}

module _ {D : Type 0} where
  -- When no statement fails and the named team has no row with room, the lock is refused with E0005
  -- and leaves the world as it was.
  pub lock_market_pay_order-full :
      (now : Time) (team_draws order_draws : List ℕ) (agg : GroupBuyOrderAggregate D) (w : World D)
      → w.faults ≡ []
      → str_eq agg.pay_activity_entity.team_id "" ≡ false
      → count_where (has_room agg.pay_activity_entity.team_id) w.db.teams ≡ 0
      → lock_market_pay_order now team_draws order_draws agg w ≡ (err (new_app_exception e0005), w)
  unfolding lock_market_pay_order transaction ◌>>=◌ statement
  lock_market_pay_order-full now team_draws order_draws agg w f named full =
      simp (f, named, full)
        (ap (λ fs. (err (new_app_exception e0005), record w { faults = fs })) (sym f))

  -- An unpaid order, as a lock answers it and as a query finds it.
  abbrev pub unpaid : String → String → GroupBuyOrderAggregate D → MarketPayOrderEntity D
  unpaid team_id order_id agg = record {
    team_id = team_id;
    order_id = order_id;
    original_price = agg.pay_discount_entity.original_price;
    deduction_price = agg.pay_discount_entity.deduction_price;
    pay_price = agg.pay_discount_entity.pay_price;
    trade_order_status = 0;
  }

  -- What the buyer's number finds.
  abbrev pub found_order :
      GroupBuyOrderAggregate D → World D → Result (Option (MarketPayOrderEntity D))
  found_order agg w =
      (query_market_pay_order_entity_by_out_trade_no agg.user_entity.user_id
        agg.pay_discount_entity.out_trade_no w).0

  -- When no statement fails, the row of the named team is the only one of its number and has a free
  -- place, no row has the numbers of the new order and the buyer has none under the outside number,
  -- the lock answers an unpaid order (0) of the team at the given prices. Afterwards the team's row
  -- holds one more place and is otherwise as before but for its time, the other teams are as before,
  -- and the two queries find what was done: the buyer's number the unpaid order, the team's number
  -- one more held place.
  pub lock_market_pay_order-joins :
      (now : Time) (team_draws order_draws : List ℕ) (agg : GroupBuyOrderAggregate D) (w : World D)
      (before : List (GroupBuyOrder D)) (row : GroupBuyOrder D) (after : List (GroupBuyOrder D))
      → w.faults ≡ []
      → str_eq agg.pay_activity_entity.team_id "" ≡ false
      → Only (λ t. str_eq t.team_id agg.pay_activity_entity.team_id) w.db.teams before row after
      → ltb_ℤ row.lock_count row.target_count ≡ true
      → count_where (clashes (random_numeric order_draws) agg) w.db.orders ≡ 0
      → count_where
          (has_out_trade_no agg.user_entity.user_id agg.pay_discount_entity.out_trade_no)
          w.db.orders
        ≡ 0
      → let team_id = agg.pay_activity_entity.team_id in
        let order = unpaid team_id (random_numeric order_draws) agg in
        let done = lock_market_pay_order now team_draws order_draws agg w in
        (done.0 ≡ ok order)
        × (done.1.db.teams
            ≡ before
              ++ record row { lock_count = row.lock_count +ℤ pos 1; update_time = now } ∷ after)
        × (found_order agg done.1 ≡ ok (some order))
        × ((query_group_buy_progress team_id done.1).0
            ≡ ok (
                some (record {
                  target_count = row.target_count;
                  complete_count = row.complete_count;
                  lock_count = row.lock_count +ℤ pos 1;
                })))
  lock_market_pay_order-joins now team_draws order_draws agg w before row after f named only free
        fresh none_yet =
      let team_id = agg.pay_activity_entity.team_id in
      let v = record w { db = joined_db now order_draws agg w.db } in
      let open_row : Only (has_room team_id) w.db.teams before row after =
        Only-narrow (λ t. str_eq t.team_id team_id) (has_room team_id) w.db.teams before row after
          (λ t miss. rw miss refl) (rw (only.hit, free) refl) only in
      let teams = update_where-Only open_row (lock_one now) in
      rw (joined_lem now team_draws order_draws agg w f named (count_where-Only open_row) fresh) (
        refl,
        teams,
        query_market_pay_order_entity_by_out_trade_no-found v f agg.user_entity.user_id
            agg.pay_discount_entity.out_trade_no
            (new_order now team_id (random_numeric order_draws) agg)
            (new_order-found now team_id (random_numeric order_draws) agg w.db.orders none_yet),
        query_group_buy_progress-found v f team_id (lock_one now row) (
            rw teams (
              find-split (λ t. str_eq t.team_id team_id) before (lock_one now row) after only.hit
                only.front)),
      )

  -- When no statement fails, no team is named, no row has the numbers of the new team and of the new
  -- order and the buyer has none under the outside number, the lock answers an unpaid order (0) of a
  -- new team at the given prices. Afterwards the teams have one more row, in progress (0), of the
  -- activity, valid from now for the activity's minutes, and the two queries find what was done: the
  -- buyer's number the unpaid order, the new team's number no payment and one held place of the
  -- activity's target.
  pub lock_market_pay_order-opens :
      (now : Time) (team_draws order_draws : List ℕ) (agg : GroupBuyOrderAggregate D) (w : World D)
      → w.faults ≡ []
      → str_eq agg.pay_activity_entity.team_id "" ≡ true
      → count_where (λ t. str_eq t.team_id (random_numeric team_draws)) w.db.teams ≡ 0
      → count_where (clashes (random_numeric order_draws) agg) w.db.orders ≡ 0
      → count_where
          (has_out_trade_no agg.user_entity.user_id agg.pay_discount_entity.out_trade_no)
          w.db.orders
        ≡ 0
      → let act = agg.pay_activity_entity in
        let team_id = random_numeric team_draws in
        let order = unpaid team_id (random_numeric order_draws) agg in
        let done = lock_market_pay_order now team_draws order_draws agg w in
        (done.0 ≡ ok order)
        × ((t : GroupBuyOrder D) × (done.1.db.teams ≡ w.db.teams ++ t ∷ [])
            × (t.status ≡ 0)
            × (t.activity_id ≡ act.activity_id)
            × (t.valid_start_time ≡ now)
            × (t.valid_end_time ≡ now +ℤ act.valid_time *ℤ pos 60000000000))
        × (found_order agg done.1 ≡ ok (some order))
        × ((query_group_buy_progress team_id done.1).0
            ≡ ok (
                some (record {
                  target_count = act.target_count;
                  complete_count = pos 0;
                  lock_count = pos 1;
                })))
  lock_market_pay_order-opens now team_draws order_draws agg w f none_named free fresh none_yet =
      let team_id = random_numeric team_draws in
      let team = new_team now team_id agg.pay_activity_entity agg.pay_discount_entity in
      let numbered : GroupBuyOrder D → Bool = λ t. str_eq t.team_id team_id in
      let v = record w { db = opened_db now team_draws order_draws agg w.db } in
      rw (opened_lem now team_draws order_draws agg w f none_named free fresh) (
        refl,
        (team, refl, refl, refl, refl, refl),
        query_market_pay_order_entity_by_out_trade_no-found v f agg.user_entity.user_id
            agg.pay_discount_entity.out_trade_no
            (new_order now team_id (random_numeric order_draws) agg)
            (new_order-found now team_id (random_numeric order_draws) agg w.db.orders none_yet),
        query_group_buy_progress-found v f team_id team (
            find-split numbered w.db.teams team [] (str_eq_self team_id)
              (count_where-none numbered w.db.teams free)),
      )
