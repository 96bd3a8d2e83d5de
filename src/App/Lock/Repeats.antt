-- ===== src/App/Lock/Repeats.antt =====
-- The lock use case before it comes to a trial: a repeated request, and a team without room.
use group_buy_market.Prelude.{◌==◌, ◌≡◌, sym, ap, true, false, eq_ℤ, str_eq, none, some, [], find}
use group_buy_market.Types.Codes.{e0006}
use group_buy_market.Types.Outcome.{ok}
use group_buy_market.Store.Rows.{GroupBuyOrder, GroupBuyOrderList, World}
use group_buy_market.Store.Call.{statement, ◌>>=◌}
use group_buy_market.Repository.Queries.{
  has_out_trade_no, to_market_pay_order, query_market_pay_order_entity_by_out_trade_no,
  query_group_buy_progress,
}
use group_buy_market.App.Answer.{succeed, fail}
use group_buy_market.App.Lock.{
  LockEnv, LockRequest, normalize_lock_notify, is_lock_request, to_lock_response, no_order,
  lock_steps, lock_market_pay_order_app,
}

module _ {D : Type 0} where
  -- When no statement fails, a valid lock request of a user who has an unpaid order under its number,
  -- the first under that number, answers with that order and leaves the world as it was: nothing is
  -- tried, priced or locked again.
  pub lock_market_pay_order_app-repeated :
      (env : LockEnv D) (req : LockRequest) (row : GroupBuyOrderList D) (w : World D)
      → is_lock_request req (normalize_lock_notify req) ≡ true
      → w.faults ≡ []
      → find (has_out_trade_no req.user_id req.out_trade_no) w.db.orders ≡ some row
      → row.status ≡ 0
      → lock_market_pay_order_app env (some req) w
        ≡ (ok (succeed (to_lock_response (to_market_pay_order row))), w)
  unfolding lock_market_pay_order_app lock_steps query_market_pay_order_entity_by_out_trade_no
      statement ◌>>=◌
  lock_market_pay_order_app-repeated env req row w valid f found unpaid =
      let same : (row.status == 0) ≡ true = rw unpaid in
      simp (valid, f, found, same)
        (ap
          (λ fs.
            (ok (succeed (to_lock_response (to_market_pay_order row))), record w { faults = fs }))
          (sym f))

  -- When no statement fails, a valid lock request for a team whose places are all locked, of a user
  -- without an order under its number, answers that the team is full and leaves the world as it was.
  pub lock_market_pay_order_app-full :
      (env : LockEnv D) (req : LockRequest) (team : GroupBuyOrder D) (w : World D)
      → is_lock_request req (normalize_lock_notify req) ≡ true
      → w.faults ≡ []
      → find (has_out_trade_no req.user_id req.out_trade_no) w.db.orders ≡ none
      → str_eq req.team_id "" ≡ false
      → find (λ t. str_eq t.team_id req.team_id) w.db.teams ≡ some team
      → eq_ℤ team.target_count team.lock_count ≡ true
      → lock_market_pay_order_app env (some req) w ≡ (ok (fail (no_order env.zero_amount) e0006), w)
  unfolding lock_market_pay_order_app lock_steps query_market_pay_order_entity_by_out_trade_no
      query_group_buy_progress statement ◌>>=◌
  lock_market_pay_order_app-full env req team w valid f missing joins found full =
      simp (valid, f, missing, joins, found, full)
        (ap (λ fs. (ok (fail (no_order env.zero_amount) e0006), record w { faults = fs })) (sym f))
