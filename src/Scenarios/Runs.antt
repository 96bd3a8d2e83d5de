-- ===== src/Scenarios/Runs.antt =====
-- A run of the whole program: a buyer opens a team, does not pay, and is refunded by the timer.
use group_buy_market.Prelude.{ℕ, false, pos, some, none, [], ◌∷◌, arith}
use group_buy_market.Store.Rows.{World}
use group_buy_market.Consistency.Counts.{Consistent, OrdersUnique}
use group_buy_market.Service.Reach.{empty_db}
use group_buy_market.Service.Refund.{strategy_map}
use group_buy_market.App.Lock.{LockRequest, lock_market_pay_order_app}
use group_buy_market.App.Lock.Safety.{with_trial}
use group_buy_market.Trigger.Job.{timeout_refund_job}
use group_buy_market.System.Reach.{start, lock_requested, orders_timed_out, Reached-Sound}
use group_buy_market.Scenarios.Amounts.{whole, whole-IsOrdered}
use group_buy_market.Scenarios.Market.{activity, catalog, calm, no_keys, no_bitmaps}
use group_buy_market.Scenarios.Trials.{settings, env, carl_locks}

abbrev empty_market : World ℕ
empty_market = record calm { db = empty_db (activity ∷ []) catalog }

abbrev carl_opens : LockRequest
carl_opens = record carl_locks { team_id = "" }

abbrev opened : World ℕ
opened =
    (lock_market_pay_order_app (with_trial whole whole-IsOrdered settings none false env)
      (some carl_opens) empty_market).1

abbrev timed_out : World ℕ
timed_out = (timeout_refund_job (strategy_map (pos 1000) "refunds") "topic" (pos 1000) [] opened).1

Reached-Sound_example : Consistent timed_out.db × OrdersUnique timed_out.db.orders
Reached-Sound_example = Reached-Sound whole whole-IsOrdered (
    orders_timed_out _ (pos 1000) "topic" "refunds" [] (
      lock_requested _ settings none false env (some carl_opens) (omega arith, tt)
        (start (activity ∷ []) catalog no_keys no_bitmaps [])))
