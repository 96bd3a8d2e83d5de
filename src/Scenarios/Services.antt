-- ===== src/Scenarios/Services.antt =====
-- The services at the market of `Market`.
use group_buy_market.Prelude.{
  ℕ, ◌≡◌, refl, ap, pos, String, str_eq, Bool, true, false, List, [], ◌∷◌, arith,
}
use group_buy_market.Types.Outcome.{ok, err, database}
use group_buy_market.Trade.Notify.{NotifyTaskEntity}
use group_buy_market.Store.Rules.{Post}
use group_buy_market.Repository.Tasks.{to_notify_entity}
use group_buy_market.Consistency.Counts.{Consistent}
use group_buy_market.Service.Lock.{lock_order}
use group_buy_market.Service.Lock.Safety.{lock_order-Consistent}
use group_buy_market.Service.Lock.Admission.{Admits, lock_order-Admits}
use group_buy_market.Service.Settlement.{settle_order}
use group_buy_market.Service.Settlement.Safety.{settle_order-Consistent}
use group_buy_market.Service.Settlement.Checks.{Settlable, settle_order-Settlable}
use group_buy_market.Service.Refund.{strategy_map, refund_order_of}
use group_buy_market.Service.Refund.Safety.{refund_order_of-Consistent}
use group_buy_market.Service.Task.{TradePort, exec_one, succeeded, retried, unchanged}
use group_buy_market.Service.Task.Outcomes.{
  written, exec_one-success, exec_one-starves, exec_one-overwrites,
}
use group_buy_market.Scenarios.Market.{
  market, calm, carl, join_request, price, bob_pays, bob_refunds, task_row, with_task,
  market-Consistent,
}

abbrev draws : List ℕ
draws = 1 ∷ 2 ∷ 3 ∷ []

abbrev no_black : String → String → Bool
no_black source channel = false

lock_order-Consistent_example :
    Consistent (lock_order (pos 5) (pos 10) draws draws carl join_request price calm).1.db
lock_order-Consistent_example =
    lock_order-Consistent (pos 5) (pos 10) draws draws carl join_request price calm
      (λ e. omega arith) market-Consistent

lock_order-Admits_example :
    Post
      (lock_order (pos 5) (pos 10) draws draws carl join_request price)
      calm
      (λ order v. Admits market (pos 5) (pos 100) "carl")
lock_order-Admits_example =
    lock_order-Admits (pos 5) (pos 10) draws draws carl join_request price calm

settle_order-Consistent_example :
    Consistent (settle_order no_black (pos 500) "topic" bob_pays calm).1.db
settle_order-Consistent_example =
    settle_order-Consistent no_black (pos 500) "topic" "T" bob_pays calm
      ((λ e. refl), ((λ e. refl), tt)) market-Consistent

settle_order-Settlable_example :
    Post
      (settle_order no_black (pos 500) "topic" bob_pays)
      calm
      (λ result v. Settlable no_black bob_pays market)
settle_order-Settlable_example = settle_order-Settlable no_black (pos 500) "topic" bob_pays calm

refund_order_of-Consistent_example :
    Consistent (refund_order_of (strategy_map (pos 600) "refunds") "topic" bob_refunds calm).1.db
refund_order_of-Consistent_example =
    refund_order_of-Consistent (pos 600) "topic" "refunds" bob_refunds calm
      (((λ e. let c : true ≡ false = ap (str_eq "o2") e in cc), tt), (tt, tt)) market-Consistent

-- A port that answers, and one that does not.
abbrev good_port : TradePort ℕ
good_port t w = (ok "success", w)

abbrev bad_port : TradePort ℕ
bad_port t w = (err (database "down"), w)

abbrev waiting : NotifyTaskEntity
waiting = to_notify_entity task_row

exec_one-success_example :
    exec_one good_port (pos 7) waiting (with_task 0)
    ≡ (ok succeeded, written (with_task 0) [] task_row [] (pos 7) 1)
exec_one-success_example =
    exec_one-success good_port (pos 7) waiting (with_task 0) (with_task 0) [] task_row [] refl refl
      refl (record { at = refl; hit = refl; front = tt; back = tt })

exec_one-starves_example :
    exec_one bad_port (pos 7) (record waiting { status = 2 }) (with_task 2)
    ≡ (ok unchanged, with_task 2)
exec_one-starves_example =
    exec_one-starves bad_port (pos 7) (record waiting { status = 2 }) (with_task 2) (with_task 2)
      (database "down") refl (omega arith) refl

-- The row is delivered already; the copy was read before.
exec_one-overwrites_example :
    exec_one bad_port (pos 7) waiting (with_task 1)
    ≡ (ok retried, written (with_task 1) [] (record task_row { notify_status = 1 }) [] (pos 7) 2)
exec_one-overwrites_example =
    exec_one-overwrites bad_port (pos 7) waiting (with_task 1) (with_task 1) (database "down") []
      (record task_row { notify_status = 1 }) [] refl (omega arith) refl refl
      (record { at = refl; hit = refl; front = tt; back = tt })
