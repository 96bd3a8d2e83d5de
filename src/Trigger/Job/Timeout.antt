-- ===== src/Trigger/Job/Timeout.antt =====
-- The timer that refunds unpaid orders past their end.
use group_buy_market.Prelude.{Bool, true, false, String, List, [], ◌∷◌}
use group_buy_market.Types.Outcome.{Result, ok, err, panic}
use group_buy_market.Trade.Entities.{Time, TimeoutUnpaidOrderEntity}
use group_buy_market.Store.Rows.{GroupBuyOrderList, Db, World}
use group_buy_market.Store.Call.{Call, command}
use group_buy_market.Store.Keeps.{
  Keeps, to_Keeps, of_Keeps, pure-Keeps, bind-Keeps, query-Keeps, command-Keeps,
}
use group_buy_market.Repository.Queries.{query_timeout_unpaid_order_list, join_teams}
use group_buy_market.Repository.Stock.{del}
use group_buy_market.Consistency.Counts.{Consistent, OrdersUnique}
use group_buy_market.Service.Refund.{strategy_map, refund_order_of}
use group_buy_market.Service.Refund.Safety.{refund_order_of-Consistent}
use group_buy_market.Service.Unique.{refund_order_of-OrdersUnique}
use group_buy_market.Acl.{Wait, again, cancelled, try_lock, try_lock_wait, after_try, unlock}
use group_buy_market.Trigger.Job.{
  exec_locked, locked_run, finish, timeout_refund_lock, timeout_refund_job, timeout_refunds,
  refund_all, tally, refund_command, RefundCounts,
}

module _ {D : Type 0} where
  pub unlock-Keeps : (P : Db D → Type 0) (key : String) (w : World D) → P w.db → P (unlock key w).db
  unlock-Keeps P key w h =
      of_Keeps P (λ v. command (λ keys. (tt, del key keys)) v) w (command-Keeps P _ w h)

  after-Keeps :
      (P : Db D → Type 0) (took : Bool) (rest : Call D Bool) (w : World D)
      → P w.db
      → Keeps P rest w
      → Keeps P (after_try took rest) w
  after-Keeps P true rest w h k = to_Keeps P _ w h
  after-Keeps P false rest w h k = k

  pub wait-Keeps :
      (P : Db D → Type 0) (key : String) (waits : List Wait) (w : World D)
      → P w.db
      → Keeps P (try_lock_wait key waits) w
  unfolding try_lock_wait try_lock
  wait-Keeps P key [] w h =
      bind-Keeps P _ _ w (command-Keeps P _ w h)
        λ took v k. after-Keeps P took _ v k (pure-Keeps P false v k)
  wait-Keeps P key (cancelled ∷ waits) w h =
      bind-Keeps P _ _ w (command-Keeps P _ w h)
        λ took v k. after-Keeps P took _ v k (to_Keeps P _ v k)
  wait-Keeps P key (again others ∷ waits) w h =
      bind-Keeps P _ _ w (command-Keeps P _ w h) λ took v k. after-Keeps P took _ v k (
        to_Keeps P _ v (
          of_Keeps P (try_lock_wait key waits) (record v { redis = others v.redis })
            (wait-Keeps P key waits (record v { redis = others v.redis }) k)))

module _ {D A : Type 0} where
  finish-Keeps :
      (P : Db D → Type 0) (key : String) (r : Result A) (w : World D)
      → P w.db
      → P (finish key (r, w)).1.db
  finish-Keeps P key (ok a) w h = unlock-Keeps P key w h
  finish-Keeps P key (err e) w h = unlock-Keeps P key w h
  finish-Keeps P key panic w h = unlock-Keeps P key w h

  locked-Keeps :
      (P : Db D → Type 0) (key : String) (body : Call D A) (r : Result Bool) (w : World D)
      → P w.db
      → ((v : World D) → P v.db → Keeps P body v)
      → P (locked_run key body (r, w)).1.db
  locked-Keeps P key body (ok true) w h k =
      finish-Keeps P key (body w).0 (body w).1 (of_Keeps P body w (k w h))
  locked-Keeps P key body (ok false) w h k = h
  locked-Keeps P key body (err e) w h k = h
  locked-Keeps P key body panic w h k = h

  -- A timer keeps what its body keeps.
  pub exec_locked-Keeps :
      (P : Db D → Type 0) (key : String) (waits : List Wait) (body : Call D A) (w : World D)
      → P w.db
      → ((v : World D) → P v.db → Keeps P body v)
      → P (exec_locked key waits body w).1.db
  unfolding exec_locked
  exec_locked-Keeps P key waits body w h k =
      locked-Keeps P key body (try_lock_wait key waits w).0 (try_lock_wait key waits w).1
        (of_Keeps P (try_lock_wait key waits) w (wait-Keeps P key waits w h)) k

module _ {D : Type 0} where
  tally-Keeps :
      {A : Type 0} (P : Db D → Type 0) (c : RefundCounts) (r : Result A) (w : World D)
      → P w.db
      → P (tally c (r, w)).1.db
  tally-Keeps P c (ok b) w h = h
  tally-Keeps P c (err e) w h = h
  tally-Keeps P c panic w h = h

  abbrev pub Sound : Db D → Type 0
  Sound db = Consistent db × OrdersUnique db.orders

  refund_all-Keeps :
      (now : Time) (topic refund_topic : String) (items : List TimeoutUnpaidOrderEntity)
      (c : RefundCounts) (w : World D)
      → Sound w.db
      → Keeps Sound (refund_all (strategy_map now refund_topic) topic items c) w
  unfolding refund_all
  refund_all-Keeps now topic refund_topic [] c w h = pure-Keeps Sound c w h
  refund_all-Keeps now topic refund_topic (item ∷ items) c w h =
      bind-Keeps Sound _ _ w
        (to_Keeps Sound _ w (
          tally-Keeps Sound c
            (refund_order_of (strategy_map now refund_topic) topic (refund_command item) w).0
            (refund_order_of (strategy_map now refund_topic) topic (refund_command item) w).1
            (
              refund_order_of-Consistent now topic refund_topic (refund_command item) w h.1 h.0,
              refund_order_of-OrdersUnique now topic refund_topic (refund_command item) w h.1,
            )))
        λ counts v k. refund_all-Keeps now topic refund_topic items counts v k

  refunds-Keeps :
      (now : Time) (topic refund_topic : String) (w : World D)
      → Sound w.db
      → Keeps Sound (timeout_refunds (strategy_map now refund_topic) topic now) w
  unfolding timeout_refunds query_timeout_unpaid_order_list
  refunds-Keeps now topic refund_topic w h =
      bind-Keeps Sound _ _ w (query-Keeps Sound _ _ w h λ fs. joined _ _ h)
        λ items v k. refund_all-Keeps now topic refund_topic items _ v k
    where
      joined :
          (lists : List (GroupBuyOrderList D)) (v : World D)
          → Sound v.db
          → Keeps Sound (join_teams lists) v
      joined [] v k = pure-Keeps Sound _ v k
      joined (l ∷ ls) v k = query-Keeps Sound _ _ v k λ fs. pure-Keeps Sound _ _ k

  -- A run of the timer that refunds unpaid orders leaves consistent tables with unique order numbers,
  -- from such tables and however it ends: without the lock, with a failed scan, with any number of
  -- refunds done and failed, or with a crash that is recovered; whatever the others do to the keys
  -- while it waits.
  pub timeout_refund_job-Consistent :
      (now : Time) (topic refund_topic : String) (waits : List Wait) (w : World D)
      → Consistent w.db
      → OrdersUnique w.db.orders
      → let after = (timeout_refund_job (strategy_map now refund_topic) topic now waits w).1 in
        Consistent after.db × OrdersUnique after.db.orders
  unfolding timeout_refund_job
  timeout_refund_job-Consistent now topic refund_topic waits w c u =
      exec_locked-Keeps Sound timeout_refund_lock waits _ w (c, u)
        (λ v k. refunds-Keeps now topic refund_topic v k)
