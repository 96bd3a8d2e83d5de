-- ===== src/System/Reach.antt =====
-- The worlds that the program reaches from a market without orders, in any order of its steps and with
-- any failures: by whole requests, timers, messages, batch jobs and started callbacks, and by the
-- single transactions of requests that run at the same time.
use group_buy_market.Prelude.{Bool, String, Option, some, List, []}
use group_buy_market.Trade.Entities.{Time}
use group_buy_market.Trade.Notify.{NotifyTaskEntity}
use group_buy_market.Store.Rows.{GroupBuyActivity, Catalog, Keys, Bitmaps, World}
use group_buy_market.Consistency.Counts.{Consistent, OrdersUnique}
use group_buy_market.Consistency.Orders.{lock_market_pay_order-OrdersUnique}
use group_buy_market.Service.Settlement.Safety.{OneTeam}
use group_buy_market.Service.Refund.{strategy_map}
use group_buy_market.Service.Reach.{empty_db}
use group_buy_market.Dcc.{Service}
use group_buy_market.Activity.Decimals.{Decimal, IsOrdered}
use group_buy_market.Acl.{Wait, Send, Publish, group_buy_notify}
use group_buy_market.Tag.{exec_tag_batch_job}
use group_buy_market.App.{
  SettlementRequest, RefundRequest, settlement_market_pay_order_app, refund_market_pay_order_app,
}
use group_buy_market.App.Lock.{LockEnv, LockRequest, lock_market_pay_order_app}
use group_buy_market.App.Lock.Safety.{WantsBuyers, with_trial}
use group_buy_market.App.IndexPage.{IndexEnv, GoodsMarketRequest, query_group_buy_market_config}
use group_buy_market.Activity.Trial.{trial, new_chain}
use group_buy_market.Trigger.Job.{notify_job, timeout_refund_job}
use group_buy_market.Trigger.Job.Timeout.{timeout_refund_job-Consistent}
use group_buy_market.Trigger.Listener.{Body, team_refund_handler, consume}
use group_buy_market.System.Blind.{Sound, Sound-Blind}
use group_buy_market.System.Crowds.{exec_tag_batch_job-Keeps}
use group_buy_market.System.Deliveries.{notify_job-Keeps}
use group_buy_market.Prelude.{ℕ, ◌≡◌, true, pos, negsuc, ◌≤ℤ◌, str_eq}
use group_buy_market.Trade.Entities.{
  GroupBuyOrderAggregate, GroupBuyTeamSettlementAggregate, TradeRefundOrderEntity,
  build_unpaid2refund_aggregate, build_paid2refund_aggregate, build_paid_team2refund_aggregate,
}
use group_buy_market.Trade.Notify.{NotifyTaskStatus}
use group_buy_market.Repository.Lock.{lock_market_pay_order}
use group_buy_market.Repository.Settle.{settlement_market_pay_order}
use group_buy_market.Repository.Refund.{unpaid2refund, paid2refund, paid_team2refund}
use group_buy_market.Repository.Tasks.{update_notify_task_status}
use group_buy_market.Service.Task.{exec_notify_job}
use group_buy_market.Consistency.Lock.{lock_market_pay_order-Consistent}
use group_buy_market.Consistency.Settle.{Belongs, settlement_market_pay_order-Consistent}
use group_buy_market.Consistency.Refund.{
  RefundBelongs, unpaid2refund-Consistent, paid2refund-Consistent, paid_team2refund-Consistent,
}
use group_buy_market.Consistency.Orders.{
  settlement_market_pay_order-OrdersUnique, unpaid2refund-OrdersUnique, paid2refund-OrdersUnique,
  paid_team2refund-OrdersUnique,
}
use group_buy_market.System.Requests.{lock-Sound, settlement-Sound, refund-Sound}
use group_buy_market.System.Deliveries.{callback-Keeps, marked-Keeps}
use group_buy_market.System.Messages.{consume-Keeps}
use group_buy_market.System.Pages.{index_page-Keeps}

module _ {D : Type 0} (d : Decimal D) (o : IsOrdered d) where
  -- The steps of the program. From `lock_requested` to `callback_run` a request, a run of a timer, a
  -- message, a batch job or a started callback is one step. The other steps are the single
  -- transactions on the teams, the orders and the tasks, with any arguments: those of a request that
  -- read the tables before other steps were made, whatever it read. A lock is requested while every
  -- activity wants at least one buyer, a settled number is of one team only, a transaction opens a
  -- team for at least one buyer, and one that pays or closes an order does so for an order of the team
  -- that it names. With `elsewhere` other programs change the activities, and every write of a
  -- request that runs at the same time to the catalog, to Redis and to the started callbacks is made.
  pub data Reached : World D → Type 0 where
    start :
        (activities : List GroupBuyActivity) (catalog : Catalog D) (keys : Keys) (bitmaps : Bitmaps)
        (faults : List (Option String))
        → Reached (record {
          db = empty_db activities catalog;
          redis = keys;
          bitmaps = bitmaps;
          faults = faults;
          jobs = [];
        })
    elsewhere :
        (w : World D) (activities : List GroupBuyActivity) (catalog : Catalog D) (keys : Keys)
        (bitmaps : Bitmaps) (faults : List (Option String)) (jobs : List NotifyTaskEntity)
        → Reached w
        → Reached (record {
          db = record w.db { activities = activities; catalog = catalog };
          redis = keys;
          bitmaps = bitmaps;
          faults = faults;
          jobs = jobs;
        })
    lock_requested :
        (w : World D) (settings : Service) (acquire : Option String) (sku_first : Bool)
        (base : LockEnv D) (req : Option LockRequest)
        → WantsBuyers d o w.db
        → Reached w
        → Reached
            (lock_market_pay_order_app (with_trial d o settings acquire sku_first base) req w).1
    settlement_requested :
        (w : World D) (black : String → String → Bool) (now : Time) (topic T : String)
        (req : SettlementRequest)
        → OneTeam req.user_id req.out_trade_no T w.db
        → Reached w
        → Reached (settlement_market_pay_order_app black now topic (some req) w).1
    refund_requested :
        (w : World D) (now : Time) (topic refund_topic : String) (req : Option RefundRequest)
        → Reached w
        → Reached (refund_market_pay_order_app (strategy_map now refund_topic) topic req w).1
    page_requested :
        (w : World D) (settings : Service) (acquire : Option String) (sku_first : Bool)
        (base : IndexEnv D) (req : Option GoodsMarketRequest)
        → Reached w
        → Reached
            (query_group_buy_market_config
              (record base { index_trial = trial d (new_chain d settings acquire sku_first) })
              req
              w).1
    crowd_collected :
        (w : World D) (now : Time) (tag_id batch_id : String)
        → Reached w
        → Reached (exec_tag_batch_job now tag_id batch_id w).1
    orders_timed_out :
        (w : World D) (now : Time) (topic refund_topic : String) (waits : List Wait)
        → Reached w
        → Reached (timeout_refund_job (strategy_map now refund_topic) topic now waits w).1
    callbacks_delivered :
        (w : World D) (send : Send) (publish : Publish) (port_waits waits : List Wait) (now : Time)
        → Reached w
        → Reached (notify_job (group_buy_notify send publish port_waits) now waits w).1
    message_consumed :
        (w : World D) (now : Time) (topic : String) (waiting : List Body)
        → Reached w
        → Reached (consume (team_refund_handler (strategy_map now topic)) waiting w).1
    callback_run :
        (w : World D) (send : Send) (publish : Publish) (port_waits : List Wait) (now : Time)
        (task : NotifyTaskEntity)
        → Reached w
        → Reached (exec_notify_job (group_buy_notify send publish port_waits) now (some task) w).1
    lock_committed :
        (w : World D) (now : Time) (team_draws order_draws : List ℕ)
        (agg : GroupBuyOrderAggregate D)
        → (str_eq agg.pay_activity_entity.team_id "" ≡ true
            → pos 1 ≤ℤ agg.pay_activity_entity.target_count)
        → Reached w
        → Reached (lock_market_pay_order now team_draws order_draws agg w).1
    settlement_committed :
        (w : World D) (now : Time) (topic : String) (agg : GroupBuyTeamSettlementAggregate)
        → Belongs agg w.db
        → Reached w
        → Reached (settlement_market_pay_order now topic agg w).1
    unpaid_refund_committed :
        (w : World D) (now : Time) (topic : String) (order : TradeRefundOrderEntity)
        → RefundBelongs order 0 w.db
        → Reached w
        → Reached (unpaid2refund now topic (build_unpaid2refund_aggregate order (negsuc 0)) w).1
    paid_refund_committed :
        (w : World D) (now : Time) (topic : String) (order : TradeRefundOrderEntity)
        → RefundBelongs order 1 w.db
        → Reached w
        → Reached
            (paid2refund now topic (build_paid2refund_aggregate order (negsuc 0) (negsuc 0)) w).1
    team_refund_committed :
        (w : World D) (now : Time) (topic : String) (order : TradeRefundOrderEntity)
        → RefundBelongs order 1 w.db
        → Reached w
        → Reached
            (paid_team2refund now topic
              (build_paid_team2refund_aggregate order (negsuc 0) (negsuc 0))
              w).1
    task_marked :
        (w : World D) (now : Time) (status : NotifyTaskStatus) (task : NotifyTaskEntity)
        → Reached w
        → Reached (update_notify_task_status now status task w).1

module _ {D : Type 0} (d : Decimal D) (o : IsOrdered d) where
  -- In every world that the program reaches from a market without orders by its `Reached` steps, that
  -- is by whole requests, timers, messages, batch jobs and started callbacks one after another, and by
  -- single transactions of others that run at the same time and read the tables earlier, in any
  -- order, with any clocks, draws and failures, the tables are consistent: team numbers are unique,
  -- every order's team has a row, and each team's row counts exactly its locked and paid orders, at
  -- most its target of them; and order numbers are unique. The amounts obey `IsOrdered`, orders are
  -- locked while all activities want at least one buyer and teams are opened for at least one, the
  -- numbers settled by a whole request are of one team only, and a single transaction pays or closes
  -- an order of the team that it names.
  pub Reached-Sound : {w : World D} → Reached d o w → Consistent w.db × OrdersUnique w.db.orders
  Reached-Sound (start activities catalog keys bitmaps faults) =
      (record { unique = tt; agree = tt; owned = tt }, tt)
  Reached-Sound (elsewhere w activities catalog keys bitmaps faults jobs r) =
      let h = Reached-Sound r in
      (record { unique = h.0.unique; agree = h.0.agree; owned = h.0.owned }, h.1)
  Reached-Sound (lock_requested w settings acquire sku_first base req all r) =
      lock-Sound d o settings acquire sku_first base req w all (Reached-Sound r)
  Reached-Sound (settlement_requested w black now topic T req own r) =
      settlement-Sound black now topic T req w own (Reached-Sound r)
  Reached-Sound (refund_requested w now topic refund_topic req r) =
      refund-Sound now topic refund_topic req w (Reached-Sound r)
  Reached-Sound (page_requested w settings acquire sku_first base req r) =
      index_page-Keeps Sound d settings acquire sku_first base req w (Reached-Sound r)
  Reached-Sound (crowd_collected w now tag_id batch_id r) =
      exec_tag_batch_job-Keeps Sound Sound-Blind now tag_id batch_id w (Reached-Sound r)
  Reached-Sound (orders_timed_out w now topic refund_topic waits r) =
      let h = Reached-Sound r in
      timeout_refund_job-Consistent now topic refund_topic waits w h.0 h.1
  Reached-Sound (callbacks_delivered w send publish port_waits waits now r) =
      notify_job-Keeps Sound Sound-Blind send publish port_waits waits now w (Reached-Sound r)
  Reached-Sound (message_consumed w now topic waiting r) =
      consume-Keeps Sound now topic waiting w (Reached-Sound r)
  Reached-Sound (callback_run w send publish port_waits now task r) =
      callback-Keeps Sound Sound-Blind send publish port_waits now task w (Reached-Sound r)
  Reached-Sound (lock_committed w now team_draws order_draws agg room r) =
      let h = Reached-Sound r in
      (
        lock_market_pay_order-Consistent now team_draws order_draws agg w room h.0,
        lock_market_pay_order-OrdersUnique now team_draws order_draws agg w h.1,
      )
  Reached-Sound (settlement_committed w now topic agg own r) =
      let h = Reached-Sound r in
      (
        settlement_market_pay_order-Consistent now topic agg w own h.0,
        settlement_market_pay_order-OrdersUnique now topic agg w h.1,
      )
  Reached-Sound (unpaid_refund_committed w now topic order own r) =
      let h = Reached-Sound r in
      (
        unpaid2refund-Consistent now topic order w own h.0,
        unpaid2refund-OrdersUnique now topic _ w h.1,
      )
  Reached-Sound (paid_refund_committed w now topic order own r) =
      let h = Reached-Sound r in
      (paid2refund-Consistent now topic order w own h.0, paid2refund-OrdersUnique now topic _ w h.1)
  Reached-Sound (team_refund_committed w now topic order own r) =
      let h = Reached-Sound r in
      (
        paid_team2refund-Consistent now topic order w own h.0,
        paid_team2refund-OrdersUnique now topic _ w h.1,
      )
  Reached-Sound (task_marked w now status task r) =
      marked-Keeps Sound Sound-Blind now status task w (Reached-Sound r)
