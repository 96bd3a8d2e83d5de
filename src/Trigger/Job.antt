-- ===== src/Trigger/Job.antt =====
-- internal/trigger/job/jobs.go: one run of each timer, under its lock in Redis. `waits` is what happens
-- while it waits for the lock. A run ends with the label that it reports to the metrics; a panic is
-- recovered, after the deferred release of the lock.
pub mod Timeout
use group_buy_market.Prelude.{
  ℕ, ◌+◌, Bool, true, false, if◌then◌else◌, leb_ℤ, ℤ, pos, String, str_eq, none, List, [], ◌∷◌,
}
use group_buy_market.Types.Outcome.{Result, ok, err, panic}
use group_buy_market.Trade.Entities.{Time, TimeoutUnpaidOrderEntity, TradeRefundCommandEntity}
use group_buy_market.Trade.Refund.Types.{TradeRefundBehaviorEntity}
use group_buy_market.Store.Rows.{World}
use group_buy_market.Store.Call.{Call, pure, ◌>>=◌, ◌>>◌}
use group_buy_market.Repository.Queries.{query_timeout_unpaid_order_list}
use group_buy_market.Service.Refund.{StrategyMap, refund_order_of}
use group_buy_market.Service.Task.{TradePort, NotifyCounts, exec_notify_job}
use group_buy_market.Acl.{Wait, try_lock_wait, unlock}

-- The interval of a timer, in seconds.
abbrev pub interval_or : ℤ → ℤ → ℤ
interval_or default_sec interval_sec =
    if leb_ℤ interval_sec (pos 0) then default_sec else interval_sec

abbrev pub notify_interval : ℤ → ℤ
notify_interval = interval_or (pos 30)

abbrev pub timeout_refund_interval : ℤ → ℤ
timeout_refund_interval = interval_or (pos 60)

-- How a run ends.
pub data JobEnd (A : Type 0) : Type 0 where
  skip_lock : JobEnd A
  failed : JobEnd A
  done : A → JobEnd A
  recovered : JobEnd A

module _ {D A : Type 0} where
  -- The deferred release, and what the run reports.
  abbrev pub finish : String → Result A × World D → JobEnd A × World D
  finish lock_key (ok a, w) = (done a, unlock lock_key w)
  finish lock_key (err e, w) = (failed, unlock lock_key w)
  finish lock_key (panic, w) = (recovered, unlock lock_key w)

  abbrev pub locked_run : String → Call D A → Result Bool × World D → JobEnd A × World D
  locked_run lock_key body (ok true, w) = finish lock_key (body w)
  locked_run lock_key body (ok false, w) = (skip_lock, w)
  locked_run lock_key body (err e, w) = (skip_lock, w)
  locked_run lock_key body (panic, w) = (recovered, w)

  unfoldable pub exec_locked : String → List Wait → Call D A → World D → JobEnd A × World D
  unfolding try_lock_wait
  exec_locked lock_key waits body w = locked_run lock_key body (try_lock_wait lock_key waits w)

abbrev pub notify_lock : String
notify_lock = "group_buy_market_notify_job_exec"

abbrev pub timeout_refund_lock : String
timeout_refund_lock = "group_buy_market_timeout_refund_job_exec"

pub record RefundCounts : Type 0 where
  pub success : ℕ
  pub fail : ℕ

-- The request of a row: an empty source or channel gets a default.
abbrev pub or_text : String → String → String
or_text text default_text = if str_eq text "" then default_text else text

abbrev pub refund_command : TimeoutUnpaidOrderEntity → TradeRefundCommandEntity
refund_command item = record {
  user_id = item.user_id;
  out_trade_no = item.out_trade_no;
  source = or_text item.source "s01";
  channel = or_text item.channel "c01";
}

module _ {D : Type 0} where
  unfoldable pub notify_job :
      TradePort D → Time → List Wait → World D → JobEnd NotifyCounts × World D
  unfolding exec_locked exec_notify_job
  notify_job port now waits = exec_locked notify_lock waits (exec_notify_job port now none)

  abbrev pub tally :
      {A : Type 0} → RefundCounts → Result A × World D → Result RefundCounts × World D
  tally c (ok b, w) = (ok (record c { success = c.success + 1 }), w)
  tally c (err e, w) = (ok (record c { fail = c.fail + 1 }), w)
  tally c (panic, w) = (panic, w)

  -- The loop: a refund that fails is counted, and the next one is tried.
  unfoldable pub refund_all :
      StrategyMap D → String → List TimeoutUnpaidOrderEntity → RefundCounts → Call D RefundCounts
  unfolding refund_order_of
  refund_all strategies topic [] c = pure c
  refund_all strategies topic (item ∷ items) c =
      (λ w. tally c (refund_order_of strategies topic (refund_command item) w)) >>= λ counts.
      refund_all strategies topic items counts

  unfoldable pub timeout_refunds : StrategyMap D → String → Time → Call D RefundCounts
  unfolding refund_all query_timeout_unpaid_order_list
  timeout_refunds strategies topic now = do
    items ← query_timeout_unpaid_order_list now
    refund_all strategies topic items (record { success = 0; fail = 0 })

  unfoldable pub timeout_refund_job :
      StrategyMap D → String → Time → List Wait → World D → JobEnd RefundCounts × World D
  unfolding exec_locked timeout_refunds
  timeout_refund_job strategies topic now waits =
      exec_locked timeout_refund_lock waits (timeout_refunds strategies topic now)
