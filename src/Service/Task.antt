-- ===== src/Service/Task.antt =====
-- internal/domain/trade/service/task/trade_task_service.go: the callback tasks are delivered and
-- their status is updated. `port` is `GroupBuyNotify` of adapter/port: an answer, or an error.
pub mod Counts
pub mod Outcomes
use group_buy_market.Prelude.{
  ℕ, ◌==◌, ◌+◌, Bool, true, false, if◌then◌else◌, ltb_ℤ, ℤ, pos, String, str_eq, Option, none, some,
  List, [], ◌∷◌, length,
}
use group_buy_market.Types.Enums.{
  notify_task_http_success, notify_task_http_error, notify_task_http_null,
}
use group_buy_market.Types.Outcome.{Result, ok, err, panic}
use group_buy_market.Trade.Entities.{Time}
use group_buy_market.Trade.Notify.{
  NotifyTaskEntity, NotifyTaskStatus, notify_task_success, notify_task_retry, notify_task_error,
  move_to, is_terminal,
}
use group_buy_market.Store.Rows.{World}
use group_buy_market.Store.Call.{Call, pure, ◌>>=◌}
use group_buy_market.Repository.Tasks.{
  query_un_executed_notify_task_list, query_un_executed_notify_task_list_by_team_id,
  update_notify_task_status_success, update_notify_task_status_error,
  update_notify_task_status_retry,
}

-- What became of one task: the counter that it adds to.
pub data Delivery : Type 0 where
  succeeded failed retried unchanged : Delivery

pub record NotifyCounts : Type 0 where
  pub wait_count : ℕ
  pub success_count : ℕ
  pub error_count : ℕ
  pub retry_count : ℕ

abbrev pub count_delivery : Delivery → NotifyCounts → NotifyCounts
count_delivery succeeded c = record c { success_count = c.success_count + 1 }
count_delivery failed c = record c { error_count = c.error_count + 1 }
count_delivery retried c = record c { retry_count = c.retry_count + 1 }
count_delivery unchanged c = c

abbrev pub TradePort : Type 0 → Type 0
TradePort D = NotifyTaskEntity → Call D String

module _ {D : Type 0} where
  abbrev answer_of : Result String × World D → Result String × World D
  answer_of (ok resp, w) = (ok resp, w)
  answer_of (err e, w) = (ok notify_task_http_error, w)
  answer_of (panic, w) = (panic, w)

  -- `resp, e := port.GroupBuyNotify`, where an error is the answer "error".
  abbrev pub answer : TradePort D → NotifyTaskEntity → Call D String
  answer port t w = answer_of (port t w)

  -- `if n, _ := update; n == 1`: an error of the update counts as no row.
  abbrev written_of : Delivery → Result ℕ × World D → Result Delivery × World D
  written_of d (ok n, w) = (ok (if n == 1 then d else unchanged), w)
  written_of d (err e, w) = (ok unchanged, w)
  written_of d (panic, w) = (panic, w)

  abbrev pub moved_to : Result NotifyTaskStatus → Call D ℕ → Delivery → Call D Delivery
  moved_to (ok s) update d w = written_of d (update w)
  moved_to (err e) update d w = (ok unchanged, w)
  moved_to panic update d w = (panic, w)

  abbrev pub to_retry : Time → NotifyTaskEntity → Call D Delivery
  to_retry now t =
      moved_to (move_to t.status notify_task_retry) (update_notify_task_status_retry now t) retried

  -- `switch resp`.
  unfoldable pub apply_answer : Time → NotifyTaskEntity → String → Call D Delivery
  apply_answer now t resp =
      if str_eq resp notify_task_http_success
      then moved_to (move_to t.status notify_task_success) (update_notify_task_status_success now t)
          succeeded
      else if str_eq resp notify_task_http_error
      then (if ltb_ℤ (pos 4) t.notify_count
          then moved_to (move_to t.status notify_task_error) (update_notify_task_status_error now t)
              failed
          else to_retry now t)
      else if str_eq resp notify_task_http_null
      then pure unchanged
      else to_retry now t

  abbrev pub deliver : TradePort D → Time → NotifyTaskEntity → Call D Delivery
  deliver port now t = do resp ← answer port t; apply_answer now t resp

  -- One round of the loop.
  unfoldable pub exec_one : TradePort D → Time → NotifyTaskEntity → Call D Delivery
  exec_one port now t = if is_terminal t.status then pure unchanged else deliver port now t

  abbrev pub exec_loop :
      TradePort D → Time → List NotifyTaskEntity → NotifyCounts → Call D NotifyCounts
  exec_loop port now [] c = pure c
  exec_loop port now (t ∷ ts) c = do
    d ← exec_one port now t
    exec_loop port now ts (count_delivery d c)

  unfoldable pub exec_list : TradePort D → Time → List NotifyTaskEntity → Call D NotifyCounts
  unfolding exec_one
  exec_list port now tasks =
      exec_loop port now tasks
        (record { wait_count = length tasks; success_count = 0; error_count = 0; retry_count = 0 })

  unfoldable pub exec_notify_job :
      TradePort D → Time → Option NotifyTaskEntity → Call D NotifyCounts
  unfolding exec_list
  exec_notify_job port now (some task) = exec_list port now (task ∷ [])
  exec_notify_job port now none = do
    tasks ← query_un_executed_notify_task_list
    exec_list port now tasks

  unfoldable pub exec_notify_job_by_team_id : TradePort D → Time → String → Call D NotifyCounts
  exec_notify_job_by_team_id port now team_id = do
    tasks ← query_un_executed_notify_task_list_by_team_id team_id
    exec_list port now tasks
