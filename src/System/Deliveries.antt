-- ===== src/System/Deliveries.antt =====
-- Delivering callbacks writes only the tasks, over the port of the anti-corruption layer.
use group_buy_market.Prelude.{
  ℕ, Bool, true, false, ltb_ℤ, pos, String, str_eq, none, some, List, [], ◌∷◌, Bool-cases, inl, inr,
}
use group_buy_market.Types.Enums.{
  notify_task_http_success, notify_task_http_error, notify_task_http_null,
}
use group_buy_market.Types.Outcome.{Result, ok, err, panic}
use group_buy_market.Trade.Entities.{Time}
use group_buy_market.Trade.Notify.{NotifyTaskEntity, NotifyTaskStatus, lock_key, is_terminal}
use group_buy_market.Store.Rows.{Db, World}
use group_buy_market.Store.Keeps.{
  Keeps, of_Keeps, pure-Keeps, bind-Keeps, query-Keeps, statement-Keeps,
}
use group_buy_market.Repository.Tasks.{
  update_notify_task_status, query_un_executed_notify_task_list,
}
use group_buy_market.Service.Task.{
  Delivery, NotifyCounts, TradePort, succeeded, failed, retried, answer, moved_to, apply_answer,
  exec_one, exec_loop, exec_list, exec_notify_job, count_delivery,
}
use group_buy_market.Acl.{Wait, Send, Publish, try_lock_wait, under_lock, group_buy_notify}
use group_buy_market.Trigger.Job.{notify_lock, notify_job}
use group_buy_market.Trigger.Job.Timeout.{unlock-Keeps, wait-Keeps, exec_locked-Keeps}
use group_buy_market.System.Blind.{Blind}

module _ {D : Type 0} (P : Db D → Type 0) where
  under-Keeps :
      (send : Send) (publish : Publish) (task : NotifyTaskEntity) (r : Result Bool) (w : World D)
      → P w.db
      → P (under_lock send publish task (r, w)).1.db
  under-Keeps send publish task (ok true) w h = unlock-Keeps P (lock_key task) w h
  under-Keeps send publish task (ok false) w h = h
  under-Keeps send publish task (err e) w h = h
  under-Keeps send publish task panic w h = h

  -- The port writes no table.
  port-Keeps :
      (send : Send) (publish : Publish) (waits : List Wait) (task : NotifyTaskEntity) (w : World D)
      → P w.db
      → Keeps P (group_buy_notify send publish waits task) w
  unfolding Keeps group_buy_notify
  port-Keeps send publish waits task w h =
      let tried = try_lock_wait (lock_key task) waits w in
      under-Keeps send publish task tried.0 tried.1 (
        of_Keeps P (try_lock_wait (lock_key task) waits) w (wait-Keeps P (lock_key task) waits w h))

module _ {D : Type 0} (P : Db D → Type 0) (blind : Blind P) (port : TradePort D)
    (quiet : (t : NotifyTaskEntity) (w : World D) → P w.db → Keeps P (port t) w) where
  answer-Keeps : (t : NotifyTaskEntity) (w : World D) → P w.db → Keeps P (answer port t) w
  unfolding Keeps
  answer-Keeps t w h = of (port t w).0 (port t w).1 (quiet t w h)
    where
      of : (r : Result String) (v : World D) → P v.db → Keeps P (answer (λ s u. (r, u)) t) v
      of (ok resp) v k = k
      of (err e) v k = k
      of panic v k = k

  update-Keeps :
      (now : Time) (s : NotifyTaskStatus) (t : NotifyTaskEntity) (w : World D)
      → P w.db
      → Keeps P (update_notify_task_status now s t) w
  unfolding update_notify_task_status
  update-Keeps now s t w h = statement-Keeps P _ w h (blind w.db _ _ h)

  moved-Keeps :
      (r : Result NotifyTaskStatus) (now : Time) (s : NotifyTaskStatus) (t : NotifyTaskEntity)
      (d : Delivery) (w : World D)
      → P w.db
      → Keeps P (moved_to r (update_notify_task_status now s t) d) w
  unfolding Keeps
  moved-Keeps (err e) now s t d w h = h
  moved-Keeps panic now s t d w h = h
  moved-Keeps (ok x) now s t d w h =
      written (update_notify_task_status now s t w).0 (update_notify_task_status now s t w).1
        (of_Keeps P (update_notify_task_status now s t) w (update-Keeps now s t w h))
    where
      written : (r : Result ℕ) (v : World D) → P v.db → Keeps P (moved_to (ok x) (λ u. (r, u)) d) v
      written (ok n) v k = k
      written (err e) v k = k
      written panic v k = k

  apply-Keeps :
      (now : Time) (t : NotifyTaskEntity) (resp : String) (w : World D)
      → P w.db
      → Keeps P (apply_answer now t resp) w
  unfolding apply_answer
  apply-Keeps now t resp w h = elim (Bool-cases (str_eq resp notify_task_http_success)) [
    | inl s ↦ rw s (moved-Keeps _ now 1 t succeeded w h)
    | inr s ↦ elim (Bool-cases (str_eq resp notify_task_http_error)) [
      | inl e ↦ elim (Bool-cases (ltb_ℤ (pos 4) t.notify_count)) [
        | inl g ↦ rw (s, e, g) (moved-Keeps _ now 3 t failed w h)
        | inr g ↦ rw (s, e, g) (moved-Keeps _ now 2 t retried w h)
      ]
      | inr e ↦ elim (Bool-cases (str_eq resp notify_task_http_null)) [
        | inl n ↦ rw (s, e, n) (pure-Keeps P _ w h)
        | inr n ↦ rw (s, e, n) (moved-Keeps _ now 2 t retried w h)
      ]
    ]
  ]

  one-Keeps :
      (now : Time) (t : NotifyTaskEntity) (w : World D) → P w.db → Keeps P (exec_one port now t) w
  unfolding exec_one
  one-Keeps now t w h = elim (Bool-cases (is_terminal t.status)) [
    | inl e ↦ rw e (pure-Keeps P _ w h)
    | inr e ↦ rw e (bind-Keeps P _ _ w (answer-Keeps t w h) λ resp v k. apply-Keeps now t resp v k)
  ]

  loop-Keeps :
      (now : Time) (ts : List NotifyTaskEntity) (c : NotifyCounts) (w : World D)
      → P w.db
      → Keeps P (exec_loop port now ts c) w
  loop-Keeps now [] c w h = pure-Keeps P c w h
  loop-Keeps now (t ∷ ts) c w h =
      bind-Keeps P _ _ w (one-Keeps now t w h) λ d v k. loop-Keeps now ts (count_delivery d c) v k

  job-Keeps : (now : Time) (w : World D) → P w.db → Keeps P (exec_notify_job port now none) w
  unfolding exec_notify_job exec_list query_un_executed_notify_task_list
  job-Keeps now w h = query-Keeps P _ _ w h λ fs. loop-Keeps now _ _ _ h

module _ {D : Type 0} (P : Db D → Type 0) (blind : Blind P) where
  -- A run of the timer that delivers the waiting callbacks.
  pub notify_job-Keeps :
      (send : Send) (publish : Publish) (port_waits waits : List Wait) (now : Time) (w : World D)
      → P w.db
      → P (notify_job (group_buy_notify send publish port_waits) now waits w).1.db
  unfolding notify_job
  notify_job-Keeps send publish port_waits waits now w h =
      exec_locked-Keeps P notify_lock waits _ w h (λ v k.
        job-Keeps P blind (group_buy_notify send publish port_waits)
          (port-Keeps P send publish port_waits) now v k)

  -- The callback that a settlement or a refund starts on its own.
  pub callback-Keeps :
      (send : Send) (publish : Publish) (port_waits : List Wait) (now : Time)
      (task : NotifyTaskEntity) (w : World D)
      → P w.db
      → P (exec_notify_job (group_buy_notify send publish port_waits) now (some task) w).1.db
  unfolding exec_notify_job exec_list
  callback-Keeps send publish port_waits now task w h = of_Keeps P _ w (
      loop-Keeps P blind (group_buy_notify send publish port_waits)
        (port-Keeps P send publish port_waits) now (task ∷ []) _ w h)

  -- One update of the status of a task.
  pub marked-Keeps :
      (now : Time) (s : NotifyTaskStatus) (t : NotifyTaskEntity) (w : World D)
      → P w.db
      → P (update_notify_task_status now s t w).1.db
  unfolding update_notify_task_status
  marked-Keeps now s t w h = of_Keeps P _ w (statement-Keeps P _ w h (blind w.db _ _ h))
