-- ===== src/Service/Task/Outcomes.antt =====
-- What one delivery does to its task, by the answer of the port.
use group_buy_market.Prelude.{
  ℕ, ◌==◌, ◌≡◌, refl, ap, ◌∙◌, ◌⊎◌, inl, inr, true, false, ◌||◌, ◌&&◌, ltb_ℤ, pos, ◌+ℤ◌, ◌≤ℤ◌,
  str_eq, List, [], ◌∷◌, ◌++◌, count_where, arith,
}
use group_buy_market.Types.Outcome.{ok, err, GoError}
use group_buy_market.Trade.Entities.{Time}
use group_buy_market.Trade.Notify.{NotifyTaskEntity, is_terminal, move_to, can_transition}
use group_buy_market.Store.Rows.{NotifyTask, World}
use group_buy_market.Store.Call.{statement, ◌>>=◌}
use group_buy_market.Store.Table.{update_where}
use group_buy_market.Store.Only.{Only, update_where-Only, count_where-Only}
use group_buy_market.Repository.Tasks.{is_task, mark, update_notify_task_status}
use group_buy_market.Service.Task.{succeeded, retried, unchanged, TradePort, apply_answer, exec_one}

open_cases : (s : ℕ) → (s == 0 || s == 2) ≡ true → (s ≡ 0) ⊎ (s ≡ 2)
open_cases s h = ground arith

module _ {D : Type 0} where
  -- The task rows after the update of one status.
  abbrev marked : Time → ℕ → NotifyTaskEntity → World D → World D
  marked now status t w = record w {
    db = record w.db { tasks = update_where (is_task t) (mark now status) w.db.tasks };
  }

  -- The run of a delivery that succeeds and of one that fails, over the update of the status.
  exec_one-marks :
      (port : TradePort D) (now : Time) (t : NotifyTaskEntity) (w v : World D)
      → (t.status == 0 || t.status == 2) ≡ true
      → port t w ≡ (ok "success", v)
      → v.faults ≡ []
      → count_where (is_task t) v.db.tasks ≡ 1
      → exec_one port now t w ≡ (ok succeeded, marked now 1 t v)
  unfolding exec_one is_terminal ◌>>=◌ apply_answer move_to can_transition update_notify_task_status
      statement
  exec_one-marks port now t w v s p f one = elim (open_cases t.status s) [
    | inl e ↦ simp (e, p, f, one) refl
    | inr e ↦ simp (e, p, f, one) refl
  ]

  exec_one-remarks :
      (port : TradePort D) (now : Time) (t : NotifyTaskEntity) (w v : World D) (e : GoError)
      → t.status ≡ 0
      → t.notify_count ≤ℤ pos 4
      → port t w ≡ (err e, v)
      → v.faults ≡ []
      → count_where (is_task t) v.db.tasks ≡ 1
      → exec_one port now t w ≡ (ok retried, marked now 2 t v)
  unfolding exec_one is_terminal ◌>>=◌ apply_answer move_to can_transition update_notify_task_status
      statement
  exec_one-remarks port now t w v e s c p f one =
      let few : ltb_ℤ (pos 4) t.notify_count ≡ false = ground arith in simp (s, p, few, f, one) refl

  -- The world with the task's row at a status, and one delivery more counted on it.
  abbrev pub written : World D → List NotifyTask → NotifyTask → List NotifyTask → Time → ℕ → World D
  written w before row after now status = record w {
    db = record w.db {
      tasks =
          before
          ++ record row {
            notify_status = status;
            notify_count = row.notify_count +ℤ pos 1;
            update_time = now;
          }
            ∷ after;
    };
  }

  write_lem :
      (v : World D) (t : NotifyTaskEntity) (before : List NotifyTask) (row : NotifyTask)
      (after : List NotifyTask)
      → Only (λ r. str_eq r.team_id t.team_id && str_eq r.uuid t.uuid) v.db.tasks before row after
      → (now : Time) (status : ℕ) → marked now status t v ≡ written v before row after now status
  write_lem v t before row after only now status =
      ap (λ tasks. record v { db = record v.db { tasks = tasks } })
        (update_where-Only only (mark now status))

  -- A task that waits for its first delivery or for another (0 or 2), whose port answers "success",
  -- and whose row is the only one of its team and key, counts as delivered when no statement fails:
  -- the row has then status 1 and one more on its count, whatever it was, and nothing else changes
  -- after the port's answer but the row's time.
  pub exec_one-success :
      (port : TradePort D) (now : Time) (t : NotifyTaskEntity) (w v : World D)
      (before : List NotifyTask) (row : NotifyTask) (after : List NotifyTask)
      → (t.status == 0 || t.status == 2) ≡ true
      → port t w ≡ (ok "success", v)
      → v.faults ≡ []
      → Only (λ r. str_eq r.team_id t.team_id && str_eq r.uuid t.uuid) v.db.tasks before row after
      → exec_one port now t w ≡ (ok succeeded, written v before row after now 1)
  exec_one-success port now t w v before row after s p f only =
      exec_one-marks port now t w v s p f (count_where-Only only)
      ∙ ap (λ u. (ok succeeded, u)) (write_lem v t before row after only now 1)

  -- A task that waits for another delivery (2), whose port fails and whose count is at most 4, is
  -- left as it is: it counts as unchanged, and the world is the one that the port left, so no
  -- status and no count is written.
  pub exec_one-starves :
      (port : TradePort D) (now : Time) (t : NotifyTaskEntity) (w v : World D) (e : GoError)
      → t.status ≡ 2
      → t.notify_count ≤ℤ pos 4
      → port t w ≡ (err e, v)
      → exec_one port now t w ≡ (ok unchanged, v)
  unfolding exec_one is_terminal ◌>>=◌ apply_answer move_to can_transition
  exec_one-starves port now t w v e s c p =
      let few : ltb_ℤ (pos 4) t.notify_count ≡ false = ground arith in simp (s, p, few) refl

  -- A copy of a task read while it waited for its first delivery (0) with a count of at most 4,
  -- whose delivery fails, sets its row to status 2 and adds one to the row's count when the row is
  -- the only one of its team and key and no statement fails, whatever the status of the row is by
  -- then, also when it is delivered (1): the update asks for none.
  pub exec_one-overwrites :
      (port : TradePort D) (now : Time) (t : NotifyTaskEntity) (w v : World D) (e : GoError)
      (before : List NotifyTask) (row : NotifyTask) (after : List NotifyTask)
      → t.status ≡ 0
      → t.notify_count ≤ℤ pos 4
      → port t w ≡ (err e, v)
      → v.faults ≡ []
      → Only (λ r. str_eq r.team_id t.team_id && str_eq r.uuid t.uuid) v.db.tasks before row after
      → exec_one port now t w ≡ (ok retried, written v before row after now 2)
  exec_one-overwrites port now t w v e before row after s c p f only =
      exec_one-remarks port now t w v e s c p f (count_where-Only only)
      ∙ ap (λ u. (ok retried, u)) (write_lem v t before row after only now 2)
