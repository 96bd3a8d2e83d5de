-- ===== src/Scenarios/Deliveries.antt =====
-- Deliveries at the market of `Market`.
use group_buy_market.Prelude.{ℕ, ◌≡◌, refl, pos, none, some, [], ◌∷◌}
use group_buy_market.Types.Outcome.{ok}
use group_buy_market.Trade.Notify.{NotifyTaskEntity, lock_key}
use group_buy_market.Store.Rows.{Keys, World}
use group_buy_market.Repository.Tasks.{to_notify_entity}
use group_buy_market.Service.Task.{exec_one, unchanged}
use group_buy_market.Acl.{again, Send, Publish, dispatch, group_buy_notify}
use group_buy_market.Acl.Locking.{group_buy_notify-releases, exec_one-locked}
use group_buy_market.Scenarios.Market.{task_row, with_task}

abbrev send_ok : Send
send_ok url body = some 200

abbrev publish_ok : Publish
publish_ok topic body = none

abbrev task : NotifyTaskEntity
task = to_notify_entity task_row

group_buy_notify-releases_example :
    ((group_buy_notify send_ok publish_ok [] task (with_task 0)).0
      ≡ dispatch send_ok publish_ok task)
    × ((group_buy_notify send_ok publish_ok [] task (with_task 0)).1.redis (lock_key task) ≡ none)
    × ((group_buy_notify send_ok publish_ok [] task (with_task 0)).1.db ≡ (with_task 0).db)
group_buy_notify-releases_example =
    group_buy_notify-releases send_ok publish_ok [] task (with_task 0) refl refl

-- Another instance delivers the task.
abbrev taken_keys : Keys
taken_keys key = some (pos 1)

abbrev busy : World ℕ
busy = record (with_task 0) { redis = taken_keys }

exec_one-locked_example :
    ((exec_one
        (group_buy_notify send_ok publish_ok (again (λ keys. keys) ∷ []))
        (pos 7)
        task
        busy).0
      ≡ ok unchanged)
    × ((exec_one
          (group_buy_notify send_ok publish_ok (again (λ keys. keys) ∷ []))
          (pos 7)
          task
          busy).1.db
        ≡ busy.db)
exec_one-locked_example =
    exec_one-locked send_ok publish_ok (again (λ keys. keys) ∷ []) (pos 7) task busy
      ((λ keys h. h), tt) refl refl
