-- ===== src/Acl/Locking.antt =====
-- The lock around a delivery.
use group_buy_market.Prelude.{
  ◌≡◌, refl, Bool, true, false, String, str_eq_self, none, List, [], ◌∷◌, All, Bool-cases, inl, inr,
}
use group_buy_market.Types.Enums.{notify_task_http_null}
use group_buy_market.Types.Outcome.{Result, ok, err, panic}
use group_buy_market.Trade.Entities.{Time}
use group_buy_market.Trade.Notify.{NotifyTaskEntity, lock_key, is_terminal}
use group_buy_market.Store.Rows.{Keys, World, put}
use group_buy_market.Store.Call.{command, ◌>>=◌, pure}
use group_buy_market.Repository.Stock.{is_set, set_nx, del}
use group_buy_market.Service.Task.{unchanged, exec_one, apply_answer, TradePort}
use group_buy_market.Acl.{
  Wait, again, cancelled, Send, Publish, try_lock, try_lock_wait, dispatch, under_lock,
  group_buy_notify,
}

module _ {D : Type 0} where
  -- When Redis answers and the lock is free, one delivery is made with the answer of the channel,
  -- and the lock is free again afterwards, whatever the answer is.
  pub group_buy_notify-releases :
      (send : Send) (publish : Publish) (waits : List Wait) (task : NotifyTaskEntity) (w : World D)
      → w.faults ≡ []
      → is_set (w.redis (lock_key task)) ≡ false
      → ((group_buy_notify send publish waits task w).0 ≡ dispatch send publish task)
        × ((group_buy_notify send publish waits task w).1.redis (lock_key task) ≡ none)
        × ((group_buy_notify send publish waits task w).1.db ≡ w.db)
  unfolding group_buy_notify try_lock_wait try_lock set_nx del put command ◌>>=◌
  group_buy_notify-releases send publish [] task w f free =
      let own = str_eq_self (lock_key task) in
      (simp (f, free) refl, simp (f, free, own) refl, simp (f, free) refl)
  group_buy_notify-releases send publish (cancelled ∷ waits) task w f free =
      let own = str_eq_self (lock_key task) in
      (simp (f, free) refl, simp (f, free, own) refl, simp (f, free) refl)
  group_buy_notify-releases send publish (again others ∷ waits) task w f free =
      let own = str_eq_self (lock_key task) in
      (simp (f, free) refl, simp (f, free, own) refl, simp (f, free) refl)

-- The others may change any key while this call waits, but the lock stays taken.
abbrev pub Holds : String → Wait → Type 0
Holds key (again others) =
    (keys : Keys) → is_set (keys key) ≡ true → is_set (others keys key) ≡ true
Holds key cancelled = Unit

-- The lock was not got.
abbrev Missed : Result Bool → Type 0
Missed (ok took) = took ≡ false
Missed (err e) = Unit
Missed panic = true ≡ false

module _ {D : Type 0} where
  try_lock_wait-Missed :
      (key : String) (waits : List Wait) (w : World D)
      → All (Holds key) waits
      → w.faults ≡ []
      → is_set (w.redis key) ≡ true
      → Missed (try_lock_wait key waits w).0 × ((try_lock_wait key waits w).1.db ≡ w.db)
  unfolding try_lock_wait try_lock set_nx command pure ◌>>=◌
  try_lock_wait-Missed key [] w h f held = simp (f, held) (refl, refl)
  try_lock_wait-Missed key (cancelled ∷ waits) w h f held = simp (f, held) (tt, refl)
  try_lock_wait-Missed key (again others ∷ waits) w h f held =
      simp (f, held)
        (try_lock_wait-Missed key waits (record w { redis = others w.redis; faults = [] }) h.1 refl
          (h.0 w.redis held))

  under_lock-Missed :
      (send : Send) (publish : Publish) (t : NotifyTaskEntity) (r : Result Bool) (w : World D)
      → Missed r
      → under_lock send publish t (r, w) ≡ (ok notify_task_http_null, w)
  under_lock-Missed send publish t (ok took) w m = rw m refl
  under_lock-Missed send publish t (err e) w m = refl
  under_lock-Missed send publish t panic w m = cc

  pub group_buy_notify-null :
      (send : Send) (publish : Publish) (waits : List Wait) (t : NotifyTaskEntity) (w : World D)
      → All (Holds (lock_key t)) waits
      → w.faults ≡ []
      → is_set (w.redis (lock_key t)) ≡ true
      → group_buy_notify send publish waits t w
        ≡ (ok notify_task_http_null, (try_lock_wait (lock_key t) waits w).1)
  unfolding group_buy_notify
  group_buy_notify-null send publish waits t w h f held =
      under_lock-Missed send publish t (try_lock_wait (lock_key t) waits w).0
        (try_lock_wait (lock_key t) waits w).1
        (try_lock_wait-Missed (lock_key t) waits w h f held).0

  null-unchanged :
      (port : TradePort D) (now : Time) (t : NotifyTaskEntity) (w v : World D)
      → port t w ≡ (ok notify_task_http_null, v)
      → v.db ≡ w.db
      → ((exec_one port now t w).0 ≡ ok unchanged) × ((exec_one port now t w).1.db ≡ w.db)
  unfolding exec_one apply_answer pure ◌>>=◌
  null-unchanged port now t w v p same = elim (Bool-cases (is_terminal t.status)) [
    | inl e ↦ simp e (refl, refl)
    | inr e ↦ simp (e, p) (refl, same)
  ]

  -- While another instance holds the lock of a task and Redis answers, the delivery of the task
  -- neither counts nor changes any table, however long it waits and whatever else the others do to
  -- the keys.
  pub exec_one-locked :
      (send : Send) (publish : Publish) (waits : List Wait) (now : Time) (t : NotifyTaskEntity)
      (w : World D)
      → All (Holds (lock_key t)) waits
      → w.faults ≡ []
      → is_set (w.redis (lock_key t)) ≡ true
      → ((exec_one (group_buy_notify send publish waits) now t w).0 ≡ ok unchanged)
        × ((exec_one (group_buy_notify send publish waits) now t w).1.db ≡ w.db)
  exec_one-locked send publish waits now t w h f held =
      null-unchanged (group_buy_notify send publish waits) now t w _
        (group_buy_notify-null send publish waits t w h f held)
        (try_lock_wait-Missed (lock_key t) waits w h f held).1
