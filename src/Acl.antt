-- ===== src/Acl.antt =====
-- internal/infrastructure/acl/trade_notify_acl.go, with the answer of
-- internal/infrastructure/gateway/group_buy_notify.go and the lock of
-- internal/infrastructure/redis/redis_service.go. `send` is the HTTP client: a status code, or no
-- response. `publish` is the event publisher: none, or its error. A delivery does not touch the
-- world but for the lock. No caller passes a nil task, which the method would answer with success.
pub mod Locking
use group_buy_market.Prelude.{
  ℕ, ◌==◌, leb, ltb, ◌&&◌, ◌||◌, if◌then◌else◌, Bool, true, false, String, str_eq, Option, none,
  some, List, [], ◌∷◌,
}
use group_buy_market.Types.Enums.{
  notify_task_http_success, notify_task_http_error, notify_task_http_null,
}
use group_buy_market.Types.Outcome.{Result, ok, err, panic, GoError, database}
use group_buy_market.Trade.Entities.{Parameter, notify_http, notify_mq_type}
use group_buy_market.Trade.Notify.{NotifyTaskEntity, lock_key}
use group_buy_market.Store.Rows.{Keys, World}
use group_buy_market.Store.Call.{Call, pure, command, ◌>>=◌}
use group_buy_market.Repository.Stock.{set_nx, del}

-- What happens after a failed try: the others change the keys while the call waits 50 ms, or the
-- context is cancelled. The end of the list is the deadline.
pub data Wait : Type 0 where
  again : (Keys → Keys) → Wait
  cancelled : Wait

abbrev pub Send : Type 0
Send = String → Parameter → Option ℕ

abbrev pub Publish : Type 0
Publish = String → Parameter → Option String

module _ {D : Type 0} where
  unfoldable pub try_lock : String → Call D Bool
  unfolding set_nx
  try_lock key = command (set_nx key)

  -- `TryLockWait`.
  abbrev pub after_try : Bool → Call D Bool → Call D Bool
  after_try true rest w = (ok true, w)
  after_try false rest w = rest w

  unfoldable pub try_lock_wait : String → List Wait → Call D Bool
  unfolding try_lock pure ◌>>=◌
  try_lock_wait key [] = try_lock key >>= λ took. after_try took (pure false)
  try_lock_wait key (cancelled ∷ waits) =
      try_lock key >>= λ took. after_try took (λ w. (err (database "context canceled"), w))
  try_lock_wait key (again others ∷ waits) =
      let rest = try_lock_wait key waits in
      try_lock key >>= λ took. after_try took (λ w. rest (record w { redis = others w.redis }))

-- The gateway: only a 2xx status is a success.
abbrev pub gateway_answer : Option ℕ → Result String
gateway_answer none = err (database "http")
gateway_answer (some status) =
    ok (
      if leb 200 status && ltb status 300 then notify_task_http_success else notify_task_http_error)

abbrev pub publish_answer : Option String → Result String
publish_answer none = ok notify_task_http_success
publish_answer (some e) = err (database e)

-- `switch valobj.NotifyType(task.NotifyType)`.
unfoldable pub dispatch : Send → Publish → NotifyTaskEntity → Result String
dispatch send publish task =
    if str_eq task.notify_type notify_http
    then (if str_eq task.notify_url "" || str_eq task.notify_url "暂无"
        then ok notify_task_http_success
        else gateway_answer (send task.notify_url task.parameter_json))
    else if str_eq task.notify_type notify_mq_type
    then publish_answer (
        publish (if str_eq task.notify_mq "" then "topic.team_success" else task.notify_mq)
          task.parameter_json)
    else ok notify_task_http_success

module _ {D : Type 0} where
  -- The deferred `Unlock`, whose error is dropped.
  abbrev pub unlock : String → World D → World D
  unlock key w = (command (λ keys. (tt, del key keys)) w).1

  abbrev pub under_lock :
      Send → Publish → NotifyTaskEntity → Result Bool × World D → Result String × World D
  under_lock send publish task (ok true, w) = (dispatch send publish task, unlock (lock_key task) w)
  under_lock send publish task (ok false, w) = (ok notify_task_http_null, w)
  under_lock send publish task (err e, w) = (ok notify_task_http_null, w)
  under_lock send publish task (panic, w) = (panic, w)

  unfoldable pub group_buy_notify : Send → Publish → List Wait → NotifyTaskEntity → Call D String
  unfolding try_lock_wait dispatch lock_key command del
  group_buy_notify send publish waits task w =
      under_lock send publish task (try_lock_wait (lock_key task) waits w)
