-- ===== src/Trade/Notify.antt =====
-- internal/domain/trade/model/valobj/notify_task_status.go and the notify task entity: the life of
-- a callback task (0 initial, 1 success, 2 retry, 3 error).
pub mod Machine
use group_buy_market.Prelude.{
  ℕ, ℤ, ◌==◌, if◌then◌else◌, String, ◌⧺◌, Bool, true, false, ◌||◌, List, [], ◌∷◌,
}
use group_buy_market.Types.Outcome.{Result, ok, err, illegal_transition}
use group_buy_market.Trade.Entities.{Parameter}

abbrev pub NotifyTaskStatus : Type 0
NotifyTaskStatus = ℕ

abbrev pub notify_task_init : NotifyTaskStatus
notify_task_init = 0

abbrev pub notify_task_success : NotifyTaskStatus
notify_task_success = 1

abbrev pub notify_task_retry : NotifyTaskStatus
notify_task_retry = 2

abbrev pub notify_task_error : NotifyTaskStatus
notify_task_error = 3

abbrev member : List ℕ → ℕ → Bool
member [] n = false
member (x ∷ xs) n = x == n || member xs n

-- The map: a status that is no key has the nil slice.
abbrev notify_transitions : NotifyTaskStatus → List NotifyTaskStatus
notify_transitions s =
    if s == notify_task_init
    then notify_task_success ∷ notify_task_retry ∷ notify_task_error ∷ []
    else if s == notify_task_retry
    then notify_task_success ∷ notify_task_error ∷ []
    else []

unfoldable pub can_transition : NotifyTaskStatus → NotifyTaskStatus → Bool
can_transition s to = member (notify_transitions s) to

unfoldable pub move_to : NotifyTaskStatus → NotifyTaskStatus → Result NotifyTaskStatus
unfolding can_transition
move_to s to = if can_transition s to then ok to else err (illegal_transition s to)

unfoldable pub is_terminal : NotifyTaskStatus → Bool
is_terminal s = s == notify_task_success || s == notify_task_error

pub record NotifyTaskEntity : Type 0 where
  pub team_id : String
  pub notify_type : String
  pub notify_mq : String
  pub notify_url : String
  pub notify_count : ℤ
  pub status : NotifyTaskStatus
  pub parameter_json : Parameter
  pub uuid : String
  pub activity_id : ℤ

unfoldable pub lock_key : NotifyTaskEntity → String
lock_key n = "notify_job_lock_key_" ⧺ n.uuid
