-- ===== src/Repository/Tasks.antt =====
-- trade_repository.go: the notify tasks. `toNotifyEntity`, the two queries, the three status updates,
-- `RefundOrderExist` and the insert that the settlement and the refunds share.
use group_buy_market.Prelude.{
  ℕ, ◌==◌, Bool, ◌&&◌, ◌||◌, ltb, pos, ◌+ℤ◌, String, str_eq, ◌⧺◌, Option, none, some, List, [], ◌∷◌,
  map, take, select, find, count_where,
}
use group_buy_market.Types.Codes.{underline}
use group_buy_market.Trade.Entities.{
  Time, Parameter, refund_success, TradeRefundOrderEntity, notify_mq_type,
}
use group_buy_market.Trade.Notify.{NotifyTaskEntity, NotifyTaskStatus}
use group_buy_market.Store.Rows.{NotifyTask}
use group_buy_market.Store.Call.{Call, pure, query, statement, ◌>>◌}
use group_buy_market.Repository.Sql.{set_tasks, add_task}

abbrev or_empty : Option String → String
or_empty none = ""
or_empty (some s) = s

abbrev pub to_notify_entity : NotifyTask → NotifyTaskEntity
to_notify_entity t = record {
  team_id = t.team_id;
  notify_type = t.notify_type;
  notify_mq = or_empty t.notify_mq;
  notify_url = or_empty t.notify_url;
  notify_count = t.notify_count;
  status = t.notify_status;
  parameter_json = t.parameter_json;
  uuid = t.uuid;
  activity_id = t.activity_id;
}

-- `notify_status IN (0, 2)`.
abbrev pub is_open : NotifyTask → Bool
is_open t = t.notify_status == 0 || t.notify_status == 2

-- `team_id = ? AND uuid = ?`.
abbrev pub is_task : NotifyTaskEntity → NotifyTask → Bool
is_task task t = str_eq t.team_id task.team_id && str_eq t.uuid task.uuid

abbrev pub mark : Time → NotifyTaskStatus → NotifyTask → NotifyTask
mark now status t = record t {
  notify_status = status;
  notify_count = t.notify_count +ℤ pos 1;
  update_time = now;
}

abbrev pub refund_parameter : TradeRefundOrderEntity → String → Parameter
refund_parameter order refund_type = refund_success (record {
  refund_type = refund_type;
  user_id = order.user_id;
  team_id = order.team_id;
  order_id = order.order_id;
  out_trade_no = order.out_trade_no;
  activity_id = order.activity_id;
})

abbrev pub task_uuid : String → String → String → String
task_uuid team_id category key = team_id ⧺ underline ⧺ category ⧺ underline ⧺ key

abbrev pub refund_task : Time → String → TradeRefundOrderEntity → String → String → NotifyTask
refund_task now topic order category refund_type = record {
  activity_id = order.activity_id;
  team_id = order.team_id;
  notify_category = some category;
  notify_type = notify_mq_type;
  notify_mq = some topic;
  notify_url = none;
  notify_count = pos 0;
  notify_status = 0;
  parameter_json = refund_parameter order refund_type;
  uuid = task_uuid order.team_id category order.order_id;
  create_time = now;
  update_time = now;
}

module _ {D : Type 0} where
  unfoldable pub query_un_executed_notify_task_list : Call D (List NotifyTaskEntity)
  query_un_executed_notify_task_list =
      query λ db. map to_notify_entity (take 50 (select is_open db.tasks))

  unfoldable pub query_un_executed_notify_task_list_by_team_id :
      String → Call D (List NotifyTaskEntity)
  query_un_executed_notify_task_list_by_team_id team_id =
      query λ db. one (find (λ t. str_eq t.team_id team_id && is_open t) db.tasks)
    where
      one : Option NotifyTask → List NotifyTaskEntity
      one none = []
      one (some row) = to_notify_entity row ∷ []

  unfoldable pub update_notify_task_status : Time → NotifyTaskStatus → NotifyTaskEntity → Call D ℕ
  update_notify_task_status now status task = statement (set_tasks (is_task task) (mark now status))

  abbrev pub update_notify_task_status_success : Time → NotifyTaskEntity → Call D ℕ
  update_notify_task_status_success now = update_notify_task_status now 1

  abbrev pub update_notify_task_status_error : Time → NotifyTaskEntity → Call D ℕ
  update_notify_task_status_error now = update_notify_task_status now 3

  abbrev pub update_notify_task_status_retry : Time → NotifyTaskEntity → Call D ℕ
  update_notify_task_status_retry now = update_notify_task_status now 2

  unfoldable pub refund_order_exist : String → String → String → Call D Bool
  refund_order_exist team_id category order_id =
      query λ db.
        ltb 0 (count_where (λ t. str_eq t.uuid (task_uuid team_id category order_id)) db.tasks)

  -- `insertRefundNotify`; `topic` is the repository's `topicTeamRefund`.
  abbrev pub insert_refund_notify :
      Time → String → TradeRefundOrderEntity → String → String → Call D NotifyTaskEntity
  insert_refund_notify now topic order category refund_type = do
    statement (add_task (refund_task now topic order category refund_type))
    pure (to_notify_entity (refund_task now topic order category refund_type))
