-- ===== src/Repository/Settle.antt =====
-- trade_repository.go: `SettlementMarketPayOrder`, the transaction of a payment. The team entity of
-- the aggregate was read before the transaction, and its counts decide whether the team is complete.
pub mod Runs
pub mod Success
use group_buy_market.Prelude.{
  ◌==◌, if◌then◌else◌, Bool, ◌&&◌, not, ltb_ℤ, eq_ℤ, pos, ◌+ℤ◌, ◌-ℤ◌, String, str_eq, Option, none,
  some, List, map, select,
}
use group_buy_market.Types.Codes.{update_zero}
use group_buy_market.Types.Outcome.{new_app_exception}
use group_buy_market.Trade.Entities.{
  Time, NotifyConfigVo, notify_http, notify_mq_type, task_trade_settlement, GroupBuyTeamEntity,
  GroupBuyTeamSettlementAggregate, team_settled,
}
use group_buy_market.Trade.Notify.{NotifyTaskEntity}
use group_buy_market.Store.Rows.{GroupBuyOrder, GroupBuyOrderList, NotifyTask}
use group_buy_market.Store.Call.{Call, pure, query, statement, require, transaction, ◌>>=◌, ◌>>◌}
use group_buy_market.Repository.Sql.{set_teams, set_orders, add_task}
use group_buy_market.Repository.Tasks.{to_notify_entity, task_uuid}

abbrev settled_type : Option NotifyConfigVo → String
settled_type none = notify_http
settled_type (some c) = c.notify_type

abbrev settled_mq : String → Option NotifyConfigVo → Option String
settled_mq topic none = none
settled_mq topic (some c) =
    if str_eq c.notify_type notify_mq_type
    then some (if str_eq c.notify_mq "" then topic else c.notify_mq)
    else none

abbrev settled_url : Option NotifyConfigVo → Option String
settled_url none = none
settled_url (some c) =
    if str_eq c.notify_type notify_http && not (str_eq c.notify_url "")
    then some c.notify_url
    else none

abbrev pub settlement_task :
    Time → String → GroupBuyTeamSettlementAggregate → List String → NotifyTask
settlement_task now topic agg out_trade_nos =
    let team = agg.group_buy_team_entity in
    record {
      activity_id = team.activity_id;
      team_id = team.team_id;
      notify_category = some task_trade_settlement;
      notify_type = settled_type team.notify_config;
      notify_mq = settled_mq topic team.notify_config;
      notify_url = settled_url team.notify_config;
      notify_count = pos 0;
      notify_status = 0;
      parameter_json = team_settled team.team_id out_trade_nos;
      uuid = task_uuid team.team_id task_trade_settlement agg.trade_pay_success_entity.out_trade_no;
      create_time = now;
      update_time = now;
    }

-- `team.TargetCount-team.CompleteCount == 1`, on the counts that were read before.
abbrev pub is_last : GroupBuyTeamEntity → Bool
is_last team = eq_ℤ (team.target_count -ℤ team.complete_count) (pos 1)

module _ {D : Type 0} where
  -- `out_trade_no = ? AND user_id = ? AND status = 0`.
  abbrev pub is_unpaid : String → String → GroupBuyOrderList D → Bool
  is_unpaid out_trade_no user_id o =
      str_eq o.out_trade_no out_trade_no && (str_eq o.user_id user_id && o.status == 0)

  abbrev pub pay : Time → Time → GroupBuyOrderList D → GroupBuyOrderList D
  pay now out_trade_time o = record o {
    status = 1;
    out_trade_time = some out_trade_time;
    update_time = now;
  }

  -- `team_id = ? AND complete_count < target_count`.
  abbrev pub is_incomplete : String → GroupBuyOrder D → Bool
  is_incomplete team_id t = str_eq t.team_id team_id && ltb_ℤ t.complete_count t.target_count

  abbrev pub complete_one : Time → GroupBuyOrder D → GroupBuyOrder D
  complete_one now t = record t { complete_count = t.complete_count +ℤ pos 1; update_time = now }

  -- `team_id = ? AND status = 0`.
  abbrev pub is_in_progress : String → GroupBuyOrder D → Bool
  is_in_progress team_id t = str_eq t.team_id team_id && t.status == 0

  abbrev pub form : Time → GroupBuyOrder D → GroupBuyOrder D
  form now t = record t { status = 1; update_time = now }

  -- `team_id = ? AND status = 1`.
  abbrev pub is_paid : String → GroupBuyOrderList D → Bool
  is_paid team_id o = str_eq o.team_id team_id && o.status == 1

  -- The last payment forms the team and leaves a task that tells of it.
  abbrev pub form_team :
      Time → String → GroupBuyTeamSettlementAggregate → Call D (Option NotifyTaskEntity)
  form_team now topic agg =
      let team_id = agg.group_buy_team_entity.team_id in
      do
        n ← statement (set_teams (is_in_progress team_id) (form now))
        require (n == 1) (new_app_exception update_zero)
        nos ← query λ db. map (λ o. o.out_trade_no) (select (is_paid team_id) db.orders)
        statement (add_task (settlement_task now topic agg nos))
        pure (some (to_notify_entity (settlement_task now topic agg nos)))

  abbrev pub settlement_body :
      Time → String → GroupBuyTeamSettlementAggregate → Call D (Option NotifyTaskEntity)
  settlement_body now topic agg =
      let team = agg.group_buy_team_entity in
      let pay_success = agg.trade_pay_success_entity in
      do
        n ← statement (
            set_orders (is_unpaid pay_success.out_trade_no agg.user_entity.user_id)
              (pay now pay_success.out_trade_time))
        require (n == 1) (new_app_exception update_zero)
        m ← statement (set_teams (is_incomplete team.team_id) (complete_one now))
        require (m == 1) (new_app_exception update_zero)
        if is_last team then form_team now topic agg else pure none

  unfoldable pub settlement_market_pay_order :
      Time → String → GroupBuyTeamSettlementAggregate → Call D (Option NotifyTaskEntity)
  settlement_market_pay_order now topic agg = transaction (settlement_body now topic agg)
