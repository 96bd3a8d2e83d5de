-- ===== src/Repository/Refund.antt =====
-- trade_repository.go: the three refund transactions.
use group_buy_market.Prelude.{
  ℕ, ◌==◌, if◌then◌else◌, Bool, ◌&&◌, leb_ℤ, ℤ, pos, ◌+ℤ◌, String, str_eq, true, false, find,
}
use group_buy_market.Types.Codes.{update_zero}
use group_buy_market.Types.Enums.{GroupBuyOrderStatus, group_buy_fail, group_buy_complete_fail}
use group_buy_market.Types.Outcome.{new_app_exception}
use group_buy_market.Trade.Entities.{
  Time, GroupBuyRefundAggregate, TradeRefundOrderEntity, task_trade_unpaid2refund,
  task_trade_paid2refund, task_trade_paid_team2refund, GroupBuyProgressVo,
}
use group_buy_market.Trade.Notify.{NotifyTaskEntity}
use group_buy_market.Trade.Refund.Types.{
  refund_unpaid_unlock, refund_paid_unformed, refund_paid_formed,
}
use group_buy_market.Store.Rows.{GroupBuyOrder, GroupBuyOrderList}
use group_buy_market.Store.Call.{Call, query, statement, require, found, transaction, ◌>>=◌, ◌>>◌}
use group_buy_market.Repository.Sql.{set_teams, set_orders}
use group_buy_market.Repository.Tasks.{insert_refund_notify}

-- The status that the team gets: failed once nobody is left, else complete with refunds.
abbrev pub refunded_status : ℤ → GroupBuyOrderStatus
refunded_status new_complete =
    if leb_ℤ new_complete (pos 0) then group_buy_fail else group_buy_complete_fail

module _ {D : Type 0} where
  -- `user_id = ? AND order_id = ? AND status = ?`.
  abbrev pub is_refundable : TradeRefundOrderEntity → ℕ → GroupBuyOrderList D → Bool
  is_refundable order from_status o =
      str_eq o.user_id order.user_id
      && (str_eq o.order_id order.order_id && o.status == from_status)

  abbrev pub close : Time → GroupBuyOrderList D → GroupBuyOrderList D
  close now o = record o { status = 2; update_time = now }

  abbrev pub of_team : String → GroupBuyOrder D → Bool
  of_team team_id t = str_eq t.team_id team_id

  -- `updates`, with the two counts that are in the map.
  abbrev pub add_progress :
      Time → GroupBuyProgressVo → Bool → Bool → GroupBuyOrder D → GroupBuyOrder D
  add_progress now progress dec_lock dec_complete t = record t {
    lock_count = if dec_lock then t.lock_count +ℤ progress.lock_count else t.lock_count;
    complete_count =
        if dec_complete then t.complete_count +ℤ progress.complete_count else t.complete_count;
    update_time = now;
  }

  unfoldable pub do_refund :
      Time
      → String
      → GroupBuyRefundAggregate
      → ℕ
      → String
      → String
      → Bool
      → Bool
      → Call D NotifyTaskEntity
  do_refund now topic agg from_status category refund_type dec_lock dec_complete =
      let order = agg.trade_refund_order_entity in
      transaction do
        n ← statement (set_orders (is_refundable order from_status) (close now))
        require (n == 1) (new_app_exception update_zero)
        m ← statement (
            set_teams (of_team order.team_id)
              (add_progress now agg.group_buy_progress dec_lock dec_complete))
        require (m == 1) (new_app_exception update_zero)
        insert_refund_notify now topic order category refund_type

  unfoldable pub unpaid2refund : Time → String → GroupBuyRefundAggregate → Call D NotifyTaskEntity
  unfolding do_refund
  unpaid2refund now topic agg =
      do_refund now topic agg 0 task_trade_unpaid2refund refund_unpaid_unlock.code true false

  unfoldable pub paid2refund : Time → String → GroupBuyRefundAggregate → Call D NotifyTaskEntity
  unfolding do_refund
  paid2refund now topic agg =
      do_refund now topic agg 1 task_trade_paid2refund refund_paid_unformed.code true true

  abbrev pub write_progress : Time → ℤ → ℤ → GroupBuyOrder D → GroupBuyOrder D
  write_progress now new_lock new_complete t = record t {
    lock_count = new_lock;
    complete_count = new_complete;
    status = refunded_status new_complete;
    update_time = now;
  }

  unfoldable pub paid_team2refund :
      Time → String → GroupBuyRefundAggregate → Call D NotifyTaskEntity
  paid_team2refund now topic agg =
      let order = agg.trade_refund_order_entity in
      let progress = agg.group_buy_progress in
      transaction do
        n ← statement (set_orders (is_refundable order 1) (close now))
        require (n == 1) (new_app_exception update_zero)
        row ← query λ db. find (of_team order.team_id) db.teams
        team ← found row
        m ← statement (
            set_teams (of_team order.team_id) (
              write_progress now (team.lock_count +ℤ progress.lock_count)
                (team.complete_count +ℤ progress.complete_count)))
        require (m == 1) (new_app_exception update_zero)
        insert_refund_notify now topic order task_trade_paid_team2refund refund_paid_formed.code
