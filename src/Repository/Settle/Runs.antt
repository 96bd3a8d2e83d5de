-- ===== src/Repository/Settle/Runs.antt =====
-- The run of `SettlementMarketPayOrder` over the functions of its transaction.
use group_buy_market.Prelude.{
  ◌≡◌, refl, true, false, ltb_ℤ, String, str_eq, none, some, List, [], ◌∷◌, ◌++◌, map, select,
  count_where, arith,
}
use group_buy_market.Types.Outcome.{ok}
use group_buy_market.Trade.Entities.{Time, GroupBuyTeamSettlementAggregate}
use group_buy_market.Store.Rows.{GroupBuyOrder, GroupBuyOrderList, NotifyTask, Db, World}
use group_buy_market.Store.Call.{statement, transaction, ◌>>=◌}
use group_buy_market.Store.Table.{update_where}
use group_buy_market.Store.Only.{Only, Only-narrow}
use group_buy_market.Repository.Queries.{has_out_trade_no}
use group_buy_market.Repository.Tasks.{to_notify_entity}
use group_buy_market.Repository.Settle.{
  is_unpaid, pay, is_incomplete, complete_one, is_in_progress, form, is_paid, settlement_task,
  is_last, settlement_market_pay_order,
}

module _ {D : Type 0} where
  -- The matched order paid and the team with one more payment.
  abbrev pub paid_db : Time → GroupBuyTeamSettlementAggregate → Db D → Db D
  paid_db now agg db = record db {
    orders =
        update_where (is_unpaid agg.trade_pay_success_entity.out_trade_no agg.user_entity.user_id)
          (pay now agg.trade_pay_success_entity.out_trade_time) db.orders;
    teams =
        update_where (is_incomplete agg.group_buy_team_entity.team_id) (complete_one now) db.teams;
  }

  -- The task row that tells of the team, with the outside numbers of its paid orders.
  abbrev pub formed_row : Time → String → GroupBuyTeamSettlementAggregate → Db D → NotifyTask
  formed_row now topic agg db = settlement_task now topic agg (
      map (λ o. o.out_trade_no)
        (select (is_paid agg.group_buy_team_entity.team_id) (paid_db now agg db).orders))

  abbrev pub formed_db : Time → String → GroupBuyTeamSettlementAggregate → Db D → Db D
  formed_db now topic agg db = record (paid_db now agg db) {
    teams =
        update_where (is_in_progress agg.group_buy_team_entity.team_id) (form now)
          (paid_db now agg db).teams;
    tasks = db.tasks ++ formed_row now topic agg db ∷ [];
  }

  -- The run of a payment that is not the last, over the functions of the transaction.
  pub paid_lem :
      (now : Time) (topic : String) (agg : GroupBuyTeamSettlementAggregate) (w : World D)
      → w.faults ≡ []
      → count_where
          (is_unpaid agg.trade_pay_success_entity.out_trade_no agg.user_entity.user_id)
          w.db.orders
        ≡ 1
      → count_where (is_incomplete agg.group_buy_team_entity.team_id) w.db.teams ≡ 1
      → is_last agg.group_buy_team_entity ≡ false
      → settlement_market_pay_order now topic agg w
        ≡ (ok none, record w { db = paid_db now agg w.db })
  unfolding settlement_market_pay_order transaction ◌>>=◌ statement
  paid_lem now topic agg w f one_order one_team last = simp (f, one_order, one_team, last) refl

  -- The run of the last payment, over the functions of the transaction.
  pub formed_lem :
      (now : Time) (topic : String) (agg : GroupBuyTeamSettlementAggregate) (w : World D)
      → w.faults ≡ []
      → count_where
          (is_unpaid agg.trade_pay_success_entity.out_trade_no agg.user_entity.user_id)
          w.db.orders
        ≡ 1
      → count_where (is_incomplete agg.group_buy_team_entity.team_id) w.db.teams ≡ 1
      → count_where (is_in_progress agg.group_buy_team_entity.team_id) (paid_db now agg w.db).teams
        ≡ 1
      → is_last agg.group_buy_team_entity ≡ true
      → settlement_market_pay_order now topic agg w ≡ (
        ok (some (to_notify_entity (formed_row now topic agg w.db))),
        record w { db = formed_db now topic agg w.db },
      )
  unfolding settlement_market_pay_order transaction ◌>>=◌ statement
  formed_lem now topic agg w f one_order one_team going last =
      simp (f, one_order, one_team, last, going) refl

  pub unpaid-Only :
      (user_id out_trade_no : String) (orders before : List (GroupBuyOrderList D))
      (o : GroupBuyOrderList D) (after : List (GroupBuyOrderList D))
      → Only (has_out_trade_no user_id out_trade_no) orders before o after
      → o.status ≡ 0
      → Only (is_unpaid out_trade_no user_id) orders before o after
  unpaid-Only user_id out_trade_no orders before o after only s =
      Only-narrow (has_out_trade_no user_id out_trade_no) (is_unpaid out_trade_no user_id) orders
        before o after (λ y miss. ground (arith, miss)) (ground (arith, only.hit, s)) only

  pub incomplete-Only :
      (team_id : String) (teams before : List (GroupBuyOrder D)) (t : GroupBuyOrder D)
      (after : List (GroupBuyOrder D))
      → Only (λ r. str_eq r.team_id team_id) teams before t after
      → ltb_ℤ t.complete_count t.target_count ≡ true
      → Only (is_incomplete team_id) teams before t after
  incomplete-Only team_id teams before t after only room =
      Only-narrow (λ r. str_eq r.team_id team_id) (is_incomplete team_id) teams before t after
        (λ y miss. rw miss refl) (rw (only.hit, room) refl) only

  pub forming-Only :
      (team_id : String) (teams before : List (GroupBuyOrder D)) (t : GroupBuyOrder D)
      (after : List (GroupBuyOrder D))
      → Only (λ r. str_eq r.team_id team_id) teams before t after
      → t.status ≡ 0
      → Only (is_in_progress team_id) teams before t after
  forming-Only team_id teams before t after only going =
      Only-narrow (λ r. str_eq r.team_id team_id) (is_in_progress team_id) teams before t after
        (λ y miss. rw miss refl) (rw (only.hit, going) refl) only
