-- ===== src/Consistency/Settle.antt =====
-- `SettlementMarketPayOrder` and the counters.
use group_buy_market.Prelude.{
  ◌==◌, Bool, true, false, if◌then◌else◌, pos, ◌+ℤ◌, pos-suc, String, str_eq_eq, List, none, ◌≡◌,
  refl, All, All-map, count_where, arith, ◌∙◌, ap,
}
use group_buy_market.Trade.Entities.{Time, GroupBuyTeamSettlementAggregate}
use group_buy_market.Store.Rows.{GroupBuyOrder, GroupBuyOrderList, NotifyTask, Db, World}
use group_buy_market.Store.Call.{pure}
use group_buy_market.Store.Table.{update_where, All-update_where}
use group_buy_market.Store.Rules.{Post, pure-Post, statement-Post, require-Post, transaction-keeps}
use group_buy_market.Repository.Sql.{set_teams, add_task}
use group_buy_market.Repository.Settle.{
  is_unpaid, pay, is_incomplete, complete_one, is_in_progress, form, form_team, is_last,
  settlement_body, settlement_market_pay_order,
}
use group_buy_market.Consistency.Counts.{Agrees, Consistent}
use group_buy_market.Consistency.Recount.{Recount, Changes}
use group_buy_market.Consistency.Teams.{
  TeamsUnique-update_where, HasTeam-update_where, Consistent-step,
}

module _ {D : Type 0} where
  -- The unpaid orders that the payment can match are orders of the aggregate's team.
  abbrev pub Belongs : GroupBuyTeamSettlementAggregate → Db D → Type 0
  Belongs agg db =
      All
        (λ o.
          is_unpaid agg.trade_pay_success_entity.out_trade_no agg.user_entity.user_id o ≡ true
          → o.team_id ≡ agg.group_buy_team_entity.team_id)
        db.orders

  pay-Changes :
      (now paid_at : Time) (out_trade_no user_id T : String) (o : GroupBuyOrderList D)
      → (is_unpaid out_trade_no user_id o ≡ true → o.team_id ≡ T)
      → Changes (is_unpaid out_trade_no user_id) (pay now paid_at) T true true false true o
  pay-Changes now paid_at out_trade_no user_id T o h e =
      (h e, h e, ground arith, refl, ground arith, refl)

  complete_one-Agrees :
      (now : Time) (orders orders' : List (GroupBuyOrderList D)) (T : String) (t : GroupBuyOrder D)
      → Recount orders orders' T true true false true
      → t.team_id ≡ T
      → Agrees orders t
      → Agrees orders' (complete_one now t)
  complete_one-Agrees now orders orders' T t r e a = record {
    locks = a.locks ∙ ap pos (rw e (omega (arith, r.own_holds)));
    completes =
        ap (λ c. c +ℤ pos 1) a.completes ∙ pos-suc _ ∙ ap pos (rw e (omega (arith, r.own_paid)));
    fits = a.fits;
  }

  form-Consistent :
      (now : Time) (T : String) (db : Db D)
      → Consistent db
      → Consistent (set_teams (is_in_progress T) (form now) db).1
  form-Consistent now T db c = record {
    unique = TeamsUnique-update_where (is_in_progress T) (form now) (λ t. refl) db.teams c.unique;
    agree =
        All-update_where (Agrees db.orders) (Agrees db.orders) (is_in_progress T) (form now)
          db.teams (λ t e a. record { locks = a.locks; completes = a.completes; fits = a.fits })
          (λ t e a. a) c.agree;
    owned =
        HasTeam-update_where (is_in_progress T) (form now) (λ t. refl) db.teams db.orders c.owned;
  }

  -- Agreement does not look at the tasks.
  pub task-Consistent : (t : NotifyTask) (db : Db D) → Consistent db → Consistent (add_task t db).1
  task-Consistent t db c = record { unique = c.unique; agree = c.agree; owned = c.owned }

  form_team-Post :
      (now : Time) (topic : String) (agg : GroupBuyTeamSettlementAggregate) (b : Bool) (w : World D)
      → Consistent w.db
      → Post (if b then form_team now topic agg else pure none) w (λ a v. Consistent v.db)
  form_team-Post now topic agg false w c = pure-Post none w _ c
  form_team-Post now topic agg true w c = statement-Post _ _ w _ λ fs. require-Post _ _ _ _ _ λ one.
      statement-Post _ _ _ _ λ fs'. statement-Post _ _ _ _ λ fs''.
        pure-Post _ _ _
          (task-Consistent _ _ (form-Consistent now agg.group_buy_team_entity.team_id w.db c))

  paid-Consistent :
      (now paid_at : Time) (out_trade_no user_id T : String) (db : Db D)
      → All (λ o. is_unpaid out_trade_no user_id o ≡ true → o.team_id ≡ T) db.orders
      → (count_where (is_unpaid out_trade_no user_id) db.orders == 1) ≡ true
      → (count_where (is_incomplete T) db.teams == 1) ≡ true
      → Consistent db
      → Consistent (record db {
        orders = update_where (is_unpaid out_trade_no user_id) (pay now paid_at) db.orders;
        teams = update_where (is_incomplete T) (complete_one now) db.teams;
      })
  paid-Consistent now paid_at out_trade_no user_id T db own one_order one_team c =
      Consistent-step db T true true false true (is_unpaid out_trade_no user_id) (pay now paid_at)
        (is_incomplete T) (complete_one now) (λ o. refl) (λ t. refl)
        (λ t e. str_eq_eq t.team_id T (ground arith))
        (λ orders t r e same a. complete_one-Agrees now db.orders orders T t r same a)
        (All-map _ _ db.orders (pay-Changes now paid_at out_trade_no user_id T) own) one_order
        one_team c

  -- From tables whose counters agree with the orders, and where the unpaid orders that the payment
  -- can match belong to the team that was read, the settlement leaves tables whose counters agree,
  -- whether it succeeds, is refused, or fails at any statement; and the locks still fit the target.
  pub settlement_market_pay_order-Consistent :
      (now : Time) (topic : String) (agg : GroupBuyTeamSettlementAggregate) (w : World D)
      → Belongs agg w.db
      → Consistent w.db
      → Consistent (settlement_market_pay_order now topic agg w).1.db
  unfolding settlement_market_pay_order
  settlement_market_pay_order-Consistent now topic agg w own c =
      transaction-keeps Consistent (settlement_body now topic agg) w c (
        statement-Post _ _ w _ λ fs. require-Post _ _ _ _ _ λ one_order.
          statement-Post _ _ _ _ λ fs'. require-Post _ _ _ _ _ λ one_team.
            form_team-Post now topic agg (is_last agg.group_buy_team_entity) _ (
              paid-Consistent now _ _ _ agg.group_buy_team_entity.team_id w.db own one_order
                one_team c))
