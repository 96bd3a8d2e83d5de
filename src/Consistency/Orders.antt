-- ===== src/Consistency/Orders.antt =====
-- The unique key on order numbers, through every trade transaction.
use group_buy_market.Prelude.{
  ℕ, ◌==◌, ==_eq, Bool, true, false, ◌||◌, if◌then◌else◌, String, str_eq, str_eq_self, List, [],
  ◌∷◌, ◌++◌, none, ◌≡◌, ◌≢◌, refl, sym, ◌∙◌, All, All-append, count_where, arith, inl, inr,
  Bool-cases,
}
use group_buy_market.Trade.Entities.{
  Time, GroupBuyOrderAggregate, GroupBuyTeamSettlementAggregate, GroupBuyRefundAggregate,
}
use group_buy_market.Store.Rows.{GroupBuyOrderList, World}
use group_buy_market.Store.Call.{pure, ◌>>=◌}
use group_buy_market.Store.Table.{update_where, All-update_where}
use group_buy_market.Store.Rules.{
  Post, pure-Post, pure_bind-Post, bind-Post, statement-Post, require-Post, found-Post,
  transaction-keeps,
}
use group_buy_market.Repository.Text.{random_numeric}
use group_buy_market.Repository.SqlRules.{insert-Post, map_error-Post}
use group_buy_market.Repository.Lock.{
  open_team, join_team, new_team, new_order, biz_id, add_list, lock_market_pay_order,
}
use group_buy_market.Repository.Settle.{
  pay, form_team, is_last, settlement_body, settlement_market_pay_order,
}
use group_buy_market.Repository.Refund.{
  close, do_refund, unpaid2refund, paid2refund, paid_team2refund,
}
use group_buy_market.Consistency.Counts.{OrdersUnique}

module _ {D : Type 0} where
  module _ (p : GroupBuyOrderList D → Bool) (f : GroupBuyOrderList D → GroupBuyOrderList D)
      (keeps : (o : GroupBuyOrderList D) → (f o).order_id ≡ o.order_id) where
    fresh-update_where :
        (k : String) (os : List (GroupBuyOrderList D))
        → All (λ u. u.order_id ≢ k) os
        → All (λ u. u.order_id ≢ k) (update_where p f os)
    fresh-update_where k os =
        All-update_where _ _ p f os (λ o e ne same. ne (sym (keeps o) ∙ same)) (λ o e ne. ne)

    OrdersUnique-update_where :
        (os : List (GroupBuyOrderList D)) → OrdersUnique os → OrdersUnique (update_where p f os)
    unfolding update_where
    OrdersUnique-update_where [] u = tt
    OrdersUnique-update_where (o ∷ os) u = elim (Bool-cases (p o)) [
      | inl e ↦
          rw e
            (rw (keeps o) (fresh-update_where o.order_id os u.0), OrdersUnique-update_where os u.1)
      | inr e ↦ rw e (fresh-update_where o.order_id os u.0, OrdersUnique-update_where os u.1)
    ]

  OrdersUnique-append :
      (os : List (GroupBuyOrderList D)) (o : GroupBuyOrderList D)
      → OrdersUnique os
      → All (λ u. u.order_id ≢ o.order_id) os
      → OrdersUnique (os ++ o ∷ [])
  OrdersUnique-append [] o u h = (tt, tt)
  OrdersUnique-append (v ∷ vs) o u h =
      (All-append _ vs (o ∷ []) u.0 ((λ e. h.0 (sym e)), tt), OrdersUnique-append vs o u.1 h.1)

  unclashed :
      (k b : String) (os : List (GroupBuyOrderList D))
      → count_where (λ u. str_eq u.order_id k || str_eq u.biz_id b) os ≡ 0
      → All (λ u. u.order_id ≢ k) os
  unfolding count_where
  unclashed k b [] h = tt
  unclashed k b (o ∷ os) h = elim (Bool-cases (str_eq o.order_id k)) [
    | inl e ↦ absurd (ground (arith, e))
    | inr e ↦ (
      (λ same. let hit = str_eq_self k in ground (arith, e, same, hit)),
      unclashed k b os (ground (arith, h)),
    )
  ]

  -- Every transaction keeps order numbers unique.
  abbrev Unique : World D → Type 0
  Unique w = OrdersUnique w.db.orders

  add_list-Unique :
      (now : Time) (order_id : String) (agg : GroupBuyOrderAggregate D) (T : String) (w : World D)
      → Unique w
      → Post (add_list now order_id agg T) w (λ a v. Unique v)
  add_list-Unique now order_id agg T w u = map_error-Post _ _ _ w _ (
      insert-Post
        (λ db.
          count_where (λ o. str_eq o.order_id order_id || str_eq o.biz_id (biz_id agg)) db.orders
          == 0)
        (λ db. record db { orders = db.orders ++ new_order now T order_id agg ∷ [] }) _ w _
        λ fs fresh. pure-Post _ _ _ (
          OrdersUnique-append w.db.orders _ u
            (unclashed order_id (biz_id agg) w.db.orders (==_eq _ 0 fresh))))

  pub lock_market_pay_order-OrdersUnique :
      (now : Time) (team_draws order_draws : List ℕ) (agg : GroupBuyOrderAggregate D) (w : World D)
      → OrdersUnique w.db.orders
      → OrdersUnique (lock_market_pay_order now team_draws order_draws agg w).1.db.orders
  unfolding lock_market_pay_order
  lock_market_pay_order-OrdersUnique now team_draws order_draws agg w u =
      transaction-keeps (λ db. OrdersUnique db.orders) _ w u
        (elim (Bool-cases (str_eq agg.pay_activity_entity.team_id "")) [
          | inl e ↦ rw e opened
          | inr e ↦ rw e joined
        ])
    where
      opened :
          Post
            (open_team now (random_numeric team_draws) agg
              >>= add_list now (random_numeric order_draws) agg)
            w
            (λ a v. Unique v)
      opened = bind-Post _ _ _ w _ (
          insert-Post
            (λ db. count_where (λ t. str_eq t.team_id (random_numeric team_draws)) db.teams == 0)
            (λ db. record db {
              teams =
                  db.teams
                  ++ new_team now (random_numeric team_draws) agg.pay_activity_entity
                      agg.pay_discount_entity
                    ∷ [];
            })
            _ w _ λ fs new. pure_bind-Post _ _ _ _ (add_list-Unique now _ agg _ _ u))

      joined :
          Post
            (join_team now agg.pay_activity_entity.team_id
              >>= add_list now (random_numeric order_draws) agg)
            w
            (λ a v. Unique v)
      joined = bind-Post _ _ _ w _ (
          statement-Post _ _ w _ λ fs. bind-Post _ _ _ _ _ (
            require-Post _ _ _ _ _ λ one. pure_bind-Post _ _ _ _ (add_list-Unique now _ agg _ _ u)))

  form_team-Unique :
      (now : Time) (topic : String) (agg : GroupBuyTeamSettlementAggregate) (b : Bool) (w : World D)
      → Unique w
      → Post (if b then form_team now topic agg else pure none) w (λ a v. Unique v)
  form_team-Unique now topic agg false w u = pure-Post none w _ u
  form_team-Unique now topic agg true w u = statement-Post _ _ w _ λ fs.
      require-Post _ _ _ _ _
        λ one. statement-Post _ _ _ _ λ fs'. statement-Post _ _ _ _ λ fs''. pure-Post _ _ _ u

  pub settlement_market_pay_order-OrdersUnique :
      (now : Time) (topic : String) (agg : GroupBuyTeamSettlementAggregate) (w : World D)
      → OrdersUnique w.db.orders
      → OrdersUnique (settlement_market_pay_order now topic agg w).1.db.orders
  unfolding settlement_market_pay_order
  settlement_market_pay_order-OrdersUnique now topic agg w u =
      transaction-keeps (λ db. OrdersUnique db.orders) (settlement_body now topic agg) w u
        (statement-Post _ _ w _ λ fs. require-Post _ _ _ _ _ λ one_order.
          statement-Post _ _ _ _ λ fs'. require-Post _ _ _ _ _ λ one_team.
            form_team-Unique now topic agg (is_last agg.group_buy_team_entity) _
              (OrdersUnique-update_where _ (pay now _) (λ o. refl) w.db.orders u))

  do_refund-OrdersUnique :
      (now : Time) (topic : String) (agg : GroupBuyRefundAggregate) (from_status : ℕ)
      (category refund_type : String) (dec_lock dec_complete : Bool) (w : World D)
      → OrdersUnique w.db.orders
      → OrdersUnique
          (do_refund now topic agg from_status category refund_type dec_lock dec_complete
            w).1.db.orders
  unfolding do_refund
  do_refund-OrdersUnique now topic agg from_status category refund_type dec_lock dec_complete w u =
      transaction-keeps (λ db. OrdersUnique db.orders) _ w u
        (statement-Post _ _ w _ λ fs. require-Post _ _ _ _ _ λ one_order.
          statement-Post _ _ _ _ λ fs'. require-Post _ _ _ _ _ λ one_team.
            statement-Post _ _ _ _ λ fs''.
              pure-Post _ _ _ (OrdersUnique-update_where _ (close now) (λ o. refl) w.db.orders u))

  pub unpaid2refund-OrdersUnique :
      (now : Time) (topic : String) (agg : GroupBuyRefundAggregate) (w : World D)
      → OrdersUnique w.db.orders
      → OrdersUnique (unpaid2refund now topic agg w).1.db.orders
  unfolding unpaid2refund
  unpaid2refund-OrdersUnique now topic agg w u =
      do_refund-OrdersUnique now topic agg 0 _ _ true false w u

  pub paid2refund-OrdersUnique :
      (now : Time) (topic : String) (agg : GroupBuyRefundAggregate) (w : World D)
      → OrdersUnique w.db.orders
      → OrdersUnique (paid2refund now topic agg w).1.db.orders
  unfolding paid2refund
  paid2refund-OrdersUnique now topic agg w u =
      do_refund-OrdersUnique now topic agg 1 _ _ true true w u

  pub paid_team2refund-OrdersUnique :
      (now : Time) (topic : String) (agg : GroupBuyRefundAggregate) (w : World D)
      → OrdersUnique w.db.orders
      → OrdersUnique (paid_team2refund now topic agg w).1.db.orders
  unfolding paid_team2refund
  paid_team2refund-OrdersUnique now topic agg w u =
      transaction-keeps (λ db. OrdersUnique db.orders) _ w u
        (statement-Post _ _ w _ λ fs. require-Post _ _ _ _ _ λ one_order.
          statement-Post _ _ _ _ λ fs'. found-Post _ _ _ _ λ row e. statement-Post _ _ _ _ λ fs2.
            require-Post _ _ _ _ _ λ one_team. statement-Post _ _ _ _ λ fs3.
              pure-Post _ _ _ (OrdersUnique-update_where _ (close now) (λ o. refl) w.db.orders u))
