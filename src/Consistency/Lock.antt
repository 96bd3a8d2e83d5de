-- ===== src/Consistency/Lock.antt =====
-- `LockMarketPayOrder` and the counters.
use group_buy_market.Prelude.{
  ℕ, ◌==◌, ==_eq, true, ◌||◌, pos, ◌≤ℤ◌, String, str_eq, List, [], ◌∷◌, ◌++◌, ◌≡◌, refl,
  count_where, Bool-cases, inl, inr,
}
use group_buy_market.Trade.Entities.{Time, GroupBuyOrderAggregate}
use group_buy_market.Store.Rows.{GroupBuyOrderList, World}
use group_buy_market.Store.Rules.{
  Post, pure-Post, pure_bind-Post, bind-Post, statement-Post, require-Post, transaction-keeps,
}
use group_buy_market.Store.Call.{◌>>=◌}
use group_buy_market.Repository.Text.{random_numeric}
use group_buy_market.Repository.SqlRules.{insert-Post, map_error-Post}
use group_buy_market.Repository.Lock.{
  open_team, join_team, new_team, new_order, biz_id, add_list, lock_market_pay_order,
}
use group_buy_market.Consistency.Counts.{Consistent}
use group_buy_market.Consistency.Places.{join-Consistent, open-Consistent}

module _ {D : Type 0} where
  -- Every order that is added carries the team it was added for.
  add_list-Consistent :
      (now : Time) (order_id : String) (agg : GroupBuyOrderAggregate D) (T : String) (w : World D)
      → ((o : GroupBuyOrderList D)
          → o.team_id ≡ T
          → o.status ≡ 0
          → Consistent (record w.db { orders = w.db.orders ++ o ∷ [] }))
      → Post (add_list now order_id agg T) w (λ a v. Consistent v.db)
  add_list-Consistent now order_id agg T w h = map_error-Post _ _ _ w _ (
      insert-Post
        (λ db.
          count_where (λ u. str_eq u.order_id order_id || str_eq u.biz_id (biz_id agg)) db.orders
          == 0)
        (λ db. record db { orders = db.orders ++ new_order now T order_id agg ∷ [] }) _ w _
        λ fs fresh. pure-Post _ _ _ (h (new_order now T order_id agg) refl refl))

  -- From consistent tables the lock leaves consistent tables, whether it opens a team for at least
  -- one buyer, joins a team, is refused because the team is full or a key is taken, or fails at any
  -- statement; so no team ever locks more orders than its target.
  pub lock_market_pay_order-Consistent :
      (now : Time) (team_draws order_draws : List ℕ) (agg : GroupBuyOrderAggregate D) (w : World D)
      → (str_eq agg.pay_activity_entity.team_id "" ≡ true
          → pos 1 ≤ℤ agg.pay_activity_entity.target_count)
      → Consistent w.db
      → Consistent (lock_market_pay_order now team_draws order_draws agg w).1.db
  unfolding lock_market_pay_order
  lock_market_pay_order-Consistent now team_draws order_draws agg w room c =
      transaction-keeps Consistent _ w c
        (elim (Bool-cases (str_eq agg.pay_activity_entity.team_id "")) [
          | inl e ↦ rw e (opened (room e))
          | inr e ↦ rw e joined
        ])
    where
      T : String
      T = random_numeric team_draws

      opened :
          pos 1 ≤ℤ agg.pay_activity_entity.target_count
          → Post
              (open_team now T agg >>= add_list now (random_numeric order_draws) agg)
              w
              (λ a v. Consistent v.db)
      opened r = bind-Post _ _ _ w _ (
          insert-Post (λ db. count_where (λ u. str_eq u.team_id T) db.teams == 0)
            (λ db. record db {
              teams =
                  db.teams ++ new_team now T agg.pay_activity_entity agg.pay_discount_entity ∷ [];
            })
            _ w _
            λ fs new. pure_bind-Post _ _ _ _ (
              add_list-Consistent now _ agg T _
                λ o same fresh. open-Consistent w.db _ o same fresh refl refl r (==_eq _ 0 new) c))

      joined :
          Post
            (join_team now agg.pay_activity_entity.team_id
              >>= add_list now (random_numeric order_draws) agg)
            w
            (λ a v. Consistent v.db)
      joined = bind-Post _ _ _ w _ (
          statement-Post _ _ w _ λ fs. bind-Post _ _ _ _ _ (
            require-Post _ _ _ _ _ λ one. pure_bind-Post _ _ _ _ (
              add_list-Consistent now _ agg agg.pay_activity_entity.team_id _
                λ o same fresh. join-Consistent now _ w.db o same fresh one c)))
