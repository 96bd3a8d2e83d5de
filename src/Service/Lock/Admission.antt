-- ===== src/Service/Lock/Admission.antt =====
-- `LockMarketPayOrder` of the lock service: what the rules have checked when it returns an order.
use group_buy_market.Prelude.{
  ℕ, ==_eq, true, ◌&&◌, ◌≡◌, ◌⊎◌, refl, ℤ, pos, ◌≤ℤ◌, ◌<ℤ◌, eq_ℤ, String, str_eq, Option, none,
  some, List, find, count_where, arith,
}
use group_buy_market.Trade.Entities.{
  Time, UserEntity, PayActivityEntity, PayDiscountEntity, GroupBuyActivityEntity,
}
use group_buy_market.Store.Rows.{GroupBuyActivity, Db, World}
use group_buy_market.Store.Rules.{Post, require-Post}
use group_buy_market.Store.Facts.{always-Post, first-Post, query-Post, non_nil-Post}
use group_buy_market.Repository.Queries.{
  to_activity, query_group_buy_activity_entity_by_activity_id, query_order_count_by_activity_id,
}
use group_buy_market.Service.Lock.{
  activity_usability_rule_filter, user_take_limit_rule_filter, trade_lock_rule_filter, is_effective,
  is_open_at, is_below_limit, lock_order,
}
use mathlib.Core.Option

module _ {D : Type 0} where
  -- How many orders of the activity the user has, closed ones included.
  abbrev pub taken : Db D → ℤ → String → ℕ
  taken db activity_id user_id =
      count_where (λ o. str_eq o.user_id user_id && eq_ℤ o.activity_id activity_id) db.orders

  -- The activity is stored, in effect and open at `now`, and a positive limit is not used up.
  pub record Admits (db : Db D) (now : Time) (activity_id : ℤ) (user_id : String) : Type 0 where
    pub activity : GroupBuyActivity
    pub stored : find (λ a. eq_ℤ a.activity_id activity_id) db.activities ≡ some activity
    pub effective : activity.status ≡ 1
    pub started : activity.start_time ≤ℤ now
    pub not_ended : now ≤ℤ activity.end_time
    pub below_limit :
        (activity.take_limit_count ≤ℤ pos 0)
        ⊎ (pos (taken db activity_id user_id) <ℤ activity.take_limit_count)

  admits :
      (db : Db D) (now : Time) (activity_id : ℤ) (user_id : String) (o : Option GroupBuyActivity)
      (act : GroupBuyActivityEntity)
      → find (λ a. eq_ℤ a.activity_id activity_id) db.activities ≡ o
      → Option.map to_activity o ≡ some act
      → is_effective (Option.map to_activity o) ≡ true
      → is_open_at now act ≡ true
      → is_below_limit (some act) (pos (taken db activity_id user_id)) ≡ true
      → Admits db now activity_id user_id
  admits db now activity_id user_id none act s e f g h = cc
  admits db now activity_id user_id (some a) act s e f g h = record {
    activity = a;
    stored = s;
    effective = ==_eq a.status 1 f;
    started = ground (arith, e);
    not_ended = ground (arith, e);
    below_limit = ground (arith, e);
  }

  -- If the lock service returns an order, then the activity of the request is stored, in effect and
  -- open at the time of the check, and if it has a positive take limit, the user had fewer orders of
  -- it than the limit, closed ones included.
  pub lock_order-Admits :
      (checked_at now : Time) (team_draws order_draws : List ℕ) (user : UserEntity)
      (activity : PayActivityEntity) (discount : PayDiscountEntity D) (w : World D)
      → Post
          (lock_order checked_at now team_draws order_draws user activity discount)
          w
          (λ order v. Admits w.db checked_at activity.activity_id user.user_id)
  unfolding lock_order trade_lock_rule_filter activity_usability_rule_filter
      user_take_limit_rule_filter query_group_buy_activity_entity_by_activity_id
      query_order_count_by_activity_id
  lock_order-Admits checked_at now team_draws order_draws user activity discount w =
      first-Post _ _ _ w (
        query-Post _ _ w _ λ fs. require-Post _ _ _ _ _ λ effective. non_nil-Post _ _ _ _ λ act e.
          require-Post _ _ _ _ _ λ opened. query-Post _ _ _ _ λ fs'. require-Post _ _ _ _ _ λ below.
            always-Post _ _ _ (
              admits w.db checked_at activity.activity_id user.user_id
                (find (λ a. eq_ℤ a.activity_id activity.activity_id) w.db.activities) act refl e
                effective opened below))
