-- ===== src/App/Lock/Safety.antt =====
-- The lock use case with the trial of the activity context: the tables stay consistent.
use mathlib.Core.Option
use group_buy_market.Prelude.{
  ◌==◌, ◌≡◌, sym, subst, Bool, true, false, ◌&&◌, if◌then◌else◌, pos, ◌≤ℤ◌, String, str_eq, Option,
  none, some, All, All-find, find, Bool-cases, inl, inr,
}
use group_buy_market.Types.Enums.{trade_order_create}
use group_buy_market.Types.Codes.{e0006}
use group_buy_market.Types.Outcome.{Result, ok, err, panic}
use group_buy_market.Trade.Entities.{
  MarketPayOrderEntity, UserEntity, PayActivityEntity, PayDiscountEntity,
}
use group_buy_market.Store.Rows.{Db, World}
use group_buy_market.Store.Call.{pure}
use group_buy_market.Store.Keeps.{
  Keeps, to_Keeps, of_Keeps, pure-Keeps, bind-Keeps, safe_bind-Keeps, query-Keeps, non_nil-Keeps,
}
use group_buy_market.Repository.Queries.{
  query_market_pay_order_entity_by_out_trade_no, query_group_buy_progress, to_market_pay_order,
  has_out_trade_no,
}
use group_buy_market.Consistency.Counts.{Consistent}
use group_buy_market.Dcc.{Service}
use group_buy_market.Activity.Types.{
  TrialBalanceEntity, MarketProductEntity, GroupBuyActivityDiscountVo,
}
use group_buy_market.Activity.Decimals.{Decimal, IsOrdered}
use group_buy_market.Activity.Repository.Crowd.{is_running}
use group_buy_market.Activity.Trial.{trial, new_chain}
use group_buy_market.Activity.Trial.Offers.{Offer, trial-Offer}
use group_buy_market.Activity.Trial.Keeps.{trial-Keeps}
use group_buy_market.Service.Lock.{lock_order}
use group_buy_market.Service.Lock.Safety.{lock_order-Consistent}
use group_buy_market.App.Answer.{Response, answer, fail}
use group_buy_market.App.Lock.{
  LockEnv, LockRequest, NotifyConfigDto, normalize_lock_notify, is_lock_request, no_order, place,
  offer, unless_full, unless_unpaid, lock_steps, lock_market_pay_order_app,
  to_market_product_with_activity, lock_activity, lock_discount,
}

module _ {D A T : Type 0} where
  -- An answer leaves the tables as the call did.
  pub answer-Keeps :
      (P : Db D → Type 0) (zero_value : T) (f : A → Response T) (r : Result A) (w : World D)
      → P w.db
      → P (answer zero_value f (r, w)).1.db
  answer-Keeps P zero_value f (ok a) w h = h
  answer-Keeps P zero_value f (err e) w h = h
  answer-Keeps P zero_value f panic w h = h

module _ {D : Type 0} (d : Decimal D) (o : IsOrdered d) where
  -- Every activity wants at least one buyer.
  abbrev pub WantsBuyers : Db D → Type 0
  WantsBuyers db = All (λ a. pos 1 ≤ℤ a.target) db.activities

  -- The lock service keeps `P`, if a request that opens a team wants at least one buyer.
  abbrev pub Locking : (Db D → Type 0) → LockEnv D → Type 0
  Locking P base =
      (user : UserEntity) (activity : PayActivityEntity) (discount : PayDiscountEntity D)
      (v : World D)
      → (str_eq activity.team_id "" ≡ true → pos 1 ≤ℤ activity.target_count)
      → P v.db
      → P
          (lock_order base.checked_at base.now base.team_draws base.order_draws user activity
            discount v).1.db

  module _ (settings : Service) (acquire : Option String) (sku_first : Bool)
      (base : LockEnv D) where
    -- The environment with the trial of the activity context.
    abbrev pub with_trial : LockEnv D
    with_trial = record base { index_trial = trial d (new_chain d settings acquire sku_first) }

  module _ (settings : Service) (acquire : Option String) (sku_first : Bool) (base : LockEnv D)
      (req : LockRequest) (cfg : NotifyConfigDto) (P : Db D → Type 0) (locks : Locking P base) where
    abbrev env : LockEnv D
    env = with_trial settings acquire sku_first base

    abbrev product : MarketProductEntity
    product = to_market_product_with_activity req

    wanted :
        (w : World D) (t : TrialBalanceEntity D) (g : GroupBuyActivityDiscountVo)
        → WantsBuyers w.db
        → Offer d o w product t
        → t.group_buy_activity_discount_vo ≡ some g
        → pos 1 ≤ℤ g.target
    wanted w t g all offered e =
        let same : offered.activity ≡ g = cc (offered.priced.offered, e) in
        subst (λ x. pos 1 ≤ℤ x.target) same
          (subst (λ x. pos 1 ≤ℤ x.target) (sym offered.found.made)
            (All-find (λ a. pos 1 ≤ℤ a.target) (is_running offered.id) w.db.activities
              offered.found.act all offered.found.running))

    place-Keeps :
        (w v : World D) (t : TrialBalanceEntity D)
        → WantsBuyers w.db
        → Offer d o w product t
        → P v.db
        → Keeps P (place env req cfg t) v
    place-Keeps w v t all offered c = non_nil-Keeps P t.group_buy_activity_discount_vo _ v c λ g e.
        bind-Keeps P _ _ v
          (to_Keeps P _ v (
            locks (record { user_id = req.user_id }) (lock_activity req g) (lock_discount req cfg t)
              v (λ opens. wanted w t g all offered e) c))
          λ order u k. pure-Keeps P _ u k

    offer-Keeps : (w : World D) → WantsBuyers w.db → P w.db → Keeps P (offer env req cfg) w
    offer-Keeps w all c =
        safe_bind-Keeps P _ _ _ w (trial-Keeps P d settings acquire sku_first product w c)
          (trial-Offer d o settings acquire sku_first product w)
          λ t v k q. elim (Bool-cases (t.is_visible && t.is_enable)) [
            | inl open_to ↦ rw open_to (place-Keeps w v t all q.1 k)
            | inr closed ↦ rw closed (pure-Keeps P _ v k)
          ]

    unless_full-Keeps :
        (w : World D) → WantsBuyers w.db → P w.db → Keeps P (unless_full env req cfg) w
    unfolding query_group_buy_progress
    unless_full-Keeps w all c = elim (Bool-cases (str_eq req.team_id "")) [
      | inl opens ↦ rw opens (offer-Keeps w all c)
      | inr joins ↦ rw joins (query-Keeps P _ _ w c λ fs. after _ _ all c)
    ]
      where
        after :
            (full : Bool) (v : World D)
            → WantsBuyers v.db
            → P v.db
            → Keeps P
                (if full then pure (fail (no_order base.zero_amount) e0006) else offer env req cfg)
                v
        after true v a k = pure-Keeps P _ v k
        after false v a k = offer-Keeps v a k

    unless_unpaid-Keeps :
        (exist : Option (MarketPayOrderEntity D)) (w : World D)
        → WantsBuyers w.db
        → P w.db
        → Keeps P (unless_unpaid env req cfg exist) w
    unless_unpaid-Keeps none w all c = unless_full-Keeps w all c
    unless_unpaid-Keeps (some order) w all c =
        elim (Bool-cases (order.trade_order_status == trade_order_create)) [
          | inl unpaid ↦ rw unpaid (pure-Keeps P _ w c)
          | inr other ↦ rw other (unless_full-Keeps w all c)
        ]

    steps-Keeps : (w : World D) → WantsBuyers w.db → P w.db → Keeps P (lock_steps env req cfg) w
    unfolding lock_steps query_market_pay_order_entity_by_out_trade_no
    steps-Keeps w all c = query-Keeps P _ _ w c λ fs.
        unless_unpaid-Keeps
          (Option.map to_market_pay_order
            (find (has_out_trade_no req.user_id req.out_trade_no) w.db.orders))
          _ all c

  -- What every lock keeps, the lock request keeps.
  pub lock_market_pay_order_app-Keeps :
      (settings : Service) (acquire : Option String) (sku_first : Bool) (base : LockEnv D)
      (P : Db D → Type 0)
      → Locking P base
      → (req : Option LockRequest) (w : World D) → WantsBuyers w.db
      → P w.db
      → P (lock_market_pay_order_app (with_trial settings acquire sku_first base) req w).1.db
  unfolding lock_market_pay_order_app pure
  lock_market_pay_order_app-Keeps settings acquire sku_first base P locks none w all c = c
  lock_market_pay_order_app-Keeps settings acquire sku_first base P locks (some req) w all c =
      elim (Bool-cases (is_lock_request req (normalize_lock_notify req))) [
        | inl valid ↦ rw valid (
            answer-Keeps P _ _ _ _ (
              of_Keeps P _ w (
                steps-Keeps settings acquire sku_first base req (normalize_lock_notify req) P locks
                  w all c)))
        | inr invalid ↦ rw invalid c
      ]

  -- A lock request over the trial of the activity context, with amounts that have the laws of
  -- `IsOrdered`, leaves consistent tables, whatever the
  -- request is, whatever fails and however it ends: with an answer or a crash. It needs consistent
  -- tables whose activities all want at least one buyer, and nothing of the request: the target of a
  -- new team is that of the activity that the trial found.
  pub lock_market_pay_order_app-Consistent :
      (settings : Service) (acquire : Option String) (sku_first : Bool) (base : LockEnv D)
      (req : Option LockRequest) (w : World D)
      → WantsBuyers w.db
      → Consistent w.db
      → Consistent
          (lock_market_pay_order_app (with_trial settings acquire sku_first base) req w).1.db
  lock_market_pay_order_app-Consistent settings acquire sku_first base req w all c =
      lock_market_pay_order_app-Keeps settings acquire sku_first base Consistent
        (λ user activity discount v room k.
          lock_order-Consistent base.checked_at base.now base.team_draws base.order_draws user
            activity discount v room k)
        req w all c
