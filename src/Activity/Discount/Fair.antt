-- ===== src/Activity/Discount/Fair.antt =====
-- What the four plans do to a price.
use group_buy_market.Prelude.{
  ◌==◌, ◌≡◌, refl, sym, ◌∙◌, Bool, true, false, if◌then◌else◌, String, str_eq, Option, none, some,
  codes, List, ℕ, Bool-cases, not-false, inl, inr,
}
use group_buy_market.Store.Rows.{World}
use group_buy_market.Store.Safe.{Same, Same-refl, Safe, pure-Safe, reading-Safe}
use group_buy_market.Dcc.{split}
use group_buy_market.Activity.Types.{GroupBuyDiscount, discount_type_tag}
use group_buy_market.Activity.Decimals.{Decimal, IsOrdered}
use group_buy_market.Activity.Repository.Crowd.{is_tag_crowd_range}
use group_buy_market.Activity.Repository.Reads.{is_tag_crowd_range-Safe}
use group_buy_market.Activity.Discount.{
  DiscountCalculateService, filter_and_calculate, min_pay, zj_price, mj_price, n_price, zk_price,
  amount, mj_of, two_parts, discount_registry,
}

module _ {D : Type 0} (d : Decimal D) (o : IsOrdered d) where
  -- At least a cent, where the price is not above nothing.
  min_pay_pos : (x : D) → d.less_than d.nought (min_pay d x) ≡ true
  unfolding min_pay
  min_pay_pos x = elim (Bool-cases (d.less_than_or_equal x d.nought)) [
    | inl low ↦ rw low o.nought-lt-cent
    | inr high ↦ rw high (not-false _ (sym (o.le-eq-not-lt x d.nought) ∙ high))
  ]

  min_pay-le :
      (x op : D)
      → d.less_than_or_equal x op ≡ true
      → d.less_than_or_equal d.cent op ≡ true
      → d.less_than_or_equal (min_pay d x) op ≡ true
  unfolding min_pay
  min_pay-le x op h k = elim (Bool-cases (d.less_than_or_equal x d.nought)) [
    | inl low ↦ rw low k
    | inr high ↦ rw high h
  ]

  mj_of_pos :
      (op : D) (parts : Option (List ℕ × List ℕ))
      → d.less_than d.nought op ≡ true
      → d.less_than d.nought (mj_of d op parts) ≡ true
  mj_of_pos op none h = h
  mj_of_pos op (some (x, y)) h = elim (Bool-cases (d.less_than op (amount d x))) [
    | inl below ↦ rw below h
    | inr above ↦ rw above (min_pay_pos _)
  ]

  mj_of-le :
      (op : D) (x y : List ℕ)
      → d.less_than_or_equal d.nought (amount d y) ≡ true
      → d.less_than_or_equal d.cent op ≡ true
      → d.less_than_or_equal (mj_of d op (some (x, y))) op ≡ true
  mj_of-le op x y h k = elim (Bool-cases (d.less_than op (amount d x))) [
    | inl below ↦ rw below (o.le_refl op)
    | inr above ↦ rw above (min_pay-le _ op (o.sub-le op _ h) k)
  ]

  -- Over amounts with the laws of `IsOrdered`, a direct reduction, and a reduction from a threshold that
  -- is written as two amounts, never make a price of at least a cent dearer, if the reduction is not
  -- negative.
  pub reductions-le :
      (op : D) (g : GroupBuyDiscount)
      → d.less_than_or_equal d.cent op ≡ true
      → (d.less_than_or_equal d.nought (amount d (codes g.market_expr)) ≡ true
          → d.less_than_or_equal (zj_price d op g) op ≡ true)
        × ((x y : List ℕ)
            → two_parts (split (codes g.market_expr)) ≡ some (x, y)
            → d.less_than_or_equal d.nought (amount d y) ≡ true
            → d.less_than_or_equal (mj_price d op g) op ≡ true)
  unfolding zj_price mj_price
  reductions-le op g k =
      (λ h. min_pay-le _ op (o.sub-le op _ h) k, λ x y e h. rw e (mj_of-le op x y h k))

  -- A price that is positive, unless the plan sets it or the original is not positive.
  abbrev pub Fair : GroupBuyDiscount → D → D → Type 0
  Fair g op p =
      str_eq g.market_plan "N" ≡ false
      → d.less_than d.nought op ≡ true
      → d.less_than d.nought p ≡ true

  -- What the trial needs of a strategy.
  abbrev pub IsFair :
      String → D → GroupBuyDiscount → World D → Option (DiscountCalculateService D) → Type 0
  IsFair user_id op g w none = Unit
  IsFair user_id op g w (some s) = Safe (s.calculate user_id op g) w (λ p v. Fair g op p × Same w v)

  filter-Safe :
      (price : D → GroupBuyDiscount → D) (user_id : String) (op : D) (g : GroupBuyDiscount)
      (w : World D)
      → Fair g op (price op g)
      → Safe
          (filter_and_calculate is_tag_crowd_range user_id op g price)
          w
          (λ p v. Fair g op p × Same w v)
  unfolding filter_and_calculate
  filter-Safe price user_id op g w h = elim (Bool-cases (g.discount_type == discount_type_tag)) [
    | inl tagged ↦ rw tagged (
        reading-Safe (λ p v. Fair g op p × Same w v) _ _ w
          (is_tag_crowd_range-Safe g.tag_id user_id w)
          λ inside v s. pure-Safe _ v (λ p u. Fair g op p × Same w u) (choose inside, s))
    | inr base ↦ rw base (pure-Safe _ w (λ p v. Fair g op p × Same w v) (h, Same-refl w))
  ]
    where
      choose : (inside : Bool) → Fair g op (if inside then price op g else op)
      choose true = h
      choose false = λ e pos. pos

  split_on :
      (user_id : String) (op : D) (g : GroupBuyDiscount) (w : World D) (b : Bool)
      (x y : Option (DiscountCalculateService D))
      → (b ≡ true → IsFair user_id op g w x)
      → IsFair user_id op g w y
      → IsFair user_id op g w (if b then x else y)
  split_on user_id op g w true x y h k = h refl
  split_on user_id op g w false x y h k = k

  -- Each plan of the registry, and no plan at all.
  pub registry-IsFair :
      (user_id : String) (op : D) (g : GroupBuyDiscount) (w : World D)
      → IsFair user_id op g w (discount_registry d is_tag_crowd_range g.market_plan)
  unfolding zj_price mj_price n_price zk_price
  registry-IsFair user_id op g w =
      split_on user_id op g w (str_eq g.market_plan "ZK") _ _
        (λ e. filter-Safe _ user_id op g w (λ n pos. min_pay_pos _))
        (split_on user_id op g w (str_eq g.market_plan "N") _ _
          (λ e. filter-Safe _ user_id op g w (λ n pos. cc))
          (split_on user_id op g w (str_eq g.market_plan "MJ") _ _
            (λ e. filter-Safe _ user_id op g w (λ n pos. mj_of_pos op _ pos))
            (split_on user_id op g w (str_eq g.market_plan "ZJ") _ none
              (λ e. filter-Safe _ user_id op g w (λ n pos. min_pay_pos _)) tt)))
