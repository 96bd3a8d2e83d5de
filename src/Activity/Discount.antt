-- ===== src/Activity/Discount.antt =====
-- internal/domain/activity/service/discount: the crowd filter, the registry and the four plans.
-- `crowd` is the repository's `IsTagCrowdRange`.
pub mod Fair
use group_buy_market.Prelude.{
  ◌==◌, if◌then◌else◌, Bool, true, false, ℕ, String, str_eq, codes, Option, none, some, List, [],
  ◌∷◌,
}
use group_buy_market.Store.Call.{Call, pure, ◌>>=◌}
use group_buy_market.Dcc.{split, trim_space, trim_left, trim_right}
use group_buy_market.Activity.Types.{GroupBuyDiscount, discount_type_tag}
use group_buy_market.Activity.Decimals.{Decimal, or_nought}

-- A strategy: its plan and its calculation for a user, a price and a discount.
pub record DiscountCalculateService (D : Type 0) : Type 0 where
  pub plan : String
  pub calculate : String → D → GroupBuyDiscount → Call D D

abbrev pub Crowd : Type 0 → Type 0
Crowd D = String → String → Call D Bool

abbrev pub Registry : Type 0 → Type 0
Registry D = String → Option (DiscountCalculateService D)

-- `strings.Split` and `strings.TrimSpace` of the first two parts, if there are two.
abbrev pub two_parts : List (List ℕ) → Option (List ℕ × List ℕ)
two_parts (x ∷ (y ∷ rest)) = some (trim_space x, trim_space y)
two_parts _ = none

module _ {D : Type 0} where
  -- A new entry replaces an older one of the same plan.
  abbrev pub register : Registry D → List (DiscountCalculateService D) → Registry D
  register m [] = m
  register m (s ∷ ss) = register (λ plan. if str_eq plan s.plan then some s else m plan) ss

  abbrev pub new_registry : List (DiscountCalculateService D) → Registry D
  new_registry services = register (λ plan. none) services

  unfoldable pub filter_and_calculate :
      Crowd D → String → D → GroupBuyDiscount → (D → GroupBuyDiscount → D) → Call D D
  filter_and_calculate crowd user_id original_price discount do_calc =
      if discount.discount_type == discount_type_tag
      then (crowd discount.tag_id user_id >>= λ inside.
          pure (if inside then do_calc original_price discount else original_price))
      else pure (do_calc original_price discount)

module _ {D : Type 0} (d : Decimal D) where
  unfoldable pub min_pay : D → D
  min_pay price = if d.less_than_or_equal price d.nought then d.cent else price

  -- The amount of a text, zero where it is none.
  abbrev pub amount : List ℕ → D
  amount text = or_nought d (d.new_from_string text)

  unfoldable pub zj_price : D → GroupBuyDiscount → D
  unfolding min_pay
  zj_price op g = min_pay (d.sub op (amount (codes g.market_expr)))

  abbrev pub mj_of : D → Option (List ℕ × List ℕ) → D
  mj_of op none = op
  mj_of op (some (x, y)) = if d.less_than op (amount x) then op else min_pay (d.sub op (amount y))

  unfoldable pub mj_price : D → GroupBuyDiscount → D
  unfolding min_pay split trim_left trim_right
  mj_price op g = mj_of op (two_parts (split (codes g.market_expr)))

  unfoldable pub n_price : D → GroupBuyDiscount → D
  n_price op g = amount (codes g.market_expr)

  unfoldable pub zk_price : D → GroupBuyDiscount → D
  unfolding min_pay
  zk_price op g = min_pay (d.truncate (d.mul op (amount (codes g.market_expr))))

  -- One strategy: its plan, and the crowd filter around its price.
  abbrev pub strategy : Crowd D → String → (D → GroupBuyDiscount → D) → DiscountCalculateService D
  strategy crowd plan price = record {
    plan = plan;
    calculate =
        λ user_id original_price g. filter_and_calculate crowd user_id original_price g price;
  }

  abbrev pub zj_calculate_service : Crowd D → DiscountCalculateService D
  zj_calculate_service crowd = strategy crowd "ZJ" zj_price

  abbrev pub mj_calculate_service : Crowd D → DiscountCalculateService D
  mj_calculate_service crowd = strategy crowd "MJ" mj_price

  abbrev pub n_calculate_service : Crowd D → DiscountCalculateService D
  n_calculate_service crowd = strategy crowd "N" n_price

  abbrev pub zk_calculate_service : Crowd D → DiscountCalculateService D
  zk_calculate_service crowd = strategy crowd "ZK" zk_price

  -- The registry that internal/app/wire.go builds.
  abbrev pub discount_registry : Crowd D → Registry D
  discount_registry crowd = new_registry (
      zj_calculate_service crowd
      ∷ mj_calculate_service crowd
      ∷ n_calculate_service crowd
      ∷ zk_calculate_service crowd
      ∷ [])
