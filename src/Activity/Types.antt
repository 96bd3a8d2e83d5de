-- ===== src/Activity/Types.antt =====
-- internal/domain/activity/model and service/trial/factory/dynamic_context.go.
use group_buy_market.Prelude.{ℕ, Bool, true, false, not, ℤ, String, codes, Option, List, [], ◌∷◌}
use group_buy_market.Trade.Entities.{Time}
use group_buy_market.Types.Enums.{ActivityStatus}
use group_buy_market.Dcc.{split, same_text}

abbrev pub DiscountType : Type 0
DiscountType = ℕ

abbrev pub discount_type_base : DiscountType
discount_type_base = 0

abbrev pub discount_type_tag : DiscountType
discount_type_tag = 1

pub record SkuVo (D : Type 0) : Type 0 where
  pub goods_id : String
  pub goods_name : String
  pub original_price : D

pub record TeamStatisticVo : Type 0 where
  pub all_team_count : ℤ
  pub all_team_complete_count : ℤ
  pub all_team_user_count : ℤ

pub record ScSkuActivityVo : Type 0 where
  pub source : String
  pub channel : String
  pub activity_id : ℤ
  pub goods_id : String

pub record GroupBuyDiscount : Type 0 where
  pub discount_name : String
  pub discount_desc : String
  pub discount_type : DiscountType
  pub market_plan : String
  pub market_expr : String
  pub tag_id : String

pub record GroupBuyActivityDiscountVo : Type 0 where
  pub activity_id : ℤ
  pub activity_name : String
  pub source : String
  pub channel : String
  pub goods_id : String
  pub group_buy_discount : Option GroupBuyDiscount
  pub group_type : ℤ
  pub take_limit_count : ℤ
  pub target : ℤ
  pub valid_time : ℤ
  pub status : ActivityStatus
  pub start_time : Time
  pub end_time : Time
  pub tag_id : String
  pub tag_scope : String

-- The scope split at its commas is never an empty list, so `len(parts) > 0` always holds.
abbrev pub hides : List (List ℕ) → Bool
hides [] = false
hides (x ∷ xs) = same_text x (49 ∷ [])

abbrev pub forbids : List (List ℕ) → Bool
forbids (x ∷ []) = same_text x (50 ∷ [])
forbids (x ∷ (y ∷ [])) = same_text y (50 ∷ [])
forbids _ = false

abbrev pub visible_scope : List ℕ → Bool
visible_scope [] = true
visible_scope (c ∷ cs) = not (hides (split (c ∷ cs)))

abbrev pub enabled_scope : List ℕ → Bool
enabled_scope [] = true
enabled_scope (c ∷ cs) = not (forbids (split (c ∷ cs)))

unfoldable pub is_visible : GroupBuyActivityDiscountVo → Bool
unfolding split same_text
is_visible v = visible_scope (codes v.tag_scope)

unfoldable pub is_enable : GroupBuyActivityDiscountVo → Bool
unfolding split same_text
is_enable v = enabled_scope (codes v.tag_scope)

pub record UserGroupBuyOrderDetailEntity : Type 0 where
  pub user_id : String
  pub team_id : String
  pub activity_id : ℤ
  pub target_count : ℤ
  pub complete_count : ℤ
  pub lock_count : ℤ
  pub valid_start_time : Time
  pub valid_end_time : Time
  pub out_trade_no : String

pub record TrialBalanceEntity (D : Type 0) : Type 0 where
  pub goods_id : String
  pub goods_name : String
  pub original_price : D
  pub deduction_price : D
  pub pay_price : D
  pub target_count : ℤ
  pub start_time : Time
  pub end_time : Time
  pub is_visible : Bool
  pub is_enable : Bool
  pub group_buy_activity_discount_vo : Option GroupBuyActivityDiscountVo

pub record MarketProductEntity : Type 0 where
  pub user_id : String
  pub goods_id : String
  pub source : String
  pub channel : String
  pub activity_id : Option ℤ

pub record DynamicContext (D : Type 0) : Type 0 where
  pub group_buy_activity_discount_vo : Option GroupBuyActivityDiscountVo
  pub sku_vo : Option (SkuVo D)
  pub deduction_price : Option D
  pub pay_price : Option D
  pub visible : Bool
  pub enable : Bool
