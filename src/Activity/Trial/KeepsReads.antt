-- ===== src/Activity/Trial/KeepsReads.antt =====
-- The queries and the discounts of a trial write no table.
use group_buy_market.Prelude.{
  ◌==◌, Bool, true, false, if◌then◌else◌, String, str_eq, Option, none, some, List, [], ◌∷◌, ℤ, ℕ,
  Bool-cases, inl, inr,
}
use group_buy_market.Store.Rows.{Db, World}
use group_buy_market.Store.Call.{Call, query, statement}
use group_buy_market.Store.Keeps.{
  Keeps, pure-Keeps, query-Keeps, bind-Keeps, bitmap-Keeps, statement-Keeps,
}
use group_buy_market.Activity.Types.{
  GroupBuyDiscount, ScSkuActivityVo, MarketProductEntity, discount_type_tag,
}
use group_buy_market.Activity.Decimals.{Decimal}
use group_buy_market.Activity.Discount.{
  DiscountCalculateService, filter_and_calculate, discount_registry, zj_price, mj_price, n_price,
  zk_price,
}
use group_buy_market.Activity.Repository.Crowd.{
  read_bit, is_tag_crowd_bit, is_tag_crowd_range, bit_or_details, or_zero, with_discount,
  query_group_buy_activity_discount_vo, query_sc_sku_activity_by_sc_goods_id,
}
use group_buy_market.Activity.Trial.{price, wait_both, load_by_id, of_sc_activity}

module _ {D : Type 0} (P : Db D → Type 0) where
  total-Keeps : (g : Db D → ℕ) (w : World D) → P w.db → Keeps P (λ v. or_zero (query g v)) w
  unfolding Keeps statement
  total-Keeps g w h = go w.faults
    where
      go :
          (fs : List (Option String))
          → Keeps P (λ v. or_zero (query g v)) (record w { faults = fs })
      go [] = h
      go (none ∷ fs) = h
      go (some e ∷ fs) = h

  read_bit-Keeps :
      (tag_id user_id : String) (b : Bool) (w : World D)
      → P w.db
      → Keeps P (read_bit tag_id user_id b) w
  read_bit-Keeps tag_id user_id false w h = pure-Keeps P true w h
  read_bit-Keeps tag_id user_id true w h = bitmap-Keeps P _ w h

  by_details-Keeps :
      (tag_id user_id : String) (inside exists : Bool) (w : World D)
      → P w.db
      → Keeps P (bit_or_details tag_id user_id inside exists) w
  by_details-Keeps tag_id user_id inside true w h = pure-Keeps P inside w h
  by_details-Keeps tag_id user_id inside false w h =
      query-Keeps P _ _ w h
        λ fs. bind-Keeps P _ _ _ (total-Keeps _ _ h) λ total v k. pure-Keeps P _ v k

  pub crowd-Keeps :
      (tag_id user_id : String) (w : World D)
      → P w.db
      → Keeps P (is_tag_crowd_range tag_id user_id) w
  unfolding is_tag_crowd_range is_tag_crowd_bit
  crowd-Keeps tag_id user_id w h =
      bind-Keeps P _ _ w
        (bind-Keeps P _ _ w (bitmap-Keeps P _ w h) λ b v k. read_bit-Keeps tag_id user_id b v k)
        λ inside v k.
          bind-Keeps P _ _ v (bitmap-Keeps P _ v k)
            λ exists u l. by_details-Keeps tag_id user_id inside exists u l

  with_discount-Keeps : (act : _) (w : World D) → P w.db → Keeps P (with_discount act) w
  with_discount-Keeps none w h = pure-Keeps P none w h
  with_discount-Keeps (some act) w h = statement-Keeps P _ w h h

  vo-Keeps : (id : ℤ) (w : World D) → P w.db → Keeps P (query_group_buy_activity_discount_vo id) w
  unfolding query_group_buy_activity_discount_vo
  vo-Keeps id w h = query-Keeps P _ _ w h λ fs. with_discount-Keeps _ _ h

  of_sc-Keeps : (sc : Option ScSkuActivityVo) (w : World D) → P w.db → Keeps P (of_sc_activity sc) w
  of_sc-Keeps none w h = pure-Keeps P none w h
  of_sc-Keeps (some sc) w h = vo-Keeps sc.activity_id w h

  pub load-Keeps :
      (req : MarketProductEntity) (id : Option ℤ) (w : World D)
      → P w.db
      → Keeps P (load_by_id req id) w
  unfolding query_sc_sku_activity_by_sc_goods_id
  load-Keeps req none w h = query-Keeps P _ _ w h λ fs. of_sc-Keeps _ _ h
  load-Keeps req (some id) w h = vo-Keeps id w h

  pub wait-Keeps :
      {A B : Type 0} (m : Call D A) (n : Call D B) (w : World D)
      → Keeps P m w
      → ((v : World D) → P v.db → Keeps P n v)
      → Keeps P (wait_both m n) w
  unfolding Keeps
  wait-Keeps m n w h k = k (m w).1 h

  abbrev pub Calculates :
      String → D → GroupBuyDiscount → Option (DiscountCalculateService D) → Type 0
  Calculates user_id op g none = Unit
  Calculates user_id op g (some s) = (w : World D) → P w.db → Keeps P (s.calculate user_id op g) w

  filter-Keeps :
      (price : D → GroupBuyDiscount → D) (user_id : String) (op : D) (g : GroupBuyDiscount)
      (w : World D)
      → P w.db
      → Keeps P (filter_and_calculate is_tag_crowd_range user_id op g price) w
  unfolding filter_and_calculate
  filter-Keeps price user_id op g w h = elim (Bool-cases (g.discount_type == discount_type_tag)) [
    | inl tagged ↦
        rw tagged
          (bind-Keeps P _ _ w (crowd-Keeps g.tag_id user_id w h) λ inside v k. pure-Keeps P _ v k)
    | inr base ↦ rw base (pure-Keeps P _ w h)
  ]

  choose :
      (user_id : String) (op : D) (g : GroupBuyDiscount) (b : Bool)
      (x y : Option (DiscountCalculateService D))
      → Calculates user_id op g x
      → Calculates user_id op g y
      → Calculates user_id op g (if b then x else y)
  choose user_id op g true x y h k = h
  choose user_id op g false x y h k = k

  pub registry-Calculates :
      (d : Decimal D) (user_id : String) (op : D) (g : GroupBuyDiscount)
      → Calculates user_id op g (discount_registry d is_tag_crowd_range g.market_plan)
  registry-Calculates d user_id op g =
      choose user_id op g (str_eq g.market_plan "ZK") _ _ (filter-Keeps (zk_price d) user_id op g) (
        choose user_id op g (str_eq g.market_plan "N") _ _ (filter-Keeps (n_price d) user_id op g) (
          choose user_id op g (str_eq g.market_plan "MJ") _ _
            (filter-Keeps (mj_price d) user_id op g)
            (choose user_id op g (str_eq g.market_plan "ZJ") _ none
              (filter-Keeps (zj_price d) user_id op g) tt)))
