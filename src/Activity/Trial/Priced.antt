-- ===== src/Activity/Trial/Priced.antt =====
-- The Tag and End nodes: the result for a priced product.
use group_buy_market.Prelude.{
  ◌≡◌, refl, Bool, true, false, ◌||◌, str_eq, some, Bool-cases, inl, inr,
}
use group_buy_market.Store.Rows.{World}
use group_buy_market.Store.Safe.{Same, Same-refl, Safe, pure-Safe, reading-Safe, some-Safe}
use group_buy_market.Activity.Types.{
  GroupBuyActivityDiscountVo, SkuVo, TrialBalanceEntity, MarketProductEntity, DynamicContext,
  is_visible, is_enable,
}
use group_buy_market.Activity.Decimals.{Decimal}
use group_buy_market.Activity.Repository.Reads.{is_tag_crowd_range-Safe}
use group_buy_market.Activity.Trial.{Chain, end_node, tag_node}

module _ {D : Type 0} (d : Decimal D) where
  -- The result for an activity and a product, with its two prices.
  pub record Priced (g : GroupBuyActivityDiscountVo) (sku : SkuVo D) (deduction pay : D)
      (t : TrialBalanceEntity D) : Type 0 where
    pub offered : t.group_buy_activity_discount_vo ≡ some g
    pub goods_id : t.goods_id ≡ sku.goods_id
    pub original : t.original_price ≡ sku.original_price
    pub deducted : t.deduction_price ≡ deduction
    pub paid : t.pay_price ≡ pay
    pub target : t.target_count ≡ g.target
    pub shown : is_visible g ≡ true → t.is_visible ≡ true
    pub enabled : is_enable g ≡ true → t.is_enable ≡ true
    pub untagged : str_eq g.tag_id "" ≡ true → (t.is_visible ≡ true) × (t.is_enable ≡ true)

  module _ (c : Chain D) (req : MarketProductEntity) where
    -- The context of the Market node when both prices are set.
    abbrev pub priced_context :
        DynamicContext D → GroupBuyActivityDiscountVo → SkuVo D → D → D → DynamicContext D
    priced_context dc g sku deduction pay = record dc {
      group_buy_activity_discount_vo = some g;
      sku_vo = some sku;
      deduction_price = some deduction;
      pay_price = some pay;
    }

    end_node-Safe :
        (dc : DynamicContext D) (g : GroupBuyActivityDiscountVo) (sku : SkuVo D) (deduction pay : D)
        (visible enable : Bool) (w v : World D)
        → (is_visible g ≡ true → visible ≡ true)
        → (is_enable g ≡ true → enable ≡ true)
        → (str_eq g.tag_id "" ≡ true → (visible ≡ true) × (enable ≡ true))
        → Same w v
        → Safe
            (end_node d c req (record (priced_context dc g sku deduction pay) {
              visible = visible;
              enable = enable;
            }))
            v
            (λ t u. Priced g sku deduction pay t × Same w u)
    unfolding end_node
    end_node-Safe dc g sku deduction pay visible enable w v shown enabled untagged s =
        some-Safe g _ v (λ t u. Priced g sku deduction pay t × Same w u)
          (some-Safe sku _ v (λ t u. Priced g sku deduction pay t × Same w u)
            (pure-Safe _ v (λ t u. Priced g sku deduction pay t × Same w u)
              (
                record {
                  offered = refl;
                  goods_id = refl;
                  original = refl;
                  deducted = refl;
                  paid = refl;
                  target = refl;
                  shown = shown;
                  enabled = enabled;
                  untagged = untagged;
                },
                s,
              )))

    or_left : (a b : Bool) → a ≡ true → (a || b) ≡ true
    or_left true b h = refl
    or_left false b h = cc

    pub tag_node-Safe :
        (dc : DynamicContext D) (g : GroupBuyActivityDiscountVo) (sku : SkuVo D) (deduction pay : D)
        (w : World D)
        → Safe
            (tag_node d c req (priced_context dc g sku deduction pay))
            w
            (λ t v. Priced g sku deduction pay t × Same w v)
    unfolding tag_node
    tag_node-Safe dc g sku deduction pay w =
        some-Safe g _ w (λ t v. Priced g sku deduction pay t × Same w v)
          (elim (Bool-cases (str_eq g.tag_id "")) [
            | inl none_set ↦ rw none_set (
                end_node-Safe dc g sku deduction pay true true w w (λ e. refl) (λ e. refl)
                  (λ e. (refl, refl)) (Same-refl w))
            | inr tagged ↦ rw tagged (
                reading-Safe (λ t v. Priced g sku deduction pay t × Same w v) _ _ w
                  (is_tag_crowd_range-Safe g.tag_id req.user_id w)
                  λ within v s.
                    end_node-Safe dc g sku deduction pay (is_visible g || within)
                      (is_enable g || within) w v (or_left (is_visible g) within)
                      (or_left (is_enable g) within) (λ e. cc) s)
          ])
