-- ===== src/Activity/Trial/Keeps.antt =====
-- A trial writes no table, however it ends.
use group_buy_market.Prelude.{
  Bool, true, false, if◌then◌else◌, String, str_eq, Option, none, some, Bool-cases, inl, inr,
}
use group_buy_market.Store.Rows.{Db, World}
use group_buy_market.Store.Call.{pure, ◌>>=◌}
use group_buy_market.Store.Keeps.{
  Keeps, raise-Keeps, pure-Keeps, bind-Keeps, statement-Keeps, require-Keeps, non_nil-Keeps,
}
use group_buy_market.Dcc.{Service}
use group_buy_market.Activity.Types.{
  GroupBuyActivityDiscountVo, GroupBuyDiscount, SkuVo, MarketProductEntity, DynamicContext,
}
use group_buy_market.Activity.Decimals.{Decimal}
use group_buy_market.Activity.Discount.{DiscountCalculateService}
use group_buy_market.Activity.Repository.Crowd.{query_sku_by_goods_id}
use group_buy_market.Activity.Trial.KeepsReads.{
  Calculates, crowd-Keeps, load-Keeps, wait-Keeps, registry-Calculates,
}
use group_buy_market.Activity.Trial.{
  Chain, new_chain, end_node, tag_node, error_node, price, priced_by, market_loaded,
  multi_thread_load, market_node, switch_node, root, trial, wait_both, load_activity, acquired,
}

module _ {D : Type 0} (P : Db D → Type 0) where
  module _ (d : Decimal D) (c : Chain D) (req : MarketProductEntity) where
    end-Keeps : (dc : DynamicContext D) (w : World D) → P w.db → Keeps P (end_node d c req dc) w
    unfolding end_node
    end-Keeps dc w h =
        non_nil-Keeps P dc.group_buy_activity_discount_vo _ w h
          λ g e. non_nil-Keeps P dc.sku_vo _ w h λ sku e'. pure-Keeps P _ w h

    tag-Keeps : (dc : DynamicContext D) (w : World D) → P w.db → Keeps P (tag_node d c req dc) w
    unfolding tag_node
    tag-Keeps dc w h = non_nil-Keeps P dc.group_buy_activity_discount_vo _ w h λ g e.
        elim (Bool-cases (str_eq g.tag_id "")) [
          | inl none_set ↦ rw none_set (end-Keeps _ w h)
          | inr tagged ↦ rw tagged (
              bind-Keeps P _ _ w (crowd-Keeps P g.tag_id req.user_id w h)
                λ within v k. end-Keeps _ v k)
        ]

    error-Keeps : (dc : DynamicContext D) (w : World D) → P w.db → Keeps P (error_node d c req dc) w
    unfolding error_node
    error-Keeps dc w h = missing dc.group_buy_activity_discount_vo dc.sku_vo
      where
        missing :
            (g : Option GroupBuyActivityDiscountVo) (sku : Option (SkuVo D))
            → Keeps P
                (error_node d c req
                  (record dc { group_buy_activity_discount_vo = g; sku_vo = sku }))
                w
        missing none sku = raise-Keeps _ P _ w h
        missing (some g) none = raise-Keeps _ P _ w h
        missing (some g) (some sku) = pure-Keeps P _ w h

  module _ (d : Decimal D) (settings : Service) (acquire : Option String) (sku_first : Bool)
      (req : MarketProductEntity) where
    abbrev chain : Chain D
    chain = new_chain d settings acquire sku_first

    price-Keeps :
        (dc : DynamicContext D) (g : GroupBuyDiscount) (sku : SkuVo D)
        (s : Option (DiscountCalculateService D)) (w : World D)
        → Calculates P req.user_id sku.original_price g s
        → P w.db
        → Keeps P (price d chain req dc g sku s) w
    price-Keeps dc g sku none w k h = raise-Keeps _ P _ w h
    price-Keeps dc g sku (some s) w k h =
        bind-Keeps P _ _ w (k w h) λ p v l. tag-Keeps d chain req _ v l

    priced-Keeps :
        (dc : DynamicContext D) (sku : SkuVo D) (g : Option GroupBuyDiscount) (w : World D)
        → P w.db
        → Keeps P (priced_by d chain req dc sku g) w
    priced-Keeps dc sku none w h = error-Keeps d chain req dc w h
    priced-Keeps dc sku (some g) w h =
        price-Keeps dc g sku _ w (registry-Calculates P d req.user_id sku.original_price g) h

    loaded-Keeps :
        (dc : DynamicContext D) (g : Option GroupBuyActivityDiscountVo) (sku : Option (SkuVo D))
        (w : World D)
        → P w.db
        → Keeps P (market_loaded d chain req dc g sku) w
    loaded-Keeps dc none sku w h = error-Keeps d chain req dc w h
    loaded-Keeps dc (some g) none w h = error-Keeps d chain req dc w h
    loaded-Keeps dc (some g) (some sku) w h = priced-Keeps dc sku g.group_buy_discount w h

    sku-Keeps : (w : World D) → P w.db → Keeps P (query_sku_by_goods_id req.goods_id) w
    unfolding query_sku_by_goods_id
    sku-Keeps w h = statement-Keeps P _ w h h

    activity-Keeps : (w : World D) → P w.db → Keeps P (load_activity req) w
    unfolding load_activity
    activity-Keeps w h = load-Keeps P req req.activity_id w h

    acquired-Keeps : (a : Option String) (w : World D) → P w.db → Keeps P (acquired a) w
    unfolding Keeps
    acquired-Keeps none w h = h
    acquired-Keeps (some e) w h = h

    both-Keeps :
        (first : Bool) (w : World D)
        → P w.db
        → Keeps P
            (if first
              then (wait_both (query_sku_by_goods_id req.goods_id) (load_activity req)
                  >>= λ (sku, act). pure (act, sku))
              else wait_both (load_activity req) (query_sku_by_goods_id req.goods_id))
            w
    both-Keeps true w h =
        bind-Keeps P _ _ w (wait-Keeps P _ _ w (sku-Keeps w h) activity-Keeps)
          λ (sku, act) v k. pure-Keeps P _ v k
    both-Keeps false w h = wait-Keeps P _ _ w (activity-Keeps w h) sku-Keeps

    market-Keeps :
        (dc : DynamicContext D) (w : World D) → P w.db → Keeps P (market_node d chain req dc) w
    unfolding market_node multi_thread_load
    market-Keeps dc w h =
        bind-Keeps P _ _ w
          (bind-Keeps P _ _ w (acquired-Keeps acquire w h)
            λ x v k. bind-Keeps P _ _ v (both-Keeps sku_first v k) λ p u l. pure-Keeps P _ u l)
          λ l v k. loaded-Keeps l l.group_buy_activity_discount_vo l.sku_vo v k

    pub trial-Keeps : (w : World D) → P w.db → Keeps P (trial d chain req) w
    unfolding trial root switch_node
    trial-Keeps w h = require-Keeps P _ _ _ w h λ full.
        require-Keeps P _ _ _ w h λ up. require-Keeps P _ _ _ w h λ within. market-Keeps _ w h
