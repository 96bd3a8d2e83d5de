-- ===== src/Activity/Trial/Offers.antt =====
-- What a trial offers, and that it never reads a nil pointer.
use group_buy_market.Prelude.{
  ◌≡◌, refl, sym, ap, Bool, true, false, not, if◌then◌else◌, ℤ, String, bytes, Option, none, some,
  not-true,
}
use mathlib.Core.Path.{subst}
use group_buy_market.Store.Rows.{World}
use group_buy_market.Store.Call.{pure, ◌>>=◌}
use group_buy_market.Store.Safe.{
  Same, Same-refl, Same-trans, Safe, SafeResult, pure-Safe, raise-Safe, weaken-Safe, bind-Safe,
  reading-Safe, require-Safe,
}
use group_buy_market.Dcc.{Service, is_downgrade_switch, is_cut_range}
use group_buy_market.Activity.Types.{
  GroupBuyActivityDiscountVo, SkuVo, TrialBalanceEntity, MarketProductEntity, DynamicContext,
}
use group_buy_market.Activity.Decimals.{Decimal, IsOrdered}
use group_buy_market.Activity.Discount.{DiscountCalculateService}
use group_buy_market.Activity.Discount.Fair.{Fair, IsFair, registry-IsFair}
use group_buy_market.Activity.Repository.Crowd.{to_discount, query_sku_by_goods_id}
use group_buy_market.Activity.Repository.Reads.{Found, FoundSku, query_sku-Safe}
use group_buy_market.Activity.Trial.Loads.{Names, Loaded, load_activity-Safe, wait_both-Safe}
use group_buy_market.Activity.Trial.Priced.{Priced, tag_node-Safe}
use group_buy_market.Activity.Trial.{
  Chain, new_chain, is_complete, error_node, price, priced_by, market_loaded, multi_thread_load,
  market_node, switch_node, root, trial, empty_context, wait_both, load_activity, acquired,
}

module _ {D : Type 0} (d : Decimal D) (o : IsOrdered d) where
  -- An offer to a request: the activity that the request names, running and with its discount, and
  -- the product, priced.
  pub record Offer (w : World D) (req : MarketProductEntity) (t : TrialBalanceEntity D)
      : Type 0 where
    pub id : ℤ
    pub activity : GroupBuyActivityDiscountVo
    pub sku : SkuVo D
    pub named : Names w req id
    pub found : Found w id activity
    pub goods : FoundSku w req.goods_id sku
    pub priced : Priced d activity sku (d.sub sku.original_price t.pay_price) t.pay_price t
    pub fair : Fair d o (to_discount found.row) sku.original_price t.pay_price

  module _ (settings : Service) (acquire : Option String) (sku_first : Bool)
      (req : MarketProductEntity) where
    abbrev chain : Chain D
    chain = new_chain d settings acquire sku_first

    abbrev Offered : World D → TrialBalanceEntity D → World D → Type 0
    Offered w t v = Offer w req t × Same w v

    price-Safe :
        (dc : DynamicContext D) (id : ℤ) (g : GroupBuyActivityDiscountVo) (sku : SkuVo D)
        (s : Option (DiscountCalculateService D)) (w v : World D) (named : Names w req id)
        (found : Found w id g) (goods : FoundSku w req.goods_id sku)
        → Same w v
        → IsFair d o req.user_id sku.original_price (to_discount found.row) v s
        → Safe
            (price d chain req
              (record dc { group_buy_activity_discount_vo = some g; sku_vo = some sku })
              (to_discount found.row)
              sku
              s)
            v
            (Offered w)
    price-Safe dc id g sku none w v named found goods same fair = raise-Safe _ v (Offered w)
    price-Safe dc id g sku (some s) w v named found goods same fair =
        bind-Safe _ (Offered w) _ _ v fair λ p u h.
          weaken-Safe _ (Offered w) _ u
            (λ t x k. (
              record {
                id = id;
                activity = g;
                sku = sku;
                named = named;
                found = found;
                goods = goods;
                priced =
                    subst (λ x. Priced d g sku (d.sub sku.original_price x) x t) (sym k.0.paid) k.0;
                fair =
                    subst (λ x. Fair d o (to_discount found.row) sku.original_price x)
                      (sym k.0.paid) h.0;
              },
              Same-trans same (Same-trans h.1 k.1),
            ))
            (tag_node-Safe d chain req dc g sku (d.sub sku.original_price p) p u)

    abbrev SkuOf : World D → Option (SkuVo D) → Type 0
    SkuOf w o = (sku : SkuVo D) → o ≡ some sku → FoundSku w req.goods_id sku

    Loaded-Safe :
        (dc : DynamicContext D) (act : Option GroupBuyActivityDiscountVo) (sku : Option (SkuVo D))
        (w v : World D)
        → Loaded w req act
        → SkuOf w sku
        → Same w v
        → Safe
            (market_loaded d chain req
              (record dc { group_buy_activity_discount_vo = act; sku_vo = sku })
              act
              sku)
            v
            (Offered w)
    unfolding error_node
    Loaded-Safe dc none sku w v a k same = raise-Safe _ v (Offered w)
    Loaded-Safe dc (some g) none w v a k same = raise-Safe _ v (Offered w)
    Loaded-Safe dc (some g) (some sku) w v a k same =
        with_found (a g refl).0 (a g refl).1 (a g refl).2
      where
        with_found :
            (id : ℤ)
            → Names w req id
            → Found w id g
            → Safe
                (market_loaded d chain req
                  (record dc { group_buy_activity_discount_vo = some g; sku_vo = some sku })
                  (some g)
                  (some sku))
                v
                (Offered w)
        with_found id named found =
            subst
              (λ x.
                Safe
                  (priced_by d chain req
                    (record dc { group_buy_activity_discount_vo = some g; sku_vo = some sku }) sku
                    x)
                  v (Offered w))
              (ap (λ x. x.group_buy_discount) (sym found.made))
              (price-Safe dc id g sku _ w v named found (k sku refl) same
                (registry-IsFair d o req.user_id sku.original_price (to_discount found.row) v))

    -- Both orders of the two loads.
    abbrev Pair : World D → Option GroupBuyActivityDiscountVo × Option (SkuVo D) → World D → Type 0
    Pair w p u = Loaded w req p.0 × SkuOf w p.1 × Same w u

    either_order :
        (w v : World D)
        → Same w v
        → (first : Bool)
        → Safe
            (if first
              then (wait_both (query_sku_by_goods_id req.goods_id) (load_activity req)
                  >>= λ (sku, act). pure (act, sku))
              else wait_both (load_activity req) (query_sku_by_goods_id req.goods_id))
            v
            (Pair w)
    either_order w v same true =
        bind-Safe (λ p u. Pair w (p.1, p.0) u) (Pair w) _ _ v
          (wait_both-Safe _ (λ p u. Pair w (p.1, p.0) u) _ _ v
            (query_sku-Safe req.goods_id w v same)
            λ sku u h.
              weaken-Safe _ (λ act x. Pair w (act, sku) x) _ u (λ act x k. (k.1, h.1, k.0))
                (load_activity-Safe req w u h.0))
          λ p u h. pure-Safe (p.1, p.0) u (Pair w) h
    either_order w v same false =
        wait_both-Safe _ (Pair w) _ _ v (load_activity-Safe req w v same) λ act u h.
          weaken-Safe _ (λ sku x. Pair w (act, sku) x) _ u (λ sku x k. (h.1, k.1, k.0))
            (query_sku-Safe req.goods_id w u h.0)

    acquired-Safe : (a : Option String) (w : World D) → Safe (acquired a) w (λ x v. Same w v)
    unfolding Safe SafeResult
    acquired-Safe none w = Same-refl w
    acquired-Safe (some e) w = tt

    market_node-Safe :
        (dc : DynamicContext D) (w : World D) → Safe (market_node d chain req dc) w (Offered w)
    unfolding market_node multi_thread_load
    market_node-Safe dc w =
        bind-Safe
          (λ l u.
            (l ≡ record dc {
              group_buy_activity_discount_vo = l.group_buy_activity_discount_vo;
              sku_vo = l.sku_vo;
            })
            × Pair w (l.group_buy_activity_discount_vo, l.sku_vo) u)
          (Offered w) _ _ w
          (reading-Safe _ _ _ w (acquired-Safe acquire w) λ x v same.
            bind-Safe (Pair w) _ _ _ v (either_order w v same sku_first)
              λ p u h. pure-Safe _ u _ (refl, h))
          λ l u h.
            subst
              (λ x.
                Safe (market_loaded d chain req x l.group_buy_activity_discount_vo l.sku_vo) u
                  (Offered w))
              (sym h.0)
              (Loaded-Safe dc l.group_buy_activity_discount_vo l.sku_vo w u h.1.0 h.1.1 h.1.2)

    -- The request has its fields, the market is not downgraded, and the user is in the cut range.
    pub record Admitted : Type 0 where
      pub complete : is_complete req ≡ true
      pub up : is_downgrade_switch settings ≡ false
      pub within : is_cut_range settings (bytes req.user_id) ≡ true

    -- Over amounts with the laws of `IsOrdered`, a trial returns an error or an offer, never crashes and changes no table: whatever fails and
    -- whichever load is done first. An offer is made only to a request with all its fields, while the
    -- market is not downgraded and to a user of the cut range. It is for the running activity that
    -- the request names, or else that the channel has for the goods, at the price of the product:
    -- the deduction is the original price less the price to pay, which is positive where the
    -- original price is, unless the plan is "N"; an activity without a tag is seen by all and open
    -- to all, and one whose scope does not restrict it is so too.
    pub trial-Offer :
        (w : World D) → Safe (trial d chain req) w (λ t v. Admitted × Offer w req t × Same w v)
    unfolding trial root switch_node
    trial-Offer w =
        require-Safe (is_complete req) _ _ w (λ t v. Admitted × Offer w req t × Same w v)
          λ full.
            require-Safe (not (is_downgrade_switch settings)) _ _ w
              (λ t v. Admitted × Offer w req t × Same w v)
              λ up.
                require-Safe (is_cut_range settings (bytes req.user_id)) _ _ w
                  (λ t v. Admitted × Offer w req t × Same w v)
                  λ within.
                    weaken-Safe _ (λ t v. Admitted × Offer w req t × Same w v) _ w
                      (λ t v h.
                        (record { complete = full; up = not-true _ up; within = within }, h.0, h.1))
                      (market_node-Safe empty_context w)
