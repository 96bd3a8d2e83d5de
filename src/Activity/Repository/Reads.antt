-- ===== src/Activity/Repository/Reads.antt =====
-- The queries of the activity repository only read, and none of them crashes.
use mathlib.Core.Option
use group_buy_market.Prelude.{
  ℕ, ◌≡◌, refl, sym, Bool, true, false, ℤ, String, str_eq, Option, none, some, List, [], ◌∷◌, find,
}
use group_buy_market.Store.Rows.{Db, GroupBuyActivity, GroupBuyDiscountRow, Sku, World}
use group_buy_market.Store.Call.{query, statement}
use group_buy_market.Store.Safe.{
  Same, Same-refl, Same-trans, Safe, pure-Safe, query-Safe, bitmap-Safe, weaken-Safe, reading-Safe,
  bind-Safe,
}
use group_buy_market.Activity.Types.{GroupBuyActivityDiscountVo, SkuVo}
use group_buy_market.Activity.Repository.Crowd.{
  exists_command, read_bit, is_tag_crowd_bit, bit_or_details, by_details, is_tag_crowd_range,
  exists_key, bit_of, index_from_user_id, is_running, to_activity_discount, with_discount,
  query_group_buy_activity_discount_vo, query_sku_by_goods_id, or_zero,
}

pub map-some :
    {A B : Type 0} (f : A → B) (o : Option A) {b : B}
    → Option.map f o ≡ some b
    → (a : A) × (o ≡ some a) × (b ≡ f a)
map-some f none e = cc
map-some f (some a) e = (a, refl, cc)

-- A product that was found, with the price of its row.
pub record FoundSku {D : Type 0} (w : World D) (goods_id : String) (sku : SkuVo D) : Type 0 where
  pub row : Sku D
  pub hit : find (λ r. str_eq r.goods_id goods_id) w.db.catalog.skus ≡ some row
  pub price : sku.original_price ≡ row.original_price

module _ {D : Type 0} where
  read_bit-Safe :
      (tag_id user_id : String) (b : Bool) (w : World D)
      → Safe (read_bit tag_id user_id b) w (λ a v. Same w v)
  read_bit-Safe tag_id user_id false w = pure-Safe true w (λ a v. Same w v) (Same-refl w)
  read_bit-Safe tag_id user_id true w =
      weaken-Safe _ (λ a v. Same w v) _ w (λ a v h. h.1)
        (bitmap-Safe (λ maps. bit_of (maps tag_id) (index_from_user_id user_id)) w)

  exists-Safe : (key : String) (w : World D) → Safe (exists_command key) w (λ a v. Same w v)
  exists-Safe key w =
      weaken-Safe _ (λ a v. Same w v) _ w (λ a v h. h.1)
        (bitmap-Safe (λ maps. exists_key (maps key)) w)

  total-Safe : (g : Db D → ℕ) (w : World D) → Safe (λ v. or_zero (query g v)) w (λ a v. Same w v)
  unfolding Safe statement
  total-Safe g w = go w.faults
    where
      go :
          (fs : List (Option String))
          → Safe (λ v. or_zero (query g v)) (record w { faults = fs }) (λ a v. Same w v)
      go [] = record { db = refl; bitmaps = refl }
      go (none ∷ fs) = record { db = refl; bitmaps = refl }
      go (some e ∷ fs) = record { db = refl; bitmaps = refl }

  seen-Safe : {A : Type 0} (g : Db D → A) (w : World D) → Safe (query g) w (λ a v. Same w v)
  seen-Safe g w = weaken-Safe _ (λ a v. Same w v) _ w (λ a v h. h.1) (query-Safe g w)

  by_details-Safe :
      (tag_id user_id : String) (w : World D) → Safe (by_details tag_id user_id) w (λ a v. Same w v)
  by_details-Safe tag_id user_id w =
      reading-Safe (λ a v. Same w v) _ _ w (seen-Safe _ w)
        λ count v s.
          reading-Safe (λ a v. Same w v) _ _ v (total-Safe _ v)
            λ total u t. pure-Safe _ u (λ a v. Same w v) (Same-trans s t)

  bit_or_details-Safe :
      (tag_id user_id : String) (inside exists : Bool) (w v : World D)
      → Same w v
      → Safe (bit_or_details tag_id user_id inside exists) v (λ a u. Same w u)
  bit_or_details-Safe tag_id user_id inside true w v s = pure-Safe inside v (λ a u. Same w u) s
  bit_or_details-Safe tag_id user_id inside false w v s =
      weaken-Safe _ (λ a u. Same w u) _ v (λ a u h. Same-trans s h)
        (by_details-Safe tag_id user_id v)

  pub is_tag_crowd_range-Safe :
      (tag_id user_id : String) (w : World D)
      → Safe (is_tag_crowd_range tag_id user_id) w (λ a v. Same w v)
  unfolding is_tag_crowd_range is_tag_crowd_bit
  is_tag_crowd_range-Safe tag_id user_id w =
      reading-Safe (λ a v. Same w v) _ _ w
        (reading-Safe (λ a v. Same w v) _ _ w (exists-Safe tag_id w)
          λ b v s.
            weaken-Safe _ (λ a u. Same w u) _ v (λ a u h. Same-trans s h)
              (read_bit-Safe tag_id user_id b v))
        λ inside v s.
          reading-Safe (λ a u. Same w u) _ _ v (exists-Safe tag_id v)
            λ exists u t. bit_or_details-Safe tag_id user_id inside exists w u (Same-trans s t)

  -- A configuration that was found: its activity runs, under the number asked for.
  pub record Found (w : World D) (id : ℤ) (vo : GroupBuyActivityDiscountVo) : Type 0 where
    pub act : GroupBuyActivity
    pub row : GroupBuyDiscountRow
    pub running : find (is_running id) w.db.activities ≡ some act
    pub discounted :
        find (λ r. str_eq r.discount_id act.discount_id) w.db.catalog.discounts ≡ some row
    pub made : vo ≡ to_activity_discount act row

  with_discount-Safe :
      (id : ℤ) (act : Option GroupBuyActivity) (w v : World D)
      → find (is_running id) w.db.activities ≡ act
      → Same w v
      → Safe
          (with_discount act)
          v
          (λ o u. Same w u × ((vo : GroupBuyActivityDiscountVo) → o ≡ some vo → Found w id vo))
  with_discount-Safe id none w v e s =
      pure-Safe none v
        (λ o u. Same w u × ((vo : GroupBuyActivityDiscountVo) → o ≡ some vo → Found w id vo))
        (s, λ vo h. cc)
  with_discount-Safe id (some act) w v e s =
      weaken-Safe _
        (λ o u. Same w u × ((vo : GroupBuyActivityDiscountVo) → o ≡ some vo → Found w id vo)) _ v
        (λ o u h. (Same-trans s h.1, λ vo k. of_row (map-some _ _ (rw h.0 at k)))) (query-Safe _ v)
    where
      of_row :
          {vo : GroupBuyActivityDiscountVo}
          → (row : GroupBuyDiscountRow) × (find
                (λ r. str_eq r.discount_id act.discount_id)
                v.db.catalog.discounts
              ≡ some row)
            × (vo ≡ to_activity_discount act row)
          → Found w id vo
      of_row (row, hit, made) = record {
        act = act;
        row = row;
        running = e;
        discounted = rw s.db at hit;
        made = made;
      }

  pub query_vo-Safe :
      (id : ℤ) (w v : World D)
      → Same w v
      → Safe
          (query_group_buy_activity_discount_vo id)
          v
          (λ o u. Same w u × ((vo : GroupBuyActivityDiscountVo) → o ≡ some vo → Found w id vo))
  unfolding query_group_buy_activity_discount_vo
  query_vo-Safe id w v s =
      bind-Safe _ _ _ _ v (query-Safe _ v)
        λ act u h. with_discount-Safe id act w u (rw (← s.db) (sym h.0)) (Same-trans s h.1)

  pub query_sku-Safe :
      (goods_id : String) (w v : World D)
      → Same w v
      → Safe
          (query_sku_by_goods_id goods_id)
          v
          (λ o u. Same w u × ((sku : SkuVo D) → o ≡ some sku → FoundSku w goods_id sku))
  unfolding query_sku_by_goods_id
  query_sku-Safe goods_id w v s =
      weaken-Safe _ (λ o u. Same w u × ((sku : SkuVo D) → o ≡ some sku → FoundSku w goods_id sku)) _
        v (λ o u h. (Same-trans s h.1, λ sku k. of_row sku (map-some _ _ (rw h.0 at k))))
        (query-Safe _ v)
    where
      of_row :
          (sku : SkuVo D)
          → (row : Sku D) × (find (λ r. str_eq r.goods_id goods_id) v.db.catalog.skus ≡ some row)
            × (sku ≡ record {
              goods_id = row.goods_id;
              goods_name = row.goods_name;
              original_price = row.original_price;
            })
          → FoundSku w goods_id sku
      of_row sku (row, hit, made) = record { row = row; hit = rw s.db at hit; price = rw made refl }
