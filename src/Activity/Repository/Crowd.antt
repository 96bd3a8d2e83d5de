-- ===== src/Activity/Repository/Crowd.antt =====
-- activity_repository.go: the configuration of an activity and the crowd of a tag, with
-- `IndexFromUserID`, `IsTagCrowdRange` and `AddTagCrowd` of redis_service.go.
use mathlib.Core.Option
use group_buy_market.Prelude.{
  ℕ, ◌==◌, ◌*◌, ◌%◌, ◌^◌, ltb, ◌&&◌, if◌then◌else◌, Bool, true, false, eq_ℤ, ℤ, String, str_eq,
  bytes, Option, none, some, List, [], ◌∷◌, find, count_where,
}
use group_buy_market.Dcc.{xor}
use group_buy_market.Types.Outcome.{Result, ok, err, panic}
use group_buy_market.Store.Rows.{
  GroupBuyActivity, GroupBuyDiscountRow, Sku, ScSkuActivity, CrowdTagsDetail, Bitmaps, World,
}
use group_buy_market.Store.Call.{Call, pure, query, bitmap_command, ◌>>=◌}
use group_buy_market.Activity.Types.{
  GroupBuyActivityDiscountVo, GroupBuyDiscount, SkuVo, ScSkuActivityVo,
}

abbrev pub to_discount : GroupBuyDiscountRow → GroupBuyDiscount
to_discount row = record {
  discount_name = row.discount_name;
  discount_desc = row.discount_desc;
  discount_type = row.discount_type;
  market_plan = row.market_plan;
  market_expr = row.market_expr;
  tag_id = row.tag_id;
}

-- The source, the channel and the goods are left empty.
abbrev pub to_activity_discount :
    GroupBuyActivity → GroupBuyDiscountRow → GroupBuyActivityDiscountVo
to_activity_discount act row = record {
  activity_id = act.activity_id;
  activity_name = act.activity_name;
  source = "";
  channel = "";
  goods_id = "";
  group_buy_discount = some (to_discount row);
  group_type = act.group_type;
  take_limit_count = act.take_limit_count;
  target = act.target;
  valid_time = act.valid_time;
  status = act.status;
  start_time = act.start_time;
  end_time = act.end_time;
  tag_id = act.tag_id;
  tag_scope = act.tag_scope;
}

-- FNV-1a over 64 bits, from the hash `h` so far.
unfoldable pub fnv64a : ℕ → List ℕ → ℕ
unfolding xor
fnv64a h [] = h
fnv64a h (b ∷ bs) = fnv64a (xor 64 h b * 1099511628211 % 2 ^ 64) bs

-- `IndexFromUserID`.
unfoldable pub index_from_user_id : String → ℕ
unfolding fnv64a
index_from_user_id user_id = fnv64a 14695981039346656037 (bytes user_id) % 100000000

abbrev pub bit_of : Option (ℕ → Bool) → ℕ → Bool
bit_of none i = false
bit_of (some bits) i = bits i

abbrev pub exists_key : Option (ℕ → Bool) → Bool
exists_key none = false
exists_key (some bits) = true

-- `SETBIT key i 1`: a key that is absent becomes a bit set.
unfoldable pub set_bit : String → ℕ → Bitmaps → Bitmaps
set_bit key i maps k =
    if str_eq k key then some (λ j. if j == i then true else bit_of (maps key) j) else maps k

abbrev pub is_detail : String → String → CrowdTagsDetail → Bool
is_detail tag_id user_id row = str_eq row.tag_id tag_id && str_eq row.user_id user_id

abbrev pub is_running : ℤ → GroupBuyActivity → Bool
is_running activity_id act = eq_ℤ act.activity_id activity_id && act.status == 1

abbrev pub is_sc_goods : String → String → String → ScSkuActivity → Bool
is_sc_goods source channel goods_id row =
    str_eq row.source source && (str_eq row.channel channel && str_eq row.goods_id goods_id)

abbrev pub to_sc_sku_activity : ScSkuActivity → ScSkuActivityVo
to_sc_sku_activity row = record {
  source = row.source;
  channel = row.channel;
  activity_id = row.activity_id;
  goods_id = row.goods_id;
}

abbrev pub to_sku : {D : Type 0} → Sku D → SkuVo D
to_sku sku = record {
  goods_id = sku.goods_id;
  goods_name = sku.goods_name;
  original_price = sku.original_price;
}

module _ {D : Type 0} where
  abbrev pub exists_command : String → Call D Bool
  exists_command key = bitmap_command (λ maps. (exists_key (maps key), maps))

  abbrev pub read_bit : String → String → Bool → Call D Bool
  read_bit tag_id user_id false = pure true
  read_bit tag_id user_id true =
      bitmap_command (λ maps. (bit_of (maps tag_id) (index_from_user_id user_id), maps))

  -- `IsTagCrowdRange` of the Redis service.
  unfoldable pub is_tag_crowd_bit : String → String → Call D Bool
  unfolding index_from_user_id
  is_tag_crowd_bit tag_id user_id = do
    exists ← exists_command tag_id
    read_bit tag_id user_id exists

  unfoldable pub add_tag_crowd : String → String → Call D (Unit {0})
  unfolding index_from_user_id set_bit
  add_tag_crowd tag_id user_id =
      bitmap_command (λ maps. (tt, set_bit tag_id (index_from_user_id user_id) maps))

  -- The second count drops its error: a total of 0 stays.
  abbrev pub or_zero : Result ℕ × World D → Result ℕ × World D
  or_zero (ok n, w) = (ok n, w)
  or_zero (err e, w) = (ok 0, w)
  or_zero (panic, w) = (panic, w)

  -- The rows of the tag, when it has no bit set.
  abbrev pub by_details : String → String → Call D Bool
  by_details tag_id user_id = do
    count ← query λ db. count_where (is_detail tag_id user_id) db.catalog.crowd_tags_details
    total ← λ w. or_zero (
        query (λ db. count_where (λ row. str_eq row.tag_id tag_id) db.catalog.crowd_tags_details) w)
    pure (if total == 0 then true else ltb 0 count)

  abbrev pub bit_or_details : String → String → Bool → Bool → Call D Bool
  bit_or_details tag_id user_id inside true = pure inside
  bit_or_details tag_id user_id inside false = by_details tag_id user_id

  unfoldable pub is_tag_crowd_range : String → String → Call D Bool
  unfolding is_tag_crowd_bit
  is_tag_crowd_range tag_id user_id = do
    inside ← is_tag_crowd_bit tag_id user_id
    exists ← exists_command tag_id
    bit_or_details tag_id user_id inside exists

  abbrev pub with_discount : Option GroupBuyActivity → Call D (Option GroupBuyActivityDiscountVo)
  with_discount none = pure none
  with_discount (some act) = query λ db.
      Option.map (to_activity_discount act)
        (find (λ row. str_eq row.discount_id act.discount_id) db.catalog.discounts)

  unfoldable pub query_group_buy_activity_discount_vo :
      ℤ → Call D (Option GroupBuyActivityDiscountVo)
  query_group_buy_activity_discount_vo activity_id = do
    act ← query λ db. find (is_running activity_id) db.activities
    with_discount act

  unfoldable pub query_sku_by_goods_id : String → Call D (Option (SkuVo D))
  query_sku_by_goods_id goods_id =
      query λ db. Option.map to_sku (find (λ sku. str_eq sku.goods_id goods_id) db.catalog.skus)

  unfoldable pub query_sc_sku_activity_by_sc_goods_id :
      String → String → String → Call D (Option ScSkuActivityVo)
  query_sc_sku_activity_by_sc_goods_id source channel goods_id = query λ db.
      Option.map to_sc_sku_activity
        (find (is_sc_goods source channel goods_id) db.catalog.sc_sku_activities)
