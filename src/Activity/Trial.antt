-- ===== src/Activity/Trial.antt =====
-- internal/domain/activity/service/trial/node/nodes.go: the trial of a product, Root → Switch →
-- Market → Tag → End. The semaphore and the timeout of the load show as an acquire that may fail and
-- as failing statements. Both loads only read; the one that is done first is run first.
pub mod Loads
pub mod Priced
pub mod Offers
pub mod KeepsReads
pub mod Keeps
use group_buy_market.Prelude.{
  ◌&&◌, ◌||◌, not, if◌then◌else◌, Bool, true, false, ℤ, pos, String, str_eq, bytes, Option, none,
  some,
}
use group_buy_market.Types.Codes.{illegal_parameter, e0001, e0002, e0003, e0004}
use group_buy_market.Types.Outcome.{Result, ok, err, panic, GoError, database, new_app_exception}
use group_buy_market.Store.Rows.{World}
use group_buy_market.Store.Call.{Call, pure, raise, require, non_nil, ◌>>=◌, ◌>>◌}
use group_buy_market.Dcc.{Service, is_downgrade_switch, is_cut_range}
use group_buy_market.Activity.Types.{
  GroupBuyActivityDiscountVo, GroupBuyDiscount, SkuVo, ScSkuActivityVo, TrialBalanceEntity,
  MarketProductEntity, DynamicContext, is_visible, is_enable,
}
use group_buy_market.Activity.Decimals.{Decimal}
use group_buy_market.Activity.Discount.{Registry, DiscountCalculateService, discount_registry}
use group_buy_market.Activity.Repository.Crowd.{
  is_tag_crowd_range, query_group_buy_activity_discount_vo, query_sku_by_goods_id,
  query_sc_sku_activity_by_sc_goods_id,
}

-- What the nodes use: the settings behind the two switches, the registry, whether the semaphore is
-- acquired, and which load is done first.
pub record Chain (D : Type 0) : Type 0 where
  pub settings : Service
  pub discount : Registry D
  pub acquire : Option String
  pub sku_first : Bool

-- `NewChain`, with the registry of internal/app/wire.go.
abbrev pub new_chain : {D : Type 0} → Decimal D → Service → Option String → Bool → Chain D
new_chain d settings acquire sku_first = record {
  settings = settings;
  discount = discount_registry d is_tag_crowd_range;
  acquire = acquire;
  sku_first = sku_first;
}

abbrev pub is_complete : MarketProductEntity → Bool
is_complete req = not (
    str_eq req.user_id ""
    || (str_eq req.goods_id "" || (str_eq req.source "" || str_eq req.channel "")))

abbrev pub acquired : {D : Type 0} → Option String → Call D (Unit {0})
acquired none w = (ok tt, w)
acquired (some e) w = (err (database e), w)

module _ {A B : Type 0} where
  abbrev pub both : Result A → Result B → Result (A × B)
  both (ok a) (ok b) = ok (a, b)
  both (ok a) (err e) = err e
  both (ok a) panic = panic
  both (err e) r = err e
  both panic r = panic

module _ {D A B : Type 0} where
  -- `g.Wait` of two loads: both run, and the first error is the result.
  abbrev pub wait_both : Call D A → Call D B → Call D (A × B)
  wait_both m n w = (both (m w).0 (n (m w).1).0, (n (m w).1).1)

module _ {D : Type 0} where
  abbrev pub empty_context : DynamicContext D
  empty_context = record {
    group_buy_activity_discount_vo = none;
    sku_vo = none;
    deduction_price = none;
    pay_price = none;
    visible = false;
    enable = false;
  }

  abbrev pub of_sc_activity : Option ScSkuActivityVo → Call D (Option GroupBuyActivityDiscountVo)
  of_sc_activity none = pure none
  of_sc_activity (some sc) = query_group_buy_activity_discount_vo sc.activity_id

  abbrev pub load_by_id :
      MarketProductEntity → Option ℤ → Call D (Option GroupBuyActivityDiscountVo)
  load_by_id req (some id) = query_group_buy_activity_discount_vo id
  load_by_id req none =
      query_sc_sku_activity_by_sc_goods_id req.source req.channel req.goods_id >>= λ sc.
      of_sc_activity sc

  unfoldable pub load_activity : MarketProductEntity → Call D (Option GroupBuyActivityDiscountVo)
  load_activity req = load_by_id req req.activity_id

module _ {D : Type 0} (d : Decimal D) (c : Chain D) where
  abbrev pub TrialHandler : Type 0
  TrialHandler = MarketProductEntity → DynamicContext D → Call D (TrialBalanceEntity D)

  abbrev pub or_zero : Option D → D
  or_zero none = d.nought
  or_zero (some x) = x

  unfoldable pub error_node : TrialHandler
  error_node req dc = missing dc.group_buy_activity_discount_vo dc.sku_vo
    where
      missing : Option GroupBuyActivityDiscountVo → Option (SkuVo D) → Call D (TrialBalanceEntity D)
      missing none sku = raise (new_app_exception e0002)
      missing (some g) none = raise (new_app_exception e0002)
      missing (some g) (some sku) = pure (record {
        goods_id = "";
        goods_name = "";
        original_price = d.nought;
        deduction_price = d.nought;
        pay_price = d.nought;
        target_count = pos 0;
        start_time = pos 0;
        end_time = pos 0;
        is_visible = false;
        is_enable = false;
        group_buy_activity_discount_vo = none;
      })

  unfoldable pub end_node : TrialHandler
  end_node req dc = do
    g ← non_nil dc.group_buy_activity_discount_vo
    sku ← non_nil dc.sku_vo
    pure (record {
      goods_id = sku.goods_id;
      goods_name = sku.goods_name;
      original_price = sku.original_price;
      deduction_price = or_zero dc.deduction_price;
      pay_price = or_zero dc.pay_price;
      target_count = g.target;
      start_time = g.start_time;
      end_time = g.end_time;
      is_visible = dc.visible;
      is_enable = dc.enable;
      group_buy_activity_discount_vo = dc.group_buy_activity_discount_vo;
    })

  abbrev pub with_crowd :
      MarketProductEntity
      → DynamicContext D
      → GroupBuyActivityDiscountVo
      → Call D (TrialBalanceEntity D)
  with_crowd req dc g = is_tag_crowd_range g.tag_id req.user_id >>= λ within.
      end_node req (record dc { visible = is_visible g || within; enable = is_enable g || within })

  -- Without a tag everyone sees the activity and may take part.
  unfoldable pub tag_node : TrialHandler
  tag_node req dc = do
    g ← non_nil dc.group_buy_activity_discount_vo
    if str_eq g.tag_id ""
        then end_node req (record dc { visible = true; enable = true })
        else with_crowd req dc g

  unfoldable pub multi_thread_load :
      MarketProductEntity → DynamicContext D → Call D (DynamicContext D)
  multi_thread_load req dc = do
    acquired c.acquire
    loaded ←
        if c.sku_first
        then (wait_both (query_sku_by_goods_id req.goods_id) (load_activity req) >>= λ (sku, act).
            pure (act, sku))
        else wait_both (load_activity req) (query_sku_by_goods_id req.goods_id)
    pure (record dc { group_buy_activity_discount_vo = loaded.0; sku_vo = loaded.1 })

  -- The second half of the Market node, where everything is loaded. The pointer that it tests at the
  -- end was set two lines before.
  abbrev pub price :
      MarketProductEntity
      → DynamicContext D
      → GroupBuyDiscount
      → SkuVo D
      → Option (DiscountCalculateService D)
      → Call D (TrialBalanceEntity D)
  price req dc gbd sku none = raise (new_app_exception e0001)
  price req dc gbd sku (some svc) =
      svc.calculate req.user_id sku.original_price gbd >>= λ pay_price. tag_node req (record dc {
        deduction_price = some (d.sub sku.original_price pay_price);
        pay_price = some pay_price;
      })

  abbrev pub priced_by :
      MarketProductEntity
      → DynamicContext D
      → SkuVo D
      → Option GroupBuyDiscount
      → Call D (TrialBalanceEntity D)
  priced_by req dc sku none = error_node req dc
  priced_by req dc sku (some gbd) = price req dc gbd sku (c.discount gbd.market_plan)

  abbrev pub market_loaded :
      MarketProductEntity
      → DynamicContext D
      → Option GroupBuyActivityDiscountVo
      → Option (SkuVo D)
      → Call D (TrialBalanceEntity D)
  market_loaded req dc none sku = error_node req dc
  market_loaded req dc (some g) none = error_node req dc
  market_loaded req dc (some g) (some sku) = priced_by req dc sku g.group_buy_discount

  unfoldable pub market_node : TrialHandler
  market_node req dc = do
    loaded ← multi_thread_load req dc
    market_loaded req loaded loaded.group_buy_activity_discount_vo loaded.sku_vo

  unfoldable pub switch_node : TrialHandler
  switch_node req dc = do
    require (not (is_downgrade_switch c.settings)) (new_app_exception e0003)
    require (is_cut_range c.settings (bytes req.user_id)) (new_app_exception e0004)
    market_node req dc

  unfoldable pub root : TrialHandler
  root req dc = do
    require (is_complete req) (new_app_exception illegal_parameter)
    switch_node req dc

  -- `Apply`.
  unfoldable pub trial : MarketProductEntity → Call D (TrialBalanceEntity D)
  trial req = root req empty_context
