-- ===== src/Activity/Trial/Loads.antt =====
-- What the load of the Market node brings: rows of the tables, for the activity that the request names.
use mathlib.Core.Option
use group_buy_market.Prelude.{◌≡◌, refl, sym, ap, ◌⊎◌, inl, inr, ℤ, Option, none, some, find}
use group_buy_market.Types.Outcome.{Result, ok, err, panic}
use group_buy_market.Store.Call.{Call}
use group_buy_market.Store.Rows.{ScSkuActivity, World}
use group_buy_market.Store.Safe.{
  Same, Same-trans, Safe, SafeResult, pure-Safe, query-Safe, weaken-Safe, bind-Safe,
}
use group_buy_market.Activity.Types.{
  GroupBuyActivityDiscountVo, ScSkuActivityVo, MarketProductEntity,
}
use group_buy_market.Activity.Repository.Crowd.{
  to_sc_sku_activity, is_sc_goods, query_sc_sku_activity_by_sc_goods_id,
}
use group_buy_market.Activity.Repository.Reads.{Found, map-some, query_vo-Safe}
use group_buy_market.Activity.Trial.{both, wait_both, load_activity, load_by_id, of_sc_activity}

module _ {D A B : Type 0} where
  second :
      (Q : A × B → World D → Type 0) (a : A) (r : Result B) (u : World D)
      → SafeResult (λ b x. Q (a, b) x) r u
      → SafeResult Q (both (ok a) r) u
  unfolding SafeResult
  second Q a (ok b) u h = h
  second Q a (err e) u h = tt
  second Q a panic u h = h

  first :
      (P : A → World D → Type 0) (Q : A × B → World D → Type 0) (r : Result A) (n : Call D B)
      (v : World D)
      → SafeResult P r v
      → ((a : A) → P a v → Safe n v (λ b u. Q (a, b) u))
      → SafeResult Q (both r (n v).0) (n v).1
  unfolding SafeResult Safe
  first P Q (ok a) n v h k = second Q a (n v).0 (n v).1 (k a h)
  first P Q (err e) n v h k = tt
  first P Q panic n v h k = h

  -- Two loads that never crash.
  pub wait_both-Safe :
      (P : A → World D → Type 0) (Q : A × B → World D → Type 0) (m : Call D A) (n : Call D B)
      (w : World D)
      → Safe m w P
      → ((a : A) (v : World D) → P a v → Safe n v (λ b u. Q (a, b) u))
      → Safe (wait_both m n) w Q
  unfolding Safe
  wait_both-Safe P Q m n w h k = first P Q (m w).0 n (m w).1 h (λ a. k a (m w).1)

module _ {D : Type 0} where
  -- The activity that a request names, or that its channel has for the goods.
  abbrev pub Names : World D → MarketProductEntity → ℤ → Type 0
  Names w req id =
      (req.activity_id ≡ some id)
      ⊎ ((req.activity_id ≡ none)
          × (row : ScSkuActivity) × (find (is_sc_goods req.source req.channel req.goods_id)
                w.db.catalog.sc_sku_activities
              ≡ some row)
          × (row.activity_id ≡ id))

  -- What a load of the activity brings.
  abbrev pub Loaded : World D → MarketProductEntity → Option GroupBuyActivityDiscountVo → Type 0
  Loaded w req o =
      (vo : GroupBuyActivityDiscountVo) → o ≡ some vo → (id : ℤ) × Names w req id × Found w id vo

  of_sc-Safe :
      (req : MarketProductEntity) (o : Option ScSkuActivityVo) (w v : World D)
      → req.activity_id ≡ none
      → o
        ≡ Option.map to_sc_sku_activity
            (find (is_sc_goods req.source req.channel req.goods_id) w.db.catalog.sc_sku_activities)
      → Same w v
      → Safe (of_sc_activity o) v (λ o u. Same w u × Loaded w req o)
  of_sc-Safe req none w v n e s =
      pure-Safe none v (λ o u. Same w u × Loaded w req o) (s, λ vo h. cc)
  of_sc-Safe req (some sc) w v n e s =
      let (row, hit, made) = map-some _ _ (sym e) in
      weaken-Safe _ (λ o u. Same w u × Loaded w req o) _ v
        (λ o u h. (
          h.0,
          λ vo k. (sc.activity_id, inr (n, row, hit, ap (λ x. x.activity_id) (sym made)), h.1 vo k),
        ))
        (query_vo-Safe sc.activity_id w v s)

  pub load_activity-Safe :
      (req : MarketProductEntity) (w v : World D)
      → Same w v
      → Safe (load_activity req) v (λ o u. Same w u × Loaded w req o)
  unfolding load_activity query_sc_sku_activity_by_sc_goods_id
  load_activity-Safe req w v s = by_id req.activity_id refl
    where
      by_channel :
          req.activity_id ≡ none → Safe (load_by_id req none) v (λ o u. Same w u × Loaded w req o)
      by_channel e =
          bind-Safe _ _ _ _ v (query-Safe _ v)
            λ sc u h. of_sc-Safe req sc w u e (rw (← s.db) h.0) (Same-trans s h.1)

      by_id :
          (o : Option ℤ)
          → req.activity_id ≡ o
          → Safe (load_by_id req o) v (λ o u. Same w u × Loaded w req o)
      by_id (some id) e =
          weaken-Safe _ (λ o u. Same w u × Loaded w req o) _ v
            (λ o u h. (h.0, λ vo k. (id, inl e, h.1 vo k))) (query_vo-Safe id w v s)
      by_id none e = by_channel e
