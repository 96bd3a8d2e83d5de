-- ===== src/System/Pages.antt =====
-- The index page only reads.
use group_buy_market.Prelude.{
  Bool, ℤ, String, Option, none, some, List, [], ◌∷◌, Bool-cases, inl, inr,
}
use group_buy_market.Types.Outcome.{Result, ok, err, panic}
use group_buy_market.Trade.Entities.{Time}
use group_buy_market.Store.Rows.{GroupBuyOrderList, Db, World}
use group_buy_market.Store.Call.{pure, query, ◌>>=◌}
use group_buy_market.Store.Keeps.{
  Keeps, to_Keeps, of_Keeps, pure-Keeps, bind-Keeps, query-Keeps, statement-Keeps, non_nil-Keeps,
}
use group_buy_market.Dcc.{Service}
use group_buy_market.Activity.Decimals.{Decimal}
use group_buy_market.Activity.Types.{TrialBalanceEntity, GroupBuyActivityDiscountVo}
use group_buy_market.Activity.Repository.Details.{
  assemble_order_details, query_in_progress_by_owner, query_in_progress_by_random, or_zero,
  statistic_of, query_team_statistic_by_activity_id,
}
use group_buy_market.Activity.Index.{query_in_progress_list}
use group_buy_market.Activity.Trial.{trial, new_chain}
use group_buy_market.Activity.Trial.Keeps.{trial-Keeps}
use group_buy_market.App.Lock.Safety.{answer-Keeps}
use group_buy_market.App.IndexPage.{
  GoodsMarketRequest, GoodsMarketResponse, IndexEnv, or_unknown, page, page_of, is_index_request,
  to_market_product, query_group_buy_market_config,
}

module _ {D : Type 0} (P : Db D → Type 0) where
  assemble-Keeps :
      (now : Time) (lists : List (GroupBuyOrderList D)) (w : World D)
      → P w.db
      → Keeps P (assemble_order_details now lists) w
  unfolding assemble_order_details
  assemble-Keeps now [] w h = pure-Keeps P _ w h
  assemble-Keeps now (l ∷ ls) w h = query-Keeps P _ _ w h λ fs. pure-Keeps P _ _ h

  list-Keeps :
      (shuffle : List (GroupBuyOrderList D) → List (GroupBuyOrderList D)) (now later : Time)
      (id : ℤ) (user_id : String) (w : World D)
      → P w.db
      → Keeps P (query_in_progress_list shuffle now later id user_id 1 2) w
  unfolding query_in_progress_list query_in_progress_by_owner query_in_progress_by_random
  list-Keeps shuffle now later id user_id w h =
      bind-Keeps P _ _ w (query-Keeps P _ _ w h λ fs. assemble-Keeps later _ _ h) λ own v k.
        bind-Keeps P _ _ v (query-Keeps P _ _ v k λ fs. assemble-Keeps later _ _ k)
          λ others u l. pure-Keeps P _ u l

  zero-Keeps : (r : Result ℤ) (w : World D) → P w.db → P (or_zero (r, w)).1.db
  zero-Keeps (ok n) w h = h
  zero-Keeps (err e) w h = h
  zero-Keeps panic w h = h

  count-Keeps : (g : Db D → ℤ) (w : World D) → P w.db → Keeps P (λ v. or_zero (query g v)) w
  count-Keeps g w h =
      to_Keeps P (λ v. or_zero (query g v)) w
        (zero-Keeps (query g w).0 (query g w).1
          (of_Keeps P (λ v. query g v) w (statement-Keeps P _ w h h)))

  statistic_of-Keeps : (ids : List String) (w : World D) → P w.db → Keeps P (statistic_of ids) w
  statistic_of-Keeps [] w h = pure-Keeps P _ w h
  statistic_of-Keeps (k ∷ ks) w h = bind-Keeps P _ _ w (count-Keeps _ w h) λ a v h1.
      bind-Keeps P _ _ v (count-Keeps _ v h1)
        λ b u h2. bind-Keeps P _ _ u (count-Keeps _ u h2) λ c x h3. pure-Keeps P _ x h3

  statistic-Keeps :
      (id : ℤ) (w : World D) → P w.db → Keeps P (query_team_statistic_by_activity_id id) w
  unfolding query_team_statistic_by_activity_id
  statistic-Keeps id w h = query-Keeps P _ _ w h λ fs. statistic_of-Keeps _ _ h

  unknown-Keeps :
      (r : Result (GoodsMarketResponse D)) (w : World D) → P w.db → P (or_unknown (r, w)).1.db
  unknown-Keeps (ok p) w h = h
  unknown-Keeps (err e) w h = h
  unknown-Keeps panic w h = h

module _ {D : Type 0} (P : Db D → Type 0) (env : IndexEnv D) where
  page-Keeps :
      (req : GoodsMarketRequest) (t : TrialBalanceEntity D) (g : GroupBuyActivityDiscountVo)
      (w : World D)
      → P w.db
      → Keeps P (page env req t g) w
  page-Keeps req t g w h =
      bind-Keeps P _ _ w (list-Keeps P env.shuffle env.now env.later g.activity_id req.user_id w h)
        λ teams v k.
          bind-Keeps P _ _ v (statistic-Keeps P g.activity_id v k) λ stat u l. pure-Keeps P _ u l

  page_of-Keeps :
      (req : GoodsMarketRequest) (t : TrialBalanceEntity D) (w : World D)
      → P w.db
      → Keeps P (page_of env req t) w
  page_of-Keeps req t w h = non_nil-Keeps P t.group_buy_activity_discount_vo _ w h λ g e.
      to_Keeps P (λ v. or_unknown (page env req t g v)) w
        (unknown-Keeps P (page env req t g w).0 (page env req t g w).1
          (of_Keeps P (page env req t g) w (page-Keeps req t g w h)))

-- A request for the index page, over the trial of the activity context.
pub index_page-Keeps :
    {D : Type 0} (P : Db D → Type 0) (d : Decimal D) (settings : Service) (acquire : Option String)
    (sku_first : Bool) (base : IndexEnv D) (req : Option GoodsMarketRequest) (w : World D)
    → P w.db
    → P
        (query_group_buy_market_config
          (record base { index_trial = trial d (new_chain d settings acquire sku_first) })
          req
          w).1.db
unfolding query_group_buy_market_config pure
index_page-Keeps P d settings acquire sku_first base none w h = h
index_page-Keeps P d settings acquire sku_first base (some req) w h =
    let env = record base { index_trial = trial d (new_chain d settings acquire sku_first) } in
    elim (Bool-cases (is_index_request req)) [
      | inl valid ↦ rw valid (
          answer-Keeps P _ _ _ _ (
            of_Keeps P (λ v. (env.index_trial (to_market_product req) >>= λ t. page_of env req t) v)
              w
              (bind-Keeps P _ _ w
                (trial-Keeps P d settings acquire sku_first (to_market_product req) w h)
                λ t v k. page_of-Keeps P env req t v k)))
      | inr invalid ↦ rw invalid h
    ]
