-- ===== src/App/IndexPage/Complete.antt =====
-- Every request for the index page is answered.
use group_buy_market.Prelude.{
  ◌≤◌, ◌≡◌, refl, sym, subst, Bool, true, ltb_ℤ, ℤ, String, Option, none, some, List, [], ◌∷◌, map,
  arith, length, All, Bool-cases, inl, inr,
}
use group_buy_market.Types.Outcome.{Result, ok, err, panic, as_app_exception, AppException}
use group_buy_market.Trade.Entities.{Time}
use group_buy_market.Store.Rows.{Db, World}
use group_buy_market.Store.Call.{pure, query, statement, non_nil, ◌>>=◌}
use group_buy_market.Store.Safe.{Safe, SafeResult, pure-Safe, query-Safe, bind-Safe, some-Safe}
use group_buy_market.Dcc.{Service}
use group_buy_market.Activity.Types.{
  UserGroupBuyOrderDetailEntity, TrialBalanceEntity, GroupBuyActivityDiscountVo,
}
use group_buy_market.Activity.Decimals.{Decimal, IsOrdered}
use group_buy_market.Activity.Repository.Details.{
  or_zero, statistic_of, query_team_statistic_by_activity_id,
}
use group_buy_market.Activity.Trial.{trial, new_chain}
use group_buy_market.Activity.Trial.Offers.{trial-Offer}
use group_buy_market.Activity.Index.Joinable.{Joinable, query_in_progress_list-Joinable}
use group_buy_market.App.Answer.{Response, answer, fail_with}
use group_buy_market.App.IndexPage.{
  GoodsMarketRequest, GoodsMarketResponse, TeamDto, IndexEnv, to_team_dto, no_page, or_unknown,
  page, page_of, is_index_request, to_market_product, query_group_buy_market_config,
}

-- A team of the answer with a free place, still open at the time.
abbrev pub Free : Time → TeamDto → Type 0
Free now t = (ltb_ℤ t.lock_count t.target_count ≡ true) × (ltb_ℤ now t.valid_end_time ≡ true)

to_team_dtos :
    (now later : Time) (ds : List UserGroupBuyOrderDetailEntity)
    → All (Joinable later) ds
    → All (Free later) (map (to_team_dto now) ds) × (length (map (to_team_dto now) ds) ≡ length ds)
to_team_dtos now later [] h = (tt, refl)
to_team_dtos now later (x ∷ xs) h =
    let rest = to_team_dtos now later xs h.1 in ((h.0, rest.0), omega (arith, rest.1))

module _ {D : Type 0} where
  -- At most three teams, all of them free.
  abbrev pub FreeTeams : Time → GoodsMarketResponse D → Type 0
  FreeTeams later page = All (Free later) page.team_list × (length page.team_list ≤ 3)

with_code :
    (D : Type 0) (later : Time) (e : Option AppException)
    → FreeTeams later (fail_with (no_page {D = D}) e).payload
with_code D later none = (tt, omega arith)
with_code D later (some e) = (tt, omega arith)

module _ {D : Type 0} where
  counted-Safe : (g : Db D → ℤ) (w : World D) → Safe (λ v. or_zero (query g v)) w (λ a v. Unit {0})
  unfolding Safe statement
  counted-Safe g w = go w.faults
    where
      go :
          (fs : List (Option String))
          → Safe (λ v. or_zero (query g v)) (record w { faults = fs }) (λ a v. Unit {0})
      go [] = tt
      go (none ∷ fs) = tt
      go (some e ∷ fs) = tt

  statistic_of-Safe :
      (ids : List String) (w : World D) → Safe (statistic_of ids) w (λ s v. Unit {0})
  statistic_of-Safe [] w = pure-Safe _ w (λ s v. Unit {0}) tt
  statistic_of-Safe (k ∷ ks) w =
      bind-Safe _ (λ s v. Unit {0}) _ _ w (counted-Safe _ w)
        λ a v h.
          bind-Safe _ (λ s v. Unit {0}) _ _ v (counted-Safe _ v)
            λ b u h'.
              bind-Safe _ (λ s v. Unit {0}) _ _ u (counted-Safe _ u)
                λ c x h''. pure-Safe _ x (λ s v. Unit {0}) tt

  statistic-Safe :
      (id : ℤ) (w : World D) → Safe (query_team_statistic_by_activity_id id) w (λ s v. Unit {0})
  unfolding query_team_statistic_by_activity_id
  statistic-Safe id w =
      bind-Safe _ (λ s v. Unit {0}) _ _ w (query-Safe _ w) λ ids v h. statistic_of-Safe ids v

  known :
      (later : Time) (r : Result (GoodsMarketResponse D)) (w : World D)
      → SafeResult (λ p v. FreeTeams later p) r w
      → SafeResult
          (λ (a : Response (GoodsMarketResponse D)) v. FreeTeams later a.payload)
          (or_unknown (r, w)).0
          (or_unknown (r, w)).1
  unfolding SafeResult
  known later (ok p) w h = h
  known later (err e) w h = (tt, omega arith)
  known later panic w h = h

  answered :
      (later : Time) (r : Result (Response (GoodsMarketResponse D))) (w : World D)
      → SafeResult (λ a v. FreeTeams later a.payload) r w
      → (a : Response (GoodsMarketResponse D)) × ((answer no_page (λ x. x) (r, w)).0 ≡ ok a)
        × FreeTeams later a.payload
  unfolding SafeResult
  answered later (ok a) w h = (a, refl, h)
  answered later (err e) w h = (_, refl, with_code D later (as_app_exception e))
  answered later panic w h = absurd h

module _ {D : Type 0} (d : Decimal D) (o : IsOrdered d) (settings : Service)
    (acquire : Option String) (sku_first : Bool) (base : IndexEnv D) where
  -- The environment with the trial of the activity context.
  abbrev pub with_trial : IndexEnv D
  with_trial = record base { index_trial = trial d (new_chain d settings acquire sku_first) }

  page-Safe :
      (req : GoodsMarketRequest) (t : TrialBalanceEntity D) (g : GroupBuyActivityDiscountVo)
      (w : World D)
      → Safe (page with_trial req t g) w (λ p v. FreeTeams base.later p)
  page-Safe req t g w =
      bind-Safe _ (λ p v. FreeTeams base.later p) _ _ w
        (query_in_progress_list-Joinable base.shuffle base.now base.later g.activity_id req.user_id
          1 2 w)
        λ teams v h.
          bind-Safe _ (λ p v. FreeTeams base.later p) _ _ v (statistic-Safe g.activity_id v)
            λ stat u k.
              let dtos = to_team_dtos base.page_time base.later teams h.0 in
              pure-Safe _ u (λ p v. FreeTeams base.later p) (dtos.0, omega (arith, dtos.1, h.1))

  config-Safe :
      (req : GoodsMarketRequest) (w : World D)
      → Safe
          (with_trial.index_trial (to_market_product req) >>= λ t. page_of with_trial req t)
          w
          (λ a v. FreeTeams base.later a.payload)
  unfolding Safe SafeResult
  config-Safe req w =
      bind-Safe _ (λ a v. FreeTeams base.later a.payload) _ _ w
        (trial-Offer d o settings acquire sku_first (to_market_product req) w)
        λ t v h. with_activity t v h.1.activity h.1.priced.offered
    where
      with_activity :
          (t : TrialBalanceEntity D) (v : World D) (g : GroupBuyActivityDiscountVo)
          → t.group_buy_activity_discount_vo ≡ some g
          → Safe (page_of with_trial req t) v (λ a u. FreeTeams base.later a.payload)
      with_activity t v g e =
          subst
            (λ x.
              Safe (non_nil x >>= λ g. λ w. or_unknown (page with_trial req t g w)) v
                (λ a u. FreeTeams base.later a.payload))
            (sym e)
            (some-Safe g _ v (λ a u. FreeTeams base.later a.payload)
              (known base.later _ _ (page-Safe req t g v)))

  -- Over amounts with the laws of `IsOrdered`, every request for the index page is answered, whatever
  -- fails: no pointer that is read is nil. The
  -- answer, of success or of failure, lists at most three teams, and every one of them had a free
  -- place and was open at the clock of the page's second query.
  pub query_group_buy_market_config-FreeTeams :
      (req : Option GoodsMarketRequest) (w : World D)
      → (a : Response (GoodsMarketResponse D)) × ((query_group_buy_market_config with_trial req w).0
          ≡ ok a)
        × FreeTeams base.later a.payload
  unfolding query_group_buy_market_config pure Safe
  query_group_buy_market_config-FreeTeams none w = (_, refl, (tt, omega arith))
  query_group_buy_market_config-FreeTeams (some req) w = elim (Bool-cases (is_index_request req)) [
    | inl valid ↦ rw valid (answered base.later _ _ (config-Safe req w))
    | inr invalid ↦ rw invalid (_, refl, (tt, omega arith))
  ]
