-- ===== src/Activity/Index/Joinable.antt =====
-- The teams that the index page offers.
use group_buy_market.Prelude.{
  ℕ, ◌==◌, ◌+◌, ◌≤◌, ltb, ◌≡◌, sym, subst, Bool, true, ◌&&◌, if◌then◌else◌, ltb_ℤ, ℤ, String,
  str_eq, some, List, [], ◌∷◌, ◌++◌, arith, length, length-append, length-take, select, All,
  All-append, Bool-cases, Option-cases, and_left, and_right, inl, inr,
}
use group_buy_market.Trade.Entities.{Time}
use group_buy_market.Store.Rows.{GroupBuyOrder, GroupBuyOrderList, World}
use group_buy_market.Store.Call.{Call, pure}
use group_buy_market.Store.Safe.{
  Same, Same-refl, Same-trans, Safe, pure-Safe, query-Safe, bind-Safe,
}
use group_buy_market.Repository.Queries.{one_of, team_map}
use group_buy_market.Activity.Types.{UserGroupBuyOrderDetailEntity}
use group_buy_market.Activity.Repository.Details.{
  is_joinable, team_ids, details, assemble_order_details, query_in_progress_by_owner,
  query_in_progress_by_random, cut,
}
use group_buy_market.Activity.Index.{query_in_progress_list}

module _ {ℓ} {A : Type ℓ} where
  All-select : (p : A → Bool) (xs : List A) → All (λ x. p x ≡ true) (select p xs)
  unfolding select
  All-select p [] = tt
  All-select p (x ∷ xs) = elim (Bool-cases (p x)) [
    | inl hit ↦ rw hit (hit, All-select p xs)
    | inr miss ↦ rw miss (All-select p xs)
  ]

-- A team with a free place that is still open at the time.
abbrev pub Joinable : Time → UserGroupBuyOrderDetailEntity → Type 0
Joinable now e = (ltb_ℤ e.lock_count e.target_count ≡ true) × (ltb_ℤ now e.valid_end_time ≡ true)

module _ {D : Type 0} where
  team_map-All :
      (P : GroupBuyOrder D → Type 0) (teams : List (GroupBuyOrder D)) (k : String)
      (t : GroupBuyOrder D)
      → All P teams
      → team_map teams k ≡ some t
      → P t
  unfolding team_map
  team_map-All P [] k t h e = cc
  team_map-All P (u ∷ us) k t h e = elim (Option-cases (team_map us k)) [
    | inl none_later ↦ elim (Bool-cases (str_eq u.team_id k)) [
      | inl hit ↦ let same : u ≡ t = cc (rw (none_later, hit) at e) in subst P same h.0
      | inr miss ↦ cc (rw (none_later, miss) at e)
    ]
    | inr (v, later) ↦
        let same : v ≡ t = cc (rw later at e) in subst P same (team_map-All P us k v h.1 later)
  ]

  joinable_of :
      (now : Time) (ids : List String) (t : GroupBuyOrder D)
      → (is_joinable now t && one_of ids t.team_id) ≡ true
      → (ltb_ℤ t.lock_count t.target_count ≡ true) × (ltb_ℤ now t.valid_end_time ≡ true)
  joinable_of now ids t h =
      let open_team = and_left (is_joinable now t) _ h in
      let room = and_right (t.status == 0) _ open_team in
      (
        and_left (ltb_ℤ t.lock_count t.target_count) _ room,
        and_right (ltb_ℤ t.lock_count t.target_count) _ room,
      )

  details-Joinable :
      (now : Time) (ids : List String) (teams : List (GroupBuyOrder D))
      (lists : List (GroupBuyOrderList D))
      → All (λ t. (is_joinable now t && one_of ids t.team_id) ≡ true) teams
      → All (Joinable now) (details teams lists) × (length (details teams lists) ≤ length lists)
  unfolding details
  details-Joinable now ids teams [] h = (tt, omega arith)
  details-Joinable now ids teams (l ∷ ls) h = elim (Option-cases (team_map teams l.team_id)) [
    | inl missing ↦
        let rest = details-Joinable now ids teams ls h in
        rw (missing, details) (rest.0, omega (arith, rest.1))
    | inr (o, found) ↦
        let rest = details-Joinable now ids teams ls h in
        rw (found, details)
          (
            (
              joinable_of now ids o (
                  team_map-All (λ t. (is_joinable now t && one_of ids t.team_id) ≡ true) teams
                    l.team_id o h found),
              rest.0,
            ),
            omega (arith, rest.1),
          )
  ]

  -- At most so many teams, each with a free place.
  abbrev Offers : Time → ℕ → World D → List UserGroupBuyOrderDetailEntity → World D → Type 0
  Offers now n w ds v = All (Joinable now) ds × (length ds ≤ n) × Same w v

  assemble-Offers :
      (now : Time) (n : ℕ) (lists : List (GroupBuyOrderList D)) (w v : World D)
      → length lists ≤ n
      → Same w v
      → Safe (assemble_order_details now lists) v (Offers now n w)
  unfolding assemble_order_details
  assemble-Offers now n [] w v h s = pure-Safe [] v (Offers now n w) (tt, omega arith, s)
  assemble-Offers now n (l ∷ ls) w v h s =
      bind-Safe _ (Offers now n w) _ _ v (query-Safe _ v) λ orders u q.
        let all = details-Joinable now (team_ids (l ∷ ls)) orders (l ∷ ls) (
          subst (All (λ t. (is_joinable now t && one_of (team_ids (l ∷ ls)) t.team_id) ≡ true))
            (sym q.0) (All-select _ v.db.teams)) in
        pure-Safe _ u (Offers now n w) (all.0, omega (arith, all.1), Same-trans s q.1)

  own-Offers :
      (now later : Time) (id : ℤ) (user_id : String) (n : ℕ) (w : World D)
      → Safe (query_in_progress_by_owner now later id user_id n) w (Offers later n w)
  unfolding query_in_progress_by_owner
  own-Offers now later id user_id n w =
      bind-Safe _ (Offers later n w) _ _ w (query-Safe _ w) λ lists v q.
        assemble-Offers later n lists w v (subst (λ l. length l ≤ n) (sym q.0) (length-take n _))
          q.1

  length-cut :
      (shuffle : List (GroupBuyOrderList D) → List (GroupBuyOrderList D)) (n : ℕ)
      (lists : List (GroupBuyOrderList D))
      → length (cut shuffle n lists) ≤ n
  length-cut shuffle n lists = elim (Bool-cases (ltb n (length lists))) [
    | inl more ↦ rw more (length-take n (shuffle lists))
    | inr few ↦ rw few (ground arith)
  ]

  others-Offers :
      (shuffle : List (GroupBuyOrderList D) → List (GroupBuyOrderList D)) (now later : Time)
      (id : ℤ) (user_id : String) (n : ℕ) (w : World D)
      → Safe (query_in_progress_by_random shuffle now later id user_id n) w (Offers later n w)
  unfolding query_in_progress_by_random
  others-Offers shuffle now later id user_id n w =
      bind-Safe _ (Offers later n w) _ _ w (query-Safe _ w) λ lists v q.
        assemble-Offers later n (cut shuffle n lists) w v (length-cut shuffle n lists) q.1

  unless_zero :
      (now : Time) (n : ℕ) (m : Call D (List UserGroupBuyOrderDetailEntity)) (w : World D)
      → Safe m w (Offers now n w)
      → Safe (if n == 0 then pure [] else m) w (Offers now n w)
  unless_zero now n m w h = elim (Bool-cases (n == 0)) [
    | inl zero_count ↦
        rw zero_count (pure-Safe [] w (Offers now n w) (tt, omega arith, Same-refl w))
    | inr some_count ↦ rw some_count h
  ]

  -- The index page's list never crashes and changes no table. It has at most as many teams as were
  -- asked for of the user's own and of others', however the rows are shuffled, and every one of them
  -- had a free place and was open at the time of the second query.
  pub query_in_progress_list-Joinable :
      (shuffle : List (GroupBuyOrderList D) → List (GroupBuyOrderList D)) (now later : Time)
      (id : ℤ) (user_id : String) (own_count random_count : ℕ) (w : World D)
      → Safe
          (query_in_progress_list shuffle now later id user_id own_count random_count)
          w
          (λ ds v. All (Joinable later) ds × (length ds ≤ own_count + random_count) × Same w v)
  unfolding query_in_progress_list
  query_in_progress_list-Joinable shuffle now later id user_id own_count random_count w =
      bind-Safe _ _ _ _ w
        (unless_zero later own_count _ w (own-Offers now later id user_id own_count w))
        λ own v h.
          bind-Safe _ _ _ _ v
            (unless_zero later random_count _ v
              (others-Offers shuffle now later id user_id random_count v))
            λ others u k.
              pure-Safe (own ++ others) u
                (λ ds v.
                  All (Joinable later) ds × (length ds ≤ own_count + random_count) × Same w v)
                (
                  All-append (Joinable later) own others h.0 k.0,
                  omega (arith, length-append own others, h.1, k.1),
                  Same-trans h.2 k.2,
                )
