-- ===== src/Activity/Repository/Details.antt =====
-- activity_repository.go: the teams in progress and the team statistics of the index page. `now` and
-- `later` are the clocks of the first and of the second query. The counts are not negative. A row
-- that the code selects by some columns is the whole row here; it reads only those columns.
use mathlib.Core.List.{reverse}
use group_buy_market.Prelude.{
  ℕ, ◌==◌, ◌*◌, ltb, ◌&&◌, ◌||◌, if◌then◌else◌, Bool, not, eq_ℤ, ltb_ℤ, ℤ, pos, ◌+ℤ◌, String,
  str_eq, none, some, List, [], ◌∷◌, map, length, take, select, count_where,
}
use group_buy_market.Types.Outcome.{Result, ok, err, panic}
use group_buy_market.Trade.Entities.{Time}
use group_buy_market.Store.Rows.{GroupBuyOrder, GroupBuyOrderList, World}
use group_buy_market.Store.Call.{Call, pure, query, ◌>>=◌}
use group_buy_market.Repository.Queries.{one_of, team_map}
use group_buy_market.Activity.Types.{UserGroupBuyOrderDetailEntity, TeamStatisticVo}

abbrev pub no_statistic : TeamStatisticVo
no_statistic = record {
  all_team_count = pos 0;
  all_team_complete_count = pos 0;
  all_team_user_count = pos 0;
}

-- `SELECT DISTINCT`, and the loop that keeps the team ids seen first.
unfoldable pub distinct : List String → List String → List String
distinct seen [] = []
distinct seen (x ∷ xs) =
    let fresh = x ∷ distinct (x ∷ seen) xs in
    let old = distinct seen xs in if one_of seen x then old else fresh

module _ {D : Type 0} where
  abbrev pub is_open_order : GroupBuyOrderList D → Bool
  is_open_order o = o.status == 0 || o.status == 1

  abbrev pub is_own : ℤ → String → Time → GroupBuyOrderList D → Bool
  is_own activity_id user_id now o =
      eq_ℤ o.activity_id activity_id
      && (str_eq o.user_id user_id && (is_open_order o && ltb_ℤ now o.end_time))

  -- The team ids of the subquery.
  abbrev pub forming_ids : ℤ → List (GroupBuyOrder D) → List String
  forming_ids activity_id teams =
      map (λ t. t.team_id) (select (λ t. eq_ℤ t.activity_id activity_id && t.status == 0) teams)

  abbrev pub is_others : ℤ → String → Time → List (GroupBuyOrder D) → GroupBuyOrderList D → Bool
  is_others activity_id user_id now teams o =
      eq_ℤ o.activity_id activity_id
      && (not (str_eq o.user_id user_id)
          && (is_open_order o
              && (ltb_ℤ now o.end_time && one_of (forming_ids activity_id teams) o.team_id)))

  -- A team that a buyer can still join.
  abbrev pub is_joinable : Time → GroupBuyOrder D → Bool
  is_joinable now t =
      t.status == 0 && (ltb_ℤ t.lock_count t.target_count && ltb_ℤ now t.valid_end_time)

  abbrev pub team_ids : List (GroupBuyOrderList D) → List String
  team_ids lists =
      distinct [] (map (λ l. l.team_id) (select (λ l. not (str_eq l.team_id "")) lists))

  abbrev pub to_detail : GroupBuyOrderList D → GroupBuyOrder D → UserGroupBuyOrderDetailEntity
  to_detail l o = record {
    user_id = l.user_id;
    team_id = o.team_id;
    activity_id = o.activity_id;
    target_count = o.target_count;
    complete_count = o.complete_count;
    lock_count = o.lock_count;
    valid_start_time = o.valid_start_time;
    valid_end_time = o.valid_end_time;
    out_trade_no = l.out_trade_no;
  }

  -- The loop that skips an order whose team was not found.
  unfoldable pub details :
      List (GroupBuyOrder D) → List (GroupBuyOrderList D) → List UserGroupBuyOrderDetailEntity
  unfolding team_map
  details teams [] = []
  details teams (l ∷ ls) = elim (team_map teams l.team_id) [
    | none ↦ details teams ls
    | some o ↦ to_detail l o ∷ details teams ls
  ]

  unfoldable pub assemble_order_details :
      Time → List (GroupBuyOrderList D) → Call D (List UserGroupBuyOrderDetailEntity)
  unfolding details distinct
  assemble_order_details now [] = pure []
  assemble_order_details now (l ∷ ls) = do
    orders ←
        query λ db. select (λ t. is_joinable now t && one_of (team_ids (l ∷ ls)) t.team_id) db.teams
    pure (details orders (l ∷ ls))

  unfoldable pub query_in_progress_by_owner :
      Time → Time → ℤ → String → ℕ → Call D (List UserGroupBuyOrderDetailEntity)
  query_in_progress_by_owner now later activity_id user_id owner_count = do
    lists ←
        query λ db. take owner_count (reverse (select (is_own activity_id user_id now) db.orders))
    assemble_order_details later lists

  -- More rows than asked are shuffled and cut.
  abbrev pub cut :
      (List (GroupBuyOrderList D) → List (GroupBuyOrderList D))
      → ℕ
      → List (GroupBuyOrderList D)
      → List (GroupBuyOrderList D)
  cut shuffle n lists = if ltb n (length lists) then take n (shuffle lists) else lists

  unfoldable pub query_in_progress_by_random :
      (List (GroupBuyOrderList D) → List (GroupBuyOrderList D))
      → Time
      → Time
      → ℤ
      → String
      → ℕ
      → Call D (List UserGroupBuyOrderDetailEntity)
  query_in_progress_by_random shuffle now later activity_id user_id random_count = do
    lists ← query λ db.
        take (random_count * 2)
          (reverse (select (is_others activity_id user_id now db.teams) db.orders))
    assemble_order_details later (cut shuffle random_count lists)

  unfoldable pub sum_lock_count : List (GroupBuyOrder D) → ℤ
  sum_lock_count [] = pos 0
  sum_lock_count (t ∷ ts) = t.lock_count +ℤ sum_lock_count ts

  -- A count whose error is dropped stays 0.
  abbrev pub or_zero : Result ℤ × World D → Result ℤ × World D
  or_zero (ok n, w) = (ok n, w)
  or_zero (err e, w) = (ok (pos 0), w)
  or_zero (panic, w) = (panic, w)

  abbrev pub statistic_of : List String → Call D TeamStatisticVo
  statistic_of [] = pure no_statistic
  statistic_of (k ∷ ks) = do
    all_team ←
        λ w. or_zero (query (λ db. pos (count_where (λ t. one_of (k ∷ ks) t.team_id) db.teams)) w)
    complete_team ← λ w. or_zero (
        query (λ db. pos (count_where (λ t. t.status == 1 && one_of (k ∷ ks) t.team_id) db.teams))
          w)
    user_count ← λ w.
        or_zero (query (λ db. sum_lock_count (select (λ t. one_of (k ∷ ks) t.team_id) db.teams)) w)
    pure (record {
      all_team_count = all_team;
      all_team_complete_count = complete_team;
      all_team_user_count = user_count;
    })

  unfoldable pub query_team_statistic_by_activity_id : ℤ → Call D TeamStatisticVo
  unfolding distinct sum_lock_count
  query_team_statistic_by_activity_id activity_id = do
    ids ← query λ db. distinct [] (
        map (λ o. o.team_id)
          (select (λ o. eq_ℤ o.activity_id activity_id && is_open_order o) db.orders))
    statistic_of ids
