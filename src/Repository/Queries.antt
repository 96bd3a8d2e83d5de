-- ===== src/Repository/Queries.antt =====
-- trade_repository.go: the queries of the repository.
use mathlib.Core.Option
use group_buy_market.Prelude.{
  ◌==◌, if◌then◌else◌, Bool, true, false, ◌&&◌, ◌||◌, ltb_ℤ, eq_ℤ, ℤ, pos, String, str_eq, Option,
  none, some, List, [], ◌∷◌, map, take, select, find, count_where,
}
use group_buy_market.Types.Enums.{trade_order_create}
use group_buy_market.Trade.Entities.{
  Time, MarketPayOrderEntity, GroupBuyProgressVo, GroupBuyActivityEntity, GroupBuyTeamEntity,
  TimeoutUnpaidOrderEntity,
}
use group_buy_market.Store.Rows.{GroupBuyActivity, GroupBuyOrder, GroupBuyOrderList}
use group_buy_market.Store.Call.{Call, pure, query, ◌>>=◌}

abbrev or_empty : Option String → String
or_empty none = ""
or_empty (some s) = s

abbrev is_none {ℓ} : {A : Type ℓ} → Option A → Bool
is_none none = true
is_none (some a) = false

abbrev pub to_activity : GroupBuyActivity → GroupBuyActivityEntity
to_activity act = record {
  activity_id = act.activity_id;
  activity_name = act.activity_name;
  discount_id = act.discount_id;
  group_type = act.group_type;
  take_limit_count = act.take_limit_count;
  target = act.target;
  valid_time = act.valid_time;
  status = act.status;
  start_time = act.start_time;
  end_time = act.end_time;
  tag_id = act.tag_id;
  tag_scope = act.tag_scope;
}

abbrev pub one_of : List String → String → Bool
one_of [] s = false
one_of (x ∷ xs) s = str_eq s x || one_of xs s

module _ {D : Type 0} where
  abbrev pub to_market_pay_order : GroupBuyOrderList D → MarketPayOrderEntity D
  to_market_pay_order row = record {
    team_id = row.team_id;
    order_id = row.order_id;
    original_price = row.original_price;
    deduction_price = row.deduction_price;
    pay_price = row.pay_price;
    trade_order_status = row.status;
  }

  -- The WHERE clause on a user and an outside trade number.
  abbrev pub has_out_trade_no : String → String → GroupBuyOrderList D → Bool
  has_out_trade_no user_id out_trade_no o =
      str_eq o.user_id user_id && str_eq o.out_trade_no out_trade_no

  unfoldable pub query_market_pay_order_entity_by_out_trade_no :
      String → String → Call D (Option (MarketPayOrderEntity D))
  query_market_pay_order_entity_by_out_trade_no user_id out_trade_no =
      query λ db.
        Option.map to_market_pay_order (find (has_out_trade_no user_id out_trade_no) db.orders)

  unfoldable pub query_group_buy_progress : String → Call D (Option GroupBuyProgressVo)
  query_group_buy_progress team_id =
      query λ db. Option.map progress (find (λ t. str_eq t.team_id team_id) db.teams)
    where
      progress : GroupBuyOrder D → GroupBuyProgressVo
      progress row = record {
        target_count = row.target_count;
        complete_count = row.complete_count;
        lock_count = row.lock_count;
      }

  unfoldable pub query_group_buy_activity_entity_by_activity_id :
      ℤ → Call D (Option GroupBuyActivityEntity)
  query_group_buy_activity_entity_by_activity_id activity_id =
      query λ db. Option.map to_activity (find (λ a. eq_ℤ a.activity_id activity_id) db.activities)

  unfoldable pub query_order_count_by_activity_id : ℤ → String → Call D ℤ
  query_order_count_by_activity_id activity_id user_id = query λ db.
      pos (count_where (λ o. str_eq o.user_id user_id && eq_ℤ o.activity_id activity_id) db.orders)

  -- `topic` is the repository's `topicTeamSuccess`.
  abbrev pub to_team : String → GroupBuyOrder D → GroupBuyTeamEntity
  to_team topic row = record {
    team_id = row.team_id;
    activity_id = row.activity_id;
    target_count = row.target_count;
    complete_count = row.complete_count;
    lock_count = row.lock_count;
    status = row.status;
    valid_start_time = row.valid_start_time;
    valid_end_time = row.valid_end_time;
    notify_config = some (record {
      notify_type = row.notify_type;
      notify_mq = topic;
      notify_url = or_empty row.notify_url;
    });
  }

  unfoldable pub query_group_buy_team_by_team_id :
      String → String → Call D (Option GroupBuyTeamEntity)
  query_group_buy_team_by_team_id topic team_id =
      query λ db. Option.map (to_team topic) (find (λ t. str_eq t.team_id team_id) db.teams)

  -- The unpaid orders past their end, as the first query selects them.
  abbrev pub is_timeout_unpaid : Time → GroupBuyOrderList D → Bool
  is_timeout_unpaid now o =
      o.status == trade_order_create && (is_none o.out_trade_time && ltb_ℤ o.end_time now)

  -- The Go map that the loop fills: of two rows with one team id the later one stays.
  unfoldable pub team_map : List (GroupBuyOrder D) → String → Option (GroupBuyOrder D)
  team_map [] k = none
  team_map (t ∷ ts) k = elim (team_map ts k) [
    | some u ↦ some u
    | none ↦ if str_eq t.team_id k then some t else none
  ]

  abbrev to_timeout_unpaid : GroupBuyOrderList D → GroupBuyOrder D → TimeoutUnpaidOrderEntity
  to_timeout_unpaid l t = record {
    user_id = l.user_id;
    team_id = t.team_id;
    activity_id = t.activity_id;
    target_count = t.target_count;
    complete_count = t.complete_count;
    lock_count = t.lock_count;
    valid_start_time = t.valid_start_time;
    valid_end_time = t.valid_end_time;
    out_trade_no = l.out_trade_no;
    source = l.source;
    channel = l.channel;
  }

  -- The loop that joins the orders with their teams and skips an order whose team is missing.
  unfoldable pub assemble :
      List (GroupBuyOrder D) → List (GroupBuyOrderList D) → List TimeoutUnpaidOrderEntity
  unfolding team_map
  assemble teams [] = []
  assemble teams (l ∷ ls) = elim (team_map teams l.team_id) [
    | none ↦ assemble teams ls
    | some t ↦ to_timeout_unpaid l t ∷ assemble teams ls
  ]

  abbrev pub join_teams : List (GroupBuyOrderList D) → Call D (List TimeoutUnpaidOrderEntity)
  join_teams [] = pure []
  join_teams (l ∷ ls) = do
    teams ← query λ db. select (λ t. one_of (map (λ o. o.team_id) (l ∷ ls)) t.team_id) db.teams
    pure (assemble teams (l ∷ ls))

  unfoldable pub query_timeout_unpaid_order_list : Time → Call D (List TimeoutUnpaidOrderEntity)
  unfolding assemble
  query_timeout_unpaid_order_list now = do
    lists ← query λ db. take 10 (select (is_timeout_unpaid now) db.orders)
    join_teams lists
