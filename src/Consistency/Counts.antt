-- ===== src/Consistency/Counts.antt =====
-- What the counters of a team row count: the orders of the team that are not closed, and those paid.
use group_buy_market.Prelude.{
  ◌<◌, ◌==◌, ltb, Bool, ◌&&◌, pos, ◌≤ℤ◌, String, str_eq, List, [], ◌∷◌, ◌≡◌, ◌≢◌, All, count_where,
}
use group_buy_market.Store.Rows.{GroupBuyOrder, GroupBuyOrderList, Db}

module _ {D : Type 0} where
  -- An order that holds a place of the team: locked (0) or paid (1).
  abbrev pub holds : String → GroupBuyOrderList D → Bool
  holds team_id o = str_eq o.team_id team_id && ltb o.status 2

  abbrev pub paid : String → GroupBuyOrderList D → Bool
  paid team_id o = str_eq o.team_id team_id && o.status == 1

  -- A team row agrees with the orders.
  pub record Agrees (orders : List (GroupBuyOrderList D)) (t : GroupBuyOrder D) : Type 0 where
    pub locks : t.lock_count ≡ pos (count_where (holds t.team_id) orders)
    pub completes : t.complete_count ≡ pos (count_where (paid t.team_id) orders)
    pub fits : t.lock_count ≤ℤ t.target_count

  -- `uq_team_id`: no two rows of one team.
  abbrev pub TeamsUnique : List (GroupBuyOrder D) → Type 0
  TeamsUnique [] = Unit
  TeamsUnique (t ∷ ts) = All (λ u. u.team_id ≢ t.team_id) ts × TeamsUnique ts

  abbrev pub row_of : String → GroupBuyOrder D → Bool
  row_of team_id t = str_eq t.team_id team_id

  -- An order's team has a row.
  abbrev pub HasTeam : List (GroupBuyOrder D) → GroupBuyOrderList D → Type 0
  HasTeam teams o = 0 < count_where (row_of o.team_id) teams

  pub record Consistent (db : Db D) : Type 0 where
    pub unique : TeamsUnique db.teams
    pub agree : All (Agrees db.orders) db.teams
    pub owned : All (HasTeam db.teams) db.orders

  -- `uq_order_id`: no two rows of one order.
  abbrev pub OrdersUnique : List (GroupBuyOrderList D) → Type 0
  OrdersUnique [] = Unit
  OrdersUnique (o ∷ os) = All (λ u. u.order_id ≢ o.order_id) os × OrdersUnique os
