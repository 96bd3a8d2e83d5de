-- ===== src/Repository/Sql.antt =====
-- The SQL statements of trade_repository.go on the tables. An update returns its affected rows; an
-- insert fails on a UNIQUE KEY of docs/dev-ops/mysql/sql/01-group_buy_market.sql, with a message as
-- MySQL writes it.
use group_buy_market.Prelude.{
  ℕ, ◌==◌, Bool, true, false, ◌||◌, if◌then◌else◌, String, str_eq, [], ◌∷◌, ◌++◌, count_where,
}
use group_buy_market.Types.Outcome.{GoError, Result, ok, err, panic, database}
use group_buy_market.Store.Rows.{GroupBuyOrder, GroupBuyOrderList, NotifyTask, Db}
use group_buy_market.Store.Call.{Call, statement, require, ◌>>=◌}
use group_buy_market.Store.Table.{update_where}

abbrev pub duplicate_entry : String
duplicate_entry = "Error 1062: Duplicate entry for key"

module _ {D : Type 0} where
  abbrev pub set_teams :
      (GroupBuyOrder D → Bool) → (GroupBuyOrder D → GroupBuyOrder D) → Db D → ℕ × Db D
  set_teams p f db = (count_where p db.teams, record db { teams = update_where p f db.teams })

  abbrev pub set_orders :
      (GroupBuyOrderList D → Bool) → (GroupBuyOrderList D → GroupBuyOrderList D) → Db D → ℕ × Db D
  set_orders p f db = (count_where p db.orders, record db { orders = update_where p f db.orders })

  abbrev pub set_tasks : (NotifyTask → Bool) → (NotifyTask → NotifyTask) → Db D → ℕ × Db D
  set_tasks p f db = (count_where p db.tasks, record db { tasks = update_where p f db.tasks })

  -- `uq_team_id`.
  abbrev pub add_team : GroupBuyOrder D → Db D → Bool × Db D
  add_team t db =
      if count_where (λ u. str_eq u.team_id t.team_id) db.teams == 0
      then (true, record db { teams = db.teams ++ t ∷ [] })
      else (false, db)

  -- `uq_order_id` and `uq_biz_id`.
  abbrev pub add_order : GroupBuyOrderList D → Db D → Bool × Db D
  add_order o db =
      if count_where (λ u. str_eq u.order_id o.order_id || str_eq u.biz_id o.biz_id) db.orders == 0
      then (true, record db { orders = db.orders ++ o ∷ [] })
      else (false, db)

  abbrev pub add_task : NotifyTask → Db D → Unit {0} × Db D
  add_task t db = (tt, record db { tasks = db.tasks ++ t ∷ [] })

  -- An insert that a unique key refuses is the database's error.
  abbrev pub insert : (Db D → Bool × Db D) → Call D (Unit {0})
  insert g = do fresh ← statement g; require fresh (database duplicate_entry)

module _ {A : Type 0} where
  abbrev relabel : (GoError → GoError) → Result A → Result A
  relabel g (ok a) = ok a
  relabel g (err e) = err (g e)
  relabel g panic = panic

module _ {D A : Type 0} where
  -- `if err := m; err != nil { return g(err) }`.
  abbrev pub map_error : (GoError → GoError) → Call D A → Call D A
  map_error g m w = (relabel g (m w).0, (m w).1)
