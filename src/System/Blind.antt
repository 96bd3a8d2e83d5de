-- ===== src/System/Blind.antt =====
-- Statements about the teams and the orders alone.
use group_buy_market.Prelude.{List}
use group_buy_market.Store.Rows.{NotifyTask, Catalog, Db}
use group_buy_market.Consistency.Counts.{Consistent, OrdersUnique}

module _ {D : Type 0} where
  -- `P` does not read the callback tasks and the catalog.
  abbrev pub Blind : (Db D → Type 0) → Type 0
  Blind P =
      (db : Db D) (tasks : List NotifyTask) (catalog : Catalog D)
      → P db
      → P (record db { tasks = tasks; catalog = catalog })

  -- The counters of the teams agree with the orders, whose numbers are unique.
  abbrev pub Sound : Db D → Type 0
  Sound db = Consistent db × OrdersUnique db.orders

  pub Sound-Blind : Blind Sound
  Sound-Blind db tasks catalog h =
      (record { unique = h.0.unique; agree = h.0.agree; owned = h.0.owned }, h.1)
