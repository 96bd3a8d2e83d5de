-- ===== src/Service/Reach.antt =====
-- The trade core as a whole: the worlds that the three services reach from an empty market, in any
-- order, with any requests, clocks, draws and failures.
use group_buy_market.Prelude.{ℕ, Bool, true, ◌≡◌, pos, ◌≤ℤ◌, String, str_eq, Option, List, []}
use group_buy_market.Trade.Entities.{
  Time, UserEntity, PayActivityEntity, PayDiscountEntity, TradePaySuccessEntity,
  TradeRefundCommandEntity,
}
use group_buy_market.Trade.Notify.{NotifyTaskEntity}
use group_buy_market.Store.Rows.{GroupBuyActivity, NotifyTask, Catalog, Db, Keys, Bitmaps, World}
use group_buy_market.Consistency.Counts.{Consistent, OrdersUnique}
use group_buy_market.Consistency.Orders.{lock_market_pay_order-OrdersUnique}
use group_buy_market.Service.Lock.{lock_order}
use group_buy_market.Service.Lock.Safety.{lock_order-Keeps, lock_order-Consistent}
use group_buy_market.Service.Settlement.{settle_order}
use group_buy_market.Service.Settlement.Safety.{OneTeam, settle_order-Consistent}
use group_buy_market.Service.Refund.{strategy_map, refund_order_of}
use group_buy_market.Service.Refund.Safety.{refund_order_of-Consistent}
use group_buy_market.Service.Unique.{
  Unique, settle_order-OrdersUnique, refund_order_of-OrdersUnique,
}

module _ {D : Type 0} where
  -- An empty market with its activities.
  abbrev pub empty_db : List GroupBuyActivity → Catalog D → Db D
  empty_db activities catalog = record {
    activities = activities;
    teams = [];
    orders = [];
    tasks = [];
    catalog = catalog;
  }

  -- The steps: a lock that opens teams for at least one buyer, a settlement of a number that is of
  -- one team only, any refund; and `elsewhere`, whatever happens to the activities, the tasks, the
  -- catalog, Redis, the started callbacks and the coming failures.
  pub data Reachable : World D → Type 0 where
    start :
        (activities : List GroupBuyActivity) (catalog : Catalog D) (keys : Keys) (bitmaps : Bitmaps)
        (faults : List (Option String))
        → Reachable (record {
          db = empty_db activities catalog;
          redis = keys;
          bitmaps = bitmaps;
          faults = faults;
          jobs = [];
        })
    elsewhere :
        (w : World D) (activities : List GroupBuyActivity) (tasks : List NotifyTask)
        (catalog : Catalog D) (keys : Keys) (bitmaps : Bitmaps) (faults : List (Option String))
        (jobs : List NotifyTaskEntity)
        → Reachable w
        → Reachable (record {
          db = record w.db { activities = activities; tasks = tasks; catalog = catalog };
          redis = keys;
          bitmaps = bitmaps;
          faults = faults;
          jobs = jobs;
        })
    locked :
        (w : World D) (checked_at now : Time) (team_draws order_draws : List ℕ) (user : UserEntity)
        (activity : PayActivityEntity) (discount : PayDiscountEntity D)
        → (str_eq activity.team_id "" ≡ true → pos 1 ≤ℤ activity.target_count)
        → Reachable w
        → Reachable (lock_order checked_at now team_draws order_draws user activity discount w).1
    settled :
        (w : World D) (black : String → String → Bool) (now : Time) (topic T : String)
        (pay : TradePaySuccessEntity)
        → OneTeam pay.user_id pay.out_trade_no T w.db
        → Reachable w
        → Reachable (settle_order black now topic pay w).1
    refunded :
        (w : World D) (now : Time) (topic refund_topic : String) (cmd : TradeRefundCommandEntity)
        → Reachable w
        → Reachable (refund_order_of (strategy_map now refund_topic) topic cmd w).1

  abbrev Sound : World D → Type 0
  Sound w = Consistent w.db × OrdersUnique w.db.orders

  Reachable-Sound : {w : World D} → Reachable w → Sound w
  Reachable-Sound (start activities catalog keys bitmaps faults) =
      (record { unique = tt; agree = tt; owned = tt }, tt)
  Reachable-Sound (elsewhere w activities tasks catalog keys bitmaps faults jobs r) =
      let h = Reachable-Sound r in
      (record { unique = h.0.unique; agree = h.0.agree; owned = h.0.owned }, h.1)
  Reachable-Sound (locked w checked_at now team_draws order_draws user activity discount room r) =
      let h = Reachable-Sound r in
      (
        lock_order-Consistent checked_at now team_draws order_draws user activity discount w room
            h.0,
        lock_order-Keeps Unique (λ n t o a v k. lock_market_pay_order-OrdersUnique n t o a v k)
            checked_at now team_draws order_draws user activity discount w h.1,
      )
  Reachable-Sound (settled w black now topic T pay own r) =
      let h = Reachable-Sound r in
      (
        settle_order-Consistent black now topic T pay w own h.0,
        settle_order-OrdersUnique black now topic pay w h.1,
      )
  Reachable-Sound (refunded w now topic refund_topic cmd r) =
      let h = Reachable-Sound r in
      (
        refund_order_of-Consistent now topic refund_topic cmd w h.1 h.0,
        refund_order_of-OrdersUnique now topic refund_topic cmd w h.1,
      )

  -- In every world that locks, settlements and refunds reach from a market without orders, with
  -- any requests, clocks, draws and failures and in any order, the tables are consistent: team
  -- numbers are unique, every order's team has a row, and each team's row counts exactly its locked
  -- and paid orders, at most its target of them; and order numbers are unique. The locks that open
  -- a team have a target of at least one, and the settled numbers are of one team only.
  pub Reachable-Consistent :
      {w : World D} → Reachable w → Consistent w.db × OrdersUnique w.db.orders
  Reachable-Consistent r = Reachable-Sound r
