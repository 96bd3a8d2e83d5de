-- ===== src/System/Messages.antt =====
-- The refund queue writes no table: a recovered place is a key of Redis.
use group_buy_market.Prelude.{
  ℤ, Bool, true, false, if◌then◌else◌, String, str_eq, Option, none, some, List, [], ◌∷◌,
  Bool-cases, inl, inr,
}
use group_buy_market.Types.Outcome.{Result, ok, err, panic}
use group_buy_market.Trade.Entities.{Time, TeamRefundSuccess}
use group_buy_market.Store.Rows.{Db, World}
use group_buy_market.Store.Call.{Call, pure, command}
use group_buy_market.Store.Keeps.{
  Keeps, of_Keeps, pure-Keeps, raise-Keeps, bind-Keeps, command-Keeps, lift_bind-Keeps,
}
use group_buy_market.Repository.Stock.{
  refund2_add_recovery, recover_once, release_on_error, incr, del,
}
use group_buy_market.Service.Refund.{
  RefundOrderStrategy, do_reverse_stock, reverse, strategy_map, unpaid2refund_strategy,
  paid2refund_strategy, paid_team2refund_strategy, restore_team_lock_stock,
}
use group_buy_market.Trigger.Listener.{
  Ack, acked, nacked, Body, team_refund_handler, ack_of, after_ack, deliver, consume,
}

module _ {D : Type 0} (P : Db D → Type 0) where
  release-Keeps :
      (lock : String) (r : Result ℤ) (w : World D) → P w.db → Keeps P (release_on_error lock r) w
  unfolding Keeps
  release-Keeps lock (ok n) w h = h
  release-Keeps lock (err e) w h =
      of_Keeps P (λ v. command (λ keys. (tt, del lock keys)) v) w (command-Keeps P _ w h)
  release-Keeps lock panic w h = h

  once-Keeps :
      (key lock : String) (fresh : Bool) (w : World D)
      → P w.db
      → Keeps P (recover_once key lock fresh) w
  unfolding Keeps
  once-Keeps key lock false w h = h
  once-Keeps key lock true w h =
      let counted = command (incr key) w in
      of_Keeps P (release_on_error lock counted.0) counted.1 (
        release-Keeps lock counted.0 counted.1
          (of_Keeps P (λ v. command (incr key) v) w (command-Keeps P _ w h)))

  reverse_stock-Keeps :
      (msg : TeamRefundSuccess) (w : World D) → P w.db → Keeps P (do_reverse_stock msg) w
  unfolding do_reverse_stock refund2_add_recovery
  reverse_stock-Keeps msg w h =
      recovered _ _
        (bind-Keeps P _ _ w (command-Keeps P _ w h) λ fresh v k. once-Keeps _ _ fresh v k)
    where
      recovered :
          (nameless : Bool) (m : Call D (Unit {0}))
          → Keeps P m w
          → Keeps P (if nameless then pure tt else m) w
      recovered true m k = pure-Keeps P tt w h
      recovered false m k = k

  -- What a strategy gives back, if there is one.
  QuietStrategy : Option (RefundOrderStrategy D) → Type 0
  QuietStrategy s = (msg : TeamRefundSuccess) (w : World D) → P w.db → Keeps P (reverse s msg) w

  strategies-Keeps :
      (now : Time) (topic name : String) → QuietStrategy (strategy_map now topic name)
  unfolding QuietStrategy strategy_map unpaid2refund_strategy paid2refund_strategy
      paid_team2refund_strategy
  strategies-Keeps now topic name = elim (Bool-cases (str_eq name "unpaid2RefundStrategy")) [
    | inl e ↦ rw e reverse_stock-Keeps
    | inr e ↦ elim (Bool-cases (str_eq name "paid2RefundStrategy")) [
      | inl f ↦ rw (e, f) reverse_stock-Keeps
      | inr f ↦ elim (Bool-cases (str_eq name "paidTeam2RefundStrategy")) [
        | inl g ↦ rw (e, f, g) reverse_stock-Keeps
        | inr g ↦ rw (e, f, g) (λ msg w h. pure-Keeps P _ w h)
      ]
    ]
  ]

  handler-Keeps :
      (now : Time) (topic : String) (body : Body) (w : World D)
      → P w.db
      → Keeps P (team_refund_handler (strategy_map now topic) body) w
  unfolding team_refund_handler restore_team_lock_stock QuietStrategy
  handler-Keeps now topic none w h = raise-Keeps _ P _ w h
  handler-Keeps now topic (some msg) w h =
      lift_bind-Keeps P _ _ w h λ rt e. strategies-Keeps now topic rt.strategy msg w h

  ack-Keeps : (r : Result (Unit {0})) (w : World D) → P w.db → P (ack_of (r, w)).1.db
  ack-Keeps (ok x) w h = h
  ack-Keeps (err e) w h = h
  ack-Keeps panic w h = h

  after-Keeps :
      (body : Body) (rest : List Body) (a : Ack) (w : World D)
      → P w.db
      → P (after_ack body rest (a, w)).1.db
  after-Keeps body rest acked w h = h
  after-Keeps body rest nacked w h = h

  -- One turn of the consumer of the refund queue.
  pub consume-Keeps :
      (now : Time) (topic : String) (waiting : List Body) (w : World D)
      → P w.db
      → P (consume (team_refund_handler (strategy_map now topic)) waiting w).1.db
  unfolding consume deliver
  consume-Keeps now topic [] w h = h
  consume-Keeps now topic (body ∷ rest) w h =
      let handled = team_refund_handler (strategy_map now topic) body w in
      after-Keeps body rest (ack_of handled).0 (ack_of handled).1 (
        ack-Keeps handled.0 handled.1 (
          of_Keeps P (team_refund_handler (strategy_map now topic) body) w
            (handler-Keeps now topic body w h)))
