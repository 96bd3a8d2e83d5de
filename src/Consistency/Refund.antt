-- ===== src/Consistency/Refund.antt =====
-- The three refund transactions and the counters.
use mathlib.Core.Path.{subst}
use group_buy_market.Prelude.{
  ℕ, ◌+◌, true, false, ℤ, pos, negsuc, ◌+ℤ◌, ◌≤ℤ◌, pos-pred, String, str_eq_eq, List, ◌≡◌, refl,
  sym, ◌∙◌, ap, All, All-map, All-find, find-test, count_where, arith, int_laws,
}
use group_buy_market.Trade.Entities.{
  Time, TradeRefundOrderEntity, build_unpaid2refund_aggregate, build_paid2refund_aggregate,
  build_paid_team2refund_aggregate,
}
use group_buy_market.Store.Rows.{GroupBuyOrder, GroupBuyOrderList, Db, World}
use group_buy_market.Store.Rules.{
  pure-Post, statement-Post, require-Post, found-Post, transaction-keeps,
}
use group_buy_market.Repository.Refund.{
  is_refundable, close, of_team, add_progress, write_progress, unpaid2refund, paid2refund,
  paid_team2refund,
}
use group_buy_market.Consistency.Counts.{holds, Agrees, Consistent}
use group_buy_market.Consistency.Recount.{Recount, Changes}
use group_buy_market.Consistency.Teams.{Consistent-step}
use group_buy_market.Consistency.Settle.{task-Consistent}

-- A counter that loses one.
lose-one : (l : ℤ) (n m : ℕ) → l ≡ pos n → m + 1 ≡ n → l +ℤ negsuc 0 ≡ pos m
lose-one l n m e h = ap (λ c. c +ℤ negsuc 0) e ∙ pos-pred n m (omega arith)

shrink-le : (l t : ℤ) → l ≤ℤ t → l +ℤ negsuc 0 ≤ℤ t
shrink-le l t h = omega int_laws

module _ {D : Type 0} where
  -- The order that the refund closes is an order of the team that it names.
  abbrev pub RefundBelongs : TradeRefundOrderEntity → ℕ → Db D → Type 0
  RefundBelongs order from_status db =
      All (λ o. is_refundable order from_status o ≡ true → o.team_id ≡ order.team_id) db.orders

  unpaid-Changes :
      (now : Time) (order : TradeRefundOrderEntity) (o : GroupBuyOrderList D)
      → (is_refundable order 0 o ≡ true → o.team_id ≡ order.team_id)
      → Changes (is_refundable order 0) (close now) order.team_id true false false false o
  unpaid-Changes now order o h e = (h e, h e, ground arith, refl, ground arith, refl)

  paid-Changes :
      (now : Time) (order : TradeRefundOrderEntity) (o : GroupBuyOrderList D)
      → (is_refundable order 1 o ≡ true → o.team_id ≡ order.team_id)
      → Changes (is_refundable order 1) (close now) order.team_id true false true false o
  paid-Changes now order o h e = (h e, h e, ground arith, refl, ground arith, refl)

  unpaid-Agrees :
      (now : Time) (order : TradeRefundOrderEntity) (before orders : List (GroupBuyOrderList D))
      (t : GroupBuyOrder D)
      → Recount before orders order.team_id true false false false
      → t.team_id ≡ order.team_id
      → Agrees before t
      → Agrees orders (
          add_progress now
            (build_unpaid2refund_aggregate order (negsuc 0)).group_buy_progress
            true
            false
            t)
  unfolding build_unpaid2refund_aggregate
  unpaid-Agrees now order before orders t r e a = record {
    locks = lose-one _ _ _ a.locks (rw e (omega (arith, r.own_holds)));
    completes = a.completes ∙ ap pos (rw e (omega (arith, r.own_paid)));
    fits = shrink-le t.lock_count t.target_count a.fits;
  }

  paid-Agrees :
      (now : Time) (order : TradeRefundOrderEntity) (before orders : List (GroupBuyOrderList D))
      (t : GroupBuyOrder D)
      → Recount before orders order.team_id true false true false
      → t.team_id ≡ order.team_id
      → Agrees before t
      → Agrees orders (
          add_progress now
            (build_paid2refund_aggregate order (negsuc 0) (negsuc 0)).group_buy_progress
            true
            true
            t)
  unfolding build_paid2refund_aggregate
  paid-Agrees now order before orders t r e a = record {
    locks = lose-one _ _ _ a.locks (rw e (omega (arith, r.own_holds)));
    completes = lose-one _ _ _ a.completes (rw e (omega (arith, r.own_paid)));
    fits = shrink-le t.lock_count t.target_count a.fits;
  }

  -- From consistent tables where the order to close is one of the named team, the refund of an
  -- unpaid order by -1 leaves consistent tables, on every branch and with every failure.
  pub unpaid2refund-Consistent :
      (now : Time) (topic : String) (order : TradeRefundOrderEntity) (w : World D)
      → RefundBelongs order 0 w.db
      → Consistent w.db
      → Consistent (unpaid2refund now topic (build_unpaid2refund_aggregate order (negsuc 0)) w).1.db
  unfolding unpaid2refund build_unpaid2refund_aggregate
  unpaid2refund-Consistent now topic order w own c = transaction-keeps Consistent _ w c (
      statement-Post _ _ w _ λ fs. require-Post _ _ _ _ _ λ one_order. statement-Post _ _ _ _ λ fs'.
        require-Post _ _ _ _ _ λ one_team. statement-Post _ _ _ _ λ fs''. pure-Post _ _ _ (
          task-Consistent _ _ (
            Consistent-step w.db order.team_id true false false false (is_refundable order 0)
              (close now) (of_team order.team_id) _ (λ o. refl) (λ t. refl)
              (λ t e. str_eq_eq t.team_id order.team_id e)
              (λ orders t r e same a. unpaid-Agrees now order w.db.orders orders t r same a)
              (All-map _ _ w.db.orders (unpaid-Changes now order) own) one_order one_team c)))

  -- From consistent tables where the order to close is one of the named team, the refund of a paid
  -- order of a team that is not complete, by -1 and -1, leaves consistent tables, on every branch and
  -- with every failure.
  pub paid2refund-Consistent :
      (now : Time) (topic : String) (order : TradeRefundOrderEntity) (w : World D)
      → RefundBelongs order 1 w.db
      → Consistent w.db
      → Consistent
          (paid2refund now topic (build_paid2refund_aggregate order (negsuc 0) (negsuc 0)) w).1.db
  unfolding paid2refund build_paid2refund_aggregate
  paid2refund-Consistent now topic order w own c = transaction-keeps Consistent _ w c (
      statement-Post _ _ w _ λ fs. require-Post _ _ _ _ _ λ one_order. statement-Post _ _ _ _ λ fs'.
        require-Post _ _ _ _ _ λ one_team. statement-Post _ _ _ _ λ fs''. pure-Post _ _ _ (
          task-Consistent _ _ (
            Consistent-step w.db order.team_id true false true false (is_refundable order 1)
              (close now) (of_team order.team_id) _ (λ o. refl) (λ t. refl)
              (λ t e. str_eq_eq t.team_id order.team_id e)
              (λ orders t r e same a. paid-Agrees now order w.db.orders orders t r same a)
              (All-map _ _ w.db.orders (paid-Changes now order) own) one_order one_team c)))

  write-Agrees :
      (now : Time) (order : TradeRefundOrderEntity) (before orders : List (GroupBuyOrderList D))
      (row t : GroupBuyOrder D)
      → Recount before orders order.team_id true false true false
      → row.team_id ≡ order.team_id
      → t.team_id ≡ order.team_id
      → Agrees before row
      → Agrees before t
      → Agrees orders
          (write_progress now (row.lock_count +ℤ negsuc 0) (row.complete_count +ℤ negsuc 0) t)
  write-Agrees now order before orders row t r row_of e b a = record {
    locks = lose-one _ _ _ b.locks (rw (row_of, e) (omega (arith, r.own_holds)));
    completes = lose-one _ _ _ b.completes (rw (row_of, e) (omega (arith, r.own_paid)));
    fits = shrink-le row.lock_count t.target_count (subst (λ l. l ≤ℤ t.target_count) same a.fits);
  }
    where
      same : t.lock_count ≡ row.lock_count
      same = a.locks ∙ ap (λ k. pos (count_where (holds k) before)) (e ∙ sym row_of) ∙ sym b.locks

  -- From consistent tables where the order to close is one of the named team, the refund of a paid
  -- order of a complete team, which reads the team's counts and writes them back, leaves consistent
  -- tables, on every branch and with every failure.
  pub paid_team2refund-Consistent :
      (now : Time) (topic : String) (order : TradeRefundOrderEntity) (w : World D)
      → RefundBelongs order 1 w.db
      → Consistent w.db
      → Consistent
          (paid_team2refund now topic
            (build_paid_team2refund_aggregate order (negsuc 0) (negsuc 0))
            w).1.db
  unfolding paid_team2refund build_paid_team2refund_aggregate
  paid_team2refund-Consistent now topic order w own c = transaction-keeps Consistent _ w c (
      statement-Post _ _ w _ λ fs. require-Post _ _ _ _ _ λ one_order. statement-Post _ _ _ _ λ fs'.
        found-Post _ _ _ _ λ row e.
          let same = str_eq_eq row.team_id order.team_id (find-test _ w.db.teams row e) in
          let b = All-find (Agrees w.db.orders) _ w.db.teams row c.agree e in
          statement-Post _ _ _ _ λ fs2. require-Post _ _ _ _ _ λ one_team.
            statement-Post _ _ _ _ λ fs3. pure-Post _ _ _ (
              task-Consistent _ _ (
                Consistent-step w.db order.team_id true false true false (is_refundable order 1)
                  (close now) (of_team order.team_id) _ (λ o. refl) (λ t. refl)
                  (λ t e. str_eq_eq t.team_id order.team_id e)
                  (λ orders t r e own' a.
                    write-Agrees now order w.db.orders orders row t r same own' b a)
                  (All-map _ _ w.db.orders (paid-Changes now order) own) one_order one_team c)))
