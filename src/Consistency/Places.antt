-- ===== src/Consistency/Places.antt =====
-- A place taken: in a team that is joined, and in a team that is opened.
use mathlib.Core.Path.{subst}
use group_buy_market.Prelude.{
  ◌<◌, ◌≤◌, ◌==◌, ==_eq, ltb_ℤ, true, false, ℤ, pos, ◌+ℤ◌, ◌≤ℤ◌, pos-suc, String, str_eq, str_eq_eq,
  str_eq_self, List, [], ◌∷◌, ◌++◌, ◌≡◌, ◌≢◌, refl, sym, ◌∙◌, ap, All, All-and, All-map, All-append,
  count_where, count_where-append, arith, Bool-cases, inl, inr,
}
use group_buy_market.Trade.Entities.{Time}
use group_buy_market.Store.Rows.{GroupBuyOrder, GroupBuyOrderList, Db}
use group_buy_market.Store.Table.{update_where}
use group_buy_market.Repository.Lock.{has_room, lock_one}
use group_buy_market.Consistency.Counts.{holds, paid, row_of, Agrees, Consistent, HasTeam}
use group_buy_market.Consistency.Recount.{Recount, Recount-insert, Agrees-other}
use group_buy_market.Consistency.Teams.{
  Agrees-step, TeamsUnique-append, TeamsUnique-update_where, HasTeam-update_where,
  count_where-row_of,
}

grow-le : (l t : ℤ) → ltb_ℤ l t ≡ true → l +ℤ pos 1 ≤ℤ t
unfolding ◌+ℤ◌
grow-le l t h = ground arith

module _ {D : Type 0} where
  lock_one-Agrees :
      (now : Time) (T : String) (before orders : List (GroupBuyOrderList D)) (t : GroupBuyOrder D)
      → Recount before orders T false true false false
      → has_room T t ≡ true
      → t.team_id ≡ T
      → Agrees before t
      → Agrees orders (lock_one now t)
  lock_one-Agrees now T before orders t r room e a = record {
    locks = ap (λ c. c +ℤ pos 1) a.locks ∙ pos-suc _ ∙ ap pos (rw e (omega (arith, r.own_holds)));
    completes = a.completes ∙ ap pos (rw e (omega (arith, r.own_paid)));
    fits = grow-le t.lock_count t.target_count (ground arith);
  }

  -- A team number that no row has is the number of no order.
  unused-holds :
      (k : String) (ts : List (GroupBuyOrder D)) (orders : List (GroupBuyOrderList D))
      → All (HasTeam ts) orders
      → count_where (row_of k) ts ≡ 0
      → (count_where (holds k) orders ≡ 0) × (count_where (paid k) orders ≡ 0)
  unfolding count_where
  unused-holds k ts [] h none = (refl, refl)
  unused-holds k ts (o ∷ os) h none = elim (Bool-cases (str_eq o.team_id k)) [
    | inl e ↦ absurd (
        omega
          (arith, none, subst (λ j. 0 < count_where (row_of j) ts) (str_eq_eq o.team_id k e) h.0))
    | inr e ↦ ground (arith, e, unused-holds k ts os h.1 none)
  ]

  unused-fresh :
      (k : String) (ts : List (GroupBuyOrder D))
      → count_where (row_of k) ts ≡ 0
      → All (λ u. u.team_id ≢ k) ts
  unfolding count_where
  unused-fresh k [] none = tt
  unused-fresh k (t ∷ ts) none = elim (Bool-cases (str_eq t.team_id k)) [
    | inl e ↦ absurd (ground (arith, e))
    | inr e ↦ (
      (λ same. let hit = str_eq_self k in ground (arith, e, same, hit)),
      unused-fresh k ts (ground (arith, e)),
    )
  ]

  row_of_room :
      (T : String) (ts : List (GroupBuyOrder D))
      → count_where (has_room T) ts ≤ count_where (row_of T) ts
  unfolding count_where
  row_of_room T [] = omega arith
  row_of_room T (t ∷ ts) = ground (arith, row_of_room T ts)

  pub join-Consistent :
      (now : Time) (T : String) (db : Db D) (o : GroupBuyOrderList D)
      → o.team_id ≡ T
      → o.status ≡ 0
      → (count_where (has_room T) db.teams == 1) ≡ true
      → Consistent db
      → Consistent (record db {
        teams = update_where (has_room T) (lock_one now) db.teams;
        orders = db.orders ++ o ∷ [];
      })
  join-Consistent now T db o same fresh one c =
      let r =
        subst (λ k. Recount db.orders (db.orders ++ o ∷ []) k false true false false) same
          (Recount-insert db.orders o fresh) in
      let has : HasTeam (update_where (has_room T) (lock_one now) db.teams) o =
        rw (same, count_where-row_of (has_room T) (lock_one now) (λ t. refl) T db.teams)
          (omega (arith, row_of_room T db.teams, ==_eq _ 1 one)) in
      record {
        unique = TeamsUnique-update_where (has_room T) (lock_one now) (λ t. refl) db.teams c.unique;
        agree =
            Agrees-step db.orders _ T false true false false r (has_room T) (lock_one now) db.teams
              (λ t e. str_eq_eq t.team_id T (ground arith))
              (λ t e a.
                lock_one-Agrees now T db.orders _ t r e (str_eq_eq t.team_id T (ground arith)) a)
              c.unique (==_eq _ 1 one) c.agree;
        owned =
            All-append _ db.orders (o ∷ [])
              (HasTeam-update_where (has_room T) (lock_one now) (λ t. refl) db.teams db.orders
                c.owned)
              (has, tt);
      }

  has_self :
      (t : GroupBuyOrder D) (ts : List (GroupBuyOrder D))
      → 0 < count_where (row_of t.team_id) (ts ++ t ∷ [])
  unfolding count_where
  has_self t ts =
      ground (arith, count_where-append (row_of t.team_id) ts (t ∷ []), str_eq_self t.team_id)

  pub open-Consistent :
      (db : Db D) (t : GroupBuyOrder D) (o : GroupBuyOrderList D)
      → o.team_id ≡ t.team_id
      → o.status ≡ 0
      → t.lock_count ≡ pos 1
      → t.complete_count ≡ pos 0
      → pos 1 ≤ℤ t.target_count
      → count_where (row_of t.team_id) db.teams ≡ 0
      → Consistent db
      → Consistent (record db { teams = db.teams ++ t ∷ []; orders = db.orders ++ o ∷ [] })
  open-Consistent db t o same fresh one none room new c =
      let r =
        subst (λ k. Recount db.orders (db.orders ++ o ∷ []) k false true false false) same
          (Recount-insert db.orders o fresh) in
      let unused = unused-holds t.team_id db.teams db.orders c.owned new in
      let others = unused-fresh t.team_id db.teams new in
      record {
        unique = TeamsUnique-append db.teams t c.unique others;
        agree =
            All-append _ db.teams (t ∷ [])
              (All-map (λ u. Agrees db.orders u × (u.team_id ≢ t.team_id)) _ db.teams
                (λ u h.
                  Agrees-other db.orders _ t.team_id false true false false u r (λ e. h.1 (sym e))
                    h.0)
                (All-and _ _ db.teams c.agree others))
              (
                record {
                  locks = one ∙ ap pos (omega (arith, r.own_holds, unused.0));
                  completes = none ∙ ap pos (omega (arith, r.own_paid, unused.1));
                  fits = rw one room;
                },
                tt,
              );
        owned =
            All-append _ db.orders (o ∷ [])
              (All-map _ _ db.orders
                (λ p h. omega (arith, h, count_where-append (row_of p.team_id) db.teams (t ∷ [])))
                c.owned)
              (rw same (has_self t db.teams), tt);
      }
