-- ===== src/Consistency/Teams.antt =====
-- An update of the one row of a team, under the unique key on the team number.
use mathlib.Core.Path.{subst}
use group_buy_market.Prelude.{
  ◌<◌, ◌==◌, ==_eq, Bool, true, false, String, List, [], ◌∷◌, ◌++◌, ◌≡◌, ◌≢◌, refl, sym, ◌∙◌, All,
  All-map, All-and, All-append, count_where, arith, inl, inr, Bool-cases,
}
use group_buy_market.Store.Rows.{GroupBuyOrder, GroupBuyOrderList, Db}
use group_buy_market.Store.Table.{update_where, All-update_where}
use group_buy_market.Consistency.Counts.{Agrees, TeamsUnique, row_of, HasTeam, Consistent}
use group_buy_market.Consistency.Recount.{Recount, Changes, Recount-update_where, Agrees-other}

module _ {D : Type 0} where
  module _ (q : GroupBuyOrder D → Bool) (T : String)
      (own : (t : GroupBuyOrder D) → q t ≡ true → t.team_id ≡ T) where
    count_where-none :
        (ts : List (GroupBuyOrder D)) → All (λ u. u.team_id ≢ T) ts → count_where q ts ≡ 0
    unfolding count_where
    count_where-none [] h = refl
    count_where-none (t ∷ ts) h = elim (Bool-cases (q t)) [
      | inl e ↦ absurd (h.0 (own t e))
      | inr e ↦ ground (arith, e, count_where-none ts h.1)
    ]

    -- If one row matches, then each row that does not match belongs to another team.
    pub unmatched_other :
        (ts : List (GroupBuyOrder D))
        → TeamsUnique ts
        → count_where q ts ≡ 1
        → All (λ t. q t ≡ false → T ≢ t.team_id) ts
    unfolding count_where
    unmatched_other [] u one = tt
    unmatched_other (t ∷ ts) u one = elim (Bool-cases (q t)) [
      | inl e ↦ ((λ f. cc), All-map _ _ ts (λ v ne f same. ne (sym same ∙ sym (own t e))) u.0)
      | inr e ↦ (
        (λ f same.
            ground (arith, e, count_where-none ts (All-map _ _ ts (λ v ne s. ne (s ∙ same)) u.0))),
        unmatched_other ts u.1 (ground arith),
      )
    ]

  module _ (q : GroupBuyOrder D → Bool) (g : GroupBuyOrder D → GroupBuyOrder D)
      (keeps : (t : GroupBuyOrder D) → (g t).team_id ≡ t.team_id) where
    fresh-update_where :
        (k : String) (ts : List (GroupBuyOrder D))
        → All (λ u. u.team_id ≢ k) ts
        → All (λ u. u.team_id ≢ k) (update_where q g ts)
    fresh-update_where k ts =
        All-update_where _ _ q g ts (λ t e ne same. ne (sym (keeps t) ∙ same)) (λ t e ne. ne)

    pub TeamsUnique-update_where :
        (ts : List (GroupBuyOrder D)) → TeamsUnique ts → TeamsUnique (update_where q g ts)
    unfolding update_where
    TeamsUnique-update_where [] u = tt
    TeamsUnique-update_where (t ∷ ts) u = elim (Bool-cases (q t)) [
      | inl e ↦
          rw e (rw (keeps t) (fresh-update_where t.team_id ts u.0), TeamsUnique-update_where ts u.1)
      | inr e ↦ rw e (fresh-update_where t.team_id ts u.0, TeamsUnique-update_where ts u.1)
    ]

  pub TeamsUnique-append :
      (ts : List (GroupBuyOrder D)) (t : GroupBuyOrder D)
      → TeamsUnique ts
      → All (λ u. u.team_id ≢ t.team_id) ts
      → TeamsUnique (ts ++ t ∷ [])
  TeamsUnique-append [] t u h = (tt, tt)
  TeamsUnique-append (v ∷ vs) t u h =
      (All-append _ vs (t ∷ []) u.0 ((λ e. h.0 (sym e)), tt), TeamsUnique-append vs t u.1 h.1)

  -- One order of the team `T` changed and its team row with it: all rows agree again.
  pub Agrees-step :
      (orders orders' : List (GroupBuyOrderList D)) (T : String) (ah bh ap bp : Bool)
      → Recount orders orders' T ah bh ap bp
      → (q : GroupBuyOrder D → Bool) (g : GroupBuyOrder D → GroupBuyOrder D)
        (ts : List (GroupBuyOrder D))
      → ((t : GroupBuyOrder D) → q t ≡ true → t.team_id ≡ T)
      → ((t : GroupBuyOrder D) → q t ≡ true → Agrees orders t → Agrees orders' (g t))
      → TeamsUnique ts
      → count_where q ts ≡ 1
      → All (Agrees orders) ts
      → All (Agrees orders') (update_where q g ts)
  Agrees-step orders orders' T ah bh ap bp r q g ts own hit u one a =
      All-update_where (λ t. Agrees orders t × (q t ≡ false → T ≢ t.team_id)) (Agrees orders') q g
        ts (λ t e h. hit t e h.0)
        (λ t e h. Agrees-other orders orders' T ah bh ap bp t r (h.1 e) h.0)
        (All-and _ _ ts a (unmatched_other q T own ts u one))

  module _ (q : GroupBuyOrder D → Bool) (g : GroupBuyOrder D → GroupBuyOrder D)
      (keeps : (t : GroupBuyOrder D) → (g t).team_id ≡ t.team_id) where
    pub count_where-row_of :
        (k : String) (ts : List (GroupBuyOrder D))
        → count_where (row_of k) (update_where q g ts) ≡ count_where (row_of k) ts
    unfolding update_where count_where
    count_where-row_of k [] = refl
    count_where-row_of k (t ∷ ts) = elim (Bool-cases (q t)) [
      | inl e ↦ rw (e, keeps t) (ground (arith, count_where-row_of k ts))
      | inr e ↦ rw e (ground (arith, count_where-row_of k ts))
    ]

    pub HasTeam-update_where :
        (ts : List (GroupBuyOrder D)) (orders : List (GroupBuyOrderList D))
        → All (HasTeam ts) orders
        → All (HasTeam (update_where q g ts)) orders
    HasTeam-update_where ts orders =
        All-map _ _ orders (λ o h. omega (arith, h, count_where-row_of o.team_id ts))

  -- A transaction that changes one order of `T` and the row of `T` keeps the tables consistent.
  pub Consistent-step :
      (db : Db D) (T : String) (ah bh ap bp : Bool) (p : GroupBuyOrderList D → Bool)
      (f : GroupBuyOrderList D → GroupBuyOrderList D) (q : GroupBuyOrder D → Bool)
      (g : GroupBuyOrder D → GroupBuyOrder D)
      → ((o : GroupBuyOrderList D) → (f o).team_id ≡ o.team_id)
      → ((t : GroupBuyOrder D) → (g t).team_id ≡ t.team_id)
      → ((t : GroupBuyOrder D) → q t ≡ true → t.team_id ≡ T)
      → ((orders : List (GroupBuyOrderList D)) (t : GroupBuyOrder D)
          → Recount db.orders orders T ah bh ap bp
          → q t ≡ true
          → t.team_id ≡ T
          → Agrees db.orders t
          → Agrees orders (g t))
      → All (Changes p f T ah bh ap bp) db.orders
      → (count_where p db.orders == 1) ≡ true
      → (count_where q db.teams == 1) ≡ true
      → Consistent db
      → Consistent
          (record db { orders = update_where p f db.orders; teams = update_where q g db.teams })
  Consistent-step db T ah bh ap bp p f q g keep_f keep_g own hit cs one_order one_team c =
      let r = Recount-update_where p f T ah bh ap bp db.orders cs (==_eq _ 1 one_order) in
      record {
        unique = TeamsUnique-update_where q g keep_g db.teams c.unique;
        agree =
            Agrees-step db.orders _ T ah bh ap bp r q g db.teams own
              (λ t e a. hit _ t r e (own t e) a) c.unique (==_eq _ 1 one_team) c.agree;
        owned = HasTeam-update_where q g keep_g db.teams _ (
            All-update_where (HasTeam db.teams) (HasTeam db.teams) p f db.orders
              (λ o e h. subst (λ k. 0 < count_where (row_of k) db.teams) (sym (keep_f o)) h)
              (λ o e h. h) c.owned);
      }
