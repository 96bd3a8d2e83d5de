-- ===== src/Consistency/Recount.antt =====
-- How a change of the order rows changes the counts of each team, and the team rows with it.
use group_buy_market.Prelude.{
  ℕ, ◌+◌, ◌==◌, ltb, Bool, true, false, String, str_eq, str_eq_eq, str_eq_self, List, [], ◌∷◌, ◌++◌,
  ◌≡◌, ◌≢◌, ap, All, All-map, count_where, count_where-append, arith, inl, inr, Bool-cases,
}
use group_buy_market.Store.Rows.{GroupBuyOrder, GroupBuyOrderList}
use group_buy_market.Store.Table.{update_where, Moves, count_where-update_where}
use group_buy_market.Consistency.Counts.{holds, paid, Agrees}

abbrev pub bit : Bool → ℕ
bit true = 1
bit false = 0

pub str_eq_ne : (s t : String) → s ≢ t → str_eq s t ≡ false
str_eq_ne s t h = elim (Bool-cases (str_eq s t)) [
  | inl e ↦ absurd (h (str_eq_eq s t e))
  | inr e ↦ e
]

module _ {D : Type 0} where
  -- One order of the team `T` changes: `ah` and `bh` say whether it held a place before and after,
  -- `ap` and `bp` whether it was paid. No other team's counts change.
  pub record Recount (orders orders' : List (GroupBuyOrderList D)) (T : String) (ah bh ap bp : Bool)
      : Type 0 where
    pub own_holds : count_where (holds T) orders' + bit ah ≡ count_where (holds T) orders + bit bh
    pub own_paid : count_where (paid T) orders' + bit ap ≡ count_where (paid T) orders + bit bp
    pub other_holds :
        (k : String) → T ≢ k → count_where (holds k) orders' ≡ count_where (holds k) orders
    pub other_paid :
        (k : String) → T ≢ k → count_where (paid k) orders' ≡ count_where (paid k) orders

  -- What the updated rows must be for that.
  abbrev pub Changes :
      (GroupBuyOrderList D → Bool)
      → (GroupBuyOrderList D → GroupBuyOrderList D)
      → String
      → Bool
      → Bool
      → Bool
      → Bool
      → GroupBuyOrderList D
      → Type 0
  Changes p f T ah bh ap bp o =
      p o ≡ true
      → (o.team_id ≡ T)
        × ((f o).team_id ≡ T)
        × (ltb o.status 2 ≡ ah)
        × (ltb (f o).status 2 ≡ bh)
        × ((o.status == 1) ≡ ap)
        × (((f o).status == 1) ≡ bp)

  module _ (p : GroupBuyOrderList D → Bool) (f : GroupBuyOrderList D → GroupBuyOrderList D)
      (T : String) (ah bh ap bp : Bool) where
    own_holds-Moves :
        (o : GroupBuyOrderList D) → Changes p f T ah bh ap bp o → Moves p f (holds T) ah bh o
    own_holds-Moves o c h = ground (arith, c h, str_eq_self T)

    own_paid-Moves :
        (o : GroupBuyOrderList D) → Changes p f T ah bh ap bp o → Moves p f (paid T) ap bp o
    own_paid-Moves o c h = ground (arith, c h, str_eq_self T)

    other_holds-Moves :
        (k : String)
        → T ≢ k
        → (o : GroupBuyOrderList D) → Changes p f T ah bh ap bp o
        → Moves p f (holds k) false false o
    other_holds-Moves k ne o c h = ground (arith, c h, str_eq_ne T k ne)

    other_paid-Moves :
        (k : String)
        → T ≢ k
        → (o : GroupBuyOrderList D) → Changes p f T ah bh ap bp o
        → Moves p f (paid k) false false o
    other_paid-Moves k ne o c h = ground (arith, c h, str_eq_ne T k ne)

    pub Recount-update_where :
        (orders : List (GroupBuyOrderList D))
        → All (Changes p f T ah bh ap bp) orders
        → count_where p orders ≡ 1
        → Recount orders (update_where p f orders) T ah bh ap bp
    Recount-update_where orders cs one = record {
      own_holds = ground (
        arith,
        count_where-update_where p f (holds T) ah bh orders (All-map _ _ orders own_holds-Moves cs),
      );
      own_paid = ground (
        arith,
        count_where-update_where p f (paid T) ap bp orders (All-map _ _ orders own_paid-Moves cs),
      );
      other_holds = λ k ne. ground (
        arith,
        count_where-update_where p f (holds k) false false orders
            (All-map _ _ orders (other_holds-Moves k ne) cs),
      );
      other_paid = λ k ne. ground (
        arith,
        count_where-update_where p f (paid k) false false orders
            (All-map _ _ orders (other_paid-Moves k ne) cs),
      );
    }

  pub Recount-insert :
      (orders : List (GroupBuyOrderList D)) (o : GroupBuyOrderList D)
      → o.status ≡ 0
      → Recount orders (orders ++ o ∷ []) o.team_id false true false false
  unfolding count_where
  Recount-insert orders o e = record {
    own_holds =
        ground (arith, count_where-append (holds o.team_id) orders (o ∷ []), str_eq_self o.team_id);
    own_paid = ground (arith, count_where-append (paid o.team_id) orders (o ∷ []));
    other_holds = λ k ne.
        ground (arith, count_where-append (holds k) orders (o ∷ []), str_eq_ne o.team_id k ne);
    other_paid = λ k ne.
        ground (arith, count_where-append (paid k) orders (o ∷ []), str_eq_ne o.team_id k ne);
  }

  -- A team that is not the changed one still agrees.
  pub Agrees-other :
      (orders orders' : List (GroupBuyOrderList D)) (T : String) (ah bh ap bp : Bool)
      (t : GroupBuyOrder D)
      → Recount orders orders' T ah bh ap bp
      → T ≢ t.team_id
      → Agrees orders t
      → Agrees orders' t
  Agrees-other orders orders' T ah bh ap bp t r ne a =
      ground (arith, r.other_holds t.team_id ne, r.other_paid t.team_id ne)
