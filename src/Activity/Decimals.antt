-- ===== src/Activity/Decimals.antt =====
-- The amounts of github.com/shopspring/decimal: the operations that the discounts call, and the laws
-- of its documentation that the theorems use. `new_from_string` is none where it returns an error;
-- the code drops that error and goes on with the zero value that comes with it.
use group_buy_market.Prelude.{◌≡◌, Bool, true, not, ℕ, List, Option, none, some}

pub record Decimal (D : Type 0) : Type 0 where
  pub nought : D
  pub cent : D
  pub sub : D → D → D
  pub mul : D → D → D
  pub truncate : D → D
  pub less_than : D → D → Bool
  pub less_than_or_equal : D → D → Bool
  pub new_from_string : List ℕ → Option D

pub record IsOrdered {D : Type 0} (d : Decimal D) : Type 0 where
  pub le-eq-not-lt : (x y : D) → d.less_than_or_equal x y ≡ not (d.less_than y x)
  pub nought-lt-cent : d.less_than d.nought d.cent ≡ true
  pub le_refl : (x : D) → d.less_than_or_equal x x ≡ true
  pub sub-le :
      (x y : D) → d.less_than_or_equal d.nought y ≡ true → d.less_than_or_equal (d.sub x y) x ≡ true

-- `v, _ := decimal.NewFromString(s)`.
abbrev pub or_nought : {D : Type 0} → Decimal D → Option D → D
or_nought d none = d.nought
or_nought d (some x) = x
