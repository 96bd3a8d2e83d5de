-- ===== src/Scenarios/Amounts.antt =====
-- Whole amounts: the decimals of the scenarios, which never go below zero.
use group_buy_market.Prelude.{
  ℕ, ◌+◌, ◌-◌, ◌*◌, ◌≡◌, refl, true, not, ◌&&◌, if◌then◌else◌, leb, ltb, List, [], ◌∷◌, Option,
  none, some, arith,
}
use group_buy_market.Activity.Decimals.{Decimal, IsOrdered}

-- The number that the digits write, after the number `n`; none at another sign.
pub number : ℕ → List ℕ → Option ℕ
number n [] = some n
number n (c ∷ cs) =
    let rest = number (n * 10 + (c - 48)) cs in if leb 48 c && leb c 57 then rest else none

abbrev pub whole : Decimal ℕ
whole = record {
  nought = 0;
  cent = 1;
  sub = λ x y. x - y;
  mul = λ x y. x * y;
  truncate = λ x. x;
  less_than = ltb;
  less_than_or_equal = leb;
  new_from_string = number 0;
}

leb-ltb : (x y : ℕ) → leb x y ≡ not (ltb y x)
leb-ltb x y = ground arith

leb_self : (x : ℕ) → leb x x ≡ true
leb_self x = ground arith

sub-leb : (x y : ℕ) → leb (x - y) x ≡ true
sub-leb x y = ground arith

pub whole-IsOrdered : IsOrdered whole
whole-IsOrdered = record {
  le-eq-not-lt = leb-ltb;
  nought-lt-cent = refl;
  le_refl = leb_self;
  sub-le = λ x y h. sub-leb x y;
}
