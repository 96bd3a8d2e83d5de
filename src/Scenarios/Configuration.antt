-- ===== src/Scenarios/Configuration.antt =====
-- The configuration centre at small settings.
use group_buy_market.Prelude.{ℕ, ◌≡◌, refl, List, [], ◌∷◌}
use group_buy_market.Dcc.{Service, is_sc_black_intercept, trim_left, trim_right}
use group_buy_market.Dcc.Blacklist.{join, listed, is_sc_black_intercept-listed}

-- A cut range of "95" and a black list of "ab" and "cd".
abbrev settings : Service
settings = record {
  downgrade_switch = 48 ∷ [];
  cut_range = 57 ∷ 53 ∷ [];
  sc_blacklist = join (97 ∷ 98 ∷ []) ((99 ∷ 100 ∷ []) ∷ []);
  cache_switch = 48 ∷ [];
}

-- The user "u1".
abbrev u1 : List ℕ
u1 = 117 ∷ 49 ∷ []

is_sc_black_intercept-listed_example :
    is_sc_black_intercept settings (99 ∷ []) (100 ∷ [])
    ≡ listed (99 ∷ 100 ∷ []) ((97 ∷ 98 ∷ []) ∷ (99 ∷ 100 ∷ []) ∷ [])
unfolding trim_left trim_right
is_sc_black_intercept-listed_example =
    is_sc_black_intercept-listed settings (99 ∷ []) (100 ∷ []) (97 ∷ 98 ∷ []) ((99 ∷ 100 ∷ []) ∷ [])
      ((refl, (refl, tt)), refl) (((refl, (refl, tt)), refl), tt) refl (λ e. cc)
