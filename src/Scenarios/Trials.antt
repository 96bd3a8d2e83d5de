-- ===== src/Scenarios/Trials.antt =====
-- Trials of the mug at the market of `Market`, and the use cases that begin with one.
use group_buy_market.Prelude.{
  ℕ, ◌≡◌, ◌↔◌, refl, false, true, pos, some, none, [], ◌∷◌, List, String, find, codes, arith,
}
use group_buy_market.Types.Codes.{e0006}
use group_buy_market.Types.Outcome.{ok}
use group_buy_market.Store.Rows.{GroupBuyOrder, World}
use group_buy_market.Store.Safe.{Safe, Same}
use group_buy_market.Consistency.Counts.{Consistent}
use group_buy_market.Dcc.{Service, split}
use group_buy_market.Activity.Types.{
  GroupBuyActivityDiscountVo, GroupBuyDiscount, MarketProductEntity, is_visible,
}
use group_buy_market.Activity.Visibility.{StartsWithOne, is_visible-StartsWithOne}
use group_buy_market.Activity.Discount.{two_parts, amount, zj_price, mj_price}
use group_buy_market.Activity.Discount.Fair.{reductions-le}
use group_buy_market.Activity.Repository.Crowd.{to_discount, to_activity_discount}
use group_buy_market.Activity.Trial.{trial, new_chain}
use group_buy_market.Activity.Trial.Offers.{Admitted, Offer, trial-Offer}
use group_buy_market.App.Answer.{Response, succeed, fail}
use group_buy_market.App.Lock.{
  LockEnv, LockRequest, normalize_lock_notify, no_order, to_lock_response,
  lock_market_pay_order_app,
}
use group_buy_market.App.Lock.Safety.{with_trial, lock_market_pay_order_app-Consistent}
use group_buy_market.App.Lock.Repeats.{
  lock_market_pay_order_app-repeated, lock_market_pay_order_app-full,
}
use group_buy_market.App.IndexPage.{
  GoodsMarketRequest, GoodsMarketResponse, IndexEnv, query_group_buy_market_config,
}
use group_buy_market.App.IndexPage.Complete.{FreeTeams, query_group_buy_market_config-FreeTeams}
use group_buy_market.Repository.Queries.{to_market_pay_order}
use group_buy_market.Scenarios.Amounts.{whole, whole-IsOrdered}
use group_buy_market.Scenarios.Market.{
  activity, team, d1, market, calm, unpaid_order, market-Consistent,
}

-- Neither downgraded nor cut.
abbrev pub settings : Service
settings = record {
  downgrade_switch = 48 ∷ [];
  cut_range = [];
  sc_blacklist = [];
  cache_switch = 48 ∷ [];
}

abbrev mug : MarketProductEntity
mug = record { user_id = "carl"; goods_id = "g"; source = "s"; channel = "c"; activity_id = none }

trial-Offer_example : Safe (trial whole (new_chain whole settings none false) mug) calm λ t v.
    Admitted whole whole-IsOrdered settings none false mug
    × Offer whole whole-IsOrdered calm mug t
    × Same calm v
trial-Offer_example = trial-Offer whole whole-IsOrdered settings none false mug calm

abbrev draws : List ℕ
draws = 1 ∷ 2 ∷ 3 ∷ []

abbrev pub env : LockEnv ℕ
env = record {
  zero_amount = 0;
  index_trial = trial whole (new_chain whole settings none false);
  checked_at = pos 5;
  now = pos 10;
  team_draws = draws;
  order_draws = draws;
}

abbrev pub carl_locks : LockRequest
carl_locks = record {
  user_id = "carl";
  team_id = "T";
  activity_id = pos 100;
  goods_id = "g";
  source = "s";
  channel = "c";
  out_trade_no = "n3";
  notify_config = none;
  notify_url = "";
}

lock_market_pay_order_app-Consistent_example :
    Consistent
      (lock_market_pay_order_app
        (with_trial whole whole-IsOrdered settings none false env)
        (some carl_locks)
        calm).1.db
lock_market_pay_order_app-Consistent_example =
    lock_market_pay_order_app-Consistent whole whole-IsOrdered settings none false env
      (some carl_locks) calm (omega arith, tt) market-Consistent

-- Bob asks again under the number of his unpaid order.
abbrev bob_locks : LockRequest
bob_locks = record carl_locks { user_id = "bob"; out_trade_no = "n2" }

lock_market_pay_order_app-repeated_example :
    lock_market_pay_order_app env (some bob_locks) calm
    ≡ (ok (succeed (to_lock_response (to_market_pay_order unpaid_order))), calm)
unfolding find normalize_lock_notify
lock_market_pay_order_app-repeated_example =
    lock_market_pay_order_app-repeated env bob_locks unpaid_order calm refl refl refl refl

abbrev full_team : GroupBuyOrder ℕ
full_team = record team { lock_count = pos 3 }

abbrev full_market : World ℕ
full_market = record calm { db = record market { teams = full_team ∷ [] } }

lock_market_pay_order_app-full_example :
    lock_market_pay_order_app env (some carl_locks) full_market
    ≡ (ok (fail (no_order 0) e0006), full_market)
unfolding find normalize_lock_notify
lock_market_pay_order_app-full_example =
    lock_market_pay_order_app-full env carl_locks full_team full_market refl refl refl refl refl
      refl

abbrev index_env : IndexEnv ℕ
index_env = record {
  index_trial = trial whole (new_chain whole settings none false);
  shuffle = λ lists. lists;
  now = pos 20;
  later = pos 21;
  page_time = pos 22;
}

abbrev carl_looks : GoodsMarketRequest
carl_looks = record { user_id = "carl"; source = "s"; channel = "c"; goods_id = "g" }

abbrev scoped : String → GroupBuyActivityDiscountVo
scoped scope = record (to_activity_discount activity d1) { tag_scope = scope }

is_visible-StartsWithOne_example : (is_visible (scoped "1,2") ≡ false) ↔ StartsWithOne (codes "1,2")
is_visible-StartsWithOne_example = is_visible-StartsWithOne (scoped "1,2")

-- 10 off from 100 on.
abbrev from_hundred : GroupBuyDiscount
from_hundred = record (to_discount d1) { market_plan = "MJ"; market_expr = "100,10" }

reductions-le_example :
    (whole.less_than_or_equal 0 (amount whole (codes "100,10")) ≡ true
      → whole.less_than_or_equal (zj_price whole 100 from_hundred) 100 ≡ true)
    × ((x y : List ℕ)
        → two_parts (split (codes "100,10")) ≡ some (x, y)
        → whole.less_than_or_equal 0 (amount whole y) ≡ true
        → whole.less_than_or_equal (mj_price whole 100 from_hundred) 100 ≡ true)
reductions-le_example = reductions-le whole whole-IsOrdered 100 from_hundred refl

query_group_buy_market_config-FreeTeams_example :
    (a : Response (GoodsMarketResponse ℕ)) × ((query_group_buy_market_config index_env
        (some carl_looks)
        calm).0
      ≡ ok a)
    × FreeTeams (pos 21) a.payload
query_group_buy_market_config-FreeTeams_example =
    query_group_buy_market_config-FreeTeams whole whole-IsOrdered settings none false index_env
      (some carl_looks) calm
