-- ===== src/App/IndexPage.antt =====
-- internal/application/market_index_app.go: the index page, with internal/api/dto/market_index.go and
-- `ToMarketProduct` and `ToGoodsMarketResponse` of assembler/market_assembler.go. `page_time` is the
-- clock of the answer. `Hours`, `Minutes` and `Seconds` are taken as exact: Go adds their fractions
-- as floats, which differs only within some nanoseconds below a whole unit.
pub mod Complete
use group_buy_market.Prelude.{
  ℕ, ◌/◌, ◌%◌, ltb, Bool, true, false, not, ◌||◌, if◌then◌else◌, ◌-ℤ◌, ℤ, pos, negsuc, String,
  str_eq, ◌⧺◌, Option, none, some, List, map,
}
use group_buy_market.Types.Codes.{illegal_parameter, un_error}
use group_buy_market.Types.Outcome.{as_app_exception, Result, ok, err, panic}
use group_buy_market.Trade.Entities.{Time}
use group_buy_market.Trade.StockKey.{itoa}
use group_buy_market.Store.Rows.{GroupBuyOrderList, World}
use group_buy_market.Store.Call.{Call, pure, non_nil, ◌>>=◌}
use group_buy_market.Activity.Types.{
  MarketProductEntity, TrialBalanceEntity, GroupBuyActivityDiscountVo,
  UserGroupBuyOrderDetailEntity, TeamStatisticVo,
}
use group_buy_market.Activity.Repository.Details.{query_team_statistic_by_activity_id}
use group_buy_market.Activity.Index.{query_in_progress_list}
use group_buy_market.App.Answer.{Response, succeed, fail, answer}

pub record GoodsMarketRequest : Type 0 where
  pub user_id : String
  pub source : String
  pub channel : String
  pub goods_id : String

pub record GoodsDto (D : Type 0) : Type 0 where
  pub goods_id : String
  pub original_price : D
  pub deduction_price : D
  pub pay_price : D

pub record TeamDto : Type 0 where
  pub user_id : String
  pub team_id : String
  pub activity_id : ℤ
  pub target_count : ℤ
  pub complete_count : ℤ
  pub lock_count : ℤ
  pub valid_start_time : Time
  pub valid_end_time : Time
  pub valid_time_countdown : String
  pub out_trade_no : String

pub record TeamStatDto : Type 0 where
  pub all_team_count : ℤ
  pub all_team_complete_count : ℤ
  pub all_team_user_count : ℤ

pub record GoodsMarketResponse (D : Type 0) : Type 0 where
  pub activity_id : ℤ
  pub goods : Option (GoodsDto D)
  pub team_list : List TeamDto
  pub team_statistic : Option TeamStatDto

-- `%02d` of a number that is not negative.
abbrev pub two_digits : ℕ → String
two_digits n = if ltb n 10 then "0" ⧺ itoa (pos n) else itoa (pos n)

abbrev pub clock_of : ℤ → String
clock_of (negsuc n) = "00:00:00"
clock_of (pos n) =
    two_digits (n / 3600000000000)
    ⧺ (":" ⧺ (two_digits (n / 60000000000 % 60) ⧺ (":" ⧺ two_digits (n / 1000000000 % 60))))

unfoldable pub countdown_str : Time → Time → String
unfolding itoa
countdown_str from to = clock_of (to -ℤ from)

abbrev pub to_market_product : GoodsMarketRequest → MarketProductEntity
to_market_product req = record {
  user_id = req.user_id;
  goods_id = req.goods_id;
  source = req.source;
  channel = req.channel;
  activity_id = none;
}

abbrev pub to_team_dto : Time → UserGroupBuyOrderDetailEntity → TeamDto
to_team_dto now t = record {
  user_id = t.user_id;
  team_id = t.team_id;
  activity_id = t.activity_id;
  target_count = t.target_count;
  complete_count = t.complete_count;
  lock_count = t.lock_count;
  valid_start_time = t.valid_start_time;
  valid_end_time = t.valid_end_time;
  valid_time_countdown = countdown_str now t.valid_end_time;
  out_trade_no = t.out_trade_no;
}

abbrev pub activity_id_of : Option GroupBuyActivityDiscountVo → ℤ
activity_id_of none = pos 0
activity_id_of (some g) = g.activity_id

abbrev pub is_index_request : GoodsMarketRequest → Bool
is_index_request req = not (
    str_eq req.user_id ""
    || (str_eq req.source "" || (str_eq req.channel "" || str_eq req.goods_id "")))

module _ {D : Type 0} where
  -- The trial and the teams are never nil here.
  abbrev pub to_goods_market_response :
      Time
      → TrialBalanceEntity D
      → List UserGroupBuyOrderDetailEntity
      → TeamStatisticVo
      → GoodsMarketResponse D
  to_goods_market_response now trial teams stat = record {
    activity_id = activity_id_of trial.group_buy_activity_discount_vo;
    goods = some (record {
      goods_id = trial.goods_id;
      original_price = trial.original_price;
      deduction_price = trial.deduction_price;
      pay_price = trial.pay_price;
    });
    team_list = map (to_team_dto now) teams;
    team_statistic = some (record {
      all_team_count = stat.all_team_count;
      all_team_complete_count = stat.all_team_complete_count;
      all_team_user_count = stat.all_team_user_count;
    });
  }

  abbrev pub no_page : GoodsMarketResponse D
  no_page = record { activity_id = pos 0; goods = none; team_list = List.[]; team_statistic = none }

  -- Whatever the error of the two queries is, the answer has the code of unknown failures.
  abbrev pub or_unknown :
      Result (GoodsMarketResponse D) × World D → Result (Response (GoodsMarketResponse D)) × World D
  or_unknown (ok page, w) = (ok (succeed page), w)
  or_unknown (err e, w) = (ok (fail no_page un_error), w)
  or_unknown (panic, w) = (panic, w)

-- What the page calls, and its clocks.
pub record IndexEnv (D : Type 0) : Type 0 where
  pub index_trial : MarketProductEntity → Call D (TrialBalanceEntity D)
  pub shuffle : List (GroupBuyOrderList D) → List (GroupBuyOrderList D)
  pub now : Time
  pub later : Time
  pub page_time : Time

module _ {D : Type 0} (env : IndexEnv D) where
  abbrev pub page :
      GoodsMarketRequest
      → TrialBalanceEntity D
      → GroupBuyActivityDiscountVo
      → Call D (GoodsMarketResponse D)
  page req trial g = do
    teams ← query_in_progress_list env.shuffle env.now env.later g.activity_id req.user_id 1 2
    stat ← query_team_statistic_by_activity_id g.activity_id
    pure (to_goods_market_response env.page_time trial teams stat)

  abbrev pub page_of :
      GoodsMarketRequest → TrialBalanceEntity D → Call D (Response (GoodsMarketResponse D))
  page_of req trial = do
    g ← non_nil trial.group_buy_activity_discount_vo
    λ w. or_unknown (page req trial g w)

  unfoldable pub query_group_buy_market_config :
      Option GoodsMarketRequest → Call D (Response (GoodsMarketResponse D))
  unfolding pure as_app_exception
  query_group_buy_market_config none w = pure (fail no_page illegal_parameter) w
  query_group_buy_market_config (some req) w =
      if is_index_request req
      then answer no_page (λ r. r)
          ((env.index_trial (to_market_product req) >>= λ trial. page_of req trial) w)
      else pure (fail no_page illegal_parameter) w
