-- ===== src/Repository/Lock.antt =====
-- trade_repository.go: `LockMarketPayOrder`, the transaction that opens or joins a team and inserts
-- the user's order.
pub mod Runs
pub mod Success
use group_buy_market.Prelude.{
  ℕ, ◌==◌, if◌then◌else◌, Bool, ◌&&◌, not, ltb_ℤ, ℤ, pos, ◌+ℤ◌, ◌*ℤ◌, String, str_eq, ◌⧺◌, Option,
  none, some, List,
}
use group_buy_market.Types.Codes.{underline, e0005}
use group_buy_market.Types.Enums.{group_buy_progress, trade_order_create}
use group_buy_market.Types.Outcome.{new_app_exception}
use group_buy_market.Trade.Entities.{
  Time, NotifyConfigVo, notify_http, PayActivityEntity, PayDiscountEntity, MarketPayOrderEntity,
  GroupBuyOrderAggregate,
}
use group_buy_market.Trade.StockKey.{itoa}
use group_buy_market.Store.Rows.{GroupBuyOrder, GroupBuyOrderList}
use group_buy_market.Store.Call.{Call, pure, statement, require, transaction, ◌>>=◌, ◌>>◌}
use group_buy_market.Repository.Text.{random_numeric, duplicate_to_index}
use group_buy_market.Repository.Sql.{set_teams, add_team, add_order, insert, map_error}

-- `time.Minute` in nanoseconds.
abbrev pub minute : ℤ
minute = pos 60000000000

abbrev notify_url_of : Option NotifyConfigVo → Option String
notify_url_of none = none
notify_url_of (some n) = if not (str_eq n.notify_url "") then some n.notify_url else none

abbrev notify_type_of : Option NotifyConfigVo → String
notify_type_of none = notify_http
notify_type_of (some n) = n.notify_type

module _ {D : Type 0} where
  abbrev pub new_team : Time → String → PayActivityEntity → PayDiscountEntity D → GroupBuyOrder D
  new_team now team_id act disc = record {
    team_id = team_id;
    activity_id = act.activity_id;
    source = disc.source;
    channel = disc.channel;
    original_price = disc.original_price;
    deduction_price = disc.deduction_price;
    pay_price = disc.pay_price;
    target_count = act.target_count;
    complete_count = pos 0;
    lock_count = pos 1;
    status = group_buy_progress;
    valid_start_time = now;
    valid_end_time = now +ℤ act.valid_time *ℤ minute;
    notify_type = notify_type_of disc.notify_config;
    notify_url = notify_url_of disc.notify_config;
    create_time = now;
    update_time = now;
  }

  -- The team row that still has room, and its update.
  abbrev pub has_room : String → GroupBuyOrder D → Bool
  has_room team_id t = str_eq t.team_id team_id && ltb_ℤ t.lock_count t.target_count

  abbrev pub lock_one : Time → GroupBuyOrder D → GroupBuyOrder D
  lock_one now t = record t { lock_count = t.lock_count +ℤ pos 1; update_time = now }

  -- The team of the order: a new one under a random number, or the given one with one more lock.
  abbrev pub open_team : Time → String → GroupBuyOrderAggregate D → Call D String
  open_team now team_id agg = do
    insert (add_team (new_team now team_id agg.pay_activity_entity agg.pay_discount_entity))
    pure team_id

  abbrev pub join_team : Time → String → Call D String
  join_team now team_id = do
    n ← statement (set_teams (has_room team_id) (lock_one now))
    require (n == 1) (new_app_exception e0005)
    pure team_id

  -- `fmt.Sprintf("%d_%s_%d", activityId, userId, userTake+1)`.
  abbrev pub biz_id : GroupBuyOrderAggregate D → String
  biz_id agg =
      itoa agg.pay_activity_entity.activity_id
      ⧺ underline
      ⧺ agg.user_entity.user_id
      ⧺ underline
      ⧺ itoa (agg.user_take_order_count +ℤ pos 1)

  abbrev pub new_order : Time → String → String → GroupBuyOrderAggregate D → GroupBuyOrderList D
  new_order now team_id order_id agg = record {
    user_id = agg.user_entity.user_id;
    team_id = team_id;
    order_id = order_id;
    activity_id = agg.pay_activity_entity.activity_id;
    start_time = agg.pay_activity_entity.start_time;
    end_time = agg.pay_activity_entity.end_time;
    goods_id = agg.pay_discount_entity.goods_id;
    source = agg.pay_discount_entity.source;
    channel = agg.pay_discount_entity.channel;
    original_price = agg.pay_discount_entity.original_price;
    deduction_price = agg.pay_discount_entity.deduction_price;
    pay_price = agg.pay_discount_entity.pay_price;
    status = trade_order_create;
    out_trade_no = agg.pay_discount_entity.out_trade_no;
    out_trade_time = none;
    biz_id = biz_id agg;
    create_time = now;
    update_time = now;
  }

  abbrev pub locked_order : String → String → PayDiscountEntity D → MarketPayOrderEntity D
  locked_order team_id order_id disc = record {
    team_id = team_id;
    order_id = order_id;
    original_price = disc.original_price;
    deduction_price = disc.deduction_price;
    pay_price = disc.pay_price;
    trade_order_status = trade_order_create;
  }

  abbrev pub add_list :
      Time → String → GroupBuyOrderAggregate D → String → Call D (MarketPayOrderEntity D)
  add_list now order_id agg team_id = do
    map_error duplicate_to_index (insert (add_order (new_order now team_id order_id agg)))
    pure (locked_order team_id order_id agg.pay_discount_entity)

  -- `team_draws` and `order_draws` are the 8 and the 12 draws of `randomNumeric`.
  unfoldable pub lock_market_pay_order :
      Time → List ℕ → List ℕ → GroupBuyOrderAggregate D → Call D (MarketPayOrderEntity D)
  lock_market_pay_order now team_draws order_draws agg = transaction do
    team_id ←
        (if str_eq agg.pay_activity_entity.team_id ""
          then open_team now (random_numeric team_draws) agg
          else join_team now agg.pay_activity_entity.team_id)
    add_list now (random_numeric order_draws) agg team_id
