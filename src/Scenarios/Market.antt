-- ===== src/Scenarios/Market.antt =====
-- A market with one activity and one team of three: one member has paid, one has not.
use group_buy_market.Prelude.{ℕ, refl, pos, String, none, some, [], ◌∷◌, count_where, arith}
use group_buy_market.Trade.Entities.{
  UserEntity, PayActivityEntity, PayDiscountEntity, GroupBuyOrderAggregate,
  GroupBuyTeamSettlementAggregate, TradePaySuccessEntity, TradeRefundOrderEntity,
  TradeRefundCommandEntity, team_settled,
}
use group_buy_market.Store.Rows.{
  GroupBuyActivity, GroupBuyOrder, GroupBuyOrderList, NotifyTask, GroupBuyDiscountRow, Catalog, Db,
  Keys, Bitmaps, World,
}
use group_buy_market.Repository.Queries.{to_team}
use group_buy_market.Consistency.Counts.{Consistent}

abbrev pub activity : GroupBuyActivity
activity = record {
  activity_id = pos 100;
  activity_name = "spring";
  discount_id = "d1";
  group_type = pos 0;
  take_limit_count = pos 3;
  target = pos 3;
  valid_time = pos 15;
  status = 1;
  start_time = pos 0;
  end_time = pos 1000;
  tag_id = "";
  tag_scope = "";
}

abbrev pub team : GroupBuyOrder ℕ
team = record {
  team_id = "T";
  activity_id = pos 100;
  source = "s";
  channel = "c";
  original_price = 100;
  deduction_price = 20;
  pay_price = 80;
  target_count = pos 3;
  complete_count = pos 1;
  lock_count = pos 2;
  status = 0;
  valid_start_time = pos 0;
  valid_end_time = pos 900;
  notify_type = "MQ";
  notify_url = none;
  create_time = pos 0;
  update_time = pos 0;
}

abbrev order_of : String → String → String → ℕ → GroupBuyOrderList ℕ
order_of user_id order_id out_trade_no status = record {
  user_id = user_id;
  team_id = "T";
  order_id = order_id;
  activity_id = pos 100;
  start_time = pos 0;
  end_time = pos 1000;
  goods_id = "g";
  source = "s";
  channel = "c";
  original_price = 100;
  deduction_price = 20;
  pay_price = 80;
  status = status;
  out_trade_no = out_trade_no;
  out_trade_time = none;
  biz_id = order_id;
  create_time = pos 0;
  update_time = pos 0;
}

abbrev pub paid_order : GroupBuyOrderList ℕ
paid_order = order_of "ann" "o1" "n1" 1

abbrev pub unpaid_order : GroupBuyOrderList ℕ
unpaid_order = order_of "bob" "o2" "n2" 0

abbrev pub d1 : GroupBuyDiscountRow
d1 = record {
  discount_id = "d1";
  discount_name = "spring";
  discount_desc = "20 off";
  discount_type = 0;
  market_plan = "ZJ";
  market_expr = "20";
  tag_id = "";
}

-- A mug at 100, with 20 off.
abbrev pub catalog : Catalog ℕ
catalog = record {
  discounts = d1 ∷ [];
  skus =
      record {
        source = "s";
        channel = "c";
        goods_id = "g";
        goods_name = "mug";
        original_price = 100;
      }
      ∷ [];
  sc_sku_activities =
      record { source = "s"; channel = "c"; activity_id = pos 100; goods_id = "g" } ∷ [];
  crowd_tags = [];
  crowd_tags_jobs = [];
  crowd_tags_details = [];
}

abbrev pub no_bitmaps : Bitmaps
no_bitmaps k = none

abbrev pub market : Db ℕ
market = record {
  activities = activity ∷ [];
  teams = team ∷ [];
  orders = paid_order ∷ unpaid_order ∷ [];
  tasks = [];
  catalog = catalog;
}

abbrev pub no_keys : Keys
no_keys k = none

abbrev pub calm : World ℕ
calm = record { db = market; redis = no_keys; bitmaps = no_bitmaps; faults = []; jobs = [] }

abbrev pub carl : UserEntity
carl = record { user_id = "carl" }

abbrev pub join_request : PayActivityEntity
join_request = record {
  team_id = "T";
  activity_id = pos 100;
  activity_name = "spring";
  start_time = pos 0;
  end_time = pos 1000;
  valid_time = pos 15;
  target_count = pos 3;
}

abbrev pub price : PayDiscountEntity ℕ
price = record {
  source = "s";
  channel = "c";
  goods_id = "g";
  goods_name = "mug";
  original_price = 100;
  deduction_price = 20;
  pay_price = 80;
  out_trade_no = "n3";
  notify_config = none;
}

abbrev pub joining : GroupBuyOrderAggregate ℕ
joining = record {
  user_entity = carl;
  pay_activity_entity = join_request;
  pay_discount_entity = price;
  user_take_order_count = pos 0;
}

abbrev pub opening : GroupBuyOrderAggregate ℕ
opening = record joining { pay_activity_entity = record join_request { team_id = "" } }

abbrev pub bob_pays : TradePaySuccessEntity
bob_pays = record {
  source = "s";
  channel = "c";
  user_id = "bob";
  out_trade_no = "n2";
  out_trade_time = pos 500;
}

abbrev pub bob_settles : GroupBuyTeamSettlementAggregate
bob_settles = record {
  user_entity = record { user_id = "bob" };
  group_buy_team_entity = to_team "topic" team;
  trade_pay_success_entity = bob_pays;
}

abbrev pub refund_of : String → String → String → TradeRefundOrderEntity
refund_of user_id order_id out_trade_no = record {
  user_id = user_id;
  order_id = order_id;
  team_id = "T";
  activity_id = pos 100;
  out_trade_no = out_trade_no;
}

abbrev pub bob_refunds : TradeRefundCommandEntity
bob_refunds = record { user_id = "bob"; out_trade_no = "n2"; source = "s"; channel = "c" }

abbrev pub task_row : NotifyTask
task_row = record {
  activity_id = pos 100;
  team_id = "T";
  notify_category = none;
  notify_type = "MQ";
  notify_mq = some "topic";
  notify_url = none;
  notify_count = pos 0;
  notify_status = 0;
  parameter_json = team_settled "T" [];
  uuid = "u1";
  create_time = pos 0;
  update_time = pos 0;
}

abbrev pub with_task : ℕ → World ℕ
with_task status = record calm {
  db = record market { tasks = record task_row { notify_status = status } ∷ [] };
}

pub market-Consistent : Consistent market
unfolding count_where
market-Consistent = record {
  unique = (tt, tt);
  agree = (record { locks = refl; completes = refl; fits = omega arith }, tt);
  owned = (omega arith, (omega arith, tt));
}
