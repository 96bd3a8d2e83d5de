-- ===== src/Trade/Entities.antt =====
-- internal/domain/trade/model: entity/entities.go, entity/timeout_unpaid.go, valobj/notify.go,
-- valobj/group_buy_progress.go, valobj/team_refund_success.go and aggregate/aggregates.go.
-- `D` is the type of amounts (decimal.Decimal of shopspring/decimal), which this code only copies.
-- A `time.Time` is the integer of its nanoseconds since the zero Time, a Go `int` or `int64` is an
-- integer, and a pointer that may be nil is an `Option`.
use group_buy_market.Prelude.{ℤ, pos, String, Option, List}
use group_buy_market.Types.Enums.{ActivityStatus, GroupBuyOrderStatus, TradeOrderStatus}

abbrev pub Time : Type 0
Time = ℤ

pub record NotifyConfigVo : Type 0 where
  pub notify_type : String
  pub notify_mq : String
  pub notify_url : String

abbrev pub notify_http : String
notify_http = "HTTP"

abbrev pub notify_mq_type : String
notify_mq_type = "MQ"

abbrev pub task_trade_settlement : String
task_trade_settlement = "trade_settlement"

abbrev pub task_trade_unpaid2refund : String
task_trade_unpaid2refund = "trade_unpaid2refund"

abbrev pub task_trade_paid2refund : String
task_trade_paid2refund = "trade_paid2refund"

abbrev pub task_trade_paid_team2refund : String
task_trade_paid_team2refund = "trade_paid_team2refund"

pub record UserEntity : Type 0 where
  pub user_id : String

pub record PayActivityEntity : Type 0 where
  pub team_id : String
  pub activity_id : ℤ
  pub activity_name : String
  pub start_time : Time
  pub end_time : Time
  pub valid_time : ℤ
  pub target_count : ℤ

pub record PayDiscountEntity (D : Type 0) : Type 0 where
  pub source : String
  pub channel : String
  pub goods_id : String
  pub goods_name : String
  pub original_price : D
  pub deduction_price : D
  pub pay_price : D
  pub out_trade_no : String
  pub notify_config : Option NotifyConfigVo

pub record MarketPayOrderEntity (D : Type 0) : Type 0 where
  pub team_id : String
  pub order_id : String
  pub original_price : D
  pub deduction_price : D
  pub pay_price : D
  pub trade_order_status : TradeOrderStatus

pub record GroupBuyActivityEntity : Type 0 where
  pub activity_id : ℤ
  pub activity_name : String
  pub discount_id : String
  pub group_type : ℤ
  pub take_limit_count : ℤ
  pub target : ℤ
  pub valid_time : ℤ
  pub status : ActivityStatus
  pub start_time : Time
  pub end_time : Time
  pub tag_id : String
  pub tag_scope : String

pub record GroupBuyTeamEntity : Type 0 where
  pub team_id : String
  pub activity_id : ℤ
  pub target_count : ℤ
  pub complete_count : ℤ
  pub lock_count : ℤ
  pub status : GroupBuyOrderStatus
  pub valid_start_time : Time
  pub valid_end_time : Time
  pub notify_config : Option NotifyConfigVo

pub record TradeLockRuleCommandEntity : Type 0 where
  pub user_id : String
  pub activity_id : ℤ
  pub team_id : String

pub record TradeLockRuleFilterBackEntity : Type 0 where
  pub user_take_order_count : ℤ
  pub recovery_team_stock_key : String

pub record TradePaySuccessEntity : Type 0 where
  pub source : String
  pub channel : String
  pub user_id : String
  pub out_trade_no : String
  pub out_trade_time : Time

pub record TradePaySettlementEntity : Type 0 where
  pub source : String
  pub channel : String
  pub user_id : String
  pub team_id : String
  pub activity_id : ℤ
  pub out_trade_no : String

pub record TradeSettlementRuleCommandEntity : Type 0 where
  pub source : String
  pub channel : String
  pub user_id : String
  pub out_trade_no : String
  pub out_trade_time : Time

pub record TradeSettlementRuleFilterBackEntity : Type 0 where
  pub team_id : String
  pub activity_id : ℤ
  pub target_count : ℤ
  pub complete_count : ℤ
  pub lock_count : ℤ
  pub status : GroupBuyOrderStatus
  pub valid_start_time : Time
  pub valid_end_time : Time
  pub notify_config : Option NotifyConfigVo

pub record TradeRefundCommandEntity : Type 0 where
  pub user_id : String
  pub out_trade_no : String
  pub source : String
  pub channel : String

pub record TradeRefundOrderEntity : Type 0 where
  pub user_id : String
  pub order_id : String
  pub team_id : String
  pub activity_id : ℤ
  pub out_trade_no : String

pub record TimeoutUnpaidOrderEntity : Type 0 where
  pub user_id : String
  pub team_id : String
  pub activity_id : ℤ
  pub target_count : ℤ
  pub complete_count : ℤ
  pub lock_count : ℤ
  pub valid_start_time : Time
  pub valid_end_time : Time
  pub out_trade_no : String
  pub source : String
  pub channel : String

pub record GroupBuyProgressVo : Type 0 where
  pub target_count : ℤ
  pub complete_count : ℤ
  pub lock_count : ℤ

pub record TeamRefundSuccess : Type 0 where
  pub refund_type : String
  pub user_id : String
  pub team_id : String
  pub order_id : String
  pub out_trade_no : String
  pub activity_id : ℤ

-- What `json.Marshal` writes into `parameter_json`, as the object that it encodes.
pub data Parameter : Type 0 where
  team_settled : String → List String → Parameter
  refund_success : TeamRefundSuccess → Parameter

pub record GroupBuyOrderAggregate (D : Type 0) : Type 0 where
  pub user_entity : UserEntity
  pub pay_activity_entity : PayActivityEntity
  pub pay_discount_entity : PayDiscountEntity D
  pub user_take_order_count : ℤ

pub record GroupBuyTeamSettlementAggregate : Type 0 where
  pub user_entity : UserEntity
  pub group_buy_team_entity : GroupBuyTeamEntity
  pub trade_pay_success_entity : TradePaySuccessEntity

pub record GroupBuyRefundAggregate : Type 0 where
  pub trade_refund_order_entity : TradeRefundOrderEntity
  pub group_buy_progress : GroupBuyProgressVo

unfoldable pub build_unpaid2refund_aggregate : TradeRefundOrderEntity → ℤ → GroupBuyRefundAggregate
build_unpaid2refund_aggregate order lock_delta = record {
  trade_refund_order_entity = order;
  group_buy_progress = record {
    target_count = pos 0;
    complete_count = pos 0;
    lock_count = lock_delta;
  };
}

unfoldable pub build_paid2refund_aggregate :
    TradeRefundOrderEntity → ℤ → ℤ → GroupBuyRefundAggregate
build_paid2refund_aggregate order lock_delta complete_delta = record {
  trade_refund_order_entity = order;
  group_buy_progress = record {
    target_count = pos 0;
    complete_count = complete_delta;
    lock_count = lock_delta;
  };
}

unfoldable pub build_paid_team2refund_aggregate :
    TradeRefundOrderEntity → ℤ → ℤ → GroupBuyRefundAggregate
unfolding build_paid2refund_aggregate
build_paid_team2refund_aggregate = build_paid2refund_aggregate
