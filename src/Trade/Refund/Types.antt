-- ===== src/Trade/Refund/Types.antt =====
-- internal/domain/trade/model/valobj/refund_type.go, and `TradeRefundBehavior` of entity/entities.go.
use group_buy_market.Prelude.{
  ℕ, ◌==◌, if◌then◌else◌, String, str_eq, ◌≡◌, ◌&&◌, ◌||◌, ◌⊎◌, inl, inr, arith,
}
use group_buy_market.Types.Enums.{
  GroupBuyOrderStatus, TradeOrderStatus, group_buy_progress, group_buy_complete,
  group_buy_complete_fail, trade_order_create, trade_order_complete,
}
use group_buy_market.Types.Outcome.{Result, ok, err, unsupported_refund, unknown_refund_type}

pub record RefundType : Type 0 where
  pub code : String
  pub strategy : String
  pub info : String

abbrev pub refund_unpaid_unlock : RefundType
refund_unpaid_unlock = record {
  code = "unpaid_unlock";
  strategy = "unpaid2RefundStrategy";
  info = "未支付，未成团";
}

abbrev pub refund_paid_unformed : RefundType
refund_paid_unformed = record {
  code = "paid_unformed";
  strategy = "paid2RefundStrategy";
  info = "已支付，未成团";
}

abbrev pub refund_paid_formed : RefundType
refund_paid_formed = record {
  code = "paid_formed";
  strategy = "paidTeam2RefundStrategy";
  info = "已支付，已成团";
}

unfoldable pub get_refund_strategy : GroupBuyOrderStatus → TradeOrderStatus → Result RefundType
get_refund_strategy team_status order_status =
    if team_status == group_buy_progress && order_status == trade_order_create
    then ok refund_unpaid_unlock
    else if team_status == group_buy_progress && order_status == trade_order_complete
    then ok refund_paid_unformed
    else if (team_status == group_buy_complete || team_status == group_buy_complete_fail)
        && order_status == trade_order_complete
    then ok refund_paid_formed
    else err (unsupported_refund team_status order_status)

unfoldable pub get_refund_type_by_code : String → Result RefundType
get_refund_type_by_code code =
    if str_eq code "unpaid_unlock"
    then ok refund_unpaid_unlock
    else if str_eq code "paid_unformed"
    then ok refund_paid_unformed
    else if str_eq code "paid_formed"
    then ok refund_paid_formed
    else err (unknown_refund_type code)

-- The order status that the strategy's transaction asks for in its WHERE clause.
abbrev pub TakesFrom : RefundType → TradeOrderStatus → Type 0
TakesFrom t s =
    ((t ≡ refund_unpaid_unlock) × (s ≡ trade_order_create))
    ⊎ (((t ≡ refund_paid_unformed) ⊎ (t ≡ refund_paid_formed)) × (s ≡ trade_order_complete))

-- One of the three refund types of the file.
abbrev IsRefundType : RefundType → Type 0
IsRefundType t =
    (t ≡ refund_unpaid_unlock) ⊎ ((t ≡ refund_paid_unformed) ⊎ (t ≡ refund_paid_formed))

get_refund_strategy-IsRefundType :
    (a b : ℕ) (t : RefundType) → get_refund_strategy a b ≡ ok t → IsRefundType t
unfolding get_refund_strategy
get_refund_strategy-IsRefundType a b t h = ground arith

get_refund_strategy-TakesFrom :
    (a b : ℕ) (t : RefundType) → get_refund_strategy a b ≡ ok t → TakesFrom t b
unfolding get_refund_strategy
get_refund_strategy-TakesFrom a b t h = ground arith

by_code-IsRefundType : (t : RefundType) → IsRefundType t → get_refund_type_by_code t.code ≡ ok t
unfolding get_refund_type_by_code
by_code-IsRefundType t (inl e) = rw e
by_code-IsRefundType t (inr (inl e)) = rw e
by_code-IsRefundType t (inr (inr e)) = rw e

-- Whenever a refund type is chosen for a team status and an order status, the code of that type
-- leads back to the same type, and the order status is the one that the type's transaction
-- updates: 0 for the unpaid type, 1 for the two paid types.
pub get_refund_strategy-roundtrip :
    (team_status : GroupBuyOrderStatus) (order_status : TradeOrderStatus) (t : RefundType)
    → get_refund_strategy team_status order_status ≡ ok t
    → (get_refund_type_by_code t.code ≡ ok t) × TakesFrom t order_status
get_refund_strategy-roundtrip team_status order_status t h = (
  by_code-IsRefundType t (get_refund_strategy-IsRefundType team_status order_status t h),
  get_refund_strategy-TakesFrom team_status order_status t h,
)

pub data TradeRefundBehavior : Type 0 where
  refund_behavior_success refund_behavior_repeat : TradeRefundBehavior

unfoldable pub behavior_code : TradeRefundBehavior → String
behavior_code refund_behavior_success = "success"
behavior_code refund_behavior_repeat = "repeat"

unfoldable pub behavior_info : TradeRefundBehavior → String
behavior_info refund_behavior_success = "退单成功"
behavior_info refund_behavior_repeat = "重复退单"

pub record TradeRefundBehaviorEntity : Type 0 where
  pub user_id : String
  pub order_id : String
  pub team_id : String
  pub behavior : TradeRefundBehavior
