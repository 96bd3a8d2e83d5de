-- ===== src/Types/Enums.antt =====
-- The integer enums of internal/types/enums and of the trade value objects. Go's `type X int` admits
-- every integer, so a status is the number itself and the constants are names of numbers.
use group_buy_market.Prelude.{ℕ, String}

abbrev pub ActivityStatus : Type 0
ActivityStatus = ℕ

abbrev pub activity_create : ActivityStatus
activity_create = 0

abbrev pub activity_effective : ActivityStatus
activity_effective = 1

abbrev pub activity_expire : ActivityStatus
activity_expire = 2

abbrev pub activity_abandon : ActivityStatus
activity_abandon = 3

abbrev pub GroupBuyOrderStatus : Type 0
GroupBuyOrderStatus = ℕ

abbrev pub group_buy_progress : GroupBuyOrderStatus
group_buy_progress = 0

abbrev pub group_buy_complete : GroupBuyOrderStatus
group_buy_complete = 1

abbrev pub group_buy_fail : GroupBuyOrderStatus
group_buy_fail = 2

abbrev pub group_buy_complete_fail : GroupBuyOrderStatus
group_buy_complete_fail = 3

abbrev pub TradeOrderStatus : Type 0
TradeOrderStatus = ℕ

abbrev pub trade_order_create : TradeOrderStatus
trade_order_create = 0

abbrev pub trade_order_complete : TradeOrderStatus
trade_order_complete = 1

abbrev pub trade_order_close : TradeOrderStatus
trade_order_close = 2

abbrev pub notify_task_http_success : String
notify_task_http_success = "success"

abbrev pub notify_task_http_error : String
notify_task_http_error = "error"

abbrev pub notify_task_http_null : String
notify_task_http_null = "null"
