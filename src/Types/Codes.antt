-- ===== src/Types/Codes.antt =====
-- internal/types/enums/response_code.go and internal/types/common/constants.go.
use group_buy_market.Prelude.{String}

pub record ResponseCode : Type 0 where
  pub code : String
  pub info : String

abbrev pub success : ResponseCode
success = record { code = "0000"; info = "成功" }

abbrev pub un_error : ResponseCode
un_error = record { code = "0001"; info = "未知失败" }

abbrev pub illegal_parameter : ResponseCode
illegal_parameter = record { code = "0002"; info = "非法参数" }

abbrev pub index_exception : ResponseCode
index_exception = record { code = "0003"; info = "唯一索引冲突" }

abbrev pub update_zero : ResponseCode
update_zero = record { code = "0004"; info = "更新记录为0" }

abbrev pub http_exception : ResponseCode
http_exception = record { code = "0005"; info = "HTTP接口调用异常" }

abbrev pub rate_limiter : ResponseCode
rate_limiter = record { code = "0006"; info = "接口限流" }

abbrev pub e0001 : ResponseCode
e0001 = record { code = "E0001"; info = "不存在对应的折扣计算服务" }

abbrev pub e0002 : ResponseCode
e0002 = record { code = "E0002"; info = "无拼团营销配置" }

abbrev pub e0003 : ResponseCode
e0003 = record { code = "E0003"; info = "拼团活动降级拦截" }

abbrev pub e0004 : ResponseCode
e0004 = record { code = "E0004"; info = "拼团活动切量拦截" }

abbrev pub e0005 : ResponseCode
e0005 = record { code = "E0005"; info = "拼团组队失败，记录更新为0" }

abbrev pub e0006 : ResponseCode
e0006 = record { code = "E0006"; info = "拼团组队完结，锁单量已达成" }

abbrev pub e0007 : ResponseCode
e0007 = record { code = "E0007"; info = "拼团人群限定，不可参与" }

abbrev pub e0008 : ResponseCode
e0008 = record { code = "E0008"; info = "拼团组队失败，缓存库存不足" }

abbrev pub e0101 : ResponseCode
e0101 = record { code = "E0101"; info = "拼团活动未生效" }

abbrev pub e0102 : ResponseCode
e0102 = record { code = "E0102"; info = "不在拼团活动有效时间内" }

abbrev pub e0103 : ResponseCode
e0103 = record { code = "E0103"; info = "当前用户参与此拼团次数已达上限" }

abbrev pub e0104 : ResponseCode
e0104 = record { code = "E0104"; info = "不存在的外部交易单号或用户已退单" }

abbrev pub e0105 : ResponseCode
e0105 = record { code = "E0105"; info = "SC渠道黑名单拦截" }

abbrev pub e0106 : ResponseCode
e0106 = record { code = "E0106"; info = "订单交易时间不在拼团有效时间范围内" }

abbrev pub underline : String
underline = "_"

abbrev pub team_stock_key_prefix : String
team_stock_key_prefix = "group_buy_market_team_stock_key_"
