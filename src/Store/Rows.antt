-- ===== src/Store/Rows.antt =====
-- internal/infrastructure/dao/po/models.go: the rows of the tables, and the world of a call.
-- A table is the list of its rows by ascending `id`, which is why the rows carry no `id`.
use group_buy_market.Prelude.{ℕ, ℤ, Bool, String, str_eq, if◌then◌else◌, Option, List}
use group_buy_market.Types.Enums.{ActivityStatus, GroupBuyOrderStatus, TradeOrderStatus}
use group_buy_market.Trade.Entities.{Time, Parameter}
use group_buy_market.Trade.Notify.{NotifyTaskStatus, NotifyTaskEntity}

pub record GroupBuyActivity : Type 0 where
  pub activity_id : ℤ
  pub activity_name : String
  pub discount_id : String
  pub group_type : ℤ
  pub take_limit_count : ℤ
  pub target : ℤ
  pub valid_time : ℤ
  pub status : ActivityStatus
  pub start_time : Time
  pub end_time : Time
  pub tag_id : String
  pub tag_scope : String

pub record GroupBuyOrder (D : Type 0) : Type 0 where
  pub team_id : String
  pub activity_id : ℤ
  pub source : String
  pub channel : String
  pub original_price : D
  pub deduction_price : D
  pub pay_price : D
  pub target_count : ℤ
  pub complete_count : ℤ
  pub lock_count : ℤ
  pub status : GroupBuyOrderStatus
  pub valid_start_time : Time
  pub valid_end_time : Time
  pub notify_type : String
  pub notify_url : Option String
  pub create_time : Time
  pub update_time : Time

pub record GroupBuyOrderList (D : Type 0) : Type 0 where
  pub user_id : String
  pub team_id : String
  pub order_id : String
  pub activity_id : ℤ
  pub start_time : Time
  pub end_time : Time
  pub goods_id : String
  pub source : String
  pub channel : String
  pub original_price : D
  pub deduction_price : D
  pub pay_price : D
  pub status : TradeOrderStatus
  pub out_trade_no : String
  pub out_trade_time : Option Time
  pub biz_id : String
  pub create_time : Time
  pub update_time : Time

pub record NotifyTask : Type 0 where
  pub activity_id : ℤ
  pub team_id : String
  pub notify_category : Option String
  pub notify_type : String
  pub notify_mq : Option String
  pub notify_url : Option String
  pub notify_count : ℤ
  pub notify_status : NotifyTaskStatus
  pub parameter_json : Parameter
  pub uuid : String
  pub create_time : Time
  pub update_time : Time

-- The tables of the activity and tag contexts. The code never writes the first three. Times of creation
-- and update that the code neither reads nor writes are left out.
pub record GroupBuyDiscountRow : Type 0 where
  pub discount_id : String
  pub discount_name : String
  pub discount_desc : String
  pub discount_type : ℕ
  pub market_plan : String
  pub market_expr : String
  pub tag_id : String

pub record Sku (D : Type 0) : Type 0 where
  pub source : String
  pub channel : String
  pub goods_id : String
  pub goods_name : String
  pub original_price : D

pub record ScSkuActivity : Type 0 where
  pub source : String
  pub channel : String
  pub activity_id : ℤ
  pub goods_id : String

pub record CrowdTags : Type 0 where
  pub tag_id : String
  pub tag_name : String
  pub tag_desc : String
  pub statistics : ℤ
  pub update_time : Time

pub record CrowdTagsDetail : Type 0 where
  pub tag_id : String
  pub user_id : String
  pub create_time : Time
  pub update_time : Time

pub record CrowdTagsJob : Type 0 where
  pub tag_id : String
  pub batch_id : String
  pub tag_type : ℤ
  pub tag_rule : String
  pub stat_start_time : Time
  pub stat_end_time : Time
  pub status : ℤ

pub record Catalog (D : Type 0) : Type 0 where
  pub discounts : List GroupBuyDiscountRow
  pub skus : List (Sku D)
  pub sc_sku_activities : List ScSkuActivity
  pub crowd_tags : List CrowdTags
  pub crowd_tags_jobs : List CrowdTagsJob
  pub crowd_tags_details : List CrowdTagsDetail

pub record Db (D : Type 0) : Type 0 where
  pub activities : List GroupBuyActivity
  pub teams : List (GroupBuyOrder D)
  pub orders : List (GroupBuyOrderList D)
  pub tasks : List NotifyTask
  pub catalog : Catalog D

-- A Redis key has an integer value or is absent; a lock is a key with the value 1.
abbrev pub Keys : Type 0
Keys = String → Option ℤ

unfoldable pub put : String → Option ℤ → Keys → Keys
put k v keys j = if str_eq j k then v else keys j

-- The Redis strings that are used as bit sets, by the tag that is their key.
abbrev pub Bitmaps : Type 0
Bitmaps = String → Option (ℕ → Bool)

-- `jobs` are the callbacks that calls handed to `safego.Go`, in the order they were started.
pub record World (D : Type 0) : Type 0 where
  pub db : Db D
  pub redis : Keys
  pub bitmaps : Bitmaps
  pub faults : List (Option String)
  pub jobs : List NotifyTaskEntity
