-- ===== src/Activity/Index.antt =====
-- internal/domain/activity/service/index_service.go: the trial and the teams of the index page.
pub mod Joinable
use group_buy_market.Prelude.{
  ℕ, zero, suc, ◌==◌, if◌then◌else◌, Bool, true, false, ℤ, String, List, [], ◌∷◌, ◌++◌,
}
use group_buy_market.Trade.Entities.{Time}
use group_buy_market.Store.Rows.{GroupBuyOrderList}
use group_buy_market.Store.Call.{Call, pure, ◌>>=◌}
use group_buy_market.Activity.Types.{UserGroupBuyOrderDetailEntity}
use group_buy_market.Activity.Repository.Details.{
  query_in_progress_by_owner, query_in_progress_by_random,
}

module _ {D : Type 0} where
  unfoldable pub query_in_progress_list :
      (List (GroupBuyOrderList D) → List (GroupBuyOrderList D))
      → Time
      → Time
      → ℤ
      → String
      → ℕ
      → ℕ
      → Call D (List UserGroupBuyOrderDetailEntity)
  query_in_progress_list shuffle now later activity_id user_id owner_count random_count = do
    own ←
        if owner_count == 0
        then pure []
        else query_in_progress_by_owner now later activity_id user_id owner_count
    others ←
        if random_count == 0
        then pure []
        else query_in_progress_by_random shuffle now later activity_id user_id random_count
    pure (own ++ others)
