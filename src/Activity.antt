-- ===== src/Activity.antt =====
-- internal/domain/activity and internal/infrastructure/repository/activity_repository.go: what an
-- activity offers a buyer. The discounts, the trial tree and the queries of the index page.
pub mod Types
pub mod Decimals
pub mod Visibility
pub mod Discount
pub mod Repository
pub mod Trial
pub mod Index
