-- ===== src/Activity/Repository.antt =====
-- internal/infrastructure/repository/activity_repository.go over the tables and Redis, with the bit
-- sets of internal/infrastructure/redis/redis_service.go. `now` is what a method's `time.Now()`
-- returns; `rand.Shuffle` is a parameter.
pub mod Crowd
pub mod Details
pub mod Reads
