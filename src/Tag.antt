-- ===== src/Tag.antt =====
-- internal/domain/tag/service/tag_service.go and internal/infrastructure/repository/tag_repository.go:
-- the batch job that puts users into the crowd of a tag, in the tables and in the bit set of Redis.
-- `now` is what a method's `time.Now()` returns. `FirstOrCreate` is a query and, if it finds nothing,
-- an insert.
pub mod Crowd
pub mod Rows
use mathlib.Core.Option
use group_buy_market.Prelude.{
  ◌&&◌, if◌then◌else◌, Bool, true, false, ◌+ℤ◌, ℤ, pos, String, str_eq, Option, none, some, List,
  [], ◌∷◌, ◌++◌, find, length,
}
use group_buy_market.Trade.Entities.{Time}
use group_buy_market.Store.Rows.{CrowdTags, CrowdTagsDetail, CrowdTagsJob, Db}
use group_buy_market.Store.Call.{Call, pure, query, statement, ◌>>=◌, ◌>>◌}
use group_buy_market.Store.Table.{update_where}
use group_buy_market.Activity.Repository.Crowd.{is_detail, add_tag_crowd}

pub record CrowdTagsJobEntity : Type 0 where
  pub tag_type : ℤ
  pub tag_rule : String
  pub stat_start_time : Time
  pub stat_end_time : Time

abbrev pub is_job : String → String → CrowdTagsJob → Bool
is_job tag_id batch_id job = str_eq job.tag_id tag_id && str_eq job.batch_id batch_id

abbrev pub to_job : CrowdTagsJob → CrowdTagsJobEntity
to_job job = record {
  tag_type = job.tag_type;
  tag_rule = job.tag_rule;
  stat_start_time = job.stat_start_time;
  stat_end_time = job.stat_end_time;
}

abbrev pub new_detail : Time → String → String → CrowdTagsDetail
new_detail now tag_id user_id = record {
  tag_id = tag_id;
  user_id = user_id;
  create_time = now;
  update_time = now;
}

-- `statistics + count`.
abbrev pub add_statistics : Time → ℤ → CrowdTags → CrowdTags
add_statistics now count row = record row {
  statistics = row.statistics +ℤ count;
  update_time = now;
}

abbrev pub of_tag : String → CrowdTags → Bool
of_tag tag_id row = str_eq row.tag_id tag_id

-- The sample users that the job collects.
abbrev pub user_ids : List String
user_ids =
    "xiaofuge" ∷ "liergou" ∷ "xfg01" ∷ "xfg02" ∷ "xfg03" ∷ "xfg04" ∷ "xfg05" ∷ "xfg06" ∷ "xfg07"
    ∷ "xfg08" ∷ "xfg09" ∷ []

module _ {D : Type 0} where
  unfoldable pub query_crowd_tags_job_entity : String → String → Call D (Option CrowdTagsJobEntity)
  query_crowd_tags_job_entity tag_id batch_id =
      query λ db. Option.map to_job (find (is_job tag_id batch_id) db.catalog.crowd_tags_jobs)

  abbrev pub insert_detail : CrowdTagsDetail → Db D → Unit {0} × Db D
  insert_detail row db = (
    tt,
    record db {
      catalog = record db.catalog {
        crowd_tags_details = db.catalog.crowd_tags_details ++ row ∷ [];
      };
    },
  )

  abbrev pub create_unless : CrowdTagsDetail → Option CrowdTagsDetail → Call D (Unit {0})
  create_unless row none = statement (insert_detail row)
  create_unless row (some found) = pure tt

  unfoldable pub add_crowd_tags_user_id : Time → String → String → Call D (Unit {0})
  add_crowd_tags_user_id now tag_id user_id = do
    found ← query λ db. find (is_detail tag_id user_id) db.catalog.crowd_tags_details
    create_unless (new_detail now tag_id user_id) found
    add_tag_crowd tag_id user_id

  unfoldable pub update_crowd_tags_statistics : Time → String → ℤ → Call D (Unit {0})
  update_crowd_tags_statistics now tag_id count = statement λ db. (
    tt,
    record db {
      catalog = record db.catalog {
        crowd_tags = update_where (of_tag tag_id) (add_statistics now count) db.catalog.crowd_tags;
      };
    },
  )

  -- The loop, which stops at the first error.
  unfoldable pub add_all : Time → String → List String → Call D (Unit {0})
  add_all now tag_id [] = pure tt
  add_all now tag_id (u ∷ us) = add_crowd_tags_user_id now tag_id u >> add_all now tag_id us

  abbrev pub collect : Time → String → Option CrowdTagsJobEntity → Call D (Unit {0})
  collect now tag_id none = pure tt
  collect now tag_id (some job) = do
    add_all now tag_id user_ids
    update_crowd_tags_statistics now tag_id (pos (length user_ids))

  unfoldable pub exec_tag_batch_job : Time → String → String → Call D (Unit {0})
  unfolding add_all
  exec_tag_batch_job now tag_id batch_id = do
    job ← query_crowd_tags_job_entity tag_id batch_id
    collect now tag_id job
