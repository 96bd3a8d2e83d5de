-- ===== src/System/Crowds.antt =====
-- The batch job of a crowd writes only the catalog.
use group_buy_market.Prelude.{String, Option, none, some, List, [], ◌∷◌}
use group_buy_market.Trade.Entities.{Time}
use group_buy_market.Store.Rows.{CrowdTagsDetail, Db, World}
use group_buy_market.Store.Keeps.{
  Keeps, of_Keeps, pure-Keeps, bind-Keeps, query-Keeps, statement-Keeps, bitmap-Keeps,
}
use group_buy_market.Activity.Repository.Crowd.{add_tag_crowd}
use group_buy_market.Tag.{
  CrowdTagsJobEntity, user_ids, create_unless, add_crowd_tags_user_id, add_all, collect,
  update_crowd_tags_statistics, query_crowd_tags_job_entity, exec_tag_batch_job,
}
use group_buy_market.System.Blind.{Blind}

module _ {D : Type 0} (P : Db D → Type 0) (blind : Blind P) where
  create-Keeps :
      (row : CrowdTagsDetail) (found : Option CrowdTagsDetail) (w : World D)
      → P w.db
      → Keeps P (create_unless row found) w
  create-Keeps row none w h = statement-Keeps P _ w h (blind w.db _ _ h)
  create-Keeps row (some r) w h = pure-Keeps P _ w h

  add_all-Keeps :
      (now : Time) (tag_id : String) (users : List String) (w : World D)
      → P w.db
      → Keeps P (add_all now tag_id users) w
  unfolding add_all add_crowd_tags_user_id add_tag_crowd
  add_all-Keeps now tag_id [] w h = pure-Keeps P _ w h
  add_all-Keeps now tag_id (x ∷ xs) w h =
      bind-Keeps P _ _ w
        (query-Keeps P _ _ w h
          λ fs. bind-Keeps P _ _ _ (create-Keeps _ _ _ h) λ r v k. bitmap-Keeps P _ v k)
        λ r v k. add_all-Keeps now tag_id xs v k

  collect-Keeps :
      (now : Time) (tag_id : String) (job : Option CrowdTagsJobEntity) (w : World D)
      → P w.db
      → Keeps P (collect now tag_id job) w
  unfolding update_crowd_tags_statistics
  collect-Keeps now tag_id none w h = pure-Keeps P _ w h
  collect-Keeps now tag_id (some job) w h =
      bind-Keeps P _ _ w (add_all-Keeps now tag_id user_ids w h)
        λ r v k. statement-Keeps P _ v k (blind v.db _ _ k)

  pub exec_tag_batch_job-Keeps :
      (now : Time) (tag_id batch_id : String) (w : World D)
      → P w.db
      → P (exec_tag_batch_job now tag_id batch_id w).1.db
  unfolding exec_tag_batch_job query_crowd_tags_job_entity
  exec_tag_batch_job-Keeps now tag_id batch_id w h =
      of_Keeps P _ w (query-Keeps P _ _ w h λ fs. collect-Keeps now tag_id _ _ h)
