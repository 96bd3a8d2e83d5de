-- ===== src/Tag/Rows.antt =====
-- The rows of a crowd: one for each user of a tag.
use group_buy_market.Prelude.{
  ◌≡◌, refl, false, String, Option, none, some, List, [], ◌∷◌, ◌++◌, find, All, Bool-cases, inl,
  inr,
}
use group_buy_market.Trade.Entities.{Time}
use group_buy_market.Store.Rows.{CrowdTagsDetail, Db, World}
use group_buy_market.Store.Keeps.{
  Keeps, of_Keeps, pure-Keeps, bind-Keeps, query-Keeps, statement-Keeps, bitmap-Keeps,
}
use group_buy_market.Activity.Repository.Crowd.{is_detail, add_tag_crowd}
use group_buy_market.Tag.{
  CrowdTagsJobEntity, user_ids, new_detail, create_unless, add_crowd_tags_user_id, add_all, collect,
  update_crowd_tags_statistics, query_crowd_tags_job_entity, exec_tag_batch_job,
}

-- No row after the first is of the same tag and user.
abbrev pub DetailsUnique : List CrowdTagsDetail → Type 0
DetailsUnique [] = Unit
DetailsUnique (r ∷ rs) = All (λ s. is_detail s.tag_id s.user_id r ≡ false) rs × DetailsUnique rs

find-none :
    (tag_id user_id : String) (rows : List CrowdTagsDetail)
    → find (is_detail tag_id user_id) rows ≡ none
    → All (λ r. is_detail tag_id user_id r ≡ false) rows
unfolding find
find-none tag_id user_id [] e = tt
find-none tag_id user_id (r ∷ rs) e = elim (Bool-cases (is_detail tag_id user_id r)) [
  | inl hit ↦ cc (rw hit at e)
  | inr miss ↦ (miss, find-none tag_id user_id rs (rw miss at e))
]

All-snoc :
    (P : CrowdTagsDetail → Type 0) (rows : List CrowdTagsDetail) (x : CrowdTagsDetail)
    → All P rows
    → P x
    → All P (rows ++ x ∷ [])
All-snoc P [] x h p = (p, tt)
All-snoc P (r ∷ rs) x h p = (h.0, All-snoc P rs x h.1 p)

DetailsUnique-snoc :
    (rows : List CrowdTagsDetail) (x : CrowdTagsDetail)
    → All (λ r. is_detail x.tag_id x.user_id r ≡ false) rows
    → DetailsUnique rows
    → DetailsUnique (rows ++ x ∷ [])
DetailsUnique-snoc [] x h u = (tt, tt)
DetailsUnique-snoc (r ∷ rs) x h u = (
  All-snoc (λ s. is_detail s.tag_id s.user_id r ≡ false) rs x u.0 h.0,
  DetailsUnique-snoc rs x h.1 u.1,
)

module _ {D : Type 0} where
  abbrev Unique : Db D → Type 0
  Unique db = DetailsUnique db.catalog.crowd_tags_details

  create-Keeps :
      (now : Time) (tag_id user_id : String) (found : Option CrowdTagsDetail) (w : World D)
      → find (is_detail tag_id user_id) w.db.catalog.crowd_tags_details ≡ found
      → Unique w.db
      → Keeps Unique (create_unless (new_detail now tag_id user_id) found) w
  create-Keeps now tag_id user_id none w e u = statement-Keeps Unique _ w u (
      DetailsUnique-snoc w.db.catalog.crowd_tags_details (new_detail now tag_id user_id)
        (find-none tag_id user_id w.db.catalog.crowd_tags_details e) u)
  create-Keeps now tag_id user_id (some row) w e u = pure-Keeps Unique _ w u

  add_user-Keeps :
      (now : Time) (tag_id user_id : String) (w : World D)
      → Unique w.db
      → Keeps Unique (add_crowd_tags_user_id now tag_id user_id) w
  unfolding add_crowd_tags_user_id add_tag_crowd
  add_user-Keeps now tag_id user_id w u = query-Keeps Unique _ _ w u λ fs.
      bind-Keeps Unique _ _ _
        (create-Keeps now tag_id user_id
          (find (is_detail tag_id user_id) w.db.catalog.crowd_tags_details) _ refl u)
        λ r v k. bitmap-Keeps Unique _ v k

  add_all-Keeps :
      (now : Time) (tag_id : String) (users : List String) (w : World D)
      → Unique w.db
      → Keeps Unique (add_all now tag_id users) w
  unfolding add_all
  add_all-Keeps now tag_id [] w u = pure-Keeps Unique _ w u
  add_all-Keeps now tag_id (x ∷ xs) w u =
      bind-Keeps Unique _ _ w (add_user-Keeps now tag_id x w u)
        λ r v k. add_all-Keeps now tag_id xs v k

  collect-Keeps :
      (now : Time) (tag_id : String) (job : Option CrowdTagsJobEntity) (w : World D)
      → Unique w.db
      → Keeps Unique (collect now tag_id job) w
  unfolding update_crowd_tags_statistics
  collect-Keeps now tag_id none w u = pure-Keeps Unique _ w u
  collect-Keeps now tag_id (some job) w u =
      bind-Keeps Unique _ _ w (add_all-Keeps now tag_id user_ids w u)
        λ r v k. statement-Keeps Unique _ v k k

  -- However a batch job ends, and however often jobs run, a crowd has at most one row for a user: a
  -- job only adds rows of users that have none.
  pub exec_tag_batch_job-Unique :
      (now : Time) (tag_id batch_id : String) (w : World D)
      → DetailsUnique w.db.catalog.crowd_tags_details
      → DetailsUnique (exec_tag_batch_job now tag_id batch_id w).1.db.catalog.crowd_tags_details
  unfolding exec_tag_batch_job query_crowd_tags_job_entity
  exec_tag_batch_job-Unique now tag_id batch_id w u =
      of_Keeps Unique _ w (query-Keeps Unique _ _ w u λ fs. collect-Keeps now tag_id _ _ u)
