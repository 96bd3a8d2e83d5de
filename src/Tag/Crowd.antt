-- ===== src/Tag/Crowd.antt =====
-- A batch job that succeeds has put every user into the crowd.
use mathlib.Core.Option
use group_buy_market.Prelude.{
  ℕ, ◌==◌, ==_self, ◌≡◌, refl, sym, ap, ◌∙◌, subst, Bool, true, false, if◌then◌else◌, pos, ◌+ℤ◌,
  String, str_eq, str_eq_self, Option, none, some, List, [], ◌∷◌, find, All, All-map,
}
use group_buy_market.Trade.Entities.{Time}
use group_buy_market.Store.Rows.{CrowdTagsDetail, CrowdTagsJob, Bitmaps, World}
use group_buy_market.Store.Table.{update_where}
use group_buy_market.Store.Safe.{
  Same, Same-refl, Safe, pure-Safe, query-Safe, bitmap-Safe, statement-Safe, bitmap_write-Safe,
  bind-Safe, weaken-Safe,
}
use group_buy_market.Activity.Repository.Crowd.{
  exists_key, bit_of, index_from_user_id, set_bit, add_tag_crowd, read_bit, is_tag_crowd_bit,
  is_tag_crowd_range,
}
use group_buy_market.Tag.{
  is_job, to_job, of_tag, add_statistics, user_ids, create_unless, new_detail,
  add_crowd_tags_user_id, add_all, collect, update_crowd_tags_statistics,
  query_crowd_tags_job_entity, exec_tag_batch_job,
}

-- The bit of the user is set in the bit set of the tag.
pub record HasBit (maps : Bitmaps) (tag_id user_id : String) : Type 0 where
  pub exists : exists_key (maps tag_id) ≡ true
  pub bit : bit_of (maps tag_id) (index_from_user_id user_id) ≡ true

or_true : (a b : Bool) → b ≡ true → (if a then true else b) ≡ true
or_true true b h = refl
or_true false b h = h

set_bit-HasBit_self :
    (maps : Bitmaps) (tag_id user_id : String)
    → HasBit (set_bit tag_id (index_from_user_id user_id) maps) tag_id user_id
unfolding set_bit
set_bit-HasBit_self maps tag_id user_id = record {
  exists = rw (str_eq_self tag_id) refl;
  bit = rw (str_eq_self tag_id) (rw (==_self (index_from_user_id user_id)) refl);
}

set_bit-HasBit :
    (maps : Bitmaps) (tag_id user_id : String) (i : ℕ)
    → HasBit maps tag_id user_id
    → HasBit (set_bit tag_id i maps) tag_id user_id
unfolding set_bit
set_bit-HasBit maps tag_id user_id i h = record {
  exists = rw (str_eq_self tag_id) refl;
  bit = rw (str_eq_self tag_id) (or_true (index_from_user_id user_id == i) _ h.bit);
}

module _ {D : Type 0} where
  read-HasBit :
      (tag_id user_id : String) (exists : Bool) (w : World D)
      → HasBit w.bitmaps tag_id user_id
      → Safe (read_bit tag_id user_id exists) w (λ b v. (b ≡ true) × Same w v)
  read-HasBit tag_id user_id false w h =
      pure-Safe true w (λ b v. (b ≡ true) × Same w v) (refl, Same-refl w)
  read-HasBit tag_id user_id true w h =
      weaken-Safe _ (λ b v. (b ≡ true) × Same w v) _ w (λ b v k. (k.0 ∙ h.bit, k.1))
        (bitmap-Safe _ w)

  -- A user whose bit is set is in the crowd range of the tag.
  pub HasBit-in_range :
      (tag_id user_id : String) (w : World D)
      → HasBit w.bitmaps tag_id user_id
      → Safe (is_tag_crowd_range tag_id user_id) w (λ b v. b ≡ true)
  unfolding is_tag_crowd_range is_tag_crowd_bit
  HasBit-in_range tag_id user_id w h =
      bind-Safe (λ b v. (b ≡ true) × (v.bitmaps ≡ w.bitmaps)) (λ b v. b ≡ true) _ _ w
        (bind-Safe _ (λ b v. (b ≡ true) × (v.bitmaps ≡ w.bitmaps)) _ _ w (bitmap-Safe _ w)
          λ e v k.
            weaken-Safe _ (λ b u. (b ≡ true) × (u.bitmaps ≡ w.bitmaps)) _ v
              (λ b u l. (l.0, l.1.bitmaps ∙ k.1.bitmaps))
              (read-HasBit tag_id user_id e v
                (subst (λ m. HasBit m tag_id user_id) (sym k.1.bitmaps) h)))
        λ inside v k.
          bind-Safe _ (λ b u. b ≡ true) _ _ v (bitmap-Safe _ v)
            λ exists u l.
              let there : exists ≡ true = l.0 ∙ (rw k.1 h.exists) in
              rw there (pure-Safe inside u (λ b x. b ≡ true) k.0)

  -- No bit of the tag is cleared, and the tag rows stay.
  record Kept (tag_id : String) (w v : World D) : Type 0 where
    pub bits : (u : String) → HasBit w.bitmaps tag_id u → HasBit v.bitmaps tag_id u
    pub rows : v.db.catalog.crowd_tags ≡ w.db.catalog.crowd_tags

  Kept-refl : (tag_id : String) (w : World D) → Kept tag_id w w
  Kept-refl tag_id w = record { bits = λ u h. h; rows = refl }

  Kept-trans :
      {tag_id : String} {u v w : World D} → Kept tag_id u v → Kept tag_id v w → Kept tag_id u w
  Kept-trans h k = record { bits = λ x b. k.bits x (h.bits x b); rows = k.rows ∙ h.rows }

  create-Safe :
      (tag_id : String) (row : CrowdTagsDetail) (found : Option CrowdTagsDetail) (w v : World D)
      → Same w v
      → Safe
          (create_unless row found)
          v
          (λ r u. (u.bitmaps ≡ w.bitmaps) × (u.db.catalog.crowd_tags ≡ w.db.catalog.crowd_tags))
  create-Safe tag_id row none w v s =
      weaken-Safe _
        (λ r u. (u.bitmaps ≡ w.bitmaps) × (u.db.catalog.crowd_tags ≡ w.db.catalog.crowd_tags)) _ v
        (λ r u h. (
          h.2 ∙ s.bitmaps,
          ap (λ db. db.catalog.crowd_tags) h.1 ∙ ap (λ db. db.catalog.crowd_tags) s.db,
        ))
        (statement-Safe _ v)
  create-Safe tag_id row (some found) w v s =
      pure-Safe _ v
        (λ r u. (u.bitmaps ≡ w.bitmaps) × (u.db.catalog.crowd_tags ≡ w.db.catalog.crowd_tags))
        (s.bitmaps, ap (λ db. db.catalog.crowd_tags) s.db)

  add_user-Safe :
      (now : Time) (tag_id user_id : String) (w : World D)
      → Safe
          (add_crowd_tags_user_id now tag_id user_id)
          w
          (λ r v. HasBit v.bitmaps tag_id user_id × Kept tag_id w v)
  unfolding add_crowd_tags_user_id add_tag_crowd
  add_user-Safe now tag_id user_id w =
      bind-Safe _ (λ r v. HasBit v.bitmaps tag_id user_id × Kept tag_id w v) _ _ w (query-Safe _ w)
        λ found v q.
          bind-Safe _ (λ r u. HasBit u.bitmaps tag_id user_id × Kept tag_id w u) _ _ v
            (create-Safe tag_id (new_detail now tag_id user_id) found w v q.1)
            λ r u h.
              weaken-Safe _ (λ r x. HasBit x.bitmaps tag_id user_id × Kept tag_id w x) _ u
                (λ r x k.
                  let set : x.bitmaps ≡ set_bit tag_id (index_from_user_id user_id) w.bitmaps =
                    k.0 ∙ ap (set_bit tag_id (index_from_user_id user_id)) h.0 in
                  (
                    subst (λ m. HasBit m tag_id user_id) (sym set)
                        (set_bit-HasBit_self w.bitmaps tag_id user_id),
                    record {
                      bits = λ y b.
                          subst (λ m. HasBit m tag_id y) (sym set)
                            (set_bit-HasBit w.bitmaps tag_id y (index_from_user_id user_id) b);
                      rows = ap (λ db. db.catalog.crowd_tags) k.1 ∙ h.1;
                    },
                  ))
                (bitmap_write-Safe _ u)

  add_all-Safe :
      (now : Time) (tag_id : String) (users : List String) (w : World D)
      → Safe
          (add_all now tag_id users)
          w
          (λ r v. All (λ u. HasBit v.bitmaps tag_id u) users × Kept tag_id w v)
  unfolding add_all
  add_all-Safe now tag_id [] w =
      pure-Safe _ w (λ r v. All (λ u. HasBit v.bitmaps tag_id u) [] × Kept tag_id w v)
        (tt, Kept-refl tag_id w)
  add_all-Safe now tag_id (u ∷ us) w =
      bind-Safe _ (λ r v. All (λ x. HasBit v.bitmaps tag_id x) (u ∷ us) × Kept tag_id w v) _ _ w
        (add_user-Safe now tag_id u w)
        λ r v h.
          weaken-Safe _ (λ r x. All (λ y. HasBit x.bitmaps tag_id y) (u ∷ us) × Kept tag_id w x) _ v
            (λ r x k. ((k.1.bits u h.0, k.0), Kept-trans h.1 k.1)) (add_all-Safe now tag_id us v)

  -- What a job that was found has done.
  pub record Collected (now : Time) (tag_id : String) (w v : World D) : Type 0 where
    pub inside : All (λ u. Safe (is_tag_crowd_range tag_id u) v (λ b x. b ≡ true)) user_ids
    pub counted :
        v.db.catalog.crowd_tags
        ≡ update_where
            (λ t. str_eq t.tag_id tag_id)
            (λ t. record t { statistics = t.statistics +ℤ pos 11; update_time = now })
            w.db.catalog.crowd_tags

  -- A batch job that exists and succeeds has put each of its users into the crowd: the trial's test
  -- of the crowd then holds for them, unless it fails. It adds the number of its users to the
  -- statistics of the tag, also for users that were in the crowd before. The job never crashes.
  pub exec_tag_batch_job-Collected :
      (now : Time) (tag_id batch_id : String) (job : CrowdTagsJob) (w : World D)
      → find (is_job tag_id batch_id) w.db.catalog.crowd_tags_jobs ≡ some job
      → Safe (exec_tag_batch_job now tag_id batch_id) w (λ r v. Collected now tag_id w v)
  unfolding exec_tag_batch_job query_crowd_tags_job_entity update_crowd_tags_statistics
  exec_tag_batch_job-Collected now tag_id batch_id job w found =
      bind-Safe _ (λ r v. Collected now tag_id w v) _ _ w (query-Safe _ w)
        λ loaded v q.
          subst (λ o. Safe (collect now tag_id o) v (λ r u. Collected now tag_id w u))
            (sym (q.0 ∙ ap (Option.map to_job) found))
            (bind-Safe _ (λ r u. Collected now tag_id w u) _ _ v
              (add_all-Safe now tag_id user_ids v)
              λ r u h.
                weaken-Safe _ (λ r x. Collected now tag_id w x) _ u
                  (λ r x k. record {
                    inside =
                        All-map (λ y. HasBit u.bitmaps tag_id y)
                          (λ y. Safe (is_tag_crowd_range tag_id y) x (λ b z. b ≡ true)) user_ids
                          (λ y b.
                            HasBit-in_range tag_id y x (subst (λ m. HasBit m tag_id y) (sym k.2) b))
                          h.0;
                    counted =
                        ap (λ db. db.catalog.crowd_tags) k.1
                        ∙ ap (update_where (of_tag tag_id) (add_statistics now (pos 11)))
                            (h.1.rows ∙ ap (λ db. db.catalog.crowd_tags) q.1.db);
                  })
                  (statement-Safe _ u))
