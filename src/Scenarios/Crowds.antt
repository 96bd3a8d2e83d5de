-- ===== src/Scenarios/Crowds.antt =====
-- A batch job of the crowd "vip", which has one member.
use group_buy_market.Prelude.{ℕ, refl, pos, [], ◌∷◌, find}
use group_buy_market.Store.Rows.{CrowdTags, CrowdTagsDetail, CrowdTagsJob, World}
use group_buy_market.Store.Safe.{Safe}
use group_buy_market.Tag.{exec_tag_batch_job}
use group_buy_market.Tag.Crowd.{Collected, exec_tag_batch_job-Collected}
use group_buy_market.Tag.Rows.{DetailsUnique, exec_tag_batch_job-Unique}
use group_buy_market.Scenarios.Market.{catalog, market, calm}

abbrev member : CrowdTagsDetail
member = record { tag_id = "vip"; user_id = "liergou"; create_time = pos 0; update_time = pos 0 }

abbrev vip : CrowdTags
vip = record {
  tag_id = "vip";
  tag_name = "vip";
  tag_desc = "";
  statistics = pos 1;
  update_time = pos 0;
}

abbrev batch : CrowdTagsJob
batch = record {
  tag_id = "vip";
  batch_id = "b1";
  tag_type = pos 0;
  tag_rule = "";
  stat_start_time = pos 0;
  stat_end_time = pos 0;
  status = pos 0;
}

abbrev crowded : World ℕ
crowded = record calm {
  db = record market {
    catalog = record catalog {
      crowd_tags = vip ∷ [];
      crowd_tags_jobs = batch ∷ [];
      crowd_tags_details = member ∷ [];
    };
  };
}

exec_tag_batch_job-Collected_example :
    Safe (exec_tag_batch_job (pos 9) "vip" "b1") crowded λ r v. Collected (pos 9) "vip" crowded v
unfolding find
exec_tag_batch_job-Collected_example =
    exec_tag_batch_job-Collected (pos 9) "vip" "b1" batch crowded refl

exec_tag_batch_job-Unique_example :
    DetailsUnique (exec_tag_batch_job (pos 9) "vip" "b1" crowded).1.db.catalog.crowd_tags_details
exec_tag_batch_job-Unique_example = exec_tag_batch_job-Unique (pos 9) "vip" "b1" crowded (tt, tt)
