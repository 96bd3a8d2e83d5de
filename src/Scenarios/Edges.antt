-- ===== src/Scenarios/Edges.antt =====
-- Timers, messages, settings and the rate limit at small worlds.
use group_buy_market.Prelude.{◌≡◌, refl, ◌-◌, inl, true, Bool, ltb_ℤ, pos, ℤ, some, none, [], ◌∷◌}
use group_buy_market.Trade.Entities.{TeamRefundSuccess}
use group_buy_market.Trade.StockKey.{generate_recovery_team_stock_key, itoa, digits_loop}
use group_buy_market.Repository.Stock.Once.{recovered_once}
use group_buy_market.Service.Refund.{strategy_map}
use group_buy_market.Dcc.{Service, snapshot}
use group_buy_market.Dcc.Broadcast.{Attribute, new_instance, receive_all, receive_all-agree}
use group_buy_market.Trigger.Listener.{team_refund_handler, consume}
use group_buy_market.Trigger.Listener.Twice.{recovery_key, consume-twice}
use group_buy_market.Trigger.RateLimit.{Limiter, new_rate_limit_store, bucket}
use group_buy_market.Trigger.RateLimit.PerUser.{
  Requests, answers, bucket_answers, of_user, answers-bucket_answers,
}
use group_buy_market.Scenarios.Market.{calm}

abbrev refunded : TeamRefundSuccess
refunded = record {
  refund_type = "unpaid_unlock";
  user_id = "bob";
  team_id = "T";
  activity_id = pos 100;
  order_id = "o2";
  out_trade_no = "n2";
}

consume-twice_example :
    let once = recovered_once (recovery_key refunded) "o2" calm in
    let step = consume (team_refund_handler (strategy_map (pos 700) "refunds")) in
    (step (some refunded ∷ []) calm ≡ ([], once)) × (step (some refunded ∷ []) once ≡ ([], once))
unfolding generate_recovery_team_stock_key itoa digits_loop
consume-twice_example =
    consume-twice (pos 700) "refunds" refunded calm (inl refl) refl refl refl refl []

abbrev calm_settings : Service
calm_settings = record {
  downgrade_switch = 48 ∷ [];
  cut_range = [];
  sc_blacklist = [];
  cache_switch = 48 ∷ [];
}

abbrev old_settings : Service
old_settings = record calm_settings { downgrade_switch = 49 ∷ [] }

abbrev switched : Attribute
switched = record { key = "downgradeSwitch"; value = 49 ∷ []; origin = "a" }

abbrev switched_back : Attribute
switched_back = record switched { value = 48 ∷ []; origin = "b" }

receive_all-agree_example :
    snapshot
      (receive_all
        (none ∷ some switched ∷ some switched_back ∷ [])
        (new_instance calm_settings)).settings
      "downgradeSwitch"
    ≡ snapshot
        (receive_all
          (none ∷ some switched ∷ some switched_back ∷ [])
          (new_instance old_settings)).settings
        "downgradeSwitch"
receive_all-agree_example =
    receive_all-agree "downgradeSwitch" (none ∷ some switched ∷ some switched_back ∷ [])
      (new_instance calm_settings) (new_instance old_settings) refl

-- A bucket of tokens that is never filled again.
abbrev take_token : ℤ → Bool × ℤ
take_token left = (ltb_ℤ (pos 0) left, spend left)
  where
    spend : ℤ → ℤ
    spend (pos n) = pos (n - 1)
    spend x = x

abbrev tokens : Limiter ℤ
tokens = record { new_limiter = λ burst. burst; allow_at = λ now. take_token }

abbrev requests : Requests
requests = ("ann", pos 1) ∷ ("bob", pos 2) ∷ ("ann", pos 3) ∷ ("ann", pos 4) ∷ []

answers-bucket_answers_example :
    of_user "ann" (answers tokens requests (new_rate_limit_store true (pos 2)))
    ≡ bucket_answers tokens (of_user "ann" requests) (bucket tokens (pos 2) none)
answers-bucket_answers_example =
    answers-bucket_answers tokens "ann" requests (new_rate_limit_store true (pos 2)) refl refl
