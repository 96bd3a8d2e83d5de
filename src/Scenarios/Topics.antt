-- ===== src/Scenarios/Topics.antt =====
-- The callback of a refund through the broker, with the configuration of configs/config.yaml and with
-- an empty one.
use group_buy_market.Prelude.{◌≡◌, refl, pos, String, str_eq, inl, inr, map, none, [], ◌∷◌}
use group_buy_market.Repository.Tasks.{refund_task, refund_parameter, to_notify_entity}
use group_buy_market.Wiring.Config.{TopicConfig, RabbitMqConfig, NotifyConfig}
use group_buy_market.Wiring.Broker.{Queues, event_publish}
use group_buy_market.Wiring.Topics.{wired, routing_key_of, refund_callback-misrouted}
use group_buy_market.Scenarios.Market.{calm, refund_of}
use group_buy_market.Wiring.Restore.{body_of, refund_callback-restores}
use group_buy_market.Trade.StockKey.{generate_recovery_team_stock_key, itoa, digits_loop}
use group_buy_market.Service.Refund.{strategy_map}
use group_buy_market.Repository.Stock.Once.{recovered_once}
use group_buy_market.Trigger.Listener.{team_refund_handler, consume}

abbrev topic_config : String → String → TopicConfig
topic_config key queue = record { routing_key = key; queue = queue }

abbrev mq : RabbitMqConfig
mq = record {
  url = "amqp://localhost/";
  exchange = "group_buy_market_exchange";
  team_success = topic_config "topic.team_success" "success";
  team_refund = topic_config "topic.team_refund" "refund";
}

abbrev notify : NotifyConfig
notify = record {
  topic_team_success = "topic.team_success";
  topic_team_refund = "topic.team_refund";
  http_timeout_sec = pos 5;
}

abbrev empty : Queues
empty queue = []

refund_callback-restores_example :
    let task =
      to_notify_entity
        (refund_task (pos 9) "topic.team_refund" (refund_of "bob" "o2" "n2") "c" "unpaid_unlock") in
    consume
      (team_refund_handler (strategy_map (pos 20) "refunds"))
      (map body_of (
        (event_publish str_eq
            (wired mq notify)
            none
            (routing_key_of task)
            task.parameter_json
            empty).1
          "refund"))
      calm
    ≡ ([], recovered_once (generate_recovery_team_stock_key (pos 100) "T") "o2" calm)
unfolding generate_recovery_team_stock_key itoa digits_loop
refund_callback-restores_example =
    refund_callback-restores str_eq mq notify (λ key. refl) (λ key. refl)
      (record { named = refl; same = inr refl; apart = refl }) (pos 9) (pos 20) "refunds"
      (refund_of "bob" "o2" "n2") "c" "unpaid_unlock" empty calm (inl refl) refl refl refl refl refl

abbrev no_mq : RabbitMqConfig
no_mq = record {
  url = "";
  exchange = "";
  team_success = topic_config "" "success";
  team_refund = topic_config "" "refund";
}

abbrev no_notify : NotifyConfig
no_notify = record { topic_team_success = ""; topic_team_refund = ""; http_timeout_sec = pos 5 }

refund_callback-misrouted_example :
    let task =
      to_notify_entity (refund_task (pos 9) "" (refund_of "bob" "o2" "n2") "c" "unpaid_unlock") in
    (event_publish str_eq
        (wired no_mq no_notify)
        none
        (routing_key_of task)
        task.parameter_json
        empty).1
      "success"
    ≡ refund_parameter (refund_of "bob" "o2" "n2") "unpaid_unlock" ∷ []
refund_callback-misrouted_example =
    refund_callback-misrouted str_eq no_mq no_notify (λ key. refl) (λ key. refl) (pos 9)
      (refund_of "bob" "o2" "n2") "c" "unpaid_unlock" empty "success" refl refl refl
