-- ===== src/Wiring/Restore.antt =====
-- The whole way of a refund's callback: from the task over the broker to the recovered place.
use group_buy_market.Prelude.{
  ◌≡◌, ap, ◌∙◌, Bool, false, ◌||◌, ◌++◌, if◌then◌else◌, pos, String, str_eq, str_eq_self, none,
  some, [], ◌∷◌, map,
}
use group_buy_market.Trade.Entities.{
  Time, TradeRefundOrderEntity, Parameter, refund_success, team_settled,
}
use group_buy_market.Trade.StockKey.{generate_recovery_team_stock_key}
use group_buy_market.Store.Rows.{World}
use group_buy_market.Repository.Stock.{is_set, refund_lock_key}
use group_buy_market.Repository.Stock.Once.{recovered_once}
use group_buy_market.Repository.Tasks.{refund_task, refund_parameter, to_notify_entity}
use group_buy_market.Service.Refund.{strategy_map}
use group_buy_market.Trigger.Listener.{Body, team_refund_handler, consume}
use group_buy_market.Trigger.Listener.Twice.{KnownType, consume-twice}
use group_buy_market.Wiring.Config.{RabbitMqConfig, NotifyConfig}
use group_buy_market.Wiring.Broker.{Queues, event_publish}
use group_buy_market.Wiring.Topics.{
  Aligned, Exact, bound, wired, routing_key_of, refund_callback-queued,
}

-- What the handler decodes: a field that the object lacks is empty.
abbrev pub body_of : Parameter → Body
body_of (refund_success msg) = some msg
body_of (team_settled team_id out_trade_nos) = some (record {
  refund_type = "";
  user_id = "";
  team_id = team_id;
  order_id = "";
  out_trade_no = "";
  activity_id = pos 0;
})

module _ {D : Type 0} (matches : String → String → Bool) (mq : RabbitMqConfig)
    (notify : NotifyConfig)
    (success_exact : Exact matches (bound mq notify).team_success.routing_key)
    (refund_exact : Exact matches (bound mq notify).team_refund.routing_key) where
  -- With a connected client, bindings without wildcards and a configuration whose topics are `Aligned`,
  -- a refund's callback that is published while the refund queue is empty gives the place back: the
  -- consumer of the queue takes the message, adds one recovered place to the team of the order and
  -- leaves the queue empty. The refund is of a known type, Redis answers, the key of the recovered
  -- stock is no lock of the order and that lock is free.
  pub refund_callback-restores :
      (aligned : Aligned mq notify) (now later : Time) (topic : String)
      (order : TradeRefundOrderEntity) (category refund_type : String) (queues : Queues)
      (w : World D)
      → let key = generate_recovery_team_stock_key order.activity_id order.team_id in
        let task =
          to_notify_entity (refund_task now notify.topic_team_refund order category refund_type) in
        let queue = (bound mq notify).team_refund.queue in
        KnownType refund_type
        → (str_eq key "" || str_eq order.order_id "") ≡ false
        → str_eq key (refund_lock_key order.order_id) ≡ false
        → is_set (w.redis (refund_lock_key order.order_id)) ≡ false
        → w.faults ≡ []
        → queues queue ≡ []
        → consume
            (team_refund_handler (strategy_map later topic))
            (map body_of (
              (event_publish matches
                  (wired mq notify)
                  none
                  (routing_key_of task)
                  task.parameter_json
                  queues).1
                queue))
            w
          ≡ ([], recovered_once key order.order_id w)
  refund_callback-restores aligned now later topic order category refund_type queues w known named
        apart free f empty =
      let queue = (bound mq notify).team_refund.queue in
      let message = refund_parameter order refund_type in
      let there =
        refund_callback-queued matches mq notify success_exact refund_exact aligned now order
          category refund_type queues queue
        ∙ ap (λ b. if b then queues queue ++ message ∷ [] else queues queue) (str_eq_self queue)
        ∙ ap (λ ms. ms ++ message ∷ []) empty in
      ap (λ ms. consume (team_refund_handler (strategy_map later topic)) (map body_of ms) w) there
      ∙ (consume-twice later topic _ w known named apart free f []).0
