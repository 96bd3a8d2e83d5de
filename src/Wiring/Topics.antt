-- ===== src/Wiring/Topics.antt =====
-- internal/app/wire.go: the topics that the repository writes into callbacks and the bindings of the
-- queues come from two places of the configuration.
use group_buy_market.Prelude.{
  ◌≡◌, refl, ap, ◌∙◌, Bool, true, false, ◌&&◌, ◌||◌, if◌then◌else◌, String, str_eq, str_eq_self,
  Option, none, some, List, [], ◌∷◌, ◌++◌, ◌⊎◌, inl, inr,
}
use group_buy_market.Types.Outcome.{Result, ok, err, panic}
use group_buy_market.Trade.Entities.{Time, TradeRefundOrderEntity}
use group_buy_market.Trade.Notify.{NotifyTaskEntity}
use group_buy_market.Repository.Tasks.{refund_task, refund_parameter, to_notify_entity}
use group_buy_market.Wiring.Config.{RabbitMqConfig, NotifyConfig, or_name}
use group_buy_market.Wiring.Broker.{Client, Queues, new_client, with_names, event_publish}

abbrev pub first_non_empty : List String → String
first_non_empty [] = ""
first_non_empty (v ∷ vs) = if str_eq v "" then first_non_empty vs else v

-- The configuration that `NewApplication` hands to the client.
abbrev pub mq_config : RabbitMqConfig → NotifyConfig → RabbitMqConfig
mq_config mq notify = record mq {
  team_success = record {
    routing_key =
        first_non_empty
          (mq.team_success.routing_key ∷ notify.topic_team_success ∷ "topic.team_success" ∷ []);
    queue =
        first_non_empty
          (mq.team_success.queue ∷ "group_buy_market_queue_2_topic_team_success" ∷ []);
  };
  team_refund = record {
    routing_key =
        first_non_empty
          (mq.team_refund.routing_key ∷ notify.topic_team_refund ∷ "topic.team_refund" ∷ []);
    queue =
        first_non_empty (mq.team_refund.queue ∷ "group_buy_market_queue_2_topic_team_refund" ∷ []);
  };
}

-- Without a connection the application goes on without a client.
abbrev pub client_or_none : Result Client → Option Client
client_or_none (ok c) = some c
client_or_none (err e) = none
client_or_none panic = none

-- The routing key of a callback over the broker.
abbrev pub routing_key_of : NotifyTaskEntity → String
routing_key_of task = or_name task.notify_mq "topic.team_success"

-- The application's client, when the broker answers.
abbrev pub wired : RabbitMqConfig → NotifyConfig → Option Client
wired mq notify = client_or_none (new_client (mq_config mq notify) none none none)

-- The bindings of the two queues.
abbrev pub bound : RabbitMqConfig → NotifyConfig → RabbitMqConfig
bound mq notify = with_names (mq_config mq notify)

-- A pattern without wildcards matches itself alone.
abbrev pub Exact : (String → String → Bool) → String → Type 0
Exact matches pattern = (key : String) → matches pattern key ≡ str_eq pattern key

-- The topic that the repository writes into refund callbacks is named, and no other key is configured
-- for the refund queue; it is not the key of the success queue.
pub record Aligned (mq : RabbitMqConfig) (notify : NotifyConfig) : Type 0 where
  pub named : str_eq notify.topic_team_refund "" ≡ false
  pub same :
      (str_eq mq.team_refund.routing_key "" ≡ true)
      ⊎ (mq.team_refund.routing_key ≡ notify.topic_team_refund)
  pub apart : str_eq (bound mq notify).team_success.routing_key notify.topic_team_refund ≡ false

refund_key_lem :
    (mq : RabbitMqConfig) (notify : NotifyConfig)
    → Aligned mq notify
    → (bound mq notify).team_refund.routing_key ≡ notify.topic_team_refund
refund_key_lem mq notify a = of a.same
  where
    of :
        (str_eq mq.team_refund.routing_key "" ≡ true)
          ⊎ (mq.team_refund.routing_key ≡ notify.topic_team_refund)
        → (bound mq notify).team_refund.routing_key ≡ notify.topic_team_refund
    of (inl empty) = rw (empty, a.named, a.named) refl
    of (inr same) = rw (same, a.named, a.named) refl

only_second : (q r s t : Bool) → s ≡ false → t ≡ true → ((q && s) || ((r && t) || false)) ≡ r
only_second true true s t es et = rw (es, et) refl
only_second true false s t es et = rw es refl
only_second false true s t es et = rw et refl
only_second false false s t es et = refl

only_first : (q r s t : Bool) → s ≡ true → t ≡ false → ((q && s) || ((r && t) || false)) ≡ q
only_first true true s t es et = rw es refl
only_first true false s t es et = rw es refl
only_first false true s t es et = rw et refl
only_first false false s t es et = refl

module _ (matches : String → String → Bool) (mq : RabbitMqConfig) (notify : NotifyConfig)
    (success_exact : Exact matches (bound mq notify).team_success.routing_key)
    (refund_exact : Exact matches (bound mq notify).team_refund.routing_key) where
  -- With a connected client, bindings without wildcards and a configuration whose topics are `Aligned`,
  -- the callback of any refund is put at the end of the refund queue and of no other, as the message
  -- that gives the place back.
  pub refund_callback-queued :
      (aligned : Aligned mq notify) (now : Time) (order : TradeRefundOrderEntity)
      (category refund_type : String) (queues : Queues) (queue : String)
      → let task =
          to_notify_entity (refund_task now notify.topic_team_refund order category refund_type) in
        (event_publish matches
            (wired mq notify)
            none
            (routing_key_of task)
            task.parameter_json
            queues).1
          queue
        ≡ (if str_eq (bound mq notify).team_refund.queue queue
            then queues queue ++ refund_parameter order refund_type ∷ []
            else queues queue)
  refund_callback-queued aligned now order category refund_type queues queue =
      let key : or_name notify.topic_team_refund "topic.team_success" ≡ notify.topic_team_refund =
        rw aligned.named refl in
      let other =
        success_exact _
        ∙ ap (str_eq (bound mq notify).team_success.routing_key) key
        ∙ aligned.apart in
      let own =
        refund_exact _
        ∙ ap (str_eq (bound mq notify).team_refund.routing_key) key
        ∙ ap (λ k. str_eq k notify.topic_team_refund) (refund_key_lem mq notify aligned)
        ∙ str_eq_self notify.topic_team_refund in
      ap (λ b. if b then queues queue ++ refund_parameter order refund_type ∷ [] else queues queue)
        (only_second _ _ _ _ other own)

  -- With a client that is connected and whose publication does not fail, and bindings of the two
  -- queues without wildcards, where no topic of refunds is named but the success queue has its
  -- default key, and the key of the refund queue differs from that, the callback of any refund is put
  -- at the end of the success queue and into no other.
  pub refund_callback-misrouted :
      (now : Time) (order : TradeRefundOrderEntity) (category refund_type : String)
      (queues : Queues) (queue : String)
      → str_eq notify.topic_team_refund "" ≡ true
      → (bound mq notify).team_success.routing_key ≡ "topic.team_success"
      → str_eq (bound mq notify).team_refund.routing_key "topic.team_success" ≡ false
      → let task =
          to_notify_entity (refund_task now notify.topic_team_refund order category refund_type) in
        (event_publish matches
            (wired mq notify)
            none
            (routing_key_of task)
            task.parameter_json
            queues).1
          queue
        ≡ (if str_eq (bound mq notify).team_success.queue queue
            then queues queue ++ refund_parameter order refund_type ∷ []
            else queues queue)
  refund_callback-misrouted now order category refund_type queues queue unnamed success_key apart =
      let key : or_name notify.topic_team_refund "topic.team_success" ≡ "topic.team_success" =
        rw unnamed refl in
      let own =
        success_exact _
        ∙ ap (str_eq (bound mq notify).team_success.routing_key) key
        ∙ ap (λ k. str_eq k "topic.team_success") success_key
        ∙ str_eq_self "topic.team_success" in
      let other =
        refund_exact _ ∙ ap (str_eq (bound mq notify).team_refund.routing_key) key ∙ apart in
      ap (λ b. if b then queues queue ++ refund_parameter order refund_type ∷ [] else queues queue)
        (only_first _ _ _ _ own other)
