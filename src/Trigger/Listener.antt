-- ===== src/Trigger/Listener.antt =====
-- internal/trigger/listener/listeners.go and the consuming loop of internal/infrastructure/mq/
-- rabbitmq.go. A body is none where it is no JSON of a refund message. The broker hands out one
-- message at a time (`Qos(1)`) and puts one that is not acknowledged back to its place.
pub mod Twice
use group_buy_market.Prelude.{Option, none, some, List, [], ◌∷◌}
use group_buy_market.Types.Outcome.{Result, ok, err, panic, database}
use group_buy_market.Trade.Entities.{TeamRefundSuccess}
use group_buy_market.Store.Rows.{World}
use group_buy_market.Store.Call.{Call, raise}
use group_buy_market.Service.Refund.{StrategyMap, restore_team_lock_stock}

abbrev pub Body : Type 0
Body = Option TeamRefundSuccess

pub data Ack : Type 0 where
  acked nacked : Ack

module _ {D : Type 0} where
  -- The handler of the refund queue.
  unfoldable pub team_refund_handler : StrategyMap D → Body → Call D (Unit {0})
  unfolding restore_team_lock_stock
  team_refund_handler strategies none = raise (database "invalid character")
  team_refund_handler strategies (some msg) = restore_team_lock_stock strategies msg

  -- A panic of the handler is an error.
  abbrev pub ack_of : Result (Unit {0}) × World D → Ack × World D
  ack_of (ok x, w) = (acked, w)
  ack_of (err e, w) = (nacked, w)
  ack_of (panic, w) = (nacked, w)

  unfoldable pub deliver : (Body → Call D (Unit {0})) → Body → World D → Ack × World D
  deliver handler body w = ack_of (handler body w)

  abbrev pub after_ack : Body → List Body → Ack × World D → List Body × World D
  after_ack body rest (acked, w) = (rest, w)
  after_ack body rest (nacked, w) = (body ∷ rest, w)

  -- One turn of the loop over the waiting messages.
  unfoldable pub consume : (Body → Call D (Unit {0})) → List Body → World D → List Body × World D
  unfolding deliver
  consume handler [] w = ([], w)
  consume handler (body ∷ rest) w = after_ack body rest (deliver handler body w)
