-- ===== src/Design/Chain.antt =====
-- internal/design/chain/logic_handler.go: a chain of responsibility. A handler is its `Apply` over
-- what `Next` runs; a context that the handlers fill is passed on by value, since no handler reads
-- it after `Next` has returned. The zero value of a result pointer is nil.
use group_buy_market.Prelude.{Option, none, List, [], ◌∷◌}
use group_buy_market.Store.Call.{Call, pure}

module _ (D Req Ctx Res : Type 0) where
  abbrev pub Apply : Type 0
  Apply = Req → Ctx → Call D (Option Res)

  abbrev pub LogicHandler : Type 0
  LogicHandler = Apply → Apply

module _ {D Req Ctx Res : Type 0} where
  -- `Next` of the last handler, and `Apply` of a list without a head.
  unfoldable pub no_next : Apply D Req Ctx Res
  unfolding pure
  no_next req ctx = pure none

  -- `NewLinkedList` with the handlers linked in their order, and its `Apply`.
  unfoldable pub linked_list : List (LogicHandler D Req Ctx Res) → Apply D Req Ctx Res
  unfolding no_next
  linked_list [] = no_next
  linked_list (h ∷ hs) = h (linked_list hs)
