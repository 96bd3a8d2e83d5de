-- ===== src/Trigger/Listener/Twice.antt =====
-- A refund message that is delivered again.
use group_buy_market.Prelude.{
  ◌≡◌, refl, ◌∙◌, ◌⊎◌, inl, inr, false, ◌||◌, String, str_eq, some, [], ◌∷◌, List, Option,
}
use group_buy_market.Types.Outcome.{ok}
use group_buy_market.Trade.Entities.{Time, TeamRefundSuccess}
use group_buy_market.Trade.StockKey.{generate_recovery_team_stock_key}
use group_buy_market.Trade.Refund.Types.{get_refund_type_by_code}
use group_buy_market.Store.Rows.{World}
use group_buy_market.Store.Call.{lift, ◌>>=◌}
use group_buy_market.Repository.Stock.{is_set, refund_lock_key, refund2_add_recovery}
use group_buy_market.Repository.Stock.Once.{recovered_once, refund2_add_recovery-once}
use group_buy_market.Service.Refund.{
  strategy_map, unpaid2refund_strategy, paid2refund_strategy, paid_team2refund_strategy,
  do_reverse_stock, reverse, restore_team_lock_stock,
}
use group_buy_market.Trigger.Listener.{team_refund_handler, deliver, consume}

-- The codes of the three refund types.
abbrev pub KnownType : String → Type 0
KnownType code = (code ≡ "unpaid_unlock") ⊎ ((code ≡ "paid_unformed") ⊎ (code ≡ "paid_formed"))

-- The recovered stock of the message's team.
abbrev pub recovery_key : TeamRefundSuccess → String
recovery_key msg = generate_recovery_team_stock_key msg.activity_id msg.team_id

module _ {D : Type 0} where
  by_code :
      (now : Time) (topic code : String) (msg : TeamRefundSuccess) (w : World D)
      → KnownType code
      → (lift (get_refund_type_by_code code) >>= λ rt.
            reverse (strategy_map now topic rt.strategy) msg)
          w
        ≡ do_reverse_stock msg w
  unfolding get_refund_type_by_code strategy_map unpaid2refund_strategy paid2refund_strategy
      paid_team2refund_strategy ◌>>=◌ lift
  by_code now topic code msg w (inl e) = rw e refl
  by_code now topic code msg w (inr (inl e)) = rw e refl
  by_code now topic code msg w (inr (inr e)) = rw e refl

  handled :
      (now : Time) (topic : String) (msg : TeamRefundSuccess) (w v : World D)
      → KnownType msg.refund_type
      → refund2_add_recovery (recovery_key msg) msg.order_id w ≡ (ok tt, v)
      → (rest : List (Option TeamRefundSuccess))
      → consume (team_refund_handler (strategy_map now topic)) (some msg ∷ rest) w ≡ (rest, v)
  unfolding consume deliver team_refund_handler restore_team_lock_stock do_reverse_stock
  handled now topic msg w v known e rest =
      rw (by_code now topic msg.refund_type msg w known ∙ e) refl

  -- A refund message of a known type that names an order, when Redis answers, the key of the team's
  -- recovered stock is not empty and is not the key of the order's lock, and that lock is free, adds one
  -- recovered place to its team and is acknowledged; the same message delivered once more is
  -- acknowledged and changes nothing.
  pub consume-twice :
      (now : Time) (topic : String) (msg : TeamRefundSuccess) (w : World D)
      → KnownType msg.refund_type
      → (str_eq (recovery_key msg) "" || str_eq msg.order_id "") ≡ false
      → str_eq (recovery_key msg) (refund_lock_key msg.order_id) ≡ false
      → is_set (w.redis (refund_lock_key msg.order_id)) ≡ false
      → w.faults ≡ []
      → (rest : List (Option TeamRefundSuccess))
      → let once = recovered_once (recovery_key msg) msg.order_id w in
        let step = consume (team_refund_handler (strategy_map now topic)) in
        (step (some msg ∷ rest) w ≡ (rest, once)) × (step (some msg ∷ rest) once ≡ (rest, once))
  consume-twice now topic msg w known named apart free f rest =
      let (first, again) =
        refund2_add_recovery-once (recovery_key msg) (recovery_key msg) msg.order_id w named apart
          free f in
      (
        handled now topic msg w _ known first rest,
        handled now topic msg (recovered_once (recovery_key msg) msg.order_id w) _ known again rest,
      )
