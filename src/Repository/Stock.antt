-- ===== src/Repository/Stock.antt =====
-- trade_repository.go: the team stock in Redis. The Lua script runs as one command. Keys do not expire
-- here; in the program the slot locks do, valid_time + 60 minutes after they are taken, and the two
-- counters never.
pub mod Names
pub mod Runs
pub mod Once
pub mod Oversell
use group_buy_market.Prelude.{
  if◌then◌else◌, Bool, true, false, ◌||◌, ltb_ℤ, ℤ, pos, ◌+ℤ◌, ◌-ℤ◌, String, str_eq, ◌⧺◌, Option,
  none, some,
}
use group_buy_market.Types.Outcome.{Result, ok, err, panic}
use group_buy_market.Trade.StockKey.{itoa}
use group_buy_market.Store.Rows.{Keys, put}
use group_buy_market.Store.Call.{Call, pure, command, ◌>>=◌, ◌>>◌}

-- An absent counter counts as 0.
abbrev pub value_of : Option ℤ → ℤ
value_of none = pos 0
value_of (some v) = v

abbrev pub is_set : Option ℤ → Bool
is_set none = false
is_set (some v) = true

-- `INCR` and `DECR`.
unfoldable pub incr : String → Keys → ℤ × Keys
unfolding put
incr key keys = let v = value_of (keys key) +ℤ pos 1 in (v, put key (some v) keys)

unfoldable pub decr : String → Keys → Keys
unfolding put
decr key keys = put key (some (value_of (keys key) -ℤ pos 1)) keys

-- `SET key 1 NX`.
unfoldable pub set_nx : String → Keys → Bool × Keys
unfolding put
set_nx key keys = if is_set (keys key) then (false, keys) else (true, put key (some (pos 1)) keys)

unfoldable pub del : String → Keys → Keys
unfolding put
del key = put key none

-- The name of the lock of the slot `occupy`.
abbrev pub slot_key : String → ℤ → String
slot_key team_key occupy = team_key ⧺ "_" ⧺ itoa occupy

-- `occupyTeamStockScript`; the result 1 is `true`.
unfoldable pub occupy_team_stock_script : String → String → ℤ → Keys → Bool × Keys
unfolding incr decr set_nx
occupy_team_stock_script team_key recovery_key target keys =
    let (occupy, keys1) = incr team_key keys in
    let recovery = value_of (keys1 recovery_key) in
    if ltb_ℤ (target +ℤ recovery) occupy
    then (false, decr team_key keys1)
    else let (fresh, keys2) = set_nx (slot_key team_key occupy) keys1 in
      if fresh then (true, keys2) else (false, decr team_key keys2)

-- 30 days of protection against a second recovery of one order.
abbrev pub refund_lock_key : String → String
refund_lock_key order_id = "refund_lock_" ⧺ order_id

module _ {D : Type 0} where
  unfoldable pub occupy_team_stock : String → String → ℤ → ℤ → Call D Bool
  occupy_team_stock team_key recovery_key target valid_time =
      command (occupy_team_stock_script team_key recovery_key target)

  unfoldable pub recovery_team_stock : String → ℤ → Call D (Unit {0})
  recovery_team_stock recovery_key valid_time =
      if str_eq recovery_key "" then pure tt else do command (incr recovery_key); pure tt

  -- The branch of a failed `Incr`: the lock is released, and the error is returned.
  abbrev pub release_on_error : String → Result ℤ → Call D (Unit {0})
  release_on_error lock (ok n) w = (ok tt, w)
  release_on_error lock (err e) w = (err e, (command (λ keys. (tt, del lock keys)) w).1)
  release_on_error lock panic w = (panic, w)

  abbrev pub recover_once : String → String → Bool → Call D (Unit {0})
  recover_once recovery_key lock false w = (ok tt, w)
  recover_once recovery_key lock true w =
      release_on_error lock (command (incr recovery_key) w).0 (command (incr recovery_key) w).1

  unfoldable pub refund2_add_recovery : String → String → Call D (Unit {0})
  refund2_add_recovery recovery_key order_id =
      if str_eq recovery_key "" || str_eq order_id "" then pure tt else do
        fresh ← command (set_nx (refund_lock_key order_id))
        recover_once recovery_key (refund_lock_key order_id) fresh
