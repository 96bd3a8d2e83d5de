-- ===== src/Trade/StockKey.antt =====
-- internal/domain/trade/service/lock/factory/lock_context.go: the Redis keys of a team's stock, and
-- the decimal printer that they use. `buf` has 20 bytes and the loop fills it from the end, so the
-- fuel is 20 rounds; `Printing` proves that an int64 never needs more.
pub mod Printing
use Prim.Native.Char.{Char}
use Prim.Native.String
use group_buy_market.Prelude.{
  ℕ, zero, suc, ◌==◌, ltb, ◌/◌, ◌%◌, ◌+◌, ◌-◌, if◌then◌else◌, ℤ, pos, negsuc, pos_part, eq_ℤ, ltb_ℤ,
  ◌-ℤ◌, String, str_eq, ◌⧺◌, Option, none, some, ◌||◌,
}
use group_buy_market.Types.Codes.{underline, team_stock_key_prefix}
use group_buy_market.Trade.Entities.{GroupBuyActivityEntity}

-- `digits[d]`, for d below 10.
unfoldable pub digit : ℕ → Char
digit zero = "0"
digit (suc zero) = "1"
digit (suc (suc zero)) = "2"
digit (suc (suc (suc zero))) = "3"
digit (suc (suc (suc (suc zero)))) = "4"
digit (suc (suc (suc (suc (suc zero))))) = "5"
digit (suc (suc (suc (suc (suc (suc zero)))))) = "6"
digit (suc (suc (suc (suc (suc (suc (suc zero))))))) = "7"
digit (suc (suc (suc (suc (suc (suc (suc (suc zero)))))))) = "8"
digit (suc (suc (suc (suc (suc (suc (suc (suc (suc n))))))))) = "9"

-- `for v > 0`: `buf` holds what is written so far.
unfoldable pub digits_loop : ℕ → ℕ → String → String
unfolding digit
digits_loop zero v buf = buf
digits_loop (suc fuel) v buf =
    let rest = digits_loop fuel (v / 10) (String.◌∷◌ (digit (v % 10)) buf) in
    if v == 0 then buf else rest

abbrev pub buffer_size : ℕ
buffer_size = 20

-- The least int64, whose negation is itself.
abbrev pub min_int64 : ℤ
min_int64 = negsuc 9223372036854775807

unfoldable pub negate_int64 : ℤ → ℤ
unfolding ◌-ℤ◌
negate_int64 v = if eq_ℤ v min_int64 then v else pos 0 -ℤ v

unfoldable pub itoa : ℤ → String
itoa v =
    if eq_ℤ v (pos 0)
    then "0"
    else if ltb_ℤ v (pos 0)
    then String.◌∷◌ "-" (digits_loop buffer_size (pos_part (negate_int64 v)) "")
    else digits_loop buffer_size (pos_part v) ""

unfoldable pub generate_team_stock_key : ℤ → String → String
generate_team_stock_key activity_id team_id =
    team_stock_key_prefix ⧺ itoa activity_id ⧺ underline ⧺ team_id

unfoldable pub generate_recovery_team_stock_key : ℤ → String → String
generate_recovery_team_stock_key activity_id team_id =
    team_stock_key_prefix ⧺ itoa activity_id ⧺ underline ⧺ team_id ⧺ "_recovery"

-- The context of the lock rule chain and its methods.
pub record DynamicContext : Type 0 where
  pub group_buy_activity : Option GroupBuyActivityEntity
  pub user_take_order_count : ℤ

-- The method `GenerateTeamStockKey` of a context whose activity is given.
abbrev context_key : (ℤ → String → String) → String → Option GroupBuyActivityEntity → String
context_key generate team_id none = ""
context_key generate team_id (some act) =
    if str_eq team_id "" then "" else generate act.activity_id team_id

unfoldable pub team_stock_key : DynamicContext → String → String
team_stock_key d team_id = context_key generate_team_stock_key team_id d.group_buy_activity

unfoldable pub recovery_team_stock_key : DynamicContext → String → String
recovery_team_stock_key d team_id =
    context_key generate_recovery_team_stock_key team_id d.group_buy_activity
