-- ===== src/Scenarios/Parts.antt =====
-- The stock, and the small parts, at concrete inputs.
use group_buy_market.Prelude.{
  ℕ, ◌≡◌, ◌≤◌, ◌↔◌, refl, pos, negsuc, ◌+ℤ◌, ◌≤ℤ◌, true, none, some, [], ◌∷◌, length, arith, codes,
}
use group_buy_market.Types.Outcome.{ok, err, database}
use group_buy_market.Trade.Notify.Machine.{move_all-length, move_to-Transition, Transition}
use group_buy_market.Trade.Notify.{move_to}
use group_buy_market.Trade.StockKey.{
  itoa, generate_team_stock_key, generate_recovery_team_stock_key,
}
use group_buy_market.Trade.StockKey.Printing.{read_int, itoa-roundtrip}
use group_buy_market.Store.Rows.{World}
use group_buy_market.Repository.Text.{contains, Occurs, contains-Occurs}
use group_buy_market.Repository.Stock.{
  refund_lock_key, refund2_add_recovery, occupy_team_stock_script,
}
use group_buy_market.Repository.Stock.Names.{stock_keys-Apart}
use group_buy_market.Repository.Stock.Runs.{Occupies, occupy_team_stock_script-Occupies}
use group_buy_market.Repository.Stock.Oversell.{
  occupy, recover, granted, occupy_team_stock_script-bounded,
}
use group_buy_market.Repository.Stock.Once.{refund2_add_recovery-released}
use group_buy_market.Scenarios.Market.{calm, no_keys}

occupy_team_stock_script-bounded_example :
    pos (
      granted
        (generate_team_stock_key (pos 100) "T")
        (generate_recovery_team_stock_key (pos 100) "T")
        (pos 2)
        (occupy ∷ occupy ∷ occupy ∷ recover ∷ occupy ∷ [])
        no_keys)
    ≤ℤ pos 2 +ℤ pos 1
occupy_team_stock_script-bounded_example =
    occupy_team_stock_script-bounded (pos 100) "T" (pos 2)
      (occupy ∷ occupy ∷ occupy ∷ recover ∷ occupy ∷ []) no_keys refl refl (omega arith)

occupy_team_stock_script-Occupies_example :
    Occupies
      (generate_team_stock_key (pos 100) "T")
      (generate_recovery_team_stock_key (pos 100) "T")
      (pos 2)
      0
      0
      no_keys
      (occupy_team_stock_script
        (generate_team_stock_key (pos 100) "T")
        (generate_recovery_team_stock_key (pos 100) "T")
        (pos 2)
        no_keys)
occupy_team_stock_script-Occupies_example =
    occupy_team_stock_script-Occupies (generate_team_stock_key (pos 100) "T")
      (generate_recovery_team_stock_key (pos 100) "T") (stock_keys-Apart (pos 100) "T") (pos 2) 0 0
      no_keys refl refl

abbrev flaky : World ℕ
flaky = record calm { faults = none ∷ some "down" ∷ none ∷ [] }

refund2_add_recovery-released_example :
    ((refund2_add_recovery "r" "o1" flaky).0 ≡ err (database "down"))
    × ((refund2_add_recovery "r" "o1" flaky).1.redis (refund_lock_key "o1") ≡ none)
    × ((refund2_add_recovery "r" "o1" flaky).1.faults ≡ [])
refund2_add_recovery-released_example =
    refund2_add_recovery-released "r" "o1" "down" [] flaky refl refl refl

itoa-roundtrip_example : read_int (codes (itoa (negsuc 41))) ≡ negsuc 41
itoa-roundtrip_example = itoa-roundtrip (negsuc 41) (omega arith) (omega arith) (λ e. cc)

move_all-length_example : length {A = ℕ} (2 ∷ 3 ∷ []) ≤ 2
unfolding move_to
move_all-length_example = move_all-length 0 (2 ∷ 3 ∷ []) 3 refl

move_to-Transition_example : (move_to 0 2 ≡ ok 2) ↔ Transition 0 2
move_to-Transition_example = move_to-Transition 0 2

contains-Occurs_example :
    (contains (1 ∷ 2 ∷ 3 ∷ []) (2 ∷ 3 ∷ []) ≡ true) ↔ Occurs (1 ∷ 2 ∷ 3 ∷ []) (2 ∷ 3 ∷ [])
contains-Occurs_example = contains-Occurs (1 ∷ 2 ∷ 3 ∷ []) (2 ∷ 3 ∷ [])
