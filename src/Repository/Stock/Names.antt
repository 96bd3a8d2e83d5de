-- ===== src/Repository/Stock/Names.antt =====
-- The Redis keys of one team's stock are different keys.
use group_buy_market.Prelude.{ℕ, suc, ◌≡◌, ◌≢◌, sym, ◌∙◌, ap, ℤ, pos, String, ◌⧺◌, codes, [], arith}
use mathlib.Core.Path.{subst}
use text.Mathlib.TextLemmas.{append_assoc, append_cancel_left, append-nil, nil-append, cons-append}
use group_buy_market.Trade.StockKey.{
  itoa, generate_team_stock_key, generate_recovery_team_stock_key,
}
use group_buy_market.Trade.StockKey.Printing.{IsDigits, itoa-first_digit}
use group_buy_market.Repository.Stock.{slot_key}

-- The counter, the recovery counter and the slot locks do not meet.
pub record Apart (team_key recovery_key : String) : Type 0 where
  pub team_recovery : team_key ≢ recovery_key
  pub slot_team : (n : ℕ) → slot_key team_key (pos (suc n)) ≢ team_key
  pub slot_recovery : (n : ℕ) → slot_key team_key (pos (suc n)) ≢ recovery_key

underline_cons : (s : String) → "_" ⧺ s ≡ String.◌∷◌ "_" s
underline_cons s = cons-append "_" "" s ∙ ap (λ t. String.◌∷◌ "_" t) (nil-append s)

-- A text is not the text with something after it.
extended : (s t : String) → codes t ≢ [] → s ⧺ t ≢ s
extended s t ne same = ne (ap codes (append_cancel_left s t "" (same ∙ sym (append-nil s))))

not_digits : (s : String) → IsDigits (codes s) → s ≢ "recovery"
not_digits s d e =
    let h : IsDigits (codes "recovery") = subst (λ t. IsDigits (codes t)) e d in
    omega (arith, h.0.1)

recovery_key_lem :
    (activity_id : ℤ) (team_id : String)
    → generate_recovery_team_stock_key activity_id team_id
      ≡ generate_team_stock_key activity_id team_id ⧺ "_recovery"
unfolding generate_recovery_team_stock_key generate_team_stock_key
recovery_key_lem activity_id team_id = simp append_assoc

pub stock_keys-Apart :
    (activity_id : ℤ) (team_id : String)
    → Apart
        (generate_team_stock_key activity_id team_id)
        (generate_recovery_team_stock_key activity_id team_id)
stock_keys-Apart activity_id team_id = record {
  team_recovery = λ e. extended T "_recovery" (λ p. cc) (sym (e ∙ r));
  slot_team = λ n e. extended T ("_" ⧺ itoa (pos (suc n))) (λ p. tail n p) e;
  slot_recovery = λ n e.
      not_digits (itoa (pos (suc n))) (itoa-first_digit n)
        (append_cancel_left "_" _ "recovery" (append_cancel_left T _ "_recovery" (e ∙ r)));
}
  where
    T : String
    T = generate_team_stock_key activity_id team_id

    r : generate_recovery_team_stock_key activity_id team_id ≡ T ⧺ "_recovery"
    r = recovery_key_lem activity_id team_id

    tail : (n : ℕ) → codes ("_" ⧺ itoa (pos (suc n))) ≢ []
    tail n p =
        let q : codes (String.◌∷◌ "_" (itoa (pos (suc n)))) ≡ [] =
          ap codes (sym (underline_cons (itoa (pos (suc n))))) ∙ p in
        cc
