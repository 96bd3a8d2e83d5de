-- ===== src/Repository/Stock/Oversell.antt =====
-- Runs of the team stock: occupations and recoveries of one team, in any order and from any clients,
-- since each of them is one atomic step on the keys.
use group_buy_market.Prelude.{
  ℕ, suc, ◌+◌, ◌≡◌, refl, ◌∙◌, ap, if◌then◌else◌, Bool, true, false, ◌&&◌, not, ℤ, pos, ◌+ℤ◌, ◌≤ℤ◌,
  String, str_eq_self, none, List, [], ◌∷◌, arith, int_laws, Bool-cases, inl, inr, pos-suc,
}
use group_buy_market.Trade.StockKey.{generate_team_stock_key, generate_recovery_team_stock_key}
use group_buy_market.Store.Rows.{Keys, put}
use group_buy_market.Consistency.Recount.{str_eq_ne}
use group_buy_market.Repository.Stock.{value_of, is_set, incr, slot_key, occupy_team_stock_script}
use group_buy_market.Repository.Stock.Names.{Apart, stock_keys-Apart}
use group_buy_market.Repository.Stock.Runs.{fits, occupy_team_stock_script-Occupies}

-- A client occupies a place, or an order gives its place back.
pub data StockStep : Type 0 where
  occupy recover : StockStep

abbrev pub recovered : List StockStep → ℕ
recovered [] = 0
recovered (occupy ∷ steps) = recovered steps
recovered (recover ∷ steps) = suc (recovered steps)

abbrev count_grant : Bool → ℕ → ℕ
count_grant true n = suc n
count_grant false n = n

-- How many occupations of the run are granted.
abbrev pub granted : String → String → ℤ → List StockStep → Keys → ℕ
granted team_key recovery_key target [] keys = 0
granted team_key recovery_key target (occupy ∷ steps) keys =
    count_grant (occupy_team_stock_script team_key recovery_key target keys).0 (
      granted team_key recovery_key target steps
        (occupy_team_stock_script team_key recovery_key target keys).1)
granted team_key recovery_key target (recover ∷ steps) keys =
    granted team_key recovery_key target steps (incr recovery_key keys).1

module _ (team_key recovery_key : String) (apart : Apart team_key recovery_key) where
  recover-counts :
      (back : ℕ) (keys : Keys)
      → value_of (keys recovery_key) ≡ pos back
      → (value_of ((incr recovery_key keys).1 recovery_key) ≡ pos (suc back))
        × (value_of ((incr recovery_key keys).1 team_key) ≡ value_of (keys team_key))
  unfolding incr put
  recover-counts back keys r =
      let other = str_eq_ne team_key recovery_key apart.team_recovery in
      (simp (str_eq_self recovery_key, r, pos-suc back) refl, simp other refl)

  bounded :
      (target : ℤ) (steps : List StockStep) (held back : ℕ) (keys : Keys)
      → value_of (keys team_key) ≡ pos held
      → value_of (keys recovery_key) ≡ pos back
      → pos held ≤ℤ target +ℤ pos back
      → pos (held + granted team_key recovery_key target steps keys)
        ≤ℤ target +ℤ pos (back + recovered steps)
  bounded target [] held back keys h r le = omega (int_laws, le)
  bounded target (recover ∷ steps) held back keys h r le =
      let (back', held') = recover-counts back keys r in
      let more : pos held ≤ℤ target +ℤ pos (suc back) = omega (int_laws, le) in
      omega (
        int_laws,
        bounded target steps held (suc back) (incr recovery_key keys).1 (held' ∙ h) back' more,
      )
  bounded target (occupy ∷ steps) held back keys h r le =
      let o =
        occupy_team_stock_script-Occupies team_key recovery_key apart target held back keys h r in
      elim (Bool-cases
        (fits target held back && not (is_set (keys (slot_key team_key (pos (suc held))))))) [
          | inl e ↦
              let room : pos (suc held) ≤ℤ target +ℤ pos back = ground (arith, e) in
              rw (o.0, e)
                (omega (
                  int_laws,
                  bounded target steps (suc held) back
                      (occupy_team_stock_script team_key recovery_key target keys).1
                      (o.1 ∙ ap (λ b. if b then pos (suc held) else pos held) e) (o.2 ∙ r) room,
                ))
          | inr e ↦
              rw (o.0, e)
                (bounded target steps held back
                  (occupy_team_stock_script team_key recovery_key target keys).1
                  (o.1 ∙ ap (λ b. if b then pos (suc held) else pos held) e) (o.2 ∙ r) le)
        ]

-- No run of occupations and recoveries of a team oversells it: from a team without keys and with a
-- target that is not negative, however the steps interleave, the granted occupations are at most the
-- target and the recoveries together.
pub occupy_team_stock_script-bounded :
    (activity_id : ℤ) (team_id : String) (target : ℤ) (steps : List StockStep) (keys : Keys)
    → keys (generate_team_stock_key activity_id team_id) ≡ none
    → keys (generate_recovery_team_stock_key activity_id team_id) ≡ none
    → pos 0 ≤ℤ target
    → pos (
        granted
          (generate_team_stock_key activity_id team_id)
          (generate_recovery_team_stock_key activity_id team_id)
          target
          steps
          keys)
      ≤ℤ target +ℤ pos (recovered steps)
occupy_team_stock_script-bounded activity_id team_id target steps keys no_team no_recovery le =
    omega (
      int_laws,
      bounded _ _ (stock_keys-Apart activity_id team_id) target steps 0 0 keys (ap value_of no_team)
          (ap value_of no_recovery) (omega (int_laws, le)),
    )
