-- ===== src/Repository/Stock/Runs.antt =====
-- Runs of the team stock: occupations and recoveries of one team, in any order.
use group_buy_market.Prelude.{
  ℕ, suc, ◌≡◌, refl, sym, if◌then◌else◌, Bool, true, false, ◌&&◌, not, ltb_ℤ, leb_ℤ, ℤ, pos, ◌+ℤ◌,
  ◌-ℤ◌, String, str_eq, str_eq_self, some, arith, Bool-cases, inl, inr, pos-suc,
}
use mathlib.Core.Path.{subst}
use group_buy_market.Store.Rows.{Keys, put}
use group_buy_market.Consistency.Recount.{str_eq_ne}
use group_buy_market.Repository.Stock.{
  value_of, is_set, incr, decr, set_nx, slot_key, occupy_team_stock_script,
}
use group_buy_market.Repository.Stock.Names.{Apart}

-- What one occupation is meant to do, with `held` places taken and `back` recovered: it is granted
-- if the next place fits and its lock is free.
abbrev pub fits : ℤ → ℕ → ℕ → Bool
fits target held back = leb_ℤ (pos (suc held)) (target +ℤ pos back)

-- A granted or refused occupation and the keys after it.
abbrev pub Occupies : String → String → ℤ → ℕ → ℕ → Keys → Bool × Keys → Type 0
Occupies team_key recovery_key target held back keys result =
    (result.0 ≡ (fits target held back && not (is_set (keys (slot_key team_key (pos (suc held)))))))
    × (value_of (result.1 team_key) ≡ (
        if fits target held back && not (is_set (keys (slot_key team_key (pos (suc held)))))
        then pos (suc held)
        else pos held))
    × (value_of (result.1 recovery_key) ≡ value_of (keys recovery_key))

pred-suc : (n : ℕ) → pos (suc n) -ℤ pos 1 ≡ pos n
unfolding ◌-ℤ◌
pred-suc n = ground arith

abbrev after_incr : String → ℕ → Keys → Keys
after_incr team_key held keys = put team_key (some (pos (suc held))) keys

abbrev after : String → ℕ → Bool → Bool → Keys → Bool × Keys
after team_key held false taken keys = (false, decr team_key (after_incr team_key held keys))
after team_key held true true keys = (false, decr team_key (after_incr team_key held keys))
after team_key held true false keys =
    (true, put (slot_key team_key (pos (suc held))) (some (pos 1)) (after_incr team_key held keys))

incr_lem :
    (key : String) (n : ℕ) (keys : Keys)
    → value_of (keys key) ≡ pos n
    → incr key keys ≡ (pos (suc n), after_incr key n keys)
unfolding incr
incr_lem key n keys h = rw (h, pos-suc n) refl

module _ (team_key recovery_key : String) (apart : Apart team_key recovery_key) where
  script_lem :
      (target : ℤ) (held back : ℕ) (keys : Keys)
      → value_of (keys team_key) ≡ pos held
      → value_of (keys recovery_key) ≡ pos back
      → occupy_team_stock_script team_key recovery_key target keys
        ≡ after team_key held
            (fits target held back)
            (is_set (keys (slot_key team_key (pos (suc held)))))
            keys
  unfolding occupy_team_stock_script incr decr set_nx put
  script_lem target held back keys h r =
      let other = str_eq_ne recovery_key team_key (λ e. apart.team_recovery (sym e)) in
      let free = str_eq_ne (slot_key team_key (pos (suc held))) team_key (apart.slot_team held) in
      elim (Bool-cases (fits target held back)) [
        | inr e ↦
            let over : ltb_ℤ (target +ℤ pos back) (pos (suc held)) ≡ true = ground arith in
            simp (h, pos-suc held, other, r, free, over, e) refl
        | inl e ↦
            let room : ltb_ℤ (target +ℤ pos back) (pos (suc held)) ≡ false = ground arith in
            elim (Bool-cases (is_set (keys (slot_key team_key (pos (suc held)))))) [
              | inl f ↦ simp (h, pos-suc held, other, r, free, room, e, f) refl
              | inr f ↦ simp (h, pos-suc held, other, r, free, room, e, f) refl
            ]
      ]

  other : str_eq recovery_key team_key ≡ false
  other = str_eq_ne recovery_key team_key (λ e. apart.team_recovery (sym e))

  own_slot : (n : ℕ) → str_eq team_key (slot_key team_key (pos (suc n))) ≡ false
  own_slot n = str_eq_ne team_key _ (λ e. apart.slot_team n (sym e))

  other_slot : (n : ℕ) → str_eq recovery_key (slot_key team_key (pos (suc n))) ≡ false
  other_slot n = str_eq_ne recovery_key _ (λ e. apart.slot_recovery n (sym e))

  after-Occupied :
      (held : ℕ) (room taken : Bool) (keys : Keys)
      → ((after team_key held room taken keys).0 ≡ (room && not taken))
        × (value_of ((after team_key held room taken keys).1 team_key)
            ≡ (if room && not taken then pos (suc held) else pos held))
        × (value_of ((after team_key held room taken keys).1 recovery_key)
            ≡ value_of (keys recovery_key))
  unfolding decr put
  after-Occupied held false taken keys =
      (refl, simp (str_eq_self team_key, pred-suc held) refl, simp other refl)
  after-Occupied held true true keys =
      (refl, simp (str_eq_self team_key, pred-suc held) refl, simp other refl)
  after-Occupied held true false keys =
      (refl, simp (own_slot held, str_eq_self team_key) refl, simp (other_slot held, other) refl)

  -- One occupation, on keys of which the counters and the slot locks are different, from `held`
  -- places taken and `back` recovered: it is granted if and only if the next place fits the target
  -- with what was recovered and the lock of that place is free; a grant takes one place, a refusal
  -- leaves the number of places, and neither changes what was recovered.
  pub occupy_team_stock_script-Occupies :
      (target : ℤ) (held back : ℕ) (keys : Keys)
      → value_of (keys team_key) ≡ pos held
      → value_of (keys recovery_key) ≡ pos back
      → Occupies team_key recovery_key target held back keys
          (occupy_team_stock_script team_key recovery_key target keys)
  occupy_team_stock_script-Occupies target held back keys h r =
      subst (Occupies team_key recovery_key target held back keys)
        (sym (script_lem target held back keys h r)) (after-Occupied held _ _ keys)
