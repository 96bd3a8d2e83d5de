-- ===== src/Repository/Stock/Once.antt =====
-- `Refund2AddRecovery`: an order gives its place back once.
use group_buy_market.Prelude.{
  ◌≡◌, refl, sym, ap, true, false, ◌||◌, pos, ◌+ℤ◌, String, str_eq, str_eq_self, Option, none, some,
  List, [], ◌∷◌, arith, Bool-cases, inl, inr,
}
use group_buy_market.Types.Outcome.{ok, err, database}
use group_buy_market.Store.Rows.{World, put}
use group_buy_market.Store.Call.{pure, command, ◌>>=◌}
use group_buy_market.Repository.Stock.{
  value_of, is_set, incr, set_nx, del, refund_lock_key, refund2_add_recovery,
}

module _ {D : Type 0} where
  -- The world after the first recovery: the lock is taken and one place is recovered.
  abbrev pub recovered_once : String → String → World D → World D
  recovered_once recovery_key order_id w = record w {
    redis =
        put recovery_key (some (value_of (w.redis recovery_key) +ℤ pos 1))
          (put (refund_lock_key order_id) (some (pos 1)) w.redis);
  }

  first_call :
      (recovery_key order_id : String) (w : World D)
      → (str_eq recovery_key "" || str_eq order_id "") ≡ false
      → str_eq recovery_key (refund_lock_key order_id) ≡ false
      → is_set (w.redis (refund_lock_key order_id)) ≡ false
      → w.faults ≡ []
      → refund2_add_recovery recovery_key order_id w
        ≡ (ok tt, recovered_once recovery_key order_id w)
  unfolding refund2_add_recovery set_nx incr put command pure ◌>>=◌ del
  first_call recovery_key order_id w named apart free f = simp (named, f, free, apart) refl

  second_call :
      (other_key order_id : String) (v : World D)
      → is_set (v.redis (refund_lock_key order_id)) ≡ true
      → v.faults ≡ []
      → refund2_add_recovery other_key order_id v ≡ (ok tt, v)
  unfolding refund2_add_recovery set_nx incr put command pure ◌>>=◌ del
  second_call other_key order_id v taken f =
      elim (Bool-cases (str_eq other_key "" || str_eq order_id "")) [
        | inl e ↦ simp e refl
        | inr e ↦ simp (e, f, taken) (ap (λ fs. (ok tt, record v { faults = fs })) (sym f))
      ]

  lock_stands :
      (recovery_key order_id : String) (w : World D)
      → str_eq recovery_key (refund_lock_key order_id) ≡ false
      → is_set ((recovered_once recovery_key order_id w).redis (refund_lock_key order_id)) ≡ true
  unfolding put
  lock_stands recovery_key order_id w apart =
      let own = str_eq_self (refund_lock_key order_id) in ground (arith, own)

  -- When the recovery key and the order are named, the key is not the order's lock, that lock is free
  -- and Redis answers, the recovery takes the lock and adds one to the
  -- recovered places of the team; a second recovery of the same order right after it, for whatever
  -- team, changes nothing.
  pub refund2_add_recovery-once :
      (recovery_key other_key order_id : String) (w : World D)
      → (str_eq recovery_key "" || str_eq order_id "") ≡ false
      → str_eq recovery_key (refund_lock_key order_id) ≡ false
      → is_set (w.redis (refund_lock_key order_id)) ≡ false
      → w.faults ≡ []
      → (refund2_add_recovery recovery_key order_id w
          ≡ (ok tt, recovered_once recovery_key order_id w))
        × (refund2_add_recovery other_key order_id (recovered_once recovery_key order_id w)
            ≡ (ok tt, recovered_once recovery_key order_id w))
  refund2_add_recovery-once recovery_key other_key order_id w named apart free f = (
    first_call recovery_key order_id w named apart free f,
    second_call other_key order_id (recovered_once recovery_key order_id w)
        (lock_stands recovery_key order_id w apart) f,
  )

  -- When the recovery key and the order are named, the order's lock is free and of the three
  -- commands only the increment fails, its error is returned and the order's lock is given back.
  pub refund2_add_recovery-released :
      (recovery_key order_id message : String) (rest : List (Option String)) (w : World D)
      → (str_eq recovery_key "" || str_eq order_id "") ≡ false
      → is_set (w.redis (refund_lock_key order_id)) ≡ false
      → w.faults ≡ none ∷ some message ∷ none ∷ rest
      → ((refund2_add_recovery recovery_key order_id w).0 ≡ err (database message))
        × ((refund2_add_recovery recovery_key order_id w).1.redis (refund_lock_key order_id) ≡ none)
        × ((refund2_add_recovery recovery_key order_id w).1.faults ≡ rest)
  unfolding refund2_add_recovery set_nx incr put command pure ◌>>=◌ del
  refund2_add_recovery-released recovery_key order_id message rest w named free f =
      let own = str_eq_self (refund_lock_key order_id) in
      (simp (named, f, free) refl, simp (named, f, free, own) refl, simp (named, f, free) refl)
