-- ===== src/Dcc/Settings.antt =====
-- Changes of the settings, and the cut-over of users.
use group_buy_market.Prelude.{
  ℕ, ltb, ◌≤◌, ◌<◌, ◌%◌, ◌≡◌, ◌≢◌, refl, sym, ap, ◌∙◌, Bool-cases, inl, inr, if◌then◌else◌, Bool,
  true, false, ◌&&◌, ◌||◌, pos, String, str_eq, str_eq_eq, str_eq_self, some, List, arith,
}
use group_buy_market.Consistency.Recount.{str_eq_ne}
use group_buy_market.Dcc.{
  Service, apply_local, snapshot, is_cut_range, is_empty, range_n, to_int64, last_two,
}

abbrev pub is_known : String → Bool
is_known key =
    str_eq key "downgradeSwitch"
    || (str_eq key "cutRange" || (str_eq key "scBlacklist" || str_eq key "cacheSwitch"))

and-true : (b : Bool) → (b && true) ≡ b
and-true true = refl
and-true false = refl

and-false : (b c : Bool) → c ≡ false → (b && c) ≡ false
and-false true c h = h
and-false false c h = refl

written :
    (key : String) (value : List ℕ) (s : Service)
    → snapshot (apply_local key value s) key ≡ (if is_known key then some value else snapshot s key)
unfolding apply_local snapshot
written key value s = ground arith

-- A key that is one of the four names differs from every other key.
other_name :
    (key other name : String) → other ≢ key → str_eq key name ≡ true → str_eq other name ≡ false
other_name key other name ne e = str_eq_ne other name (λ p. ne (p ∙ sym (str_eq_eq key name e)))

untouched :
    (key other : String) (value : List ℕ) (s : Service)
    → other ≢ key
    → snapshot (apply_local key value s) other ≡ snapshot s other
unfolding apply_local snapshot
untouched key other value s ne = elim (Bool-cases (str_eq key "downgradeSwitch")) [
  | inl e ↦ let n = other_name key other _ ne e in simp (e, n) refl
  | inr e ↦ elim (Bool-cases (str_eq key "cutRange")) [
    | inl f ↦ let n = other_name key other _ ne f in simp (e, f, n) refl
    | inr f ↦ elim (Bool-cases (str_eq key "scBlacklist")) [
      | inl g ↦ let n = other_name key other _ ne g in simp (e, f, g, n) refl
      | inr g ↦ elim (Bool-cases (str_eq key "cacheSwitch")) [
        | inl h ↦ let n = other_name key other _ ne h in simp (e, f, g, h, n) refl
        | inr h ↦ simp (e, f, g, h) refl
      ]
    ]
  ]
]

-- After an update the snapshot has the new value at the updated key, if it is one of the four, and
-- is unchanged at every other key; an update of an unknown key changes nothing.
pub apply_local-snapshot :
    (key other : String) (value : List ℕ) (s : Service)
    → snapshot (apply_local key value s) other
      ≡ (if is_known key && str_eq other key then some value else snapshot s other)
apply_local-snapshot key other value s = elim (Bool-cases (str_eq other key)) [
  | inl e ↦
      let same = str_eq_eq other key e in
      rw (same, str_eq_self key)
        (written key value s
          ∙ ap (λ b. if b then some value else snapshot s key) (sym (and-true (is_known key))))
  | inr e ↦
      untouched key other value s (λ p. let hit = str_eq_self key in ground (arith, e, p, hit))
      ∙ ap (λ b. if b then some value else snapshot s other)
          (sym (and-false (is_known key) (str_eq other key) e))
]

to_int64-small : (n : ℕ) → n < 9223372036854775808 → to_int64 n ≡ pos n
to_int64-small n h =
    let m : n % 18446744073709551616 ≡ n = omega arith in
    let small : ltb n 9223372036854775808 ≡ true = ground arith in rw (m, small) refl

-- A user whom one range lets through, a range that is not smaller lets through too, where the
-- smaller range is given and the larger one, as a number, fits in an int64.
pub is_cut_range-grows :
    (s t : Service) (user_id : List ℕ)
    → is_empty s.cut_range ≡ false
    → range_n 0 s.cut_range ≤ range_n 0 t.cut_range
    → range_n 0 t.cut_range < 9223372036854775808
    → is_cut_range s user_id ≡ true
    → is_cut_range t user_id ≡ true
unfolding is_cut_range
is_cut_range-grows s t user_id given le fit h =
    let small = to_int64-small (range_n 0 s.cut_range) (omega arith) in
    let large = to_int64-small (range_n 0 t.cut_range) fit in
    let passes = simp (given, small) at h in
    let below : last_two user_id ≤ range_n 0 s.cut_range = ground (arith, passes) in
    elim (Bool-cases (is_empty t.cut_range)) [
      | inl e ↦ simp e refl
      | inr e ↦ simp (e, large) (ground (arith, below, le))
    ]
