-- ===== src/Dcc.antt =====
-- internal/infrastructure/dcc/dcc_service.go: the configuration centre. The lock around the four
-- fields makes each method one step. Texts that the code walks are lists of code points; a user id
-- that is hashed is the list of its bytes.
pub mod Blacklist
pub mod Settings
pub mod Broadcast
use group_buy_market.Prelude.{
  ℕ, zero, suc, ◌==◌, ltb, leb, ◌+◌, ◌-◌, ◌*◌, ◌/◌, ◌%◌, ◌^◌, if◌then◌else◌, Bool, true, false,
  ◌&&◌, ◌||◌, leb_ℤ, Option, none, some, ℤ, pos, negsuc, String, str_eq, List, [], ◌∷◌, ◌++◌,
}

pub record Service : Type 0 where
  pub downgrade_switch : List ℕ
  pub cut_range : List ℕ
  pub sc_blacklist : List ℕ
  pub cache_switch : List ℕ

unfoldable pub same_text : List ℕ → List ℕ → Bool
same_text [] [] = true
same_text [] (y ∷ ys) = false
same_text (x ∷ xs) [] = false
same_text (x ∷ xs) (y ∷ ys) = x == y && same_text xs ys

-- The switches are compared with "1" and with "0".
unfoldable pub is_downgrade_switch : Service → Bool
unfolding same_text
is_downgrade_switch s = same_text s.downgrade_switch (49 ∷ [])

unfoldable pub is_cache_open_switch : Service → Bool
unfolding same_text
is_cache_open_switch s = same_text s.cache_switch (48 ∷ [])

-- `switch key`.
unfoldable pub apply_local : String → List ℕ → Service → Service
apply_local key value s =
    if str_eq key "downgradeSwitch"
    then record s { downgrade_switch = value }
    else if str_eq key "cutRange"
    then record s { cut_range = value }
    else if str_eq key "scBlacklist"
    then record s { sc_blacklist = value }
    else if str_eq key "cacheSwitch"
    then record s { cache_switch = value }
    else s

-- The map that it returns, at a key.
unfoldable pub snapshot : Service → String → Option (List ℕ)
snapshot s key =
    if str_eq key "downgradeSwitch"
    then some s.downgrade_switch
    else if str_eq key "cutRange"
    then some s.cut_range
    else if str_eq key "scBlacklist"
    then some s.sc_blacklist
    else if str_eq key "cacheSwitch"
    then some s.cache_switch
    else none

-- An `int` of 64 bits, from the number that it is congruent to.
abbrev pub to_int64 : ℕ → ℤ
to_int64 n = let r = n % 2 ^ 64 in if ltb r (2 ^ 63) then pos r else negsuc (2 ^ 64 - 1 - r)

-- `rangeN`, up to its wrap-around: the digits of the text, with all else skipped.
unfoldable pub range_n : ℕ → List ℕ → ℕ
range_n acc [] = acc
range_n acc (c ∷ cs) =
    if leb 48 c && leb c 57 then range_n ((acc * 10 + (c - 48)) % 2 ^ 64) cs else range_n acc cs

-- Exclusive or of the low `fuel` bits.
unfoldable pub xor : ℕ → ℕ → ℕ → ℕ
xor zero a b = 0
xor (suc fuel) a b =
    let rest = xor fuel (a / 2) (b / 2) in (if a % 2 == b % 2 then 0 else 1) + 2 * rest

-- FNV-1a over 32 bits, from the hash `h` so far.
unfoldable pub fnv32a : ℕ → List ℕ → ℕ
unfolding xor
fnv32a h [] = h
fnv32a h (b ∷ bs) = fnv32a (xor 32 h b * 16777619 % 2 ^ 32) bs

abbrev pub last_two : List ℕ → ℕ
last_two user_id = fnv32a 2166136261 user_id % 100

abbrev pub is_empty : List ℕ → Bool
is_empty [] = true
is_empty (c ∷ cs) = false

unfoldable pub is_cut_range : Service → List ℕ → Bool
unfolding range_n fnv32a
is_cut_range s user_id =
    if is_empty s.cut_range
    then true
    else leb_ℤ (pos (last_two user_id)) (to_int64 (range_n 0 s.cut_range))

-- `strings.Split` at the comma.
abbrev pub add_head : ℕ → List (List ℕ) → List (List ℕ)
add_head c [] = (c ∷ []) ∷ []
add_head c (x ∷ xs) = (c ∷ x) ∷ xs

unfoldable pub split : List ℕ → List (List ℕ)
split [] = [] ∷ []
split (c ∷ cs) = let rest = split cs in if c == 44 then [] ∷ rest else add_head c rest

-- `unicode.IsSpace`.
abbrev pub is_space : ℕ → Bool
is_space c =
    leb 9 c && leb c 13
    || (c == 32
        || (c == 133
            || (c == 160
                || (c == 5760
                    || (leb 8192 c && leb c 8202
                        || (c == 8232
                            || (c == 8233 || (c == 8239 || (c == 8287 || c == 12288)))))))))

-- `strings.TrimSpace`.
unfoldable pub trim_left : List ℕ → List ℕ
trim_left [] = []
trim_left (c ∷ cs) = if is_space c then trim_left cs else c ∷ cs

unfoldable pub trim_right : List ℕ → List ℕ
trim_right [] = []
trim_right (c ∷ cs) =
    let rest = trim_right cs in if is_space c && is_empty rest then [] else c ∷ rest

abbrev pub trim_space : List ℕ → List ℕ
trim_space cs = trim_right (trim_left cs)

abbrev pub any_item : List ℕ → List (List ℕ) → Bool
any_item key [] = false
any_item key (item ∷ items) = same_text (trim_space item) key || any_item key items

unfoldable pub is_sc_black_intercept : Service → List ℕ → List ℕ → Bool
unfolding split trim_left trim_right same_text
is_sc_black_intercept s source channel =
    if is_empty s.sc_blacklist then false else any_item (source ++ channel) (split s.sc_blacklist)
