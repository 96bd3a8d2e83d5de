-- ===== src/Repository/Text.antt =====
-- trade_repository.go: `randomNumeric`, `isDuplicate` and `contains`. Go's byte slices are lists of
-- codes here: a text occurs in another as bytes where it occurs as UTF-8 characters.
use mathlib.Core.List.{append-nil}
use group_buy_market.Prelude.{
  length-append, ℕ, ◌==◌, ◌≤◌, leb, if◌then◌else◌, Bool, true, false, ◌&&◌, ◌||◌, ◌≡◌, refl, String,
  codes, List, [], ◌∷◌, ◌++◌, length, take, arith, ap, sym, inl, inr, ◌∙◌, ◌⊎◌, ◌↔◌,
}
use group_buy_market.Types.Outcome.{GoError, database, new_app_exception}
use group_buy_market.Types.Codes.{index_exception}
use group_buy_market.Trade.StockKey.{digit}

-- `randomNumeric(n)` from the n draws of `rand.Intn(10)`.
unfoldable pub random_numeric : List ℕ → String
random_numeric [] = ""
random_numeric (d ∷ ds) = String.◌∷◌ (digit d) (random_numeric ds)

-- `==` on two strings.
abbrev same_codes : List ℕ → List ℕ → Bool
same_codes [] [] = true
same_codes (x ∷ xs) (y ∷ ys) = x == y && same_codes xs ys
same_codes _ _ = false

-- The loop over `i`, at the text `s[i:]`.
scan : List ℕ → List ℕ → Bool
scan [] sub = leb (length sub) 0 && same_codes [] sub
scan (x ∷ xs) sub =
    let rest = scan xs sub in
    if leb (length sub) (length (x ∷ xs))
    then same_codes (take (length sub) (x ∷ xs)) sub || rest
    else false

unfoldable pub contains : List ℕ → List ℕ → Bool
unfolding scan
contains s sub =
    leb (length sub) (length s) && (same_codes s sub || (length sub == 0 || scan s sub))

unfoldable pub is_duplicate : String → Bool
unfolding contains
is_duplicate msg =
    contains (codes msg) (codes "Duplicate")
    || (contains (codes msg) (codes "duplicate") || contains (codes msg) (codes "UNIQUE"))

-- The error of an insert: a duplicate key becomes the business error.
unfoldable pub duplicate_to_index : GoError → GoError
duplicate_to_index (database msg) =
    if is_duplicate msg then new_app_exception index_exception else database msg
duplicate_to_index e = e

-- `sub` stands in `s`, with what is before and after it.
abbrev pub Occurs : List ℕ → List ℕ → Type 0
Occurs s sub = (before : List ℕ) × (after : List ℕ) × (s ≡ before ++ (sub ++ after))

same_codes-eq : (xs ys : List ℕ) → same_codes xs ys ≡ true → xs ≡ ys
same_codes-eq [] [] h = refl
same_codes-eq [] (y ∷ ys) h = cc
same_codes-eq (x ∷ xs) [] h = cc
same_codes-eq (x ∷ xs) (y ∷ ys) h = ground (arith, same_codes-eq xs ys)

same_codes_self : (xs : List ℕ) → same_codes xs xs ≡ true
same_codes_self [] = refl
same_codes_self (x ∷ xs) = ground (arith, same_codes_self xs)

length-le-Occurs : (before sub after : List ℕ) → length sub ≤ length (before ++ (sub ++ after))
length-le-Occurs before sub after =
    omega (arith, length-append before (sub ++ after), length-append sub after)

take-append : (sub after : List ℕ) → take (length sub) (sub ++ after) ≡ sub
take-append [] after = refl
take-append (x ∷ xs) after = ap (◌∷◌ x) (take-append xs after)

take-prefix : (s sub : List ℕ) → take (length sub) s ≡ sub → (after : List ℕ) × (s ≡ sub ++ after)
take-prefix s [] h = (s, refl)
take-prefix [] (y ∷ ys) h = cc
take-prefix (x ∷ xs) (y ∷ ys) h =
    let (after, e) = take-prefix xs ys (ground arith) in (after, ground (arith, e))

scan-split :
    (x : ℕ) (xs sub : List ℕ)
    → scan (x ∷ xs) sub ≡ true
    → (same_codes (take (length sub) (x ∷ xs)) sub ≡ true) ⊎ (scan xs sub ≡ true)
unfolding scan
scan-split x xs sub h = ground arith

scan-Occurs : (s sub : List ℕ) → scan s sub ≡ true → Occurs s sub
unfolding scan
scan-Occurs [] sub h = let e : [] ≡ sub = same_codes-eq [] sub (ground arith) in ([], [], rw (← e))
scan-Occurs (x ∷ xs) sub h = elim (scan-split x xs sub h) [
  | inl here ↦ let (after, e) = take-prefix (x ∷ xs) sub (same_codes-eq _ _ here) in ([], after, e)
  | inr later ↦
      let (before, after, e) = scan-Occurs xs sub later in (x ∷ before, after, ap (◌∷◌ x) e)
]

Occurs-scan_here : (sub after : List ℕ) → scan (sub ++ after) sub ≡ true
unfolding scan
Occurs-scan_here [] [] = refl
Occurs-scan_here [] (y ∷ ys) = ground arith
Occurs-scan_here (x ∷ xs) after =
    ground (arith, length-append xs after, take-append (x ∷ xs) after, same_codes_self (x ∷ xs))

Occurs-scan : (before sub after : List ℕ) → scan (before ++ (sub ++ after)) sub ≡ true
unfolding scan
Occurs-scan [] sub after = Occurs-scan_here sub after
Occurs-scan (b ∷ bs) sub after =
    ground (arith, Occurs-scan bs sub after, length-le-Occurs (b ∷ bs) sub after)

contains-split :
    (s sub : List ℕ) → contains s sub ≡ true → (s ≡ sub) ⊎ ((sub ≡ []) ⊎ (scan s sub ≡ true))
unfolding contains
contains-split s [] h = inr (inl refl)
contains-split s (y ∷ ys) h = ground (arith, same_codes-eq s (y ∷ ys))

contains-Occurs_of : (s sub : List ℕ) → contains s sub ≡ true → Occurs s sub
contains-Occurs_of s sub h = elim (contains-split s sub h) [
  | inl same ↦ ([], [], same ∙ sym (append-nil sub))
  | inr (inl empty) ↦ ([], s, rw empty)
  | inr (inr inside) ↦ scan-Occurs s sub inside
]

Occurs-contains : (before sub after : List ℕ) → contains (before ++ (sub ++ after)) sub ≡ true
unfolding contains
Occurs-contains before sub after =
    ground (arith, Occurs-scan before sub after, length-le-Occurs before sub after)

-- `contains` holds exactly when the second text occurs somewhere in the first.
pub contains-Occurs : (s sub : List ℕ) → (contains s sub ≡ true) ↔ Occurs s sub
contains-Occurs s sub =
    (contains-Occurs_of s sub, λ (before, after, e). rw e (Occurs-contains before sub after))
