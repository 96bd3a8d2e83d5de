-- ===== src/Dcc/Blacklist.antt =====
-- The black list is a comma-separated list of channels.
use group_buy_market.Prelude.{
  ℕ, ◌==◌, ◌≡◌, ◌≢◌, refl, ◌∙◌, ap, if◌then◌else◌, Bool, false, ◌||◌, List, [], ◌∷◌, ◌++◌, All,
}
use group_buy_market.Dcc.{
  Service, is_empty, split, trim_space, same_text, any_item, is_sc_black_intercept,
}

-- The items written one after another, with commas between.
abbrev pub join : List ℕ → List (List ℕ) → List ℕ
join x [] = x
join x (y ∷ ys) = x ++ 44 ∷ join y ys

-- An item without commas and without spaces around it.
abbrev pub IsItem : List ℕ → Type 0
IsItem x = All (λ c. (c == 44) ≡ false) x × (trim_space x ≡ x)

-- One of the items, as it stands.
abbrev pub listed : List ℕ → List (List ℕ) → Bool
listed key [] = false
listed key (x ∷ xs) = same_text x key || listed key xs

split-comma : (x ys : List ℕ) → All (λ c. (c == 44) ≡ false) x → split (x ++ 44 ∷ ys) ≡ x ∷ split ys
unfolding split
split-comma [] ys h = refl
split-comma (c ∷ cs) ys h = rw (h.0, split-comma cs ys h.1) refl

split-item : (x : List ℕ) → All (λ c. (c == 44) ≡ false) x → split x ≡ x ∷ []
unfolding split
split-item [] h = refl
split-item (c ∷ cs) h = rw (h.0, split-item cs h.1) refl

split-join :
    (x : List ℕ) (xs : List (List ℕ)) → IsItem x → All IsItem xs → split (join x xs) ≡ x ∷ xs
split-join x [] h k = split-item x h.0
split-join x (y ∷ ys) h k =
    split-comma x (join y ys) h.0 ∙ ap (λ l. x ∷ l) (split-join y ys k.0 k.1)

any-listed : (key : List ℕ) (xs : List (List ℕ)) → All IsItem xs → any_item key xs ≡ listed key xs
any-listed key [] h = refl
any-listed key (x ∷ xs) h = rw (h.0.1, any-listed key xs h.1) refl

skip_empty : (bl : List ℕ) (r : Bool) → bl ≢ [] → (if is_empty bl then false else r) ≡ r
skip_empty [] r ne = absurd (ne refl)
skip_empty (c ∷ cs) r ne = refl

-- A black list that is the items of a list written with commas between them, where no item has a
-- comma or spaces around it and the text is not empty, intercepts exactly the listed channels: those
-- whose source and channel together are one of the items.
pub is_sc_black_intercept-listed :
    (s : Service) (source channel x : List ℕ) (xs : List (List ℕ))
    → IsItem x
    → All IsItem xs
    → s.sc_blacklist ≡ join x xs
    → join x xs ≢ []
    → is_sc_black_intercept s source channel ≡ listed (source ++ channel) (x ∷ xs)
unfolding is_sc_black_intercept
is_sc_black_intercept-listed s source channel x xs h k e ne = rw e (
    skip_empty (join x xs) (any_item (source ++ channel) (split (join x xs))) ne
    ∙ ap (any_item (source ++ channel)) (split-join x xs h k)
    ∙ any-listed (source ++ channel) (x ∷ xs) (h, k))
