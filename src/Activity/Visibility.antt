-- ===== src/Activity/Visibility.antt =====
-- What a tag scope hides.
use group_buy_market.Prelude.{
  ℕ, ◌==◌, ==_eq, ◌≡◌, refl, sym, ap, ◌∙◌, ◌⊎◌, inl, inr, ◌↔◌, ◌&&◌, not, Bool, true, false, codes,
  List, [], ◌∷◌, Bool-cases, not-false, and_left, and_right,
}
use group_buy_market.Dcc.{split, add_head, same_text, is_empty}
use group_buy_market.Activity.Types.{GroupBuyActivityDiscountVo, hides, visible_scope, is_visible}

-- Nothing, or a comma first.
abbrev pub Ends : List ℕ → Type 0
Ends cs = (cs ≡ []) ⊎ ((rest : List ℕ) × (cs ≡ 44 ∷ rest))

-- "1" alone or as the first item.
abbrev pub StartsWithOne : List ℕ → Type 0
StartsWithOne cs = (rest : List ℕ) × Ends rest × (cs ≡ 49 ∷ rest)

abbrev first_empty : List (List ℕ) → Bool
first_empty [] = true
first_empty (x ∷ xs) = is_empty x

not_empty : (c : ℕ) (parts : List (List ℕ)) → first_empty (add_head c parts) ≡ false
not_empty c [] = refl
not_empty c (x ∷ xs) = refl

Ends-of : (cs : List ℕ) → first_empty (split cs) ≡ true → Ends cs
unfolding split
Ends-of [] h = inl refl
Ends-of (c ∷ cs) h = elim (Bool-cases (c == 44)) [
  | inl comma ↦ inr (cs, ap (λ x. x ∷ cs) (==_eq c 44 comma))
  | inr other ↦ cc (not_empty c (split cs), rw other at h)
]

of_Ends : (cs : List ℕ) → Ends cs → first_empty (split cs) ≡ true
unfolding split
of_Ends cs (inl e) = rw e refl
of_Ends cs (inr (rest, e)) = rw e refl

hides-add :
    (c : ℕ) (parts : List (List ℕ)) → hides (add_head c parts) ≡ (c == 49 && first_empty parts)
unfolding same_text
hides-add c [] = refl
hides-add c ([] ∷ xs) = refl
hides-add c ((y ∷ ys) ∷ xs) = refl

hides-split : (c : ℕ) (cs : List ℕ) → hides (split (c ∷ cs)) ≡ (c == 49 && first_empty (split cs))
unfolding split same_text
hides-split c cs = elim (Bool-cases (c == 44)) [
  | inl comma ↦ rw (==_eq c 44 comma) refl
  | inr other ↦ rw other (hides-add c (split cs))
]

hidden_of : (cs : List ℕ) → visible_scope cs ≡ false → StartsWithOne cs
hidden_of [] h = cc
hidden_of (c ∷ cs) h =
    let both : (c == 49 && first_empty (split cs)) ≡ true =
      sym (hides-split c cs) ∙ not-false _ h in
    (
      cs,
      Ends-of cs (and_right (c == 49) _ both),
      ap (λ x. x ∷ cs) (==_eq c 49 (and_left (c == 49) _ both)),
    )

hidden-StartsWithOne : (cs : List ℕ) → StartsWithOne cs → visible_scope cs ≡ false
hidden-StartsWithOne cs (rest, ends, e) = rw e (ap not (hides-split 49 rest ∙ of_Ends rest ends))

-- An activity is hidden from buyers outside its crowd exactly when the first item of its scope is
-- "1": a "1" in a later place hides nothing.
pub is_visible-StartsWithOne :
    (v : GroupBuyActivityDiscountVo) → (is_visible v ≡ false) ↔ StartsWithOne (codes v.tag_scope)
unfolding is_visible
is_visible-StartsWithOne v =
    (hidden_of (codes v.tag_scope), hidden-StartsWithOne (codes v.tag_scope))
