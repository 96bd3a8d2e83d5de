-- ===== src/Store/Only.antt =====
-- A row that is the only one to pass a test, at its place in its table.
use group_buy_market.Prelude.{
  ℕ, suc, ◌≡◌, refl, ap, ◌∙◌, Bool, true, false, some, List, [], ◌∷◌, ◌++◌, arith, All, All-map,
  find, count_where, Bool-cases, inl, inr,
}
use group_buy_market.Store.Table.{update_where}

suc_zero : (n : ℕ) → suc n ≡ 0 → ⊥
suc_zero n e = omega arith

module _ {A : Type 0} where
  -- Between `before` and `after` in `xs`, where no other row passes `p`.
  pub record Only (p : A → Bool) (xs before : List A) (x : A) (after : List A) : Type 0 where
    pub at : xs ≡ before ++ x ∷ after
    pub hit : p x ≡ true
    pub front : All (λ y. p y ≡ false) before
    pub back : All (λ y. p y ≡ false) after

  pub Only-narrow :
      (p q : A → Bool) (xs before : List A) (x : A) (after : List A)
      → ((y : A) → p y ≡ false → q y ≡ false)
      → q x ≡ true
      → Only p xs before x after
      → Only q xs before x after
  Only-narrow p q xs before x after less hit o = record {
    at = o.at;
    hit = hit;
    front = All-map (λ y. p y ≡ false) (λ y. q y ≡ false) before less o.front;
    back = All-map (λ y. p y ≡ false) (λ y. q y ≡ false) after less o.back;
  }

  module _ (p : A → Bool) where
    update_where-missed :
        (f : A → A) (xs : List A) → All (λ y. p y ≡ false) xs → update_where p f xs ≡ xs
    unfolding update_where
    update_where-missed f [] h = refl
    update_where-missed f (y ∷ ys) h = rw (h.0, update_where-missed f ys h.1) refl

    update_where-split :
        (f : A → A) (before : List A) (x : A) (after : List A)
        → p x ≡ true
        → All (λ y. p y ≡ false) before
        → All (λ y. p y ≡ false) after
        → update_where p f (before ++ x ∷ after) ≡ before ++ f x ∷ after
    unfolding update_where
    update_where-split f [] x after hit h k = rw (hit, update_where-missed f after k) refl
    update_where-split f (y ∷ ys) x after hit h k =
        rw (h.0, update_where-split f ys x after hit h.1 k) refl

    count_where-missed : (xs : List A) → All (λ y. p y ≡ false) xs → count_where p xs ≡ 0
    unfolding count_where
    count_where-missed [] h = refl
    count_where-missed (y ∷ ys) h = rw (h.0, count_where-missed ys h.1) refl

    count_where-split :
        (before : List A) (x : A) (after : List A)
        → p x ≡ true
        → All (λ y. p y ≡ false) before
        → All (λ y. p y ≡ false) after
        → count_where p (before ++ x ∷ after) ≡ 1
    unfolding count_where
    count_where-split [] x after hit h k = rw (hit, count_where-missed after k) refl
    count_where-split (y ∷ ys) x after hit h k =
        rw (h.0, count_where-split ys x after hit h.1 k) refl

    pub find-split :
        (before : List A) (x : A) (after : List A)
        → p x ≡ true
        → All (λ y. p y ≡ false) before
        → find p (before ++ x ∷ after) ≡ some x
    unfolding find
    find-split [] x after hit h = rw hit refl
    find-split (y ∷ ys) x after hit h = rw h.0 (find-split ys x after hit h.1)

    pub count_where-none : (xs : List A) → count_where p xs ≡ 0 → All (λ y. p y ≡ false) xs
    unfolding count_where
    count_where-none [] e = tt
    count_where-none (y ∷ ys) e = elim (Bool-cases (p y)) [
      | inl hit ↦ absurd (suc_zero (count_where p ys) (rw hit at e))
      | inr miss ↦ (miss, count_where-none ys (rw miss at e))
    ]

  module _ {p : A → Bool} {xs before : List A} {x : A} {after : List A}
      (o : Only p xs before x after) where
    pub update_where-Only : (f : A → A) → update_where p f xs ≡ before ++ f x ∷ after
    update_where-Only f =
        ap (update_where p f) o.at ∙ update_where-split p f before x after o.hit o.front o.back

    pub count_where-Only : count_where p xs ≡ 1
    count_where-Only =
        ap (count_where p) o.at ∙ count_where-split p before x after o.hit o.front o.back
