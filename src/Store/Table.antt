-- ===== src/Store/Table.antt =====
-- SQL on one table: `UPDATE … SET f WHERE p` with its number of affected rows.
use group_buy_market.Prelude.{
  ◌+◌, ◌≡◌, Bool, true, false, if◌then◌else◌, List, [], ◌∷◌, arith, All, count_where, Bool-cases,
  inl, inr,
}

module _ {A : Type 0} where
  unfoldable pub update_where : (A → Bool) → (A → A) → List A → List A
  update_where p f [] = []
  update_where p f (x ∷ xs) = (if p x then f x else x) ∷ update_where p f xs

  -- An update moves the matched rows from class `a` to class `b` of a test `q`.
  abbrev pub Moves : (A → Bool) → (A → A) → (A → Bool) → Bool → Bool → A → Type 0
  Moves p f q a b x = p x ≡ true → (q x ≡ a) × (q (f x) ≡ b)

  -- What the update does to a count, from the number of affected rows.
  pub count_where-update_where :
      (p : A → Bool) (f : A → A) (q : A → Bool) (a b : Bool) (xs : List A)
      → All (Moves p f q a b) xs
      → count_where q (update_where p f xs) + (if a then count_where p xs else 0)
        ≡ count_where q xs + (if b then count_where p xs else 0)
  unfolding update_where count_where
  count_where-update_where p f q a b [] h = ground arith
  count_where-update_where p f q a b (x ∷ xs) h = elim (Bool-cases (p x)) [
    | inl hit ↦
        let (before, after) = h.0 hit in
        ground (arith, before, after, count_where-update_where p f q a b xs h.1)
    | inr miss ↦ ground (arith, count_where-update_where p f q a b xs h.1)
  ]

  pub All-update_where :
      (P Q : A → Type 0) (p : A → Bool) (f : A → A) (xs : List A)
      → ((x : A) → p x ≡ true → P x → Q (f x))
      → ((x : A) → p x ≡ false → P x → Q x)
      → All P xs
      → All Q (update_where p f xs)
  unfolding update_where
  All-update_where P Q p f [] hit miss h = tt
  All-update_where P Q p f (x ∷ xs) hit miss h = elim (Bool-cases (p x)) [
    | inl e ↦ rw e (hit x e h.0, All-update_where P Q p f xs hit miss h.1)
    | inr e ↦ rw e (miss x e h.0, All-update_where P Q p f xs hit miss h.1)
  ]
