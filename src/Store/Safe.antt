-- ===== src/Store/Safe.antt =====
-- How to reason about a call that must not crash: it returns a value with a property, or an error.
use group_buy_market.Prelude.{
  ◌≡◌, refl, ◌∙◌, List, Option, String, [], ◌∷◌, none, some, Bool, true, false,
}
use group_buy_market.Types.Outcome.{Result, ok, err, panic, GoError}
use group_buy_market.Store.Rows.{Db, Bitmaps, World}
use group_buy_market.Store.Call.{
  Call, pure, raise, ◌>>=◌, query, statement, bitmap_command, non_nil, require,
}

-- The tables and the bit sets of two worlds are the same.
pub record Same {D : Type 0} (w v : World D) : Type 0 where
  pub db : v.db ≡ w.db
  pub bitmaps : v.bitmaps ≡ w.bitmaps

pub Same-refl : {D : Type 0} (w : World D) → Same w w
Same-refl w = record { db = refl; bitmaps = refl }

pub Same-trans : {D : Type 0} {u v w : World D} → Same u v → Same v w → Same u w
Same-trans h k = record { db = k.db ∙ h.db; bitmaps = k.bitmaps ∙ h.bitmaps }

module _ {D A : Type 0} where
  unfoldable pub SafeResult : (A → World D → Type 0) → Result A → World D → Type 0
  SafeResult Q (ok a) w = Q a w
  SafeResult Q (err e) w = Unit
  SafeResult Q panic w = ⊥

  unfoldable pub Safe : Call D A → World D → (A → World D → Type 0) → Type 0
  unfolding SafeResult
  Safe m w Q = SafeResult Q (m w).0 (m w).1

  pub pure-Safe : (a : A) (w : World D) (Q : A → World D → Type 0) → Q a w → Safe (pure a) w Q
  unfolding Safe pure
  pure-Safe a w Q h = h

  pub raise-Safe : (e : GoError) (w : World D) (Q : A → World D → Type 0) → Safe (raise e) w Q
  unfolding Safe raise
  raise-Safe e w Q = tt

  pub query-Safe : (g : Db D → A) (w : World D) → Safe (query g) w (λ a v. (a ≡ g w.db) × Same w v)
  unfolding Safe statement
  query-Safe g w = go w.faults
    where
      go :
          (fs : List (Option String))
          → Safe (query g) (record w { faults = fs }) (λ a v. (a ≡ g w.db) × Same w v)
      go [] = (refl, record { db = refl; bitmaps = refl })
      go (none ∷ fs) = (refl, record { db = refl; bitmaps = refl })
      go (some e ∷ fs) = tt

  -- A command that reads the bit sets.
  pub bitmap-Safe :
      (g : Bitmaps → A) (w : World D)
      → Safe (bitmap_command (λ maps. (g maps, maps))) w (λ a v. (a ≡ g w.bitmaps) × Same w v)
  unfolding Safe bitmap_command
  bitmap-Safe g w = go w.faults
    where
      go :
          (fs : List (Option String))
          → Safe
              (bitmap_command (λ maps. (g maps, maps)))
              (record w { faults = fs })
              (λ a v. (a ≡ g w.bitmaps) × Same w v)
      go [] = (refl, record { db = refl; bitmaps = refl })
      go (none ∷ fs) = (refl, record { db = refl; bitmaps = refl })
      go (some e ∷ fs) = tt

  weaken_result :
      (P Q : A → World D → Type 0) (r : Result A) (w : World D)
      → ((a : A) (v : World D) → P a v → Q a v)
      → SafeResult P r w
      → SafeResult Q r w
  unfolding SafeResult
  weaken_result P Q (ok a) w f h = f a w h
  weaken_result P Q (err e) w f h = tt
  weaken_result P Q panic w f h = h

  pub weaken-Safe :
      (P Q : A → World D → Type 0) (m : Call D A) (w : World D)
      → ((a : A) (v : World D) → P a v → Q a v)
      → Safe m w P
      → Safe m w Q
  unfolding Safe
  weaken-Safe P Q m w f h = weaken_result P Q (m w).0 (m w).1 f h

module _ {D A B : Type 0} where
  bind_result :
      (P : A → World D → Type 0) (Q : B → World D → Type 0) (r : Result A) (f : A → Call D B)
      (w : World D)
      → ((a : A) (v : World D) → P a v → Safe (f a) v Q)
      → SafeResult P r w
      → Safe ((λ v. (r, v)) >>= f) w Q
  unfolding Safe ◌>>=◌
  bind_result P Q (ok a) f w k h = k a w h
  bind_result P Q (err e) f w k h = tt
  bind_result P Q panic f w k h = h

  pub bind-Safe :
      (P : A → World D → Type 0) (Q : B → World D → Type 0) (m : Call D A) (f : A → Call D B)
      (w : World D)
      → Safe m w P
      → ((a : A) (v : World D) → P a v → Safe (f a) v Q)
      → Safe (m >>= f) w Q
  unfolding Safe ◌>>=◌
  bind-Safe P Q m f w h k = bind_result P Q (m w).0 f (m w).1 k h

module _ {D A B : Type 0} where
  -- A step that only reads, of which nothing else is known.
  pub reading-Safe :
      (Q : B → World D → Type 0) (m : Call D A) (f : A → Call D B) (w : World D)
      → Safe m w (λ a v. Same w v)
      → ((a : A) (v : World D) → Same w v → Safe (f a) v Q)
      → Safe (m >>= f) w Q
  reading-Safe Q m f w h k = bind-Safe (λ a v. Same w v) Q m f w h k

  pub some-Safe :
      (a : A) (f : A → Call D B) (w : World D) (Q : B → World D → Type 0)
      → Safe (f a) w Q
      → Safe (non_nil (some a) >>= f) w Q
  unfolding Safe ◌>>=◌
  some-Safe a f w Q h = h

module _ {D B : Type 0} where
  pub require-Safe :
      (b : Bool) (e : GoError) (f : Unit {0} → Call D B) (w : World D) (Q : B → World D → Type 0)
      → (b ≡ true → Safe (f tt) w Q)
      → Safe (require b e >>= f) w Q
  unfolding Safe ◌>>=◌
  require-Safe true e f w Q h = h refl
  require-Safe false e f w Q h = tt

module _ {D A : Type 0} where
  -- A statement and a bit set command, with what they write.
  pub statement-Safe :
      (g : Db D → A × Db D) (w : World D)
      → Safe
          (statement g)
          w
          (λ a v. (a ≡ (g w.db).0) × (v.db ≡ (g w.db).1) × (v.bitmaps ≡ w.bitmaps))
  unfolding Safe statement
  statement-Safe g w = go w.faults
    where
      go :
          (fs : List (Option String))
          → Safe
              (statement g)
              (record w { faults = fs })
              (λ a v. (a ≡ (g w.db).0) × (v.db ≡ (g w.db).1) × (v.bitmaps ≡ w.bitmaps))
      go [] = (refl, refl, refl)
      go (none ∷ fs) = (refl, refl, refl)
      go (some e ∷ fs) = tt

  pub bitmap_write-Safe :
      (g : Bitmaps → A × Bitmaps) (w : World D)
      → Safe (bitmap_command g) w (λ a v. (v.bitmaps ≡ (g w.bitmaps).1) × (v.db ≡ w.db))
  unfolding Safe bitmap_command
  bitmap_write-Safe g w = go w.faults
    where
      go :
          (fs : List (Option String))
          → Safe
              (bitmap_command g)
              (record w { faults = fs })
              (λ a v. (v.bitmaps ≡ (g w.bitmaps).1) × (v.db ≡ w.db))
      go [] = (refl, refl)
      go (none ∷ fs) = (refl, refl)
      go (some e ∷ fs) = tt
