-- ===== src/Store/Facts.antt =====
-- Facts that a call establishes before it returns, whatever it does afterwards.
use group_buy_market.Prelude.{◌≡◌, List, Option, String, [], ◌∷◌, none, some}
use group_buy_market.Types.Outcome.{Result, ok, err, panic}
use group_buy_market.Store.Rows.{Db, World}
use group_buy_market.Store.Call.{Call, ◌>>=◌, query, statement, non_nil, lift}
use group_buy_market.Store.Rules.{Post, OkThen, with_db}

module _ {D A : Type 0} where
  always : (C : Type 0) (r : Result A) (w : World D) → C → OkThen (λ a v. C) r w
  unfolding OkThen
  always C (ok a) w c = c
  always C (err e) w c = tt
  always C panic w c = tt

  pub always-Post : (C : Type 0) (m : Call D A) (w : World D) → C → Post m w (λ a v. C)
  unfolding Post
  always-Post C m w c = always C (m w).0 (m w).1 c

  weaken :
      (P Q : A → World D → Type 0) (r : Result A) (w : World D)
      → ((a : A) (v : World D) → P a v → Q a v)
      → OkThen P r w
      → OkThen Q r w
  unfolding OkThen
  weaken P Q (ok a) w f h = f a w h
  weaken P Q (err e) w f h = tt
  weaken P Q panic w f h = tt

  pub weaken-Post :
      (P Q : A → World D → Type 0) (m : Call D A) (w : World D)
      → ((a : A) (v : World D) → P a v → Q a v)
      → Post m w P
      → Post m w Q
  unfolding Post
  weaken-Post P Q m w f h = weaken P Q (m w).0 (m w).1 f h

  each :
      {B : Type 0} (r : Result A) (f : A → Call D B) (w : World D) (Q : B → World D → Type 0)
      → ((a : A) → Post (f a) w Q)
      → Post ((λ v. (r, v)) >>= f) w Q
  unfolding Post ◌>>=◌ OkThen
  each (ok a) f w Q h = h a
  each (err e) f w Q h = tt
  each panic f w Q h = tt

  -- A step of which nothing is known.
  pub each-Post :
      {B : Type 0} (m : Call D A) (f : A → Call D B) (w : World D) (Q : B → World D → Type 0)
      → ((a : A) (v : World D) → Post (f a) v Q)
      → Post (m >>= f) w Q
  unfolding Post ◌>>=◌
  each-Post m f w Q h = each (m w).0 f (m w).1 Q (λ a. h a (m w).1)

module _ {D A B : Type 0} where
  first :
      (C : Type 0) (r : Result A) (w : World D) (f : A → Call D B)
      → OkThen (λ a v. C) r w
      → Post ((λ v. (r, v)) >>= f) w (λ b v. C)
  unfolding Post ◌>>=◌ OkThen
  first C (ok a) w f c = always C (f a w).0 (f a w).1 c
  first C (err e) w f c = tt
  first C panic w f c = tt

  -- What the first part establishes holds of the whole.
  pub first-Post :
      (C : Type 0) (m : Call D A) (f : A → Call D B) (w : World D)
      → Post m w (λ a v. C)
      → Post (m >>= f) w (λ b v. C)
  unfolding Post ◌>>=◌
  first-Post C m f w h = first C (m w).0 (m w).1 f h

  pub query-Post :
      (g : Db D → A) (f : A → Call D B) (w : World D) (Q : B → World D → Type 0)
      → ((fs : List (Option String)) → Post (f (g w.db)) (with_db w w.db fs) Q)
      → Post (query g >>= f) w Q
  unfolding statement ◌>>=◌ Post OkThen
  query-Post g f w Q h = go w.faults
    where
      go : (fs : List (Option String)) → Post (query g >>= f) (record w { faults = fs }) Q
      go [] = h []
      go (none ∷ fs) = h fs
      go (some e ∷ fs) = tt

  pub non_nil-Post :
      (o : Option A) (f : A → Call D B) (w : World D) (Q : B → World D → Type 0)
      → ((a : A) → o ≡ some a → Post (f a) w Q)
      → Post (non_nil o >>= f) w Q
  unfolding ◌>>=◌ Post OkThen
  non_nil-Post none f w Q h = tt
  non_nil-Post (some a) f w Q h = h a (λ i. some a)

  pub lift-Post :
      (r : Result A) (f : A → Call D B) (w : World D) (Q : B → World D → Type 0)
      → ((a : A) → r ≡ ok a → Post (f a) w Q)
      → Post (lift r >>= f) w Q
  unfolding ◌>>=◌ Post OkThen lift
  lift-Post (ok a) f w Q h = h a (λ i. ok a)
  lift-Post (err e) f w Q h = tt
  lift-Post panic f w Q h = tt

module _ {D A B : Type 0} where
  then_of :
      (P : A → World D → Type 0) (Q : B → World D → Type 0) (r : Result A) (f : A → Call D B)
      (w : World D)
      → ((a : A) (v : World D) → P a v → Post (f a) v Q)
      → OkThen P r w
      → Post ((λ v. (r, v)) >>= f) w Q
  unfolding Post ◌>>=◌ OkThen
  then_of P Q (ok a) f w k h = k a w h
  then_of P Q (err e) f w k h = tt
  then_of P Q panic f w k h = tt

  -- What the first part returns, and then the second.
  pub then-Post :
      (P : A → World D → Type 0) (Q : B → World D → Type 0) (m : Call D A) (f : A → Call D B)
      (w : World D)
      → Post m w P
      → ((a : A) (v : World D) → P a v → Post (f a) v Q)
      → Post (m >>= f) w Q
  unfolding Post ◌>>=◌
  then-Post P Q m f w h k = then_of P Q (m w).0 f (m w).1 k h
