-- ===== src/Store/Rules.antt =====
-- How to reason about a call: what holds when it returns a value.
use group_buy_market.Prelude.{◌≡◌, List, Option, String, Bool, true, false, [], ◌∷◌, none, some}
use group_buy_market.Types.Outcome.{Result, ok, err, panic, GoError}
use group_buy_market.Store.Rows.{Db, World}
use group_buy_market.Store.Call.{Call, pure, ◌>>=◌, statement, transaction, require, found}

module _ {D A : Type 0} where
  -- If the outcome is a value, then it and the world satisfy `Q`.
  unfoldable pub OkThen : (A → World D → Type 0) → Result A → World D → Type 0
  OkThen Q (ok a) w = Q a w
  OkThen Q (err e) w = Unit
  OkThen Q panic w = Unit

  unfoldable pub Post : Call D A → World D → (A → World D → Type 0) → Type 0
  unfolding OkThen
  Post m w Q = OkThen Q (m w).0 (m w).1

module _ {D : Type 0} where
  -- The world with other tables and a later schedule.
  abbrev pub with_db : World D → Db D → List (Option String) → World D
  with_db w db fs = record w { db = db; faults = fs }

module _ {D A B : Type 0} where
  pub statement-Post :
      (g : Db D → A × Db D) (f : A → Call D B) (w : World D) (Q : B → World D → Type 0)
      → ((fs : List (Option String)) → Post (f (g w.db).0) (with_db w (g w.db).1 fs) Q)
      → Post (statement g >>= f) w Q
  unfolding statement ◌>>=◌ Post
  statement-Post g f w Q h = go w.faults (λ fs. h fs)
    where
      go :
          (fs : List (Option String))
          → ((gs : List (Option String)) → Post (f (g w.db).0) (with_db w (g w.db).1 gs) Q)
          → Post (statement g >>= f) (record w { faults = fs }) Q
      go [] k = k []
      go (none ∷ fs) k = k fs
      go (some e ∷ fs) k = tt

module _ {D A : Type 0} where
  pub pure-Post : (a : A) (w : World D) (Q : A → World D → Type 0) → Q a w → Post (pure a) w Q
  unfolding pure Post
  pure-Post a w Q h = h

module _ {D B : Type 0} where
  pub require-Post :
      (b : Bool) (e : GoError) (f : Unit {0} → Call D B) (w : World D) (Q : B → World D → Type 0)
      → (b ≡ true → Post (f tt) w Q)
      → Post (require b e >>= f) w Q
  unfolding ◌>>=◌ Post
  require-Post true e f w Q h = h (λ i. true)
  require-Post false e f w Q h = tt

module _ {D A : Type 0} where
  -- A transaction keeps what its body re-establishes whenever it returns a value.
  pub transaction-keeps :
      (P : Db D → Type 0) (m : Call D A) (w : World D)
      → P w.db
      → Post m w (λ a w'. P w'.db)
      → P (transaction m w).1.db
  unfolding transaction Post
  transaction-keeps P m w h k = settle (m w).0 (m w).1 k
    where
      commit :
          (a : A) (w' : World D) (fs : List (Option String))
          → P w'.db
          → P (transaction (λ v. (ok a, record w' { faults = fs })) w).1.db
      commit a w' [] k = k
      commit a w' (none ∷ fs) k = k
      commit a w' (some e ∷ fs) k = h

      settle :
          (r : Result A) (w' : World D)
          → OkThen (λ a v. P v.db) r w'
          → P (transaction (λ v. (r, w')) w).1.db
      settle (ok a) w' k = commit a w' w'.faults k
      settle (err e) w' k = h
      settle panic w' k = h

module _ {D A B C : Type 0} where
  rebind :
      (r : Result A) (f : A → Call D B) (k : B → Call D C) (w : World D) (Q : C → World D → Type 0)
      → Post ((λ v. (r, v)) >>= λ a. f a >>= k) w Q
      → Post (((λ v. (r, v)) >>= f) >>= k) w Q
  unfolding ◌>>=◌ Post
  rebind (ok a) f k w Q h = h
  rebind (err e) f k w Q h = h
  rebind panic f k w Q h = h

  -- Steps may be regrouped to the right.
  pub bind-Post :
      (m : Call D A) (f : A → Call D B) (k : B → Call D C) (w : World D) (Q : C → World D → Type 0)
      → Post (m >>= λ a. f a >>= k) w Q
      → Post ((m >>= f) >>= k) w Q
  unfolding ◌>>=◌ Post
  bind-Post m f k w Q h = rebind (m w).0 f k (m w).1 Q h

module _ {D A B : Type 0} where
  pub found-Post :
      (o : Option A) (k : A → Call D B) (w : World D) (Q : B → World D → Type 0)
      → ((a : A) → o ≡ some a → Post (k a) w Q)
      → Post (found o >>= k) w Q
  unfolding ◌>>=◌ Post
  found-Post none k w Q h = tt
  found-Post (some a) k w Q h = h a (λ i. some a)

  pub pure_bind-Post :
      (a : A) (k : A → Call D B) (w : World D) (Q : B → World D → Type 0)
      → Post (k a) w Q
      → Post (pure a >>= k) w Q
  unfolding ◌>>=◌ Post
  pure_bind-Post a k w Q h = h
