-- ===== src/Store/Keeps.antt =====
-- How to reason about what a call leaves in the tables, however it ends.
use group_buy_market.Prelude.{◌≡◌, List, Option, String, Bool, true, false, [], ◌∷◌, none, some}
use group_buy_market.Trade.Notify.{NotifyTaskEntity}
use group_buy_market.Types.Outcome.{Result, ok, err, panic, GoError}
use group_buy_market.Store.Rows.{Db, Keys, Bitmaps, World}
use group_buy_market.Store.Call.{
  Call, pure, raise, ◌>>=◌, query, statement, command, bitmap_command, require, lift, non_nil,
  start_job,
}
use group_buy_market.Store.Rules.{with_db}
use group_buy_market.Store.Safe.{Safe, SafeResult}

module _ {D A : Type 0} where
  -- The tables after the call satisfy `P`, whether it returned, failed or crashed.
  unfoldable pub Keeps : (Db D → Type 0) → Call D A → World D → Type 0
  Keeps P m w = P (m w).1.db

  pub to_Keeps : (P : Db D → Type 0) (m : Call D A) (w : World D) → P (m w).1.db → Keeps P m w
  unfolding Keeps
  to_Keeps P m w h = h

  pub of_Keeps : (P : Db D → Type 0) (m : Call D A) (w : World D) → Keeps P m w → P (m w).1.db
  unfolding Keeps
  of_Keeps P m w h = h

  pub pure-Keeps : (P : Db D → Type 0) (a : A) (w : World D) → P w.db → Keeps P (pure a) w
  unfolding Keeps pure
  pure-Keeps P a w h = h

  pub lift-Keeps : (P : Db D → Type 0) (r : Result A) (w : World D) → P w.db → Keeps P (lift r) w
  unfolding Keeps lift
  lift-Keeps P r w h = h

  pub command-Keeps :
      (P : Db D → Type 0) (g : Keys → A × Keys) (w : World D) → P w.db → Keeps P (command g) w
  unfolding Keeps command
  command-Keeps P g w h = go w.faults
    where
      go : (fs : List (Option String)) → Keeps P (command g) (record w { faults = fs })
      go [] = h
      go (none ∷ fs) = h
      go (some e ∷ fs) = h

  pub statement-Keeps :
      (P : Db D → Type 0) (g : Db D → A × Db D) (w : World D)
      → P w.db
      → P (g w.db).1
      → Keeps P (statement g) w
  unfolding Keeps statement
  statement-Keeps P g w h k = go w.faults
    where
      go : (fs : List (Option String)) → Keeps P (statement g) (record w { faults = fs })
      go [] = k
      go (none ∷ fs) = k
      go (some e ∷ fs) = h

  pub bitmap-Keeps :
      (P : Db D → Type 0) (g : Bitmaps → A × Bitmaps) (w : World D)
      → P w.db
      → Keeps P (bitmap_command g) w
  unfolding Keeps bitmap_command
  bitmap-Keeps P g w h = go w.faults
    where
      go : (fs : List (Option String)) → Keeps P (bitmap_command g) (record w { faults = fs })
      go [] = h
      go (none ∷ fs) = h
      go (some e ∷ fs) = h

module _ {D : Type 0} where
  pub raise-Keeps :
      (A : Type 0) (P : Db D → Type 0) (e : GoError) (w : World D)
      → P w.db
      → Keeps P (raise {A = A} e) w
  unfolding Keeps raise
  raise-Keeps A P e w h = h

  pub start_job-Keeps :
      (P : Db D → Type 0) (t : Option NotifyTaskEntity) (w : World D)
      → P w.db
      → Keeps P (start_job t) w
  unfolding Keeps start_job
  start_job-Keeps P none w h = h
  start_job-Keeps P (some t) w h = h

module _ {D A B : Type 0} where
  bound :
      (P : Db D → Type 0) (r : Result A) (v : World D) (f : A → Call D B)
      → P v.db
      → ((a : A) (u : World D) → P u.db → Keeps P (f a) u)
      → Keeps P ((λ u. (r, u)) >>= f) v
  unfolding Keeps ◌>>=◌
  bound P (ok a) v f h k = k a v h
  bound P (err e) v f h k = h
  bound P panic v f h k = h

  -- A call whose parts keep `P` keeps it.
  pub bind-Keeps :
      (P : Db D → Type 0) (m : Call D A) (f : A → Call D B) (w : World D)
      → Keeps P m w
      → ((a : A) (v : World D) → P v.db → Keeps P (f a) v)
      → Keeps P (m >>= f) w
  unfolding Keeps ◌>>=◌
  bind-Keeps P m f w h k = bound P (m w).0 (m w).1 f h k

  safely_bound :
      (P : Db D → Type 0) (Q : A → World D → Type 0) (r : Result A) (v : World D) (f : A → Call D B)
      → P v.db
      → SafeResult Q r v
      → ((a : A) (u : World D) → P u.db → Q a u → Keeps P (f a) u)
      → Keeps P ((λ u. (r, u)) >>= f) v
  unfolding Keeps ◌>>=◌ SafeResult
  safely_bound P Q (ok a) v f h q k = k a v h q
  safely_bound P Q (err e) v f h q k = h
  safely_bound P Q panic v f h q k = h

  -- The same, with what the first part is known to return.
  pub safe_bind-Keeps :
      (P : Db D → Type 0) (Q : A → World D → Type 0) (m : Call D A) (f : A → Call D B) (w : World D)
      → Keeps P m w
      → Safe m w Q
      → ((a : A) (v : World D) → P v.db → Q a v → Keeps P (f a) v)
      → Keeps P (m >>= f) w
  unfolding Keeps ◌>>=◌ Safe
  safe_bind-Keeps P Q m f w h q k = safely_bound P Q (m w).0 (m w).1 f h q k

  -- A query, with what it reads.
  pub query-Keeps :
      (P : Db D → Type 0) (g : Db D → A) (f : A → Call D B) (w : World D)
      → P w.db
      → ((fs : List (Option String)) → Keeps P (f (g w.db)) (with_db w w.db fs))
      → Keeps P (query g >>= f) w
  unfolding Keeps statement ◌>>=◌
  query-Keeps P g f w h k = go w.faults
    where
      go : (fs : List (Option String)) → Keeps P (query g >>= f) (record w { faults = fs })
      go [] = k []
      go (none ∷ fs) = k fs
      go (some e ∷ fs) = h

  -- A pure function that may fail, with its value.
  pub lift_bind-Keeps :
      (P : Db D → Type 0) (r : Result A) (f : A → Call D B) (w : World D)
      → P w.db
      → ((a : A) → r ≡ ok a → Keeps P (f a) w)
      → Keeps P (lift r >>= f) w
  unfolding Keeps ◌>>=◌ lift
  lift_bind-Keeps P (ok a) f w h k = k a (λ i. ok a)
  lift_bind-Keeps P (err e) f w h k = h
  lift_bind-Keeps P panic f w h k = h

  pub non_nil-Keeps :
      (P : Db D → Type 0) (o : Option A) (f : A → Call D B) (w : World D)
      → P w.db
      → ((a : A) → o ≡ some a → Keeps P (f a) w)
      → Keeps P (non_nil o >>= f) w
  unfolding Keeps ◌>>=◌
  non_nil-Keeps P none f w h k = h
  non_nil-Keeps P (some a) f w h k = k a (λ i. some a)

  -- A step that returns at once, and a pointer that is not nil.
  pub pure_bind-Keeps :
      (P : Db D → Type 0) (a : A) (f : A → Call D B) (w : World D)
      → Keeps P (f a) w
      → Keeps P (pure a >>= f) w
  unfolding Keeps ◌>>=◌
  pure_bind-Keeps P a f w h = h

  pub some_bind-Keeps :
      (P : Db D → Type 0) (a : A) (f : A → Call D B) (w : World D)
      → Keeps P (f a) w
      → Keeps P (non_nil (some a) >>= f) w
  unfolding Keeps ◌>>=◌
  some_bind-Keeps P a f w h = h

  rebind-Keeps :
      {C : Type 0} (P : Db D → Type 0) (r : Result A) (f : A → Call D B) (k : B → Call D C)
      (w : World D)
      → Keeps P ((λ v. (r, v)) >>= λ a. f a >>= k) w
      → Keeps P (((λ v. (r, v)) >>= f) >>= k) w
  unfolding ◌>>=◌ Keeps
  rebind-Keeps P (ok a) f k w h = h
  rebind-Keeps P (err e) f k w h = h
  rebind-Keeps P panic f k w h = h

  -- Steps may be regrouped to the right.
  pub regroup-Keeps :
      {C : Type 0} (P : Db D → Type 0) (m : Call D A) (f : A → Call D B) (k : B → Call D C)
      (w : World D)
      → Keeps P (m >>= λ a. f a >>= k) w
      → Keeps P ((m >>= f) >>= k) w
  unfolding ◌>>=◌ Keeps
  regroup-Keeps P m f k w h = rebind-Keeps P (m w).0 f k (m w).1 h

module _ {D B : Type 0} where
  pub require-Keeps :
      (P : Db D → Type 0) (b : Bool) (e : GoError) (f : Unit {0} → Call D B) (w : World D)
      → P w.db
      → (b ≡ true → Keeps P (f tt) w)
      → Keeps P (require b e >>= f) w
  unfolding Keeps ◌>>=◌
  require-Keeps P true e f w h k = k (λ i. true)
  require-Keeps P false e f w h k = h
