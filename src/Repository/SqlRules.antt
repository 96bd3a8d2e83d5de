-- ===== src/Repository/SqlRules.antt =====
-- The rules of `Store.Rules` for an insert under a unique key and for a relabelled error.
use group_buy_market.Prelude.{◌≡◌, Bool, true, false, if◌then◌else◌, List, Option, String}
use group_buy_market.Types.Outcome.{GoError, Result, ok, err, panic}
use group_buy_market.Store.Rows.{Db, World}
use group_buy_market.Store.Call.{Call, require, ◌>>=◌}
use group_buy_market.Store.Rules.{Post, with_db, statement-Post, require-Post, bind-Post}
use group_buy_market.Repository.Sql.{insert, map_error}

-- What `add_team` and `add_order` do, with the test and the new tables taken apart.
module _ {D : Type 0} where
  abbrev pub guarded : Bool → Db D → Db D → Bool × Db D
  guarded b new old = if b then (true, new) else (false, old)

module _ {D B : Type 0} where
  decide-Post :
      (b : Bool) (old new : Db D) (e : GoError) (f : Unit {0} → Call D B) (w : World D)
      (fs : List (Option String)) (Q : B → World D → Type 0)
      → (b ≡ true → Post (f tt) (with_db w new fs) Q)
      → Post (require (guarded b new old).0 e >>= f) (with_db w (guarded b new old).1 fs) Q
  decide-Post true old new e f w fs Q h = require-Post true e f _ Q h
  decide-Post false old new e f w fs Q h = require-Post false e f _ Q (λ p. cc)

  -- An insert goes on only if the unique key lets the row in.
  pub insert-Post :
      (c : Db D → Bool) (add : Db D → Db D) (f : Unit {0} → Call D B) (w : World D)
      (Q : B → World D → Type 0)
      → ((fs : List (Option String)) → c w.db ≡ true → Post (f tt) (with_db w (add w.db) fs) Q)
      → Post (insert (λ db. guarded (c db) (add db) db) >>= f) w Q
  insert-Post c add f w Q h =
      bind-Post _ _ f w Q
        (statement-Post _ _ w Q λ fs. decide-Post (c w.db) w.db (add w.db) _ f w fs Q (h fs))

module _ {D A B : Type 0} where
  relabel-Post :
      (g : GoError → GoError) (r : Result A) (f : A → Call D B) (w : World D)
      (Q : B → World D → Type 0)
      → Post ((λ v. (r, v)) >>= f) w Q
      → Post (map_error g (λ v. (r, v)) >>= f) w Q
  unfolding ◌>>=◌ Post
  relabel-Post g (ok a) f w Q h = h
  relabel-Post g (err e) f w Q h = tt
  relabel-Post g panic f w Q h = h

  pub map_error-Post :
      (g : GoError → GoError) (m : Call D A) (f : A → Call D B) (w : World D)
      (Q : B → World D → Type 0)
      → Post (m >>= f) w Q
      → Post (map_error g m >>= f) w Q
  unfolding ◌>>=◌ Post
  map_error-Post g m f w Q h = relabel-Post g (m w).0 f (m w).1 Q h
