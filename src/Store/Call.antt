-- ===== src/Store/Call.antt =====
-- Calls that read and write the world: sequencing, errors, statements and transactions.
use group_buy_market.Prelude.{String, Option, none, some, List, [], ◌∷◌, ◌++◌, Bool, true, false}
use group_buy_market.Trade.Notify.{NotifyTaskEntity}
use group_buy_market.Types.Outcome.{Result, ok, err, panic, GoError, database, record_not_found}
use group_buy_market.Store.Rows.{Db, Keys, Bitmaps, World}

abbrev pub Call : Type 0 → Type 0 → Type 0
Call D A = World D → Result A × World D

module _ {D A : Type 0} where
  unfoldable pub pure : A → Call D A
  pure a w = (ok a, w)

  unfoldable pub raise : GoError → Call D A
  raise e w = (err e, w)

  -- A read through a nil pointer.
  unfoldable pub crash : Call D A
  crash w = (panic, w)

  -- A pure function that may fail.
  unfoldable pub lift : Result A → Call D A
  lift r w = (r, w)

module _ {D : Type 0} where
  unfoldable pub require : Bool → GoError → Call D (Unit {0})
  require true e w = (ok tt, w)
  require false e w = (err e, w)

module _ {D A : Type 0} where
  unfoldable pub non_nil : Option A → Call D A
  non_nil none w = (panic, w)
  non_nil (some a) w = (ok a, w)

  -- `First(&row)` with no match.
  unfoldable pub found : Option A → Call D A
  found none w = (err record_not_found, w)
  found (some a) w = (ok a, w)

module _ {D A B : Type 0} where
  abbrev pub continue : Result A → (A → Call D B) → Call D B
  continue (ok a) f w = f a w
  continue (err e) f w = (err e, w)
  continue panic f w = (panic, w)

  infixl 5 ◌>>=◌ ◌>>◌
  -- To unfold this unfolds the calls above it too.
  unfoldable pub ◌>>=◌ : Call D A → (A → Call D B) → Call D B
  unfolding pure raise crash lift require non_nil found
  ◌>>=◌ m f w = continue (m w).0 f (m w).1

  abbrev pub ◌>>◌ : Call D A → Call D B → Call D B
  m >> n = m >>= λ _. n

module _ {D : Type 0} where
  -- `safego.Go` of a callback, if there is a task: it runs later, on its own.
  unfoldable pub start_job : Option NotifyTaskEntity → Call D (Unit {0})
  start_job none w = (ok tt, w)
  start_job (some task) w = (ok tt, record w { jobs = w.jobs ++ task ∷ [] })

module _ {D A : Type 0} where
  -- One SQL statement on the tables: it fails, or it reads and writes them at once.
  abbrev run_statement : (Db D → A × Db D) → List (Option String) → Call D A
  run_statement g [] w = (ok (g w.db).0, record w { db = (g w.db).1 })
  run_statement g (none ∷ fs) w = (ok (g w.db).0, record w { db = (g w.db).1; faults = fs })
  run_statement g (some e ∷ fs) w = (err (database e), record w { faults = fs })

  unfoldable pub statement : (Db D → A × Db D) → Call D A
  statement g w = run_statement g w.faults w

  -- A statement that only reads.
  abbrev pub query : (Db D → A) → Call D A
  query g = statement (λ db. (g db, db))

  abbrev run_command : (Keys → A × Keys) → List (Option String) → Call D A
  run_command g [] w = (ok (g w.redis).0, record w { redis = (g w.redis).1 })
  run_command g (none ∷ fs) w = (ok (g w.redis).0, record w { redis = (g w.redis).1; faults = fs })
  run_command g (some e ∷ fs) w = (err (database e), record w { faults = fs })

  -- One Redis command or script.
  unfoldable pub command : (Keys → A × Keys) → Call D A
  command g w = run_command g w.faults w

  abbrev run_bitmap_command : (Bitmaps → A × Bitmaps) → List (Option String) → Call D A
  run_bitmap_command g [] w = (ok (g w.bitmaps).0, record w { bitmaps = (g w.bitmaps).1 })
  run_bitmap_command g (none ∷ fs) w =
      (ok (g w.bitmaps).0, record w { bitmaps = (g w.bitmaps).1; faults = fs })
  run_bitmap_command g (some e ∷ fs) w = (err (database e), record w { faults = fs })

  -- One Redis command on a bit set.
  unfoldable pub bitmap_command : (Bitmaps → A × Bitmaps) → Call D A
  bitmap_command g w = run_bitmap_command g w.faults w

  abbrev undo : Db D → Result A → World D → Result A × World D
  undo old (ok a) w = (ok a, w)
  undo old (err e) w = (err e, record w { db = old })
  undo old panic w = (panic, record w { db = old })

  -- `db.Transaction`: the body and then the commit, which may fail like any statement; after an
  -- error or a panic the tables are as they were.
  unfoldable pub transaction : Call D A → Call D A
  unfolding ◌>>=◌ statement
  transaction m w = let after = (m >>= λ a. query (λ _. a)) w in undo w.db after.0 after.1
