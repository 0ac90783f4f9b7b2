-- ===== src/Handler/Pushdown.antt =====
-- Pushed conditions, and the opening of tables: src/ha_mongodb_handler.cc, src/mongodb_translator.cc.
use mongodb_engine.Base.{ℕ, ◌≡◌, refl, true, [], ◌∷◌, none, some, codes, arith}
use mongodb_engine.Handler.Defs.{Collection, Server, HaMongodb}
use mongodb_engine.Handler.Scan.{reset_for_scan, rnd_init}
use mongodb_engine.Translator.{translate_condition_to_bson}
use mongodb_engine.Handler.Stats.{cond_push, cond_pop, count_records}

-- The handler tells MariaDB that it tests a pushed condition itself, whatever it is, but a scan of
-- the table that begins then is the scan that begins without it.
pub rnd_init-cond_push :
    (d : Server) (cond : ℕ) (s : HaMongodb)
    → ((cond_push (some cond) s).0 ≡ none)
      × (rnd_init d true (cond_push (some cond) s).1 ≡ rnd_init d true s)
unfolding cond_push translate_condition_to_bson rnd_init reset_for_scan
rnd_init-cond_push d cond s = (refl, refl)

-- The number of records of a connected table is what the server counts for the city of Paris, as
-- soon as any condition is pushed, and what it counts for the empty filter once that is popped.
pub count_records-cond_push :
    (d : Server) (cond : ℕ) (s : HaMongodb) (c : Collection) (n m : ℕ)
    → s.collection ≡ some c
    → d.count_documents (some c) ((codes "city", codes "Paris") ∷ []) ≡ some n
    → d.count_documents (some c) [] ≡ some m
    → (count_records d (cond_push (some cond) s).1 ≡ n)
      × (count_records d (cond_pop (cond_push (some cond) s).1) ≡ m)
unfolding cond_push translate_condition_to_bson cond_pop count_records
count_records-cond_push d cond s c n m e f g = (ground (arith, e, f), ground (arith, e, g))
