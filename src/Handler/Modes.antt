-- ===== src/Handler/Modes.antt =====
-- The modes of a handler and its connection over all calls: src/ha_mongodb_handler.cc.
pub mod Scans
pub mod Runs
use mongodb_engine.Base.{
  ℕ, ◌+◌, ◌-◌, ◌≡◌, refl, sym, ap, ◌∙◌, Bool, true, false, not, ◌&&◌, List, [], ◌∷◌, Option, none,
  some, Bytes, ltb, if-both, option-both, option-known, if◌then◌else◌, Bool-cases, Option-cases,
  inl, inr, arith, ◌==◌,
}
use mongodb_engine.Share.Defs.{MongodbShare}
use mongodb_engine.Share.Parse.{mongodb_parse_connection_string}
use mongodb_engine.Handler.Defs.{Code, Doc, Cursor, FindOpts, Server, HaMongodb, new_handler}
use mongodb_engine.Handler.Connect.{
  get_share, free_share, open_parsed, open_table, disconnect_from_mongodb, close, connect_client,
  connect_share, connect_to_mongodb,
}
use mongodb_engine.Handler.Carry.{Blind}
use mongodb_engine.Handler.Scan.{
  Read, is_there, query_of, reset_for_scan, ensure_collection, start_tracking, count_scan,
  find_scan, document_scan, begin_scan, rnd_init, count_call, deliver, next_document, rnd_next,
  rnd_end, position, skip_to, seek, rewind, rewind_if, rnd_pos,
}

-- Neither count mode is on, no count is stored or was ever used, and the client and the collection
-- are there together or not at all.
pub record Modes (s : HaMongodb) : Type 0 where
  pub uncounted : s.count_mode ≡ false
  pub full : s.lightweight_count_mode ≡ false
  pub no_count : s.mongo_count_result ≡ 0
  pub unused : s.optimized_count_operations ≡ 0
  pub together : is_there s.client ≡ is_there s.collection

-- The second state has the modes and the connection of the first.
abbrev pub Keeps : HaMongodb → HaMongodb → Type 0
Keeps s t =
    (t.count_mode ≡ s.count_mode)
    × (t.lightweight_count_mode ≡ s.lightweight_count_mode)
    × (t.mongo_count_result ≡ s.mongo_count_result)
    × (t.optimized_count_operations ≡ s.optimized_count_operations)
    × (t.client ≡ s.client)
    × (t.collection ≡ s.collection)

pub Keeps-refl : (s : HaMongodb) → Keeps s s
Keeps-refl s = (refl, refl, refl, refl, refl, refl)

pub Keeps-Modes : (s t : HaMongodb) → Keeps s t → Modes s → Modes t
Keeps-Modes s t (a, b, c, d, e, f) h = record {
  uncounted = a ∙ h.uncounted;
  full = b ∙ h.full;
  no_count = c ∙ h.no_count;
  unused = d ∙ h.unused;
  together = ap is_there e ∙ h.together ∙ sym (ap is_there f);
}

pub Keeps-Blind : (s : HaMongodb) → Blind (Keeps s)
Keeps-Blind s t cursor doc at calls scanned h = h

pub find_scan-Keeps :
    (s : HaMongodb) (d : Server) (opts : FindOpts) (t : HaMongodb)
    → Keeps s t
    → Keeps s (find_scan d opts t).1
unfolding find_scan
find_scan-Keeps s d opts t h =
    option-both (λ (r : Code × HaMongodb). Keeps s r.1)
      (d.find t.collection (query_of t.pushed_condition) opts) h (λ c. h)

reset-Modes : (scan : Bool) (s : HaMongodb) → Modes s → Modes (reset_for_scan scan s)
unfolding reset_for_scan
reset-Modes true s h = record {
  uncounted = refl;
  full = refl;
  no_count = refl;
  unused = h.unused;
  together = h.together;
}
reset-Modes false s h = record {
  uncounted = h.uncounted;
  full = refl;
  no_count = h.no_count;
  unused = h.unused;
  together = h.together;
}

connected-Modes :
    (k : Option ℕ) (l : Option (Bytes × Bytes)) (s : HaMongodb)
    → Modes s
    → is_there k ≡ is_there l
    → Modes (record s { client = k; collection = l })
connected-Modes k l s h e = record {
  uncounted = h.uncounted;
  full = h.full;
  no_count = h.no_count;
  unused = h.unused;
  together = e;
}

no_client-Modes :
    (s : HaMongodb) → Modes s → s.collection ≡ none → Modes (record s { client = none })
no_client-Modes s h n = record {
  uncounted = h.uncounted;
  full = h.full;
  no_count = h.no_count;
  unused = h.unused;
  together = ap is_there (sym n);
}

connect_client-Modes :
    (d : Server) (u db c : Bytes) (s : HaMongodb)
    → Modes s
    → s.collection ≡ none
    → Modes (connect_client d u db c s).1
unfolding connect_client
connect_client-Modes d u db c s h n =
    let lost = no_client-Modes s h n in
    option-both (λ (r : Code × HaMongodb). Modes r.1) (d.client_new u) lost
      (λ k.
        if-both (λ (r : Code × HaMongodb). Modes r.1) (not (d.get_database k db)) lost
          (if-both (λ (r : Code × HaMongodb). Modes r.1) (not (d.get_collection db c))
            (connected-Modes none none s h refl)
            (connected-Modes (some k) (some (db, c)) s h refl)))

connect-Modes :
    (d : Server) (s : HaMongodb) → Modes s → s.collection ≡ none → Modes (connect_to_mongodb d s).1
unfolding connect_to_mongodb connect_share
connect-Modes d s h n =
    option-both (λ (r : Code × HaMongodb). Modes r.1) s.share h
      (λ share.
        option-both (λ (r : Code × HaMongodb). Modes r.1) share.mongo_connection_string h
          (λ u.
            option-both (λ (r : Code × HaMongodb). Modes r.1) share.database_name h
              (λ db.
                option-both (λ (r : Code × HaMongodb). Modes r.1) share.collection_name h
                  (λ c. connect_client-Modes d u db c s h n))))

pub ensure_collection-Modes :
    (d : Server) (s : HaMongodb) → Modes s → Modes (ensure_collection d s).1
unfolding ensure_collection
ensure_collection-Modes d s h =
    option-known (λ (r : Code × HaMongodb). Modes r.1) s.collection (λ n. connect-Modes d s h n)
      (λ c e. h)

-- Nothing of a connection touches the pushed condition.
pub ensure_collection-pushed :
    (d : Server) (s : HaMongodb) → (ensure_collection d s).1.pushed_condition ≡ s.pushed_condition
unfolding ensure_collection connect_to_mongodb connect_share connect_client
ensure_collection-pushed d s =
    let P : Code × HaMongodb → Type 0 = λ r. r.1.pushed_condition ≡ s.pushed_condition in
    option-known P s.collection
      (λ n. option-both P s.share refl (λ share.
        option-both P share.mongo_connection_string refl (λ u.
          option-both P share.database_name refl (λ db.
            option-both P share.collection_name refl (λ c. option-both P (d.client_new u) refl (λ k.
              if-both P (not (d.get_database k db)) refl
                (if-both P (not (d.get_collection db c)) refl refl)))))))
      (λ c e. refl)
