-- ===== src/Pool/Registry.antt =====
-- The pools by connection string, and the check of a connection string.
use mongodb_engine.Base.{
  ◌≡◌, ◌≢◌, refl, true, false, none, some, Option-cases, Bytes, lookup, insert, lookup-insert,
  str_eq_iff, str_eq_refl, is_empty, inl, inr, arith,
}
use mongodb_engine.Pool.Defs.{MongoConnectionPool, new_pool}
use mongodb_engine.Pool.Global.{
  Pools, get_or_create_connection_pool, validate_mongodb_connection_string,
}
use mongodb_engine.Uri.Parse.{parse}
use mongodb_engine.Uri.Sound.{parse-IsUsable}
use mongodb_engine.Uri.Validate.{validate_database_name, validate_collection_name}

get-none :
    (s : Bytes) (pools : Pools)
    → lookup s pools ≡ none
    → get_or_create_connection_pool s pools ≡ (new_pool s, insert s (new_pool s) pools)
unfolding get_or_create_connection_pool
get-none s pools n = rw (n, get_or_create_connection_pool)

get-some :
    (s : Bytes) (pools : Pools) (p : MongoConnectionPool)
    → lookup s pools ≡ some p
    → get_or_create_connection_pool s pools ≡ (p, pools)
unfolding get_or_create_connection_pool
get-some s pools p n = rw (n, get_or_create_connection_pool)

-- Asking for a pool leaves it registered under its text: a second request gets the same pool and
-- changes nothing; the pools of other texts are left alone.
get_or_create_twice :
    (s t : Bytes) (pools : Pools)
    → let first = get_or_create_connection_pool s pools in
      (get_or_create_connection_pool s first.1 ≡ first)
      × (s ≢ t → lookup t first.1 ≡ lookup t pools)
get_or_create_twice s t pools = elim (Option-cases (lookup s pools)) [
  | inl n ↦ rw (get-none s pools n) (
    get-some s (insert s (new_pool s) pools) (new_pool s)
        (rw (lookup-insert s s (new_pool s) pools, str_eq_refl s)),
    λ ne. rw (lookup-insert s t (new_pool s) pools) (ground (arith, str_eq_iff s t)),
  )
  | inr (p, n) ↦ rw (get-some s pools p n) (get-some s pools p n, λ ne. refl)
]

usable-names :
    (d c : Bytes)
    → validate_database_name d ≡ true
    → validate_collection_name c ≡ true
    → (is_empty d ≡ false) × (is_empty c ≡ false)
unfolding validate_database_name validate_collection_name
usable-names d c hd hc = (ground arith, ground arith)

-- The check of a connection string says what the parser says, with the parser's message: its own two
-- checks of the names never fail.
validate_string_lem :
    (s : Bytes)
    → validate_mongodb_connection_string s ≡ ((parse s).is_valid, (parse s).error_message)
unfolding validate_mongodb_connection_string
validate_string_lem s = elim (parse-IsUsable s) [
  | inr r ↦ rw (r.invalid) (ground arith)
  | inl u ↦
      let (d, c) =
        usable-names (parse s).database (parse s).collection u.database_valid u.collection_valid in
      rw (u.valid, d, c, u.silent)
]
