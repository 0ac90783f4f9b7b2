-- ===== src/Handler/Provenance/Opening.antt =====
-- `open` takes the names from its text: src/ha_mongodb_handler.cc.
use mongodb_engine.Base.{
  ℕ, ◌+◌, ◌%◌, ◌^◌, if◌then◌else◌, ◌==◌, ◌≡◌, inl, inr, refl, sym, ◌∙◌, Bool, true, false, not,
  Option, none, some, Bytes, if-both, option-known, subst, Bool-cases, arith,
}
use mongodb_engine.Share.Defs.{MongodbShare, zero_share}
use mongodb_engine.Share.Parse.{mongodb_parse_connection_string}
use mongodb_engine.Handler.Defs.{Code, HaMongodb}
use mongodb_engine.Handler.Connect.{get_share, free_share, open_parsed, open_table}
use mongodb_engine.Handler.Provenance.{Gives, In, parsed-Gives, parse-use_count}

no_share-In :
    (T : Bytes → Type 0) (s t : HaMongodb)
    → t.share ≡ none
    → t.collection ≡ s.collection
    → s.collection ≡ none
    → In T s
    → In T t
no_share-In T s t n e m h = record {
  linked = λ f. e ∙ m;
  parsed = λ k f. absurd (cc (n, f));
  gives = λ k f. absurd (cc (n, f));
  reads = λ c f. h.reads c (sym e ∙ f);
}

-- A share that no other handler uses goes away.
free_share-last :
    (t : HaMongodb) (k : MongodbShare)
    → t.share ≡ some k
    → k.use_count ≡ 1
    → ((free_share t).share ≡ none) × ((free_share t).collection ≡ t.collection)
unfolding free_share
free_share-last t k e u = simp (e, free_share) (rw u (refl, refl))

inject {ℓ} : {A : Type ℓ} {x y : A} → some x ≡ some y → x ≡ y
inject e = cc

-- `open` of a handler without a share.
open_parsed-In :
    (T : Bytes → Type 0) (s t : HaMongodb) (r : ℕ × MongodbShare)
    → In T s
    → t.collection ≡ s.collection
    → s.collection ≡ none
    → r.1.use_count ≡ 1
    → (r.0 ≡ 0 → Gives T r.1)
    → In T (open_parsed t r).1
unfolding open_parsed
open_parsed-In T s t r h e m u g = elim (Bool-cases (r.0 == 0)) [
  | inl z ↦ rw z (record {
    parsed = λ k f. subst (λ (x : MongodbShare). x.parsed ≡ true) (inject f) refl;
    gives = λ k f. subst (Gives T) (inject f) (g (ground arith));
    reads = λ c f. h.reads c (sym e ∙ f);
    linked = λ f. absurd (cc (f));
  })
  | inr z ↦
      let last = free_share-last (record t { share = some r.1 }) r.1 refl u in
      rw z (no_share-In T s (free_share (record t { share = some r.1 })) last.0 (last.1 ∙ e) m h)
]

-- The rest of `open`, with the share.
abbrev opens : (ℕ → ℕ → Bool) → Option Bytes → HaMongodb → Code × HaMongodb
opens alloc text t = elim t.share [
  | none ↦ (Code.out_of_mem, t)
  | some share ↦
      if not share.parsed
      then open_parsed t (mongodb_parse_connection_string alloc text share)
      else (Code.ok, t)
]

first_open-In :
    (T : Bytes → Type 0) (alloc : ℕ → ℕ → Bool) (text : Option Bytes) (s : HaMongodb)
    → ((x : Bytes) → text ≡ some x → T x)
    → s.collection ≡ none
    → In T s
    → In T
        (opens alloc text
          (record s { share = some (record zero_share { use_count = 1; parsed = false }) })).1
first_open-In T alloc text s f m h =
    let fresh = record zero_share { use_count = 1; parsed = false } in
    open_parsed-In T s (record s { share = some fresh })
      (mongodb_parse_connection_string alloc text fresh) h refl m (parse-use_count alloc text fresh)
      (parsed-Gives T alloc text fresh f)

no_memory-In :
    (T : Bytes → Type 0) (alloc : ℕ → ℕ → Bool) (text : Option Bytes) (s : HaMongodb)
    → s.share ≡ none
    → In T s
    → In T (opens alloc text s).1
no_memory-In T alloc text s n h =
    option-known (λ (r : Code × HaMongodb). In T r.1) s.share (λ m. h) (λ k e. absurd (cc (n, e)))

counted-In :
    (T : Bytes → Type 0) (alloc : ℕ → ℕ → Bool) (text : Option Bytes) (s : HaMongodb)
    (k : MongodbShare)
    → s.share ≡ some k
    → In T s
    → In T
        (opens alloc text
          (record s { share = some (record k { use_count = (k.use_count + 1) % 2 ^ 32 }) })).1
counted-In T alloc text s k e h = rw (h.parsed k e) (record {
  parsed = λ x g. subst (λ (y : MongodbShare). y.parsed ≡ true) (inject g) refl;
  gives = λ x g. subst (Gives T) (inject g) (h.gives k e);
  reads = h.reads;
  linked = λ f. absurd (cc (f));
})

-- `open` of a handler without a share takes the names from its text.
pub open_table-In :
    (T : Bytes → Type 0) (room : Bool) (alloc : ℕ → ℕ → Bool) (text : Option Bytes) (s : HaMongodb)
    → ((x : Bytes) → text ≡ some x → T x)
    → s.share ≡ none
    → In T s
    → In T (open_table room alloc text s).1
unfolding open_table get_share
open_table-In T room alloc text s f n h =
    let P : HaMongodb → Type 0 = λ t. In T (opens alloc text t).1 in
    option-known P s.share
      (λ e.
        if-both P room (first_open-In T alloc text s f (h.linked e) h)
          (no_memory-In T alloc text s e h))
      (λ k e. absurd (cc (n, e)))

-- `open` of a handler with a share does not look at its text.
pub open_again-In :
    (T : Bytes → Type 0) (room : Bool) (alloc : ℕ → ℕ → Bool) (text : Option Bytes) (s : HaMongodb)
    (k : MongodbShare)
    → s.share ≡ some k
    → In T s
    → In T (open_table room alloc text s).1
unfolding open_table get_share
open_again-In T room alloc text s k e h =
    option-known (λ t. In T (opens alloc text t).1) s.share (λ n. absurd (cc (n, e)))
      (λ j g. counted-In T alloc text s j g h)
