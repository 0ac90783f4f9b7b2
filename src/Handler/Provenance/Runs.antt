-- ===== src/Handler/Provenance/Runs.antt =====
-- Whole lives of a handler and the names that it reads.
use mongodb_engine.Base.{
  Bool, ℕ, Option-cases, subst, sym, inl, inr, option-known, ◌==◌, ◌≡◌, inl, inr, refl, Option,
  none, some, Bytes, if-both, option-both,
}
use mongodb_engine.Share.Defs.{MongodbShare}
use mongodb_engine.Handler.Defs.{Collection, Code, HaMongodb}
use mongodb_engine.Handler.Connect.{
  open_table, less_one, free_share, disconnect_from_mongodb, close,
}
use mongodb_engine.Handler.Ops.{Call, run, Reach}
use mongodb_engine.Handler.Steady.Calls.{IsInner, run-Keeps}
use mongodb_engine.Handler.Provenance.{IsNamed, Rooted, In, ensure_collection-In}
use mongodb_engine.Handler.Provenance.Opening.{open_table-In, open_again-In}

module _ (T : Bytes → Type 0) where
  empty-Rooted :
      (share : Option MongodbShare) (collection : Option Collection)
      → share ≡ none
      → collection ≡ none
      → Rooted T share collection
  empty-Rooted share collection n m = record {
    parsed = λ k f. absurd (cc (n, f));
    gives = λ k f. absurd (cc (n, f));
    reads = λ h f. absurd (cc (m, f));
    linked = λ f. m;
  }

  free_share-collection : (t : HaMongodb) → (free_share t).collection ≡ t.collection
  unfolding free_share
  free_share-collection t =
      let P : HaMongodb → Type 0 = λ u. u.collection ≡ t.collection in
      option-both P t.share refl (λ k. if-both P (less_one k.use_count == 0) refl refl)

  close-In : (s : HaMongodb) → In T (close s).1
  unfolding close disconnect_from_mongodb
  close-In s =
      let t = disconnect_from_mongodb s in
      let gone : In T (record (free_share t) { share = none }) =
        empty-Rooted none (free_share t).collection refl (free_share-collection t) in
      option-known (λ (r : Code × HaMongodb). In T r.1) t.share
        (λ n. empty-Rooted t.share none n refl) (λ k e. gone)

  inner-In : (c : Call) (s : HaMongodb) → IsInner c → In T s → In T (run c s)
  inner-In = run-Keeps (Rooted T) (ensure_collection-In T)

-- The text that a handler reads: the one of the opening that found no share, while the handler is open.
abbrev pub Opened : {s : HaMongodb} → Reach s → Bytes → Type 0
Opened Reach.fresh text = ⊥
Opened (Reach.call {s} r (Call.open_table room alloc given)) text = elim s.share [
  | none ↦ given ≡ some text
  | some _ ↦ Opened r text
]
Opened (Reach.call r Call.close) text = ⊥
Opened (Reach.call r _) text = Opened r text

opened-In :
    (room : Bool) (alloc : ℕ → ℕ → Bool) (given : Option Bytes) (s : HaMongodb) (T : Bytes → Type 0)
    → In T s
    → In
        (λ x. elim s.share [ none ↦ given ≡ some x | some _ ↦ T x ])
        (open_table room alloc given s).1
opened-In room alloc given s T h = elim (Option-cases s.share) [
  | inl n ↦
      subst (λ o. In (names o) (open_table room alloc given s).1) (sym n)
        (open_table-In (λ x. given ≡ some x) room alloc given s (λ x e. e) n
          (empty-Rooted (λ x. given ≡ some x) s.share s.collection n (h.linked n)))
  | inr (k, e) ↦
      subst (λ o. In (names o) (open_table room alloc given s).1) (sym e)
        (open_again-In T room alloc given s k e h)
]
  where
    names : Option MongodbShare → Bytes → Type 0
    names o x = elim o [ none ↦ given ≡ some x | some _ ↦ T x ]

Reach-In : {s : HaMongodb} (r : Reach s) → In (Opened r) s
Reach-In Reach.fresh = empty-Rooted (λ x. ⊥) none none refl refl
Reach-In (Reach.call {s} r (Call.open_table room alloc given)) =
    opened-In room alloc given s (Opened r) (Reach-In r)
Reach-In (Reach.call {s} r Call.close) = close-In (λ x. ⊥) s
Reach-In (Reach.call {s} r c) = inner-In (Opened r) c s tt (Reach-In r)

-- In any life of a handler, the collection to which it is connected is spelled by the text of the
-- opening since the last closing that found no share: behind an authority, which holds the first `://`
-- of the text and whose `/` is the first one behind that, stand the database with no `/` in it, a `/`,
-- the collection, and nothing more or a query. A handler that was closed is not connected.
pub Reach-IsNamed :
    {s : HaMongodb} (r : Reach s) (h : Collection) → s.collection ≡ some h → IsNamed (Opened r) h
Reach-IsNamed r h e = (Reach-In r).reads h e
