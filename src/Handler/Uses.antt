-- ===== src/Handler/Uses.antt =====
-- How often a share is in use over the life of a handler: src/ha_mongodb_handler.cc.
use mongodb_engine.Base.{
  ℕ, ◌+◌, ◌%◌, ◌^◌, ◌<◌, ◌≤◌, ◌==◌, ◌≡◌, ◌≢◌, ◌↔◌, refl, sym, ap, ◌∙◌, Bool, true, false, not,
  Option, none, some, Bytes, if◌then◌else◌, if-both, option-both, option-known, Bool-cases,
  Option-cases, inl, inr, arith,
}
use mongodb_engine.Share.Defs.{MongodbShare, zero_share}
use mongodb_engine.Share.Parse.{mongodb_parse_connection_string}
use mongodb_engine.Handler.Defs.{Code, Server, HaMongodb}
use mongodb_engine.Handler.Connect.{
  less_one, get_share, free_share, open_parsed, open_table, disconnect_from_mongodb, close,
}
use mongodb_engine.Handler.Scan.{ensure_collection}
use mongodb_engine.Handler.Ops.{Call, run, Reach}
use mongodb_engine.Handler.Steady.Calls.{IsInner, run-Keeps}
use mongodb_engine.Handler.Provenance.{parse-use_count, connect-share}

abbrev is_ok : Code → Bool
is_ok Code.ok = true
is_ok _ = false

-- The successful openings since the last closing.
abbrev pub uses : {s : HaMongodb} → Reach s → ℕ
uses Reach.fresh = 0
uses (Reach.call {s} r (Call.open_table room alloc text)) =
    if is_ok (open_table room alloc text s).0 then uses r + 1 else uses r
uses (Reach.call r Call.close) = 0
uses (Reach.call r c) = uses r

abbrev pub count_of : Option MongodbShare → ℕ
count_of none = 0
count_of (some k) = k.use_count

-- The share counts these openings, and is there only after one.
record Counted (n : ℕ) (share : Option MongodbShare) : Type 0 where
  counts : count_of share ≡ n % 2 ^ 32
  used : (k : MongodbShare) → share ≡ some k → n ≢ 0

-- What an opening makes of the count.
abbrev Counts : ℕ → Code × HaMongodb → Type 0
Counts n r = Counted (if is_ok r.0 then n + 1 else n) r.1.share

less_one_suc : (n : ℕ) → less_one ((n + 1) % 2 ^ 32) ≡ n % 2 ^ 32
less_one_suc n = omega arith

zero_test : (n : ℕ) → (n == 0) ≡ true → n ≡ 0
zero_test n e = ground arith

nonzero_test : (n : ℕ) → (n == 0) ≡ false → n ≢ 0
nonzero_test n e = ground arith

freed-Counted :
    (n : ℕ) (s : HaMongodb) (k : MongodbShare)
    → s.share ≡ some k
    → k.use_count ≡ (n + 1) % 2 ^ 32
    → Counted n (free_share s).share
unfolding free_share
freed-Counted n s k e u =
    let less : less_one k.use_count ≡ n % 2 ^ 32 = rw u (less_one_suc n) in
    elim (Bool-cases (less_one k.use_count == 0)) [
      | inl z ↦
          rw (e, free_share)
            (rw z (record { counts = sym (zero_test _ z) ∙ less; used = λ x f. absurd (cc (f)) }))
      | inr z ↦
          rw (e, free_share)
            (rw z (record { counts = less; used = λ x f. omega (arith, less, nonzero_test _ z) }))
    ]

open_parsed-Counts :
    (n : ℕ) (s : HaMongodb) (r : ℕ × MongodbShare)
    → r.1.use_count ≡ (n + 1) % 2 ^ 32
    → Counts n (open_parsed s r)
unfolding open_parsed
open_parsed-Counts n s r u = elim (Bool-cases (not (r.0 == 0))) [
  | inl e ↦ rw e (freed-Counted n (record s { share = some r.1 }) r.1 refl u)
  | inr e ↦ rw e (record { counts = u; used = λ k f. omega arith })
]

-- The rest of an opening, from the share that `get_share` leaves.
abbrev opens : (ℕ → ℕ → Bool) → Option Bytes → HaMongodb → Code × HaMongodb
opens alloc text t = elim t.share [
  | none ↦ (Code.out_of_mem, t)
  | some share ↦
      if not share.parsed
      then open_parsed t (mongodb_parse_connection_string alloc text share)
      else (Code.ok, t)
]

taken-Counts :
    (n : ℕ) (alloc : ℕ → ℕ → Bool) (text : Option Bytes) (s : HaMongodb) (k : MongodbShare)
    → k.use_count ≡ (n + 1) % 2 ^ 32
    → Counts n (opens alloc text (record s { share = some k }))
taken-Counts n alloc text s k u =
    if-both (λ (r : Code × HaMongodb). Counts n r) (not k.parsed)
      (open_parsed-Counts n (record s { share = some k })
        (mongodb_parse_connection_string alloc text k) (parse-use_count alloc text k ∙ u))
      (record { counts = u; used = λ x f. omega arith })

open_table-Counts :
    (n : ℕ) (room : Bool) (alloc : ℕ → ℕ → Bool) (text : Option Bytes) (s : HaMongodb)
    → Counted n s.share
    → Counts n (open_table room alloc text s)
unfolding open_table get_share
open_table-Counts n room alloc text s h =
    let P : HaMongodb → Type 0 = λ t. Counts n (opens alloc text t) in
    option-known P s.share
      (λ e.
        if-both P room
          (taken-Counts n alloc text s (record zero_share { use_count = 1; parsed = false })
            (omega (arith, ap count_of (sym e) ∙ h.counts)))
          (rw e (rw e at h)))
      (λ k e.
        taken-Counts n alloc text s (record k { use_count = (k.use_count + 1) % 2 ^ 32 })
          (omega (arith, ap count_of (sym e) ∙ h.counts)))

connecting-Counted :
    (n : ℕ) (d : Server) (s : HaMongodb)
    → Counted n s.share
    → Counted n (ensure_collection d s).1.share
unfolding ensure_collection
connecting-Counted n d s h =
    option-both (λ (r : Code × HaMongodb). Counted n r.1.share) s.collection
      (rw (connect-share d s) h) (λ c. h)

inner-Counted :
    (n : ℕ) (c : Call) (s : HaMongodb) → IsInner c → Counted n s.share → Counted n (run c s).share
inner-Counted n = run-Keeps (λ share collection. Counted n share) (connecting-Counted n)

empty-Counted : Counted 0 none
empty-Counted = record { counts = refl; used = λ k e. absurd (cc (e)) }

close-Counted : (s : HaMongodb) → Counted 0 (close s).1.share
unfolding close disconnect_from_mongodb
close-Counted s =
    option-known (λ (r : Code × HaMongodb). Counted 0 r.1.share) s.share (λ e. rw e empty-Counted)
      (λ k e. empty-Counted)

Reach-Counted : {s : HaMongodb} (r : Reach s) → Counted (uses r) s.share
Reach-Counted Reach.fresh = empty-Counted
Reach-Counted (Reach.call {s} r (Call.open_table room alloc text)) =
    open_table-Counts (uses r) room alloc text s (Reach-Counted r)
Reach-Counted (Reach.call {s} r Call.close) = close-Counted s
Reach-Counted (Reach.call {s} r c) = inner-Counted (uses r) c s tt (Reach-Counted r)

last_use :
    (n : ℕ) (s : HaMongodb)
    → Counted n s.share
    → n < 2 ^ 32
    → ((free_share s).share ≡ none) ↔ (n ≤ 1)
unfolding free_share
last_use n s h b = elim (Option-cases s.share) [
  | inl e ↦
      let unused : 0 ≡ n % 2 ^ 32 = ap count_of (sym e) ∙ h.counts in
      rw (e, free_share) (λ f. omega (arith, unused, b), λ f. e)
  | inr (k, e) ↦
      let used : k.use_count ≡ n % 2 ^ 32 = ap count_of (sym e) ∙ h.counts in
      elim (Bool-cases (less_one k.use_count == 0)) [
        | inl z ↦
            let last = zero_test _ z in
            rw (e, free_share) (rw z (λ f. omega (arith, used, last, b), λ f. refl))
        | inr z ↦
            let more = nonzero_test _ z in
            rw (e, free_share)
              (rw z (λ f. absurd (cc (f)), λ f. absurd (omega (arith, used, more, h.used k e, f))))
      ]
]

-- In any life of a handler with fewer than 2 ^ 32 successful openings since the last closing, whatever
-- else is called, the use count of the share is the number of these openings, 0 where there is no
-- share; and `free_share`, with which `close` gives the share up, leaves none exactly if there was at
-- most one such opening.
pub Reach-uses :
    {s : HaMongodb} (r : Reach s)
    → uses r < 2 ^ 32
    → (count_of s.share ≡ uses r) × (((free_share s).share ≡ none) ↔ (uses r ≤ 1))
Reach-uses {s} r b =
    let h = Reach-Counted r in (omega (arith, h.counts, b), last_use (uses r) s h b)
