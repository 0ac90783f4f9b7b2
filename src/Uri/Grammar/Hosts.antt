-- ===== src/Uri/Grammar/Hosts.antt =====
-- The loop over the hosts, and the hosts of the grammar.
use mongodb_engine.Base.{
  suc, ◌≡◌, refl, sym, ap, ◌∙◌, true, inl, inr, List, [], ◌∷◌, ◌++◌, Bytes, All, find, find-Avoids,
  find-append, find-some, take, drop, is_empty, take-append_left, drop-append_suc, append-nil,
  append_assoc, Option-cases, arith,
}
use mongodb_engine.Base.Int.{ℤ, pos, stoi}
use mongodb_engine.Uri.Defs.{>>=-eq-done, MongoUri, done}
use mongodb_engine.Uri.Parse.{add_host, parse_host_port, parse_host_list}
use mongodb_engine.Uri.Validate.{validate_hostname, validate_port}
use mongodb_engine.Uri.RoundTrip.Hosts.{host-Avoids}
use mongodb_engine.Uri.Grammar.{IsHost, plain, ported}

add_host_done :
    (r : MongoUri) (host : Bytes) (port : ℤ)
    → validate_hostname host ≡ true
    → validate_port port ≡ true
    → add_host r host port ≡ done (record r { hosts = r.hosts ++ (host, port) ∷ [] })
unfolding add_host
add_host_done r host port h p = rw (h, p) refl

add_host-valid :
    (r r' : MongoUri) (host : Bytes) (port : ℤ)
    → add_host r host port ≡ done r'
    → (validate_hostname host ≡ true) × (validate_port port ≡ true)
unfolding add_host
add_host-valid r r' host port h = ground arith

default_port : validate_port (pos 27017) ≡ true
unfolding validate_port
default_port = refl

parse_host_port_done :
    (r : MongoUri) (item : Bytes)
    → IsHost item
    → (h : Bytes × ℤ) × (parse_host_port r item ≡ done (record r { hosts = r.hosts ++ h ∷ [] }))
unfolding parse_host_port
parse_host_port_done r item (plain v) = (
  (item, pos 27017),
  rw (find-Avoids b':' item (host-Avoids b':' item refl v), parse_host_port)
      (add_host_done r item (pos 27017) v default_port),
)
parse_host_port_done r item (ported host digits port e n v p) = (
  (host, port),
  rw e (
      rw (find-append b':' host digits (host-Avoids b':' host refl v), parse_host_port)
        (rw (drop-append_suc host b':' digits, n, take-append_left host (b':' ∷ digits))
          (add_host_done r host port v p))),
)

parse_host_port-IsHost :
    (r r' : MongoUri) (item : Bytes) → parse_host_port r item ≡ done r' → IsHost item
unfolding parse_host_port
parse_host_port-IsHost r r' item h = elim (Option-cases (find b':' item)) [
  | inl e ↦
      let added : add_host r item (pos 27017) ≡ done r' = rw (e, parse_host_port) at h in
      plain (add_host-valid r r' item (pos 27017) added).0
  | inr (i, e) ↦ elim (Option-cases (stoi (drop (suc i) item))) [
    | inl n ↦ absurd (cc (rw (e, n, parse_host_port) at h))
    | inr (port, n) ↦
        let added : add_host r (take i item) port ≡ done r' = rw (e, n, parse_host_port) at h in
        let valid = add_host-valid r r' (take i item) port added in
        ported (take i item) (drop (suc i) item) port (find-some b':' item i e).1 n valid.0 valid.1
  ]
]

-- The hosts of a text are read, and join those that were there.
pub parse_host_list_done :
    (r : MongoUri) (items : List Bytes)
    → All IsHost items
    → (hs : List (Bytes × ℤ)) × (parse_host_list r items
        ≡ done (record r { hosts = r.hosts ++ hs }))
      × (is_empty hs ≡ is_empty items)
unfolding parse_host_list
parse_host_list_done r [] h =
    ([], ap (λ hs. done (record r { hosts = hs })) (sym (append-nil r.hosts)), refl)
parse_host_list_done r (item ∷ items) h =
    let (first, e) = parse_host_port_done r item h.0 in
    let (hs, f, n) = parse_host_list_done (record r { hosts = r.hosts ++ first ∷ [] }) items h.1 in
    (
      first ∷ hs,
      rw e (f ∙ ap (λ k. done (record r { hosts = k })) (append_assoc r.hosts (first ∷ []) hs)),
      refl,
    )

pub parse_host_list-IsHost :
    (r r' : MongoUri) (items : List Bytes) → parse_host_list r items ≡ done r' → All IsHost items
unfolding parse_host_list
parse_host_list-IsHost r r' [] h = tt
parse_host_list-IsHost r r' (item ∷ items) h =
    let (s, e, f) = >>=-eq-done (parse_host_port r item) (λ s. parse_host_list s items) r' h in
    (parse_host_port-IsHost r s item e, parse_host_list-IsHost s r' items f)
