-- ===== src/Uri/RoundTrip/Hosts.antt =====
-- The host list of a URI, written and read back.
use mongodb_engine.Base.{
  ℕ, ◌<◌, ◌^◌, ◌≡◌, ◌≢◌, refl, ◌∙◌, sym, true, false, List, [], ◌∷◌, ◌++◌, map, Bytes, Avoids, All,
  arith, append-nil, append_assoc, Bool-cases, inl, inr, some, Avoids-append, find-Avoids,
  find-append, take-append_left, is_empty, drop-append_suc, is_empty-append,
}
use mongodb_engine.Base.Int.{ℤ, pos, negsuc, eq_int, to_string, stoi}
use mongodb_engine.Base.Decimal.{stoi-to_string, to_string-Avoids}
use mongodb_engine.Uri.Defs.{MongoUri, done}
use mongodb_engine.Uri.Validate.{is_host_byte, validate_hostname, validate_port}
use mongodb_engine.Uri.Hostname.{validate_hostname_iff}
use mongodb_engine.Uri.Parse.{add_host, parse_host_port, parse_host_list}
use mongodb_engine.Uri.Print.{print_host, print_more, join, print_hosts}
use mongodb_engine.Uri.Sound.{ValidHost}
use mongodb_engine.Uri.Split.{IsItem}

-- A byte that no written host holds.
abbrev pub IsQuiet : ℕ → Type 0
IsQuiet c = (is_host_byte c ≡ false) × (c ≢ b':')

host_bytes-Avoids :
    (c : ℕ) (s : Bytes) → is_host_byte c ≡ false → All (λ x. is_host_byte x ≡ true) s → Avoids c s
host_bytes-Avoids c [] q h = tt
host_bytes-Avoids c (x ∷ s) q h =
    ((λ e. absurd (not_both x c e h.0 q)), host_bytes-Avoids c s q h.1)
  where
    not_both : (x c : ℕ) → x ≡ c → is_host_byte x ≡ true → is_host_byte c ≡ false → ⊥
    not_both x c e a b = cc

pub host-Avoids :
    (c : ℕ) (s : Bytes) → is_host_byte c ≡ false → validate_hostname s ≡ true → Avoids c s
host-Avoids c s q v = host_bytes-Avoids c s q ((validate_hostname_iff s).0 v).host_bytes

port_lt : (port : ℤ) → validate_port port ≡ true → (n : ℕ) × (port ≡ pos n) × (n < 2 ^ 31)
unfolding validate_port
port_lt (pos n) h = (n, refl, ground arith)
port_lt (negsuc n) h = absurd (cc)

print_host-Avoids : (c : ℕ) (h : Bytes × ℤ) → ValidHost h → IsQuiet c → Avoids c (print_host h)
unfolding print_host
print_host-Avoids c (host, port) v q = elim (Bool-cases (eq_int port (pos 27017))) [
  | inl e ↦ rw (e, append-nil) (host-Avoids c host q.0 v.0)
  | inr e ↦
      let (n, p, _) = port_lt port v.1 in
      rw (e, p)
        (Avoids-append c host _ (host-Avoids c host q.0 v.0)
          ((λ x. q.1 (sym x)), to_string-Avoids c n (ground arith)))
]

print_host-ne : (h : Bytes × ℤ) → ValidHost h → print_host h ≢ []
unfolding print_host
print_host-ne ([], port) v = absurd (cc (((validate_hostname_iff []).0 v.0).first))
print_host-ne (c ∷ s, port) v = λ e. cc

pub print_host-IsItem :
    (hosts : List (Bytes × ℤ)) → All ValidHost hosts → All (IsItem b',') (map print_host hosts)
print_host-IsItem [] v = tt
print_host-IsItem (h ∷ hs) v = (
  (print_host-ne h v.0, print_host-Avoids b',' h v.0 (refl, λ e. ground arith)),
  print_host-IsItem hs v.1,
)

print_more-Avoids :
    (c : ℕ) (hosts : List (Bytes × ℤ))
    → All ValidHost hosts
    → IsQuiet c
    → c ≢ b','
    → Avoids c (print_more b',' (map print_host hosts))
unfolding print_more
print_more-Avoids c [] v q n = tt
print_more-Avoids c (h ∷ hs) v q n = (
  (λ e. n (sym e)),
  Avoids-append c (print_host h) _ (print_host-Avoids c h v.0 q) (print_more-Avoids c hs v.1 q n),
)

pub print_hosts-Avoids :
    (c : ℕ) (hosts : List (Bytes × ℤ))
    → All ValidHost hosts
    → IsQuiet c
    → c ≢ b','
    → Avoids c (print_hosts hosts)
unfolding print_hosts join
print_hosts-Avoids c [] v q n = tt
print_hosts-Avoids c (h ∷ hs) v q n =
    Avoids-append c (print_host h) _ (print_host-Avoids c h v.0 q) (print_more-Avoids c hs v.1 q n)

pub print_hosts-ne :
    (hosts : List (Bytes × ℤ))
    → All ValidHost hosts
    → hosts ≢ []
    → is_empty (print_hosts hosts) ≡ false
unfolding print_hosts join
print_hosts-ne [] v n = absurd (n refl)
print_hosts-ne (h ∷ hs) v n = is_empty-append (print_host h) _ (print_host-ne h v.0)

pub eq_int_sound : (a b : ℤ) → eq_int a b ≡ true → a ≡ b
eq_int_sound (pos a) (pos b) h = ground arith
eq_int_sound (negsuc a) (negsuc b) h = ground arith
eq_int_sound _ _ h = absurd (cc)

add_host-valid :
    (r : MongoUri) (h : Bytes × ℤ)
    → ValidHost h
    → add_host r h.0 h.1 ≡ done (record r { hosts = r.hosts ++ h ∷ [] })
unfolding add_host
add_host-valid r h v = rw (v.0, v.1)

without_port :
    (r : MongoUri) (host : Bytes)
    → Avoids b':' host
    → parse_host_port r host ≡ add_host r host (pos 27017)
unfolding parse_host_port
without_port r host a = rw (find-Avoids b':' host a, parse_host_port)

with_port :
    (r : MongoUri) (host t : Bytes) (port : ℤ)
    → Avoids b':' host
    → stoi t ≡ some port
    → parse_host_port r (host ++ b':' ∷ t) ≡ add_host r host port
unfolding parse_host_port
with_port r host t port a e =
    rw (find-append b':' host t a, parse_host_port)
      (rw (drop-append_suc host b':' t, e) (rw (take-append_left host (b':' ∷ t))))

parse_host_port-print_host :
    (r : MongoUri) (h : Bytes × ℤ)
    → ValidHost h
    → parse_host_port r (print_host h) ≡ done (record r { hosts = r.hosts ++ h ∷ [] })
unfolding print_host
parse_host_port-print_host r (host, port) v = elim (Bool-cases (eq_int port (pos 27017))) [
  | inl e ↦
      rw (e, append-nil)
        (without_port r host (host-Avoids b':' host refl v.0)
          ∙ rw (← eq_int_sound port (pos 27017) e) (add_host-valid r (host, port) v))
  | inr e ↦
      let (n, p, lt) = port_lt port v.1 in
      rw e (
        with_port r host (to_string port) port (host-Avoids b':' host refl v.0)
          (rw p (stoi-to_string n lt))
        ∙ add_host-valid r (host, port) v)
]

-- The loop reads back every host, in order, behind those it has.
pub parse_host_list-print_host :
    (r : MongoUri) (hs : List (Bytes × ℤ))
    → All ValidHost hs
    → parse_host_list r (map print_host hs) ≡ done (record r { hosts = r.hosts ++ hs })
unfolding parse_host_list
parse_host_list-print_host r [] v = rw append-nil
parse_host_list-print_host r (h ∷ hs) v =
    rw (parse_host_port-print_host r h v.0)
      (parse_host_list-print_host (record r { hosts = r.hosts ++ h ∷ [] }) hs v.1 ∙ rw append_assoc)
