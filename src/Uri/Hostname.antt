-- ===== src/Uri/Hostname.antt =====
-- What `validate_hostname` accepts, without the regular expression.
use mongodb_engine.Base.{
  ℕ, ◌+◌, ◌≤◌, ◌≡◌, ◌↔◌, inl, inr, Bool, true, false, [], ◌∷◌, Bytes, All, Bool-cases, length,
  arith, codes, str_eq, str_eq_iff,
}
use mongodb_engine.Uri.Helpers.{is_alnum}
use mongodb_engine.Uri.Validate.{is_host_byte, match_tail, match_hostname, validate_hostname}

abbrev pub first_alnum : Bytes → Bool
first_alnum [] = false
first_alnum (c ∷ s) = is_alnum c

abbrev pub last_alnum : Bytes → Bool
last_alnum [] = false
last_alnum (c ∷ []) = is_alnum c
last_alnum (c ∷ d ∷ s) = last_alnum (d ∷ s)

-- Letters, digits, dashes and dots, 253 at most, with a letter or a digit at each end.
pub record IsHostname (s : Bytes) : Type 0 where
  pub short : length s ≤ 253
  pub host_bytes : All (λ c. is_host_byte c ≡ true) s
  pub first : first_alnum s ≡ true
  pub last : last_alnum s ≡ true

abbrev IsTail : ℕ → Bytes → Type 0
IsTail n s = (n + length s ≤ 252) × All (λ c. is_host_byte c ≡ true) s × (last_alnum s ≡ true)

match_tail_sound : (n : ℕ) (s : Bytes) → match_tail n s ≡ true → IsTail n s
unfolding match_tail
match_tail_sound n [] h = cc
match_tail_sound n (c ∷ []) h = ground arith
match_tail_sound n (c ∷ d ∷ s) h = ground (arith, match_tail_sound (n + 1) (d ∷ s))

match_tail_complete : (n : ℕ) (s : Bytes) → IsTail n s → match_tail n s ≡ true
unfolding match_tail
match_tail_complete n [] h = cc
match_tail_complete n (c ∷ []) h = ground arith
match_tail_complete n (c ∷ d ∷ s) h = ground (arith, match_tail_complete (n + 1) (d ∷ s))

match_hostname_sound : (s : Bytes) → match_hostname s ≡ true → IsHostname s
unfolding match_hostname
match_hostname_sound [] h = cc
match_hostname_sound (c ∷ []) h = ground arith
match_hostname_sound (c ∷ d ∷ s) h = ground (arith, match_tail_sound 0 (d ∷ s))

match_hostname_complete : (s : Bytes) → IsHostname s → match_hostname s ≡ true
unfolding match_hostname
match_hostname_complete [] h = cc (h.first)
match_hostname_complete (c ∷ []) h = ground arith
match_hostname_complete (c ∷ d ∷ s) h = ground (arith, match_tail_complete 0 (d ∷ s))

localhost-IsHostname : IsHostname (codes "localhost")
localhost-IsHostname = ground arith

validate_sound : (s : Bytes) → validate_hostname s ≡ true → IsHostname s
unfolding validate_hostname
validate_sound s h = elim (Bool-cases (str_eq s (codes "localhost"))) [
  | inl e ↦ rw ((str_eq_iff s _).0 e) localhost-IsHostname
  | inr e ↦ match_hostname_sound s (ground arith)
]

validate_complete : (s : Bytes) → IsHostname s → validate_hostname s ≡ true
unfolding validate_hostname
validate_complete [] h = cc (h.first)
validate_complete (c ∷ s) h = ground (arith, match_hostname_complete (c ∷ s) h)

-- The validation accepts exactly the host names of that form: 1 to 253 bytes, each a letter, a digit,
-- a dash or a dot, the first and the last a letter or a digit.
pub validate_hostname_iff : (s : Bytes) → (validate_hostname s ≡ true) ↔ IsHostname s
validate_hostname_iff s = (validate_sound s, validate_complete s)
