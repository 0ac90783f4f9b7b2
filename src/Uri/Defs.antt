-- ===== src/Uri/Defs.antt =====
-- `MongoURI` of include/mongodb_uri_parser.h, and the outcome of one parsing step.
use mongodb_engine.Base.{◌≡◌, refl, Bool, false, List, [], Bytes}
use mongodb_engine.Base.Int.{ℤ, pos}

pub record MongoUri : Type 0 where
  pub is_srv : Bool
  pub username : Bytes
  pub password : Bytes
  pub auth_source : Bytes
  pub hosts : List (Bytes × ℤ)
  pub replica_set : Bytes
  pub database : Bytes
  pub collection : Bytes
  pub ssl : Bool
  pub connect_timeout_ms : ℤ
  pub socket_timeout_ms : ℤ
  pub options : List (Bytes × Bytes)
  pub is_valid : Bool
  pub error_message : Bytes

-- The default constructor.
abbrev pub new_uri : MongoUri
new_uri = record {
  is_srv = false;
  username = [];
  password = [];
  auth_source = [];
  hosts = [];
  replica_set = [];
  database = [];
  collection = [];
  ssl = false;
  connect_timeout_ms = pos 30000;
  socket_timeout_ms = pos 30000;
  options = [];
  is_valid = false;
  error_message = [];
}

-- A step that returns `false` leaves the result as it then is; else the parse goes on.
pub data Outcome (A : Type 0) : Type 0 where
  failed : MongoUri → Outcome A
  done : A → Outcome A

infixl 5 ◌>>=◌
abbrev pub ◌>>=◌ : {A B : Type 0} → Outcome A → (A → Outcome B) → Outcome B
failed r >>= f = failed r
done a >>= f = f a

abbrev pub fail : {A : Type 0} → MongoUri → Bytes → Outcome A
fail r message = failed (record r { error_message = message })

-- A chain that is done was done in each of its parts.
pub >>=-eq-done :
    {A B : Type 0} (m : Outcome A) (f : A → Outcome B) (b : B)
    → (m >>= f) ≡ done b
    → (a : A) × (m ≡ done a) × (f a ≡ done b)
>>=-eq-done (failed r) f b h = absurd (cc)
>>=-eq-done (done a) f b h = (a, refl, h)

pub done_inj : {A : Type 0} {a b : A} → done a ≡ done b → a ≡ b
done_inj e = cc
