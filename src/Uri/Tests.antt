-- ===== src/Uri/Tests.antt =====
-- Runs of the URI parser, and the theorems at concrete texts.
use mongodb_engine.Base.{
  ◌≡◌, ◌≢◌, ◌↔◌, ◌⊎◌, refl, true, false, lt_bytes, [], ◌∷◌, Bytes, codes, arith, find, str_eq,
}
use mongodb_engine.Base.Int.{pos, skip_space, read_digits, read_unsigned, read_signed, stoi}
use mongodb_engine.Uri.Defs.{MongoUri, new_uri}
use mongodb_engine.Uri.Helpers.{split_from, split_string}
use mongodb_engine.Uri.Validate.{
  has_invalid_byte, match_hostname, match_tail, validate_collection_name, validate_database_name,
  validate_hostname, validate_port,
}
use mongodb_engine.Uri.Parse.{
  add_host, check_path, finish, parse, parse_credentials, parse_database_collection,
  parse_host_list, parse_host_port, parse_hosts, parse_options, parse_protocol, parse_steps,
  store_path,
}
use mongodb_engine.Uri.Print.{to_safe_string, to_connection_string}
use mongodb_engine.Uri.RoundTrip.Options.{PlainOptions}
use mongodb_engine.Uri.RoundTrip.Written.{literal-IsPlain}
use mongodb_engine.Uri.RoundTrip.Connection.{IsPlainUri, no_collection, parse-to_connection_string}
use mongodb_engine.Uri.Sound.{IsUsable, IsRefused, parse-IsUsable}
use mongodb_engine.Uri.Mask.{to_safe_string_masks}
use mongodb_engine.Uri.Hostname.{IsHostname, validate_hostname_iff}
use mongodb_engine.Uri.RoundTrip.{parse-to_safe_string}
use mongodb_engine.Uri.RoundTrip.Credentials.{spell, parse-spell}
use mongodb_engine.Uri.Grammar.{IsUri}
use mongodb_engine.Uri.Grammar.Accepts.{parse_iff}

abbrev text : Bytes
text = codes "mongodb://a:1/d/c"

abbrev plain_uri : MongoUri
plain_uri = record new_uri {
  hosts = (codes "a", pos 1) ∷ [];
  database = codes "d";
  collection = codes "c";
  is_valid = true;
}

parses : (parse text).is_valid ≡ true
unfolding parse parse_steps parse_protocol parse_credentials parse_hosts parse_host_list
    parse_host_port add_host parse_database_collection store_path check_path parse_options finish
    find str_eq split_string split_from stoi read_signed read_unsigned read_digits skip_space
    validate_hostname match_hostname match_tail validate_port validate_database_name
    validate_collection_name has_invalid_byte
parses = refl

refuses : (parse (codes "mongo://a/d/c")).error_message ≢ []
unfolding parse parse_steps parse_protocol str_eq
refuses e = ground arith

trailing_garbage : stoi (codes "27017abc") ≡ stoi (codes "27017")
unfolding stoi read_signed read_unsigned read_digits skip_space
trailing_garbage = refl

parse-IsUsable_example : IsUsable (parse text) ⊎ IsRefused (parse text)
parse-IsUsable_example = parse-IsUsable text

parse_iff_example :
    (((parse text).is_valid ≡ true) ↔ IsUri text)
    × ((g : IsUri text)
        → ((parse text).database ≡ g.database) × ((parse text).collection ≡ g.collection))
parse_iff_example = parse_iff text

plain-IsUsable : IsUsable plain_uri
unfolding validate_hostname match_hostname validate_port validate_database_name
    validate_collection_name has_invalid_byte str_eq find
plain-IsUsable = record {
  valid = refl;
  silent = refl;
  has_hosts = λ e. ground arith;
  hosts_valid = ((refl, refl), tt);
  database_valid = refl;
  collection_valid = refl;
}

parse-to_safe_string_example : parse (to_safe_string plain_uri) ≡ plain_uri
parse-to_safe_string_example =
    parse-to_safe_string plain_uri plain-IsUsable refl ((λ e. ground arith), tt)

to_safe_string_masks_example :
    to_safe_string (record plain_uri { password = codes "x" })
    ≡ to_safe_string (record plain_uri { password = codes "secret" })
to_safe_string_masks_example = to_safe_string_masks plain_uri (codes "x") (codes "secret") refl

validate_hostname_iff_example : (validate_hostname (codes "a-b") ≡ true) ↔ IsHostname (codes "a-b")
validate_hostname_iff_example = validate_hostname_iff (codes "a-b")

abbrev named_uri : MongoUri
named_uri = record plain_uri { username = codes "a@"; password = codes ":/?%" }

named-IsUsable : IsUsable named_uri
named-IsUsable = record {
  valid = refl;
  silent = refl;
  has_hosts = plain-IsUsable.has_hosts;
  hosts_valid = plain-IsUsable.hosts_valid;
  database_valid = plain-IsUsable.database_valid;
  collection_valid = plain-IsUsable.collection_valid;
}

parse-spell_example : parse (spell named_uri) ≡ named_uri
parse-spell_example =
    parse-spell named_uri named-IsUsable (omega arith, (omega arith, tt))
      (omega arith, (omega arith, (omega arith, (omega arith, tt)))) ((λ e. ground arith), tt)

abbrev full_uri : MongoUri
full_uri = record plain_uri {
  is_srv = true;
  username = codes "me";
  password = codes "a:b";
  auth_source = codes "admin";
  replica_set = codes "rs0";
  ssl = true;
  socket_timeout_ms = pos 5;
  options = (codes "appName", codes "x=y") ∷ (codes "w", codes "1") ∷ [];
}

full-IsUsable : IsUsable full_uri
full-IsUsable = record {
  valid = refl;
  silent = refl;
  has_hosts = plain-IsUsable.has_hosts;
  hosts_valid = plain-IsUsable.hosts_valid;
  database_valid = plain-IsUsable.database_valid;
  collection_valid = plain-IsUsable.collection_valid;
}

full-PlainOptions : PlainOptions full_uri
unfolding str_eq lt_bytes
full-PlainOptions = record {
  auth_plain = literal-IsPlain _ (omega arith) (omega arith) (omega arith);
  auth_other = refl;
  replica_plain = literal-IsPlain _ (omega arith) (omega arith) (omega arith);
  connect_int = refl;
  socket_int = refl;
  sorted = ((refl, tt), (tt, tt));
  options_plain = (
    record {
      has_key = λ e. cc;
      unknown = refl;
      no_equals = omega arith;
      key_plain = literal-IsPlain _ (omega arith) (omega arith) (omega arith);
      value_plain = literal-IsPlain _ (omega arith) (omega arith) (omega arith);
    },
    (
      record {
        has_key = λ e. cc;
        unknown = refl;
        no_equals = omega arith;
        key_plain = literal-IsPlain _ (omega arith) (omega arith) (omega arith);
        value_plain = literal-IsPlain _ (omega arith) (omega arith) (omega arith);
      },
      tt,
    ),
  );
}

full-IsPlainUri : IsPlainUri full_uri
full-IsPlainUri = record {
  usable = full-IsUsable;
  username_plain = record {
    no_at = omega arith;
    no_slash = omega arith;
    no_question = omega arith;
    no_percent = omega arith;
    no_plus = omega arith;
  };
  username_no_colon = omega arith;
  password_plain = record {
    no_at = omega arith;
    no_slash = omega arith;
    no_question = omega arith;
    no_percent = omega arith;
    no_plus = omega arith;
  };
  password_named = λ e. absurd (cc);
  options_plain = full-PlainOptions;
}

parse-to_connection_string_example :
    parse (to_connection_string full_uri)
    ≡ record full_uri { collection = []; is_valid = false; error_message = no_collection }
parse-to_connection_string_example = parse-to_connection_string full_uri full-IsPlainUri
