-- ===== src/Share/Tests.antt =====
-- Runs of the share's parser, and the theorems at a concrete text.
use mongodb_engine.Base.{
  arith, false, ℕ, ◌≡◌, refl, Bool, true, some, Bytes, codes, find, find_sub, starts_with, str_eq,
}
use mongodb_engine.Base.Int.{skip_space, read_digits, read_unsigned, read_signed, stoi}
use mongodb_engine.Share.Defs.{zero_share}
use mongodb_engine.Share.Parse.{
  store_names, parse_path, parse_text, mongodb_parse_connection_string,
}
use mongodb_engine.Share.Sent.{Means, mongo_connection_string-Means}
use mongodb_engine.Uri.Grammar.{IsUri, given, plain, options, free}
use mongodb_engine.Share.Agree.{Stores, parse-agrees}
use mongodb_engine.Uri.Helpers.{split_key_value, url_decode, split_from, split_string}
use mongodb_engine.Uri.Validate.{
  has_invalid_byte, match_hostname, match_tail, validate_collection_name, validate_database_name,
  validate_hostname, validate_port,
}
use mongodb_engine.Uri.Parse.{
  add_host, check_path, finish, parse, parse_credentials, parse_database_collection,
  parse_host_list, parse_host_port, parse_hosts, parse_options, parse_protocol, parse_steps,
  store_path,
}

abbrev pub plenty : ℕ → ℕ → Bool
plenty i n = true

abbrev full : Bytes
full = codes "mongodb://u:p@a/d/c?ssl=true"

full_parts : IsUri full
unfolding split_string split_from split_key_value url_decode str_eq find validate_hostname
    match_hostname match_tail validate_database_name validate_collection_name has_invalid_byte
full_parts = record {
  is_srv = false;
  login = codes "u:p@";
  hosts = codes "a";
  database = codes "d";
  collection = codes "c";
  query = codes "?ssl=true";
  splits = refl;
  is_login = given (codes "u:p") (codes "u:p@") refl (omega arith) (omega arith) (omega arith);
  hosts_no_slash = omega arith;
  some_host = λ e. cc e;
  are_hosts = (plain refl, tt);
  is_database = refl;
  is_collection = refl;
  collection_no_query = omega arith;
  is_query = options (codes "ssl=true") (free refl, tt);
}

mongo_connection_string-Means_example :
    (w : Bytes) × ((mongodb_parse_connection_string plenty
        (some full)
        zero_share).1.mongo_connection_string
      ≡ some w)
    × Means full w
unfolding full_parts
mongo_connection_string-Means_example =
    mongo_connection_string-Means plenty zero_share full full_parts (λ k n. refl)
      ((λ e. ground arith), tt)

abbrev text : Bytes
text = codes "mongodb://u:p@a/d/c"

fails : (mongodb_parse_connection_string plenty (some (codes "mongodb://a/d")) zero_share).0 ≡ 1
unfolding mongodb_parse_connection_string parse_text parse_path store_names find_sub find
    starts_with
fails = refl

pub accepted : (parse (codes "mongodb://a/d/c")).is_valid ≡ true
unfolding parse parse_steps parse_protocol parse_credentials parse_hosts parse_host_list
    parse_host_port add_host parse_database_collection store_path check_path parse_options finish
    find str_eq split_string split_from stoi read_signed read_unsigned read_digits skip_space
    validate_hostname match_hostname match_tail validate_port validate_database_name
    validate_collection_name has_invalid_byte
accepted = refl

parse-agrees_example :
    Stores
      (parse (codes "mongodb://a/d/c")).database
      (parse (codes "mongodb://a/d/c")).collection
      (mongodb_parse_connection_string plenty (some (codes "mongodb://a/d/c")) zero_share)
parse-agrees_example =
    parse-agrees plenty (λ k n. refl) (codes "mongodb://a/d/c") zero_share accepted
