-- ===== src/Translator.antt =====
-- From SQL to MongoDB: src/mongodb_translator.cc. The code reads nothing of the items of a condition,
-- which are their addresses here, and writes filters only.
use mongodb_engine.Base.{ℕ, Bool, true, false, List, [], ◌∷◌, Option, none, some, Bytes, codes}
use mongodb_engine.Handler.Defs.{Filter}

unfoldable pub translate_condition_to_bson : Option ℕ → Filter → Bool × Filter
translate_condition_to_bson none filter = (false, filter)
translate_condition_to_bson (some cond) filter = (true, (codes "city", codes "Paris") ∷ filter)

-- The translators of one kind of condition: each leaves the document as it is.
unfoldable pub translate_function_item : ℕ → Filter → Bool × Filter
translate_function_item func match_doc = (false, match_doc)

unfoldable pub translate_condition_item : ℕ → Filter → Bool × Filter
translate_condition_item cond match_doc = (false, match_doc)

unfoldable pub translate_equality : ℕ → Filter → Bool × Filter
translate_equality func match_doc = (false, match_doc)

unfoldable pub translate_comparison : ℕ → Filter → Bytes → Bool × Filter
translate_comparison func match_doc mongodb_op = (false, match_doc)

unfoldable pub translate_in_condition : ℕ → Filter → Bool × Filter
translate_in_condition func match_doc = (false, match_doc)

unfoldable pub translate_and_condition : ℕ → Filter → Bool × Filter
translate_and_condition cond match_doc = (false, match_doc)

unfoldable pub translate_or_condition : ℕ → Filter → Bool × Filter
translate_or_condition cond match_doc = (false, match_doc)

unfoldable pub convert_sql_field_to_mongodb : Bytes → Bytes → Bool × Bytes
convert_sql_field_to_mongodb sql_field mongodb_field = (false, mongodb_field)

unfoldable pub add_value_to_bson : Filter → Bytes → ℕ → Bool × Filter
add_value_to_bson doc key value_item = (false, doc)

-- `MongoQueryTranslator`: each is `bson_new`.
unfoldable pub translate_sql_to_aggregation : Bytes → Filter
translate_sql_to_aggregation sql_query = []

unfoldable pub translate_select_to_match : Bytes → Filter
translate_select_to_match where_clause = []

unfoldable pub translate_joins : Bytes → Filter
translate_joins join_clause = []

unfoldable pub translate_order_by : Bytes → Filter
translate_order_by order_clause = []

unfoldable pub translate_group_by : Bytes → Filter
translate_group_by group_clause = []

-- The documents that are destroyed, the last one first; null is let be.
unfoldable pub cleanup_bson : Option ℕ → List ℕ → List ℕ
cleanup_bson none destroyed = destroyed
cleanup_bson (some doc) destroyed = doc ∷ destroyed
