-- ===== src/Plugin.antt =====
-- The plugin: src/ha_mongodb.cc. What MariaDB does with the declaration is not part of it.
use mongodb_engine.Base.{ℕ, Bool, true, false, List, [], ◌∷◌, map, Option, some, Bytes, codes}
use mongodb_engine.Handler.Defs.{HaMongodb, new_handler}

-- A system variable; the truth values are a variable from 0 to 1.
pub record SystemVariable : Type 0 where
  pub name : Bytes
  pub default_value : ℕ
  pub least : ℕ
  pub most : ℕ

-- What a name of the status variables shows, which nothing ever changes.
pub record StatusVariable : Type 0 where
  pub name : Bytes
  pub value : ℕ

abbrev pub mongodb_system_variables : List SystemVariable
mongodb_system_variables =
    record { name = codes "connection_timeout"; default_value = 30; least = 1; most = 300 }
    ∷ record { name = codes "max_connections"; default_value = 10; least = 1; most = 100 }
    ∷ record { name = codes "enable_aggregation_pushdown"; default_value = 1; least = 0; most = 1 }
    ∷ record { name = codes "enable_schema_cache"; default_value = 1; least = 0; most = 1 }
    ∷ record { name = codes "schema_cache_ttl"; default_value = 300; least = 60; most = 3600 }
    ∷ []

abbrev pub mongodb_status_variables : List StatusVariable
mongodb_status_variables =
    map (λ name. record { name = name; value = 0 })
      (codes "mongodb_queries_translated"
        ∷ codes "mongodb_connections_active"
        ∷ codes "mongodb_schema_cache_hits"
        ∷ codes "mongodb_schema_cache_misses"
        ∷ codes "mongodb_documents_scanned"
        ∷ codes "mongodb_rows_returned"
        ∷ [])

-- The fields of a `handlerton` that the plugin sets.
pub record Handlerton : Type 0 where
  pub is_dynamic : Bool
  pub can_recreate : Bool
  pub create_handler : Option HaMongodb
  pub tablefile_extensions : List Bytes

-- `mongodb_hton`, and whether the MongoDB C driver runs.
pub record PluginState : Type 0 where
  pub mongodb_hton : Option Handlerton
  pub driver_runs : Bool

-- The factory; `my_malloc`'s failure is not looked at.
unfoldable pub mongodb_create_handler : HaMongodb
mongodb_create_handler = new_handler

unfoldable pub mongodb_init_func : Handlerton → PluginState → ℕ × PluginState
mongodb_init_func p e = (
  0,
  record {
    mongodb_hton = some (record p {
      is_dynamic = true;
      can_recreate = true;
      create_handler = some mongodb_create_handler;
      tablefile_extensions = [];
    });
    driver_runs = true;
  },
)

unfoldable pub mongodb_done_func : PluginState → ℕ × PluginState
mongodb_done_func e = (0, record e { driver_runs = false })

-- What `maria_declare_plugin` gives.
pub record Declaration : Type 0 where
  pub name : Bytes
  pub version : ℕ
  pub status_variables : List StatusVariable
  pub system_variables : List SystemVariable

abbrev pub mongodb_plugin : Declaration
mongodb_plugin = record {
  name = codes "MONGODB";
  version = 256;
  status_variables = [];
  system_variables = [];
}

-- The keys of the hash tables: a text and how many bytes of it are the key.
abbrev pub mongodb_share_get_key : Bytes → ℕ → Bytes × ℕ
mongodb_share_get_key share_key share_key_length = (share_key, share_key_length)

abbrev pub mongodb_server_get_key : Bytes → ℕ → Bytes × ℕ
mongodb_server_get_key key key_length = (key, key_length)
