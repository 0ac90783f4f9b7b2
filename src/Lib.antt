-- ===== src/Lib.antt =====
-- A model of the MongoDB storage engine for MariaDB, and what is proved of it.
--
-- The engine shows MongoDB collections as SQL tables. MariaDB calls a handler for each open table; the
-- handler keeps a share with the parsed connection string, connects with the MongoDB C driver, reads
-- cursors and turns documents into rows. Beside it stand a parser of connection strings, a pool of
-- connections and a registry that infers a schema from sampled documents.
--
-- Base: what the other modules share. Texts are lists of byte codes (`Bytes`); `Base/Int.antt` has the
-- `int` of C++ with `std::stoi` and `std::to_string`, `Base/Text.antt` the searches of `std::string`
-- and the sorted association lists that stand for `std::map`.
--
-- Uri: src/mongodb_uri_parser.cc. `Uri/Parse.antt` has one function per method of `MongoURIParser`;
-- a step returns `done` with the text that is left, or `failed` with the result as it then is.
-- `Uri/Validate.antt` has the validations, `Uri/Helpers.antt` the helpers, `Uri/Print.antt` the two
-- printers of `MongoURI`. `Uri/Grammar.antt` is a grammar of connection strings, with the parser's
-- steps on its texts in the files below; `Uri/RoundTrip.antt` and the files below it go through what
-- the printers write, part by part.
--
-- Share: src/mongodb_share.cc. `mongodb_parse_connection_string` with MariaDB's allocator as a
-- parameter that says for each call whether there is memory. `Share/Agree.antt` runs it on the texts
-- of the URI parser, `Share/Suffix.antt` and `Share/Sent.antt` run the URI parser on the text that
-- the share keeps for the driver.
--
-- Pool: src/mongodb_connection.cc. `MongoConnectionPool` is a record, each method a function on it.
-- The methods that touch the connections hold the pool's mutex, so their calls of several threads are
-- a sequence of steps; `is_healthy` and the setters of the two timeouts, which take none, are taken to
-- be steps too. Durations are not negative. The driver and the clock are parameters of the calls. A
-- field that the class does not have records the clients that were destroyed.
--
-- Schema: src/mongodb_schema.cc. The normalisation of names, the inference of types from documents,
-- the cache with its time to live, the registries by connection string.
--
-- Handler: src/ha_mongodb_handler.cc and include/ha_mongodb.h. `HaMongodb` has the fields of the class;
-- each operation takes the answers that the driver gives while it runs (`Server`). `open` is
-- `open_table` here, and `records` is `count_records`. `Handler/Ops.antt` has the calls that read or
-- change the state as one data type, `Handler/Rest.antt` the methods that do nothing or that nothing
-- calls. `Handler/Scanner.antt` has an abstract scanner of rows, `Handler/Carry.antt` what all reads
-- leave as it was, `Handler/Steady.antt` what the other calls leave of the share, the collection and
-- the count of lost cursors, which every assignment of the cursor moves if one is still open;
-- `Handler/Steady/Calls.antt` is one induction over the calls for what connecting keeps.
-- `Handler/Uses.antt` counts the openings of a life beside the share's own count.
--
-- Translator: src/mongodb_translator.cc. Its filters are those that the handler pushes down.
--
-- Engine: the share's parser, the connection and a table scan one after the other.
--
-- Plugin: src/ha_mongodb.cc, as what it sets in the structures of MariaDB. CursorManager: the
-- placeholders of src/mongodb_cursor.cc, which nothing calls.
--
-- Numbers of 64 bits wrap around. Loops are recursions on the text, the documents or the connections
-- that they go through, and need no fuel; the decimal printer has one unit of it more than its
-- number, which each digit makes ten times smaller, and the rounding to a double eleven, the bits of 64
-- that its 53 leave out.
--
-- Not modelled: the symbol stubs; the costs that the handler gives the optimizer, which are
-- floating-point; the table flags, which are MariaDB's constants; the output for the log. The MongoDB
-- C driver and MariaDB are parameters: a cursor is the documents it has left and how it ends, and a call
-- for the next document behind the end makes the driver's error for a completed cursor; a field is its
-- name and whether its column may be null, and an integer that is stored as a double is rounded to one.
-- The copies of the sampled documents and their destruction are not modelled.
pub mod Base
pub mod Uri
pub mod Share
pub mod Pool
pub mod Schema
pub mod Handler
pub mod Translator
pub mod Engine
pub mod Plugin
pub mod CursorManager
