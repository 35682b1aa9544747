-- ===== src/Lib.antt =====
-- uptrace_bun models the part of the bun ORM that turns queries into SQL text: the appenders that
-- write values and names, the formatter that fills in placeholders, and the query builders on top; and
-- the messages of its PostgreSQL driver and its runs of migrations.
--
-- Parts, and the code they are about:
--
-- - Parser: internal/parser/parser.go, the byte cursor of the formatter and of AppendJSON. The state is
--   the rest of the text.
-- - Dialect: dialect/append.go. Append and Ident hold the appenders, Utf8 the runes of Go strings.
--   Literal and Ident hold independent readers of SQL literals and identifiers; Strings, Hex, Json and
--   Ident.Tokens are about what the appenders write.
-- - Pgdialect: arrays of strings in dialect/pgdialect (append.go, array_parser.go, array_scan.go).
-- - Mysqldialect: appendJSON of dialect/mysqldialect/append.go, and how MySQL reads a literal.
-- - Strconv: integers in base ten, as strconv and the conversion of a uint64 write them.
-- - Internal: internal/tagparser/parser.go (Tagparser) and internal/underscore.go (Underscore).
-- - Schema: schema/append.go, schema/formatter.go and schema/sqlfmt.go. Dialects holds the names,
--   features and quotes of the dialects, Value the arguments, Formatter the placeholders with their
--   description in Formatter.Renders and its panic in Formatter.Panics, Sqlfmt the pieces of queries.
--   Schema.Table is schema/table.go: Fields adds the fields, Joins and Relations build the relations,
--   Inlines has the nested columns and init2.
-- - Query: query_base.go (State, Tables, Where), query_select.go (Select, and Join with the has-one joins
--   of join.go), query_insert.go (Insert), query_values.go (Values), query_update.go (Update),
--   query_delete.go (Delete), the statements on tables, indexes and columns (Ddl), model_map.go and
--   model_map_slice.go. Conds describes nested conditions independently of the code. An InsertQuery's
--   RETURNING fields are state: rendering it returns them.
-- - Pgdriver: driver/pgdriver/write_buffer.go (WriteBuffer), driver/pgdriver/format.go (Format), and
--   driver/pgdriver/proto.go: Messages has the functions that write, Reader those that read a value,
--   Replies the loop over messages, Loops and Statements the switch of each loop. Reply and
--   Messages.Bind describe the protocol independently. A reader is the bytes that the server still
--   sends. Startup has startup and the authentication, with the SASL client and MD5 as parameters;
--   Columns is driver/pgdriver/column.go, Rows and Driver are driver/pgdriver/driver.go.
-- - Migrate: migrate/migration.go, migrate/migrations.go and migrate/migrator.go: status and groups of
--   migrations, in Migrate.Script how SQL files are cut into queries, in Migrate.Migrator Migrate and
--   Rollback between Lock and Unlock, and in Migrate.Worker several processes at once. The int64 of a
--   group is the number of its bits.
-- - Prelude: shared names, Boolean tests, lists over native numbers, results. Tests: samples.
--
-- How they interact: a builder appends its clauses to a byte slice; each clause calls append_with_args
-- of a query piece, that calls append_query of the formatter, that reads the query by the cursor and
-- writes arguments by append_value, that is append_schema or the dialect's own version, which ends in
-- the appenders of Dialect. A byte slice that Go passes along is the argument and the result here. A Go
-- error is the err of Result; the builders' errors are the constructors of Query.State.Error.
--
-- Fuel: append_loop of the formatter runs on the length of the query, append_json_loop on the length of
-- the text, and the array loops on the length of the input. Each round reads at least one byte, so
-- this is enough. The loops over replies of the driver run on one more than the number of bytes, and
-- readError on that number; a loop that ran out would be none. formatQuery runs on the length of the
-- query.
--
-- Panics: a panic of the formatter is the err of try_append_query. The functions that call the formatter
-- and write a text go on with append_query, where the panic is a mark in the text that is no byte; what
-- stands behind the mark is never written. A slice out of bounds in the reader of the driver is the
-- failure slice_bounds_panic, which every function passes on.
--
-- Parameters: a QueryAppender or NamedArgAppender of the caller is a function of the text so far. A
-- value that the code writes with the packages strconv (floats), time or reflect is its text. The
-- current time of a soft delete is an argument. The database of the migrator is a record of operations
-- on a state of its own; Tracks and Locks are what a table with a unique column does.
--
-- A struct type is given as a list of its fields with what reflect tells of them. A table has its own
-- store of fields, and its lists hold positions in the store. The registry of tables is a function from
-- types to tables. The nesting of structs in inlineFields is bounded by fuel; what is proved of init2
-- holds for any amount of it.
--
-- Not modelled: dialling, database handles, scanning and hooks, which are I/O; the functions that a field
-- keeps; the queries of has-many and many-to-many relations; Bulk of UPDATE; the listener of the
-- PostgreSQL driver, its deadlines and TLS; fixtures and extras.
pub mod Prelude
pub mod Parser
pub mod Internal
pub mod Dialect
pub mod Strconv
pub mod Schema
pub mod Pgdialect
pub mod Mysqldialect
pub mod Pgdriver
pub mod Query
pub mod Migrate
pub mod Tests
