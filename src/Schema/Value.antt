-- ===== src/Schema/Value.antt =====
-- Query arguments and how a dialect writes them: schema/append.go, and `Append` of the dialects.
use uptrace_bun.Prelude.{ℕ, Bool, ◌++◌, Option, Bytes, Result, ok, err}
use uptrace_bun.Dialect.Append.{append_error, append_null, append_bool, append_string, append_bytes}
use uptrace_bun.Strconv.{ℤ, append_int, append_uint, int64_of_uint64}
use uptrace_bun.Schema.Dialects.{Name, pg}

-- The method of a QueryAppender with the formatter filled in. The error is its message.
abbrev pub QueryAppender : Type 0
QueryAppender = Bytes → Result Bytes Bytes

-- The method of a NamedArgAppender with the formatter filled in: the text so far, the name, and the
-- text with the flag.
abbrev pub NamedArgAppender : Type 0
NamedArgAppender = Bytes → Bytes → Bytes × Bool

-- What the type switch of `Append` tells apart. The signed and the unsigned integer types are one
-- case each; `other` holds the text of a value that the switch hands to another package (floats,
-- times) or to an appender found by reflection.
pub data Value : Type 0 where
  nil : Value
  bool : Bool → Value
  int : ℤ → Value
  uint : ℕ → Value
  string : Bytes → Value
  bytes : Option Bytes → Value
  query_appender : QueryAppender → Value
  other : Bytes → Value

-- An argument: its value, and how it looks up names if it can (a NamedArgAppender, or a struct for
-- which `newStructArgs` answers).
pub record Arg : Type 0 where
  pub value : Value
  pub named_args : Option NamedArgAppender

-- `AppendQueryAppender`
unfoldable pub append_query_appender : Bytes → QueryAppender → Bytes
append_query_appender b app = elim (app b) [ err e ↦ append_error b e | ok bb ↦ bb ]

-- `schema.Append`
unfoldable pub append_schema : Bytes → Value → Bytes
unfolding append_null append_bool append_int append_uint append_string append_bytes
    append_query_appender
append_schema b nil = append_null b
append_schema b (bool v) = append_bool b v
append_schema b (int v) = append_int b v
append_schema b (uint v) = append_uint b v
append_schema b (string v) = append_string b v
append_schema b (bytes v) = append_bytes b v
append_schema b (query_appender v) = append_query_appender b v
append_schema b (other v) = b ++ v

-- `Append` of the PostgreSQL dialect: unsigned integers are written as int64.
unfoldable pub append_pg : Bytes → Value → Bytes
unfolding append_schema int64_of_uint64
append_pg b (uint v) = append_int b (int64_of_uint64 v)
append_pg b v = append_schema b v

-- `d.Append`
unfoldable pub append_value : Name → Bytes → Value → Bytes
unfolding append_pg append_schema
append_value pg b v = append_pg b v
append_value _ b v = append_schema b v
