-- ===== src/Pgdriver/Driver.antt =====
-- The operations of Conn, tx and stmt in driver/pgdriver/driver.go, with error.go, over the bytes that
-- the server sends and a list of what was written. Behind a read that fails nothing is left of the
-- server's bytes. Deadlines, and writes that fail, are left out; a statement is not used behind its
-- Close.
pub mod Broken
use uptrace_bun.Prelude.{
  ℕ, zero, suc, Bool, true, false, not, ◌&&◌, ◌||◌, List, [], ◌∷◌, ◌++◌, Option, none, some, Bytes,
  codes, ◌==◌, equal, if◌then◌else◌, length, Result, ok, err, ◌>>=◌,
}
use uptrace_bun.Strconv.{ℤ, pos, negsuc, append_int}
use uptrace_bun.Pgdriver.Reader.{Failure, slice_bounds_panic, server}
use uptrace_bun.Pgdriver.Replies.{Pending}
use uptrace_bun.Pgdriver.Loops.{
  RowDescription, Rows, read_query, read_query_data, read_ext_query, read_ext_query_data,
}
use uptrace_bun.Pgdriver.Statements.{read_parse_describe_sync, read_close_stmt_complete}
use uptrace_bun.Pgdriver.Messages.{
  DriverValue, write_query, write_parse_describe_sync, write_bind_execute, write_close_stmt,
}
use uptrace_bun.Pgdriver.Format.{FormatError, index_range, format_driver_query}

-- `Error.Field`: of two fields with a letter the later one counts.
unfoldable pub error_field : ℕ → List (ℕ × Bytes) → Bytes
error_field k [] = []
error_field k (f ∷ fs) = elim (error_field k fs) [
  | [] ↦ if f.0 == k then f.1 else []
  | c ∷ s ↦ c ∷ s
]

is_one_of : List Bytes → Bytes → Bool
is_one_of [] s = false
is_one_of (w ∷ ws) s = equal w s || is_one_of ws s

-- `IntegrityViolation`
unfoldable pub integrity_violation : List (ℕ × Bytes) → Bool
unfolding error_field is_one_of equal
integrity_violation fs =
    is_one_of
      (codes "23000"
        ∷ codes "23001"
        ∷ codes "23502"
        ∷ codes "23503"
        ∷ codes "23505"
        ∷ codes "23514"
        ∷ codes "23P01"
        ∷ [])
      (error_field b'C' fs)

-- `isBadConn` of an error that is not nil, without the exception for timeouts. A panic does not get
-- there.
unfoldable pub is_bad_conn : Failure → Bool
unfolding error_field is_one_of equal
is_bad_conn (server fs) =
    is_one_of (codes "FATAL" ∷ codes "PANIC" ∷ []) (error_field b'V' fs)
    || is_one_of (codes "25P02" ∷ codes "57014" ∷ []) (error_field b'C' fs)
is_bad_conn slice_bounds_panic = false
is_bad_conn e = true

-- `Conn`
pub record DriverConn : Type 0 where
  pub closed : Bool
  pub stmt_count : ℕ
  pub written : List Bytes
  pub incoming : Bytes

-- `bad_conn` is driver.ErrBadConn; `unsupported` the options that BeginTx refuses.
pub data DriverError : Type 0 where
  bad_conn : DriverError
  format_error : FormatError → DriverError
  failed : Failure → DriverError
  unsupported : DriverError

-- What an operation returns, with the connection behind it; `none` is a read that runs out of fuel.
abbrev pub Op : Type 0 → Type 0
Op A = DriverConn → Option (Result DriverError A × DriverConn)

-- The end of a read.
unfoldable pub end_read :
    {A : Type 0}
    → DriverConn
    → Option (Result Failure (A × Bytes))
    → Option (Result DriverError A × DriverConn)
end_read cn none = none
end_read cn (some (ok (a, rd))) = some (ok a, record cn { incoming = rd })
end_read cn (some (err e)) = some (err (failed e), record cn { incoming = [] })

-- A message is written, and its reply read.
unfoldable pub exchange :
    {A : Type 0} → Bytes → (Bytes → Option (Result Failure (A × Bytes))) → Op A
unfolding end_read
exchange message read cn =
    end_read (record cn { written = cn.written ++ message ∷ [] }) (read cn.incoming)

-- The result and the first error that `readQuery` returns.
query_result :
    Option (Result DriverError (Pending ℤ) × DriverConn)
    → Option (Result DriverError (Option ℤ) × DriverConn)
query_result none = none
query_result (some (err e, cn)) = some (err e, cn)
query_result (some (ok p, cn)) =
    some (elim (p.first_err) [ some e ↦ err (failed e) | none ↦ ok p.res ], cn)

-- `Conn.exec`
unfoldable pub exec : Bytes → List DriverValue → Op (Option ℤ)
unfolding format_driver_query exchange query_result write_query read_query
exec query args cn = elim (format_driver_query query args) [
  | ok text ↦ query_result (exchange (write_query text) read_query cn)
  | err e ↦ some (err (format_error e), cn)
]

-- `Conn.query`
unfoldable pub query_rows : Bytes → List DriverValue → Op Rows
unfolding format_driver_query exchange write_query read_query_data
query_rows query args cn = elim (format_driver_query query args) [
  | ok text ↦ exchange (write_query text) read_query_data cn
  | err e ↦ some (err (format_error e), cn)
]

-- `Conn.Close`
unfoldable pub close_conn : DriverConn → DriverConn
close_conn cn = record cn { closed = true }

-- Whether `checkBadConn` closes the connection. `index_range` is a panic too.
unfoldable pub breaks_conn : DriverError → Bool
unfolding is_bad_conn
breaks_conn (failed e) = is_bad_conn e
breaks_conn bad_conn = true
breaks_conn (format_error index_range) = false
breaks_conn (format_error e) = true
breaks_conn unsupported = true

-- `checkBadConn` behind an operation.
unfoldable pub check_bad_conn :
    {A : Type 0}
    → Option (Result DriverError A × DriverConn)
    → Option (Result DriverError A × DriverConn)
unfolding breaks_conn close_conn
check_bad_conn none = none
check_bad_conn (some (ok a, cn)) = some (ok a, cn)
check_bad_conn (some (err e, cn)) = some (err e, if breaks_conn e then close_conn cn else cn)

-- `if cn.isClosed() { return nil, driver.ErrBadConn }`
unfoldable pub unless_closed : {A : Type 0} → Op A → Op A
unless_closed op cn = if cn.closed then some (err bad_conn, cn) else op cn

-- `ExecContext`
unfoldable pub exec_context : Bytes → List DriverValue → Op (Option ℤ)
unfolding unless_closed check_bad_conn exec
exec_context query args cn = unless_closed (λ c. check_bad_conn (exec query args c)) cn

-- `QueryContext`
unfoldable pub query_context : Bytes → List DriverValue → Op Rows
unfolding unless_closed check_bad_conn query_rows
query_context query args cn = unless_closed (λ c. check_bad_conn (query_rows query args c)) cn

-- `Ping`, `Commit` and `Rollback`, which drop the result.
unfoldable pub ping : Op (Option ℤ)
unfolding exec_context
ping cn = exec_context (codes "SELECT 1") [] cn

unfoldable pub commit : Op (Option ℤ)
unfolding exec_context
commit cn = exec_context (codes "COMMIT") [] cn

unfoldable pub rollback_tx : Op (Option ℤ)
unfolding exec_context
rollback_tx cn = exec_context (codes "ROLLBACK") [] cn

-- `BeginTx`; the flags are a custom isolation level and a read-only transaction.
unfoldable pub begin_tx : Bool → Bool → Op (Option ℤ)
unfolding exec_context
begin_tx custom_isolation read_only cn =
    if custom_isolation || read_only
    then some (err unsupported, cn)
    else exec_context (codes "BEGIN") [] cn

-- `stmt`
pub record Stmt : Type 0 where
  pub name : Bytes
  pub row_desc : Option RowDescription

unfoldable pub stmt_name : ℕ → Bytes
unfolding append_int
stmt_name n = append_int (codes "pgdriver-") (pos n)

new_stmt :
    Bytes
    → Option (Result DriverError (Option RowDescription) × DriverConn)
    → Option (Result DriverError Stmt × DriverConn)
new_stmt name none = none
new_stmt name (some (err e, cn)) = some (err e, cn)
new_stmt name (some (ok desc, cn)) = some (ok (record { name = name; row_desc = desc }), cn)

-- `Prepare` of a connection that is open.
unfoldable pub prepare_open : Bytes → Op Stmt
unfolding new_stmt exchange stmt_name write_parse_describe_sync read_parse_describe_sync
prepare_open query cn = new_stmt (stmt_name cn.stmt_count) (
    exchange (write_parse_describe_sync (stmt_name cn.stmt_count) query) read_parse_describe_sync
      (record cn { stmt_count = suc cn.stmt_count }))

-- `Prepare`
unfoldable pub prepare : Bytes → Op Stmt
unfolding unless_closed prepare_open
prepare query cn = unless_closed (λ c. prepare_open query c) cn

-- `NumInput`
unfoldable pub num_input : Stmt → ℤ
num_input stmt = elim (stmt.row_desc) [ some d ↦ d.num_input | none ↦ negsuc 0 ]

-- `stmt.Close`
unfoldable pub close_stmt : Stmt → Op (Unit {0})
unfolding exchange write_close_stmt read_close_stmt_complete
close_stmt stmt cn = exchange (write_close_stmt stmt.name) read_close_stmt_complete cn

-- `stmt.ExecContext` and `stmt.QueryContext`
unfoldable pub exec_stmt : Stmt → List DriverValue → Op (Option ℤ)
unfolding exchange write_bind_execute read_ext_query
exec_stmt stmt args cn = elim (write_bind_execute stmt.name args) [
  | ok message ↦ exchange message read_ext_query cn
  | err e ↦ some (err (failed e), cn)
]

unfoldable pub query_stmt : Stmt → List DriverValue → Op Rows
unfolding exchange write_bind_execute read_ext_query_data
query_stmt stmt args cn = elim (write_bind_execute stmt.name args) [
  | ok message ↦ exchange message (λ rd. read_ext_query_data stmt.row_desc rd) cn
  | err e ↦ some (err (failed e), cn)
]
