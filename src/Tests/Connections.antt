-- ===== src/Tests/Connections.antt =====
-- The startup of a connection and the columns of a row at concrete inputs.
use uptrace_bun.Prelude.{
  Bytes, codes, [], ◌∷◌, ◌++◌, none, some, ◌≡◌, refl, arith, true, false, ok, err, length,
}
use uptrace_bun.Strconv.{pos, negsuc}
use uptrace_bun.Pgdriver.WriteBuffer.{be16}
use uptrace_bun.Pgdriver.Reader.{eof, wrong_columns}
use uptrace_bun.Pgdriver.Loops.{opened}
use uptrace_bun.Pgdriver.Columns.{
  Parsers, read_column_value, time_layout, timestamp_format, int_value, null,
}
use uptrace_bun.Pgdriver.Rows.{close_rows}
use uptrace_bun.Pgdriver.Rows.Close.{close_rows-frame}
use uptrace_bun.Pgdriver.Messages.Frames.{frame}
use uptrace_bun.Pgdriver.Driver.{
  DriverConn, bad_conn, failed, breaks_conn, exec_context, query_context, prepare,
}
use uptrace_bun.Pgdriver.Driver.Broken.{exec_context-refuses}
use uptrace_bun.Pgdriver.Messages.{write_query}
use uptrace_bun.Pgdriver.Startup.{Config, Sasl}

abbrev sample_config : Config
sample_config = record {
  user = codes "bun";
  password = codes "secret";
  database = codes "test";
  app_name = [];
}

-- A client that has nothing to say.
abbrev mute_client : Sasl (Unit {0})
mute_client = record {
  names = (codes "SCRAM-SHA-256", codes "SCRAM-SHA-256-PLUS");
  new_client = λ name user password. tt;
  step = λ challenge client. ok ([], tt);
  valid_server_response = λ client. false;
}

-- It stands for MD5: the number of bytes.
abbrev sample_hash : Bytes → Bytes
sample_hash s = length s ∷ []

-- Parsers that refuse everything.
abbrev no_parsers : Parsers (Unit {0}) (Unit {0})
no_parsers = record { parse_float = λ bits text. none; parse_layout = λ layout text. none }

close_rows-frame_example :
    (close_rows no_parsers
        (opened none true)
        (frame b'D' (be16 1 ++ 0 ∷ 0 ∷ 0 ∷ 1 ∷ b'x' ∷ []) ++ codes "more")
      ≡ some (true, some (wrong_columns (pos 1) 0)))
    × (close_rows no_parsers (opened none true) (frame b'Z' (codes "I") ++ codes "more")
        ≡ some (false, none))
unfolding be16
close_rows-frame_example =
    close_rows-frame no_parsers none true 0 (0 ∷ 0 ∷ 0 ∷ 1 ∷ b'x' ∷ []) (codes "I") (codes "more")
      (omega arith) (omega arith) (omega arith)

-- A column of type integer, one of NULL, and a time with an offset.
columns_sample :
    (read_column_value no_parsers (pos 23) (pos 3) (codes "-42x")
      ≡ ok (int_value (negsuc 41), codes "x"))
    × (read_column_value no_parsers (pos 25) (negsuc 0) (codes "x") ≡ ok (null, codes "x"))
    × (time_layout (codes "2021-07-30 10:20:30.5+00")
        ≡ some (timestamp_format, codes "2021-07-30 10:20:30.5"))
unfolding read_column_value time_layout
columns_sample = (refl, refl, refl)

abbrev fresh_conn : DriverConn
fresh_conn = record { closed = false; stmt_count = 0; written = []; incoming = [] }

-- The server is gone before it answers.
abbrev left_conn : DriverConn
left_conn = record {
  closed = true;
  stmt_count = 0;
  written = write_query (codes "q") ∷ [];
  incoming = [];
}

exec_context-refuses_example :
    (exec_context (codes "r") [] left_conn ≡ some (err bad_conn, left_conn))
    × (query_context (codes "r") [] left_conn ≡ some (err bad_conn, left_conn))
    × (prepare (codes "r") left_conn ≡ some (err bad_conn, left_conn))
unfolding exec_context breaks_conn
exec_context-refuses_example =
    exec_context-refuses (codes "q") [] fresh_conn left_conn (failed eof) (codes "r") [] refl refl
