-- ===== src/Pgdriver/Statements.antt =====
-- The replies to the messages on prepared statements and the notifications in
-- driver/pgdriver/proto.go: readParseDescribeSync, readCloseStmtComplete and readNotification.
use uptrace_bun.Prelude.{
  ℕ, zero, suc, ◌||◌, Option, none, some, Bytes, ◌==◌, if◌then◌else◌, length, Result, ok, ◌>>=◌,
}
use uptrace_bun.Strconv.{ℤ, pos}
use uptrace_bun.Pgdriver.Reader.{
  Failure, unexpected, Reading, read_temp, discard, read_int16, read_int32, read_string, read_error,
}
use uptrace_bun.Pgdriver.Replies.{Turn, continue, stop, fail, proceed, receive}
use uptrace_bun.Pgdriver.Loops.{RowDescription, rounds, read_row_description, pass_over}

-- The variables `numParam`, `rowDesc` and `firstErr`.
pub record Described : Type 0 where
  pub num_param : ℤ
  pub row_desc : Option RowDescription
  pub first_err : Option Failure

-- The types of the parameters, which are dropped.
unfoldable pub read_types : ℕ → Bytes → Reading (Unit {0})
unfolding read_int32
read_types zero rd = ok (tt, rd)
read_types (suc n) rd = read_int32 rd >>= λ t. read_types n (t.1)

-- A ParameterDescription.
unfoldable pub read_parameters : Bytes → Reading ℤ
unfolding read_int16 read_types rounds
read_parameters rd = read_int16 rd >>= λ n. read_types (rounds (n.0)) (n.1) >>= λ u. ok (n.0, u.1)

unfoldable pub set_row_desc : RowDescription → Described → Described
set_row_desc d s = record {
  num_param = s.num_param;
  row_desc = some (record { names = d.names; types = d.types; num_input = s.num_param });
  first_err = s.first_err;
}

unfoldable pub set_num_param : ℤ → Described → Described
set_num_param n s = record { num_param = n; row_desc = s.row_desc; first_err = s.first_err }

unfoldable pub keep_first_error : Failure → Described → Described
keep_first_error e s = record {
  num_param = s.num_param;
  row_desc = s.row_desc;
  first_err = elim (s.first_err) [ some x ↦ some x | none ↦ some e ];
}

unfoldable pub finish_described : Described → Bytes → Turn Described (Option RowDescription)
finish_described s rd = elim (s.first_err) [ some e ↦ fail e | none ↦ stop (s.row_desc) rd ]

-- The switch of `readParseDescribeSync`.
unfoldable pub on_parse_describe_sync :
    ℕ → ℤ → Described → Bytes → Turn Described (Option RowDescription)
unfolding pass_over read_row_description set_row_desc read_parameters set_num_param finish_described
    keep_first_error discard read_error
on_parse_describe_sync c len s rd =
    if c == b'1'
    then pass_over len s rd
    else if c == b'T'
    then proceed (read_row_description rd) (λ d rd'. continue (set_row_desc d s) rd')
    else if c == b't'
    then proceed (read_parameters rd) (λ n rd'. continue (set_num_param n s) rd')
    else if c == b'n'
    then pass_over len s rd
    else if c == b'Z'
    then proceed (discard len rd) (λ _ rd'. finish_described s rd')
    else if c == b'E'
    then proceed (read_error rd) (λ e rd'. continue (keep_first_error e s) rd')
    else if c == b'N' || c == b'S'
    then pass_over len s rd
    else fail (unexpected c)

unfoldable pub read_parse_describe_sync :
    Bytes → Option (Result Failure (Option RowDescription × Bytes))
unfolding receive on_parse_describe_sync
read_parse_describe_sync rd =
    receive on_parse_describe_sync (suc (length rd))
      (record { num_param = pos 0; row_desc = none; first_err = none }) rd

-- The switch of `readCloseStmtComplete`.
unfoldable pub on_close_stmt : ℕ → ℤ → (Unit {0}) → Bytes → Turn (Unit {0}) (Unit {0})
unfolding pass_over discard read_error
on_close_stmt c len s rd =
    if c == b'3'
    then proceed (discard len rd) (λ _ rd'. stop tt rd')
    else if c == b'E'
    then proceed (read_error rd) (λ e rd'. fail e)
    else if c == b'N' || c == b'S'
    then pass_over len s rd
    else fail (unexpected c)

unfoldable pub read_close_stmt_complete : Bytes → Option (Result Failure ((Unit {0}) × Bytes))
unfolding receive on_close_stmt
read_close_stmt_complete rd = receive on_close_stmt (suc (length rd)) tt rd

-- The channel and the payload of a notification, behind its process id.
unfoldable pub read_channel_payload : Bytes → Reading (Bytes × Bytes)
unfolding read_temp read_string
read_channel_payload rd = do
  id ← read_temp 4 rd
  channel ← read_string (id.1)
  payload ← read_string (channel.1)
  ok ((channel.0, payload.0), payload.1)

-- The switch of `readNotification`.
unfoldable pub on_notification : ℕ → ℤ → (Unit {0}) → Bytes → Turn (Unit {0}) (Bytes × Bytes)
unfolding pass_over read_error read_channel_payload
on_notification c len s rd =
    if c == b'C' || c == b'Z' || c == b'N'
    then pass_over len s rd
    else if c == b'E'
    then proceed (read_error rd) (λ e rd'. fail e)
    else if c == b'A'
    then proceed (read_channel_payload rd) (λ n rd'. stop n rd')
    else fail (unexpected c)

unfoldable pub read_notification : Bytes → Option (Result Failure ((Bytes × Bytes) × Bytes))
unfolding receive on_notification
read_notification rd = receive on_notification (suc (length rd)) tt rd
