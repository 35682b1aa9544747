-- ===== src/Pgdriver/Messages.antt =====
-- The messages that driver/pgdriver/proto.go writes: each function gives the bytes that go out in one
-- write. `appendStmtArg` is here too; the text of a float and of a time is what strconv and time
-- make of it.
pub mod Frames
pub mod Params
pub mod Bind
use uptrace_bun.Prelude.{
  ℕ, suc, ◌+◌, ◌%◌, ◌^◌, Bool, List, [], ◌∷◌, ◌++◌, Option, none, some, Bytes, codes, ltb, ◌==◌,
  if◌then◌else◌, length, Result, ok, err, ◌>>=◌,
}
use uptrace_bun.Parser.{is_empty}
use uptrace_bun.Strconv.{ℤ, append_int}
use uptrace_bun.Dialect.Utf8.{rune_self, runes, encode_rune}
use uptrace_bun.Dialect.Append.{append_bool, hex_encode}
use uptrace_bun.Pgdriver.Reader.{Failure, unexpected_arg}
use uptrace_bun.Pgdriver.WriteBuffer.{
  new_write_buffer, WriteBuffer, be32, start_message, finish_message, start_param, finish_param,
  finish_null_param, write, write_int16, write_int32, write_string, write_byte, push,
}

pub data Float64 : Type 0 where
  nan : Float64
  infinity : Float64
  minus_infinity : Float64
  finite : Bytes → Float64

-- What the switches of `appendStmtArg` and `appendArg` tell apart. A nil slice and the zero time are
-- `none`; `other` is a type that they refuse.
pub data DriverValue : Type 0 where
  nil : DriverValue
  int64 : ℤ → DriverValue
  float64 : Float64 → DriverValue
  bool : Bool → DriverValue
  bytes : Option Bytes → DriverValue
  string : Bytes → DriverValue
  time : Option Bytes → DriverValue
  other : DriverValue

append_stmt_rune : Bytes → ℕ → Bytes
append_stmt_rune b r =
    if r == 0 then b else if ltb r rune_self then b ++ r ∷ [] else b ++ encode_rune r

unfoldable pub append_stmt_runes : Bytes → List ℕ → Bytes
unfolding append_stmt_rune
append_stmt_runes b [] = b
append_stmt_runes b (r ∷ rs) = append_stmt_runes (append_stmt_rune b r) rs

unfoldable pub append_float64 : Bytes → Float64 → Bytes
append_float64 b nan = b ++ codes "NaN"
append_float64 b infinity = b ++ codes "Infinity"
append_float64 b minus_infinity = b ++ codes "-Infinity"
append_float64 b (finite text) = b ++ text

-- `appendStmtArg`; `none` is the nil slice that stands for NULL.
unfoldable pub append_stmt_arg : Bytes → DriverValue → Result Failure (Option Bytes)
unfolding append_int append_float64 append_bool hex_encode append_stmt_runes
append_stmt_arg b nil = ok none
append_stmt_arg b (int64 v) = ok (some (append_int b v))
append_stmt_arg b (float64 v) = ok (some (append_float64 b v))
append_stmt_arg b (bool v) = ok (some (append_bool b v))
append_stmt_arg b (bytes none) = ok none
append_stmt_arg b (bytes (some v)) = ok (some ((b ++ codes "\\x") ++ hex_encode v))
append_stmt_arg b (string v) = ok (some (append_stmt_runes b (runes v)))
append_stmt_arg b (time none) = ok none
append_stmt_arg b (time (some v)) = ok (some (b ++ v))
append_stmt_arg b other = err unexpected_arg

-- `writeSSLMsg`
unfoldable pub write_ssl_msg : Bytes
unfolding new_write_buffer start_message write_int32 finish_message
write_ssl_msg = (finish_message (write_int32 (start_message new_write_buffer 0) 80877103)).bytes

-- `writeStartup` for the user, the database and the application name.
unfoldable pub write_startup : Bytes → Bytes → Bytes → Bytes
unfolding new_write_buffer start_message write_int32 write_string finish_message
write_startup user database app_name =
    let version = write_int32 (start_message new_write_buffer 0) 196608 in
    let named = write_string (write_string version (codes "user")) user in
    let chosen = write_string (write_string named (codes "database")) database in
    let app =
      if is_empty app_name
      then chosen
      else write_string (write_string chosen (codes "application_name")) app_name in
    (finish_message (write_string app [])).bytes

-- `writePassword`
unfoldable pub write_password : Bytes → Bytes
unfolding new_write_buffer start_message write_string finish_message
write_password password =
    (finish_message (write_string (start_message new_write_buffer b'p') password)).bytes

-- `saslWriteInitialResponse` for the name of the mechanism.
unfoldable pub sasl_write_initial_response : Bytes → Bytes → Bytes
unfolding new_write_buffer start_message write_string write_int32 write finish_message
sasl_write_initial_response name resp =
    (finish_message (
      write (write_int32 (write_string (start_message new_write_buffer b'p') name) (length resp))
        resp)).bytes

-- `saslWriteResponse`
unfoldable pub sasl_write_response : Bytes → Bytes
unfolding new_write_buffer start_message write finish_message
sasl_write_response resp = (finish_message (write (start_message new_write_buffer b'p') resp)).bytes

-- `writeQuery`, which does without a buffer.
unfoldable pub write_query : Bytes → Bytes
unfolding be32
write_query query = b'Q' ∷ (be32 ((length query + 5) % 2 ^ 32) ++ (query ++ 0 ∷ []))

-- A message with no payload.
empty_message : ℕ → WriteBuffer → WriteBuffer
unfolding start_message finish_message
empty_message c wb = finish_message (start_message wb c)

-- `writeParseDescribeSync`
unfoldable pub write_parse_describe_sync : Bytes → Bytes → Bytes
unfolding new_write_buffer start_message write_string write_int16 write_byte finish_message
    empty_message
write_parse_describe_sync name query =
    let parse = finish_message (
      write_int16 (write_string (write_string (start_message new_write_buffer b'P') name) query)
        0) in
    let describe =
      finish_message (write_string (write_byte (start_message parse b'D') b'S') name) in
    (empty_message b'S' describe).bytes

-- What is left of one round of the loop over the arguments: `bytes` is what `appendStmtArg` returns.
unfoldable pub end_param : WriteBuffer → Option Bytes → WriteBuffer
unfolding finish_param finish_null_param
end_param wb (some b) =
    finish_param (record { bytes = b; msg_start = wb.msg_start; param_start = wb.param_start })
end_param wb none = finish_null_param wb

-- One argument.
unfoldable pub write_arg : WriteBuffer → DriverValue → Result Failure WriteBuffer
unfolding start_param append_stmt_arg end_param
write_arg wb v = append_stmt_arg (start_param wb).bytes v >>= λ b. ok (end_param (start_param wb) b)

-- The loop over the arguments.
unfoldable pub write_args : WriteBuffer → List DriverValue → Result Failure WriteBuffer
unfolding write_arg
write_args wb [] = ok wb
write_args wb (v ∷ vs) = write_arg wb v >>= λ wb'. write_args wb' vs

-- The messages behind the arguments.
unfoldable pub end_bind_execute : WriteBuffer → Bytes
unfolding start_message write_string write_int16 write_int32 finish_message empty_message
end_bind_execute wb =
    let bind = finish_message (write_int16 wb 0) in
    let execute = finish_message (write_int32 (write_string (start_message bind b'E') []) 0) in
    (empty_message b'S' execute).bytes

-- `writeBindExecute`
unfoldable pub write_bind_execute : Bytes → List DriverValue → Result Failure Bytes
unfolding new_write_buffer start_message write_string write_int16 write_args end_bind_execute
write_bind_execute name args =
    let names = write_string (write_string (start_message new_write_buffer b'B') []) name in
    write_args (write_int16 (write_int16 names 0) (length args)) args >>= λ wb.
    ok (end_bind_execute wb)

-- `writeCloseStmt`
unfoldable pub write_close_stmt : Bytes → Bytes
unfolding new_write_buffer start_message write_string write_byte finish_message empty_message
write_close_stmt name =
    let close =
      finish_message (write_string (write_byte (start_message new_write_buffer b'C') b'S') name) in
    (empty_message b'H' close).bytes
