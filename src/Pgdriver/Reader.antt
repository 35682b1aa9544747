-- ===== src/Pgdriver/Reader.antt =====
-- The reader of driver/pgdriver/proto.go and the reads of a value. A reader is the bytes that the
-- server still sends; behind them the connection is closed. `slice_bounds_panic` is no error: it is the
-- panic on a slice out of bounds, such as one of a negative length. `server` is the Error of error.go
-- with its fields in their order.
use uptrace_bun.Prelude.{
  ℕ, zero, suc, ◌+◌, ◌-◌, ◌*◌, ◌^◌, true, false, List, [], ◌∷◌, Bytes, ltb, ◌==◌, if◌then◌else◌,
  length, take, drop, Result, ok, err, ◌>>=◌,
}
use uptrace_bun.Strconv.{ℤ, pos, negsuc, int32_of_int}

-- What the functions that authenticate refuse, with what they got; `step_failed` is the error of a
-- step of the SASL client.
pub data AuthProblem : Type 0 where
  unknown_auth : ℤ → AuthProblem
  wrong_auth_code : ℤ → AuthProblem
  unknown_password_message : ℕ → AuthProblem
  wrong_mechanism : Bytes → AuthProblem
  no_list_end : ℕ → AuthProblem
  wrong_sasl_message : ℕ → AuthProblem
  step_failed : ℕ → Bytes → AuthProblem
  wrong_sasl_state : AuthProblem

pub data Failure : Type 0 where
  eof : Failure
  buffer_full : Failure
  slice_bounds_panic : Failure
  unexpected : ℕ → Failure
  server : List (ℕ × Bytes) → Failure
  empty_query : Failure
  unexpected_arg : Failure
  auth_code : AuthProblem → Failure
  bad_value : Bytes → Failure
  wrong_columns : ℤ → ℕ → Failure

-- What a read returns: the value and the bytes behind it.
abbrev pub Reading : Type 0 → Type 0
Reading A = Result Failure (A × Bytes)

-- `ReadByte`
unfoldable pub read_byte : Bytes → Reading ℕ
read_byte [] = err eof
read_byte (c ∷ rd) = ok (c, rd)

-- `ReadTemp` of a length that is not negative.
unfoldable pub read_temp : ℕ → Bytes → Reading Bytes
read_temp n rd = if ltb (length rd) n then err eof else ok (take n rd, drop n rd)

-- `Discard`, and `ReadTemp`, which panics on a negative length.
unfoldable pub discard : ℤ → Bytes → Reading Bytes
unfolding read_temp
discard (pos n) rd = read_temp n rd
discard (negsuc n) rd = err slice_bounds_panic

-- `binary.BigEndian.Uint16` and `Uint32`
unfoldable pub read_uint16 : Bytes → Reading ℕ
read_uint16 (a ∷ b ∷ rd) = ok (a * 256 + b, rd)
read_uint16 _ = err eof

unfoldable pub read_uint32 : Bytes → Reading ℕ
read_uint32 (a ∷ b ∷ c ∷ d ∷ rd) = ok (((a * 256 + b) * 256 + c) * 256 + d, rd)
read_uint32 _ = err eof

-- `int16(n)` for a uint16 `n`.
unfoldable pub int16_of_uint16 : ℕ → ℤ
int16_of_uint16 n = elim (ltb n (2 ^ 15)) [ true ↦ pos n | false ↦ negsuc (2 ^ 16 - 1 - n) ]

unfoldable pub read_int16 : Bytes → Reading ℤ
unfolding read_uint16 int16_of_uint16
read_int16 rd = read_uint16 rd >>= λ r. ok (int16_of_uint16 r.0, r.1)

unfoldable pub read_int32 : Bytes → Reading ℤ
unfolding read_uint32 int32_of_int
read_int32 rd = read_uint32 rd >>= λ r. ok (int32_of_int (pos r.0), r.1)

-- `int(l) - 4`
unfoldable pub minus_four : ℤ → ℤ
minus_four (pos n) = elim (ltb n 4) [ true ↦ negsuc (3 - n) | false ↦ pos (n - 4) ]
minus_four (negsuc n) = negsuc (n + 4)

-- `readMessageType`
unfoldable pub read_message_type : Bytes → Reading (ℕ × ℤ)
unfolding read_byte read_int32 minus_four
read_message_type rd = do c ← read_byte rd; l ← read_int32 (c.1); ok ((c.0, minus_four (l.0)), l.1)

-- `ReadSlice(0)` without the NUL, when the buffer has room for this many bytes.
unfoldable pub read_slice : ℕ → Bytes → Reading Bytes
read_slice zero rd = err buffer_full
read_slice (suc room) [] = err eof
read_slice (suc room) (c ∷ rd) =
    let rest = read_slice room rd in if c == 0 then ok ([], rd) else rest >>= λ r. ok (c ∷ r.0, r.1)

-- The size of the buffer of `bufio.NewReader`.
abbrev pub buffer_size : ℕ
buffer_size = 4096

-- `readString`: up to a NUL, which is left out.
unfoldable pub read_string : Bytes → Reading Bytes
unfolding read_slice
read_string rd = read_slice buffer_size rd

-- `readError`; with no fuel left it fails, and more than the number of bytes is enough.
unfoldable pub read_error_loop : ℕ → Bytes → Reading (List (ℕ × Bytes))
unfolding read_string
read_error_loop zero rd = err eof
read_error_loop (suc fuel) [] = err eof
read_error_loop (suc fuel) (c ∷ rd) =
    let rest =
      read_string rd >>= λ s. read_error_loop fuel (s.1) >>= λ m. ok ((c, s.0) ∷ m.0, m.1) in
    if c == 0 then ok ([], rd) else rest

unfoldable pub read_error : Bytes → Reading Failure
unfolding read_error_loop
read_error rd = read_error_loop (length rd) rd >>= λ m. ok (server (m.0), m.1)
