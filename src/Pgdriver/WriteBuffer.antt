-- ===== src/Pgdriver/WriteBuffer.antt =====
-- driver/pgdriver/write_buffer.go. The capacity of the buffer is not modelled; Reset keeps the
-- positions, as the code does.
pub mod Laws
use uptrace_bun.Prelude.{
  ℕ, suc, ◌+◌, ◌-◌, ◌/◌, ◌%◌, ◌^◌, List, [], ◌∷◌, ◌++◌, Bytes, ◌==◌, if◌then◌else◌, length, take,
  drop,
}

pub record WriteBuffer : Type 0 where
  pub bytes : Bytes
  pub msg_start : ℕ
  pub param_start : ℕ

unfoldable pub new_write_buffer : WriteBuffer
new_write_buffer = record { bytes = []; msg_start = 0; param_start = 0 }

unfoldable pub reset : WriteBuffer → WriteBuffer
reset wb = record { bytes = []; msg_start = wb.msg_start; param_start = wb.param_start }

-- Behind the bytes so far.
unfoldable pub push : WriteBuffer → Bytes → WriteBuffer
push wb s = record { bytes = wb.bytes ++ s; msg_start = wb.msg_start; param_start = wb.param_start }

-- The bytes of `binary.BigEndian.PutUint16` and `PutUint32`.
unfoldable pub be16 : ℕ → Bytes
be16 n = (n / 256) % 256 ∷ n % 256 ∷ []

unfoldable pub be32 : ℕ → Bytes
be32 n = (n / 16777216) % 256 ∷ (n / 65536) % 256 ∷ (n / 256) % 256 ∷ n % 256 ∷ []

-- `PutUint32` at a position with four bytes behind it.
unfoldable pub put_uint32 : Bytes → ℕ → ℕ → Bytes
unfolding be32
put_uint32 b at n = take at b ++ (be32 n ++ drop 4 (drop at b))

unfoldable pub start_message : WriteBuffer → ℕ → WriteBuffer
start_message wb c = record {
  bytes = wb.bytes ++ (if c == 0 then 0 ∷ 0 ∷ 0 ∷ 0 ∷ [] else c ∷ 0 ∷ 0 ∷ 0 ∷ 0 ∷ []);
  msg_start = if c == 0 then length wb.bytes else length wb.bytes + 1;
  param_start = wb.param_start;
}

unfoldable pub finish_message : WriteBuffer → WriteBuffer
unfolding put_uint32
finish_message wb = record {
  bytes = put_uint32 wb.bytes wb.msg_start ((length wb.bytes - wb.msg_start) % 2 ^ 32);
  msg_start = wb.msg_start;
  param_start = wb.param_start;
}

unfoldable pub start_param : WriteBuffer → WriteBuffer
start_param wb = record {
  bytes = wb.bytes ++ 0 ∷ 0 ∷ 0 ∷ 0 ∷ [];
  msg_start = wb.msg_start;
  param_start = length wb.bytes;
}

unfoldable pub finish_param : WriteBuffer → WriteBuffer
unfolding put_uint32
finish_param wb = record {
  bytes = put_uint32 wb.bytes wb.param_start ((length wb.bytes - wb.param_start - 4) % 2 ^ 32);
  msg_start = wb.msg_start;
  param_start = wb.param_start;
}

-- The length -1.
unfoldable pub finish_null_param : WriteBuffer → WriteBuffer
unfolding put_uint32
finish_null_param wb = record {
  bytes = put_uint32 wb.bytes wb.param_start (2 ^ 32 - 1);
  msg_start = wb.msg_start;
  param_start = wb.param_start;
}

-- `Write`
unfoldable pub write : WriteBuffer → Bytes → WriteBuffer
unfolding push
write wb s = push wb s

-- `WriteInt16(int16(num))` for a num that is not negative.
unfoldable pub write_int16 : WriteBuffer → ℕ → WriteBuffer
unfolding push be16
write_int16 wb num = push wb (be16 (num % 2 ^ 16))

-- `WriteInt32(int32(num))` for a num that is not negative.
unfoldable pub write_int32 : WriteBuffer → ℕ → WriteBuffer
unfolding push be32
write_int32 wb num = push wb (be32 (num % 2 ^ 32))

unfoldable pub write_string : WriteBuffer → Bytes → WriteBuffer
unfolding push
write_string wb s = push wb (s ++ 0 ∷ [])

unfoldable pub write_byte : WriteBuffer → ℕ → WriteBuffer
unfolding push
write_byte wb c = push wb (c ∷ [])
