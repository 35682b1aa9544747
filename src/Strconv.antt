-- ===== src/Strconv.antt =====
-- Integers as Go writes them: `strconv.AppendInt` and `strconv.AppendUint` in base ten, and the
-- conversion of a uint64 to int64.
use uptrace_bun.Prelude.{
  ℕ, zero, suc, ◌+◌, ◌-◌, ◌/◌, ◌%◌, ◌^◌, [], ◌∷◌, ◌++◌, Bytes, ltb, true, false,
}

-- `negsuc n` is -(n + 1).
pub data ℤ : Type 0 where
  pos : ℕ → ℤ
  negsuc : ℕ → ℤ

-- The digits of `n` in front of `out`; the fuel is at least the number of digits.
digits : ℕ → ℕ → Bytes → Bytes
digits zero n out = out
digits (suc fuel) n out = elim (ltb n 10) [
  | true ↦ (b'0' + n) ∷ out
  | false ↦ digits fuel (n / 10) ((b'0' + n % 10) ∷ out)
]

-- A number has no more digits than its successor.
unfoldable pub append_uint : Bytes → ℕ → Bytes
unfolding digits
append_uint b n = b ++ digits (suc n) n []

unfoldable pub append_int : Bytes → ℤ → Bytes
unfolding append_uint
append_int b (pos n) = append_uint b n
append_int b (negsuc n) = append_uint (b ++ b'-' ∷ []) (suc n)

-- `int64(v)` for a uint64 `v`.
unfoldable pub int64_of_uint64 : ℕ → ℤ
int64_of_uint64 v = elim (ltb v (2 ^ 63)) [ true ↦ pos v | false ↦ negsuc (2 ^ 64 - 1 - v) ]

-- `int32(n)` for an int `n`.
unfoldable pub int32_of_int : ℤ → ℤ
int32_of_int (pos n) = elim (ltb (n % 2 ^ 32) (2 ^ 31)) [
  | true ↦ pos (n % 2 ^ 32)
  | false ↦ negsuc (2 ^ 32 - 1 - n % 2 ^ 32)
]
int32_of_int (negsuc n) = elim (ltb (n % 2 ^ 32) (2 ^ 31)) [
  | true ↦ negsuc (n % 2 ^ 32)
  | false ↦ pos (2 ^ 32 - 1 - n % 2 ^ 32)
]
