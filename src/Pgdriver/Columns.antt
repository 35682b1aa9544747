-- ===== src/Pgdriver/Columns.antt =====
-- driver/pgdriver/column.go: the values of columns. Floats and times are what strconv and time make of
-- their text, which is given by the functions of `Parsers`.
use uptrace_bun.Prelude.{
  ℕ, zero, suc, ◌+◌, ◌-◌, ◌*◌, ◌^◌, Bool, true, false, ◌&&◌, ◌||◌, [], ◌∷◌, Option, none, some,
  Bytes, ltb, leb, ◌==◌, if◌then◌else◌, length, take, get_elem?, ok, err, ◌>>=◌,
}
use uptrace_bun.Strconv.{ℤ, pos, negsuc}
use uptrace_bun.Pgdriver.Reader.{bad_value, Reading, discard}
use uptrace_bun.Pgdriver.Replies.{parse_digits}

-- The layouts of `parseTime`.
pub data Layout : Type 0 where
  date_format time_format timestamp_format rfc3339_nano : Layout
  timestamptz_format timestamptz_format2 timestamptz_format3 : Layout

-- `strconv.ParseFloat` for the bit size, and `time.ParseInLocation` or `time.Parse` with the layout.
pub record Parsers (Float Time : Type 0) : Type 0 where
  pub parse_float : ℕ → Bytes → Option Float
  pub parse_layout : Layout → Bytes → Option Time

-- `zero_int` is the int that an empty number gives, `zero_time` the time of an empty one.
pub data ColumnValue (Float Time : Type 0) : Type 0 where
  null : ColumnValue Float Time
  bool_value : Bool → ColumnValue Float Time
  int_value : ℤ → ColumnValue Float Time
  zero_int : ColumnValue Float Time
  float_value : Float → ColumnValue Float Time
  string_value : Bytes → ColumnValue Float Time
  bytes_value : Bytes → ColumnValue Float Time
  time_value : Time → ColumnValue Float Time
  zero_time : ColumnValue Float Time

in_range_of : ℕ → Bool → ℕ → Option ℤ
in_range_of bits true zero = some (pos 0)
in_range_of bits true (suc n) = if ltb n (2 ^ (bits - 1)) then some (negsuc n) else none
in_range_of bits false n = if ltb n (2 ^ (bits - 1)) then some (pos n) else none

signed : ℕ → Bool → Option ℕ → Option ℤ
unfolding in_range_of
signed bits negative none = none
signed bits negative (some n) = in_range_of bits negative n

digits_of : Bytes → Option ℕ
unfolding parse_digits
digits_of [] = none
digits_of (c ∷ s) = parse_digits 0 (c ∷ s)

-- `strconv.ParseInt` in base ten for the bit size.
unfoldable pub parse_int : ℕ → Bytes → Option ℤ
unfolding signed digits_of
parse_int bits [] = none
parse_int bits (c ∷ s) =
    if c == b'-'
    then signed bits true (digits_of s)
    else if c == b'+'
    then signed bits false (digits_of s)
    else signed bits false (digits_of (c ∷ s))

hex_digit : ℕ → Option ℕ
hex_digit c =
    if leb b'0' c && leb c b'9'
    then some (c - b'0')
    else if leb b'a' c && leb c b'f'
    then some (c - b'a' + 10)
    else if leb b'A' c && leb c b'F'
    then some (c - b'A' + 10)
    else none

hex_pair : Option ℕ → Option ℕ → Option Bytes → Option Bytes
hex_pair (some a) (some b) (some s) = some ((a * 16 + b) ∷ s)
hex_pair _ _ _ = none

-- `hex.Decode`; `none` is an error.
unfoldable pub decode_hex : Bytes → Option Bytes
unfolding hex_digit hex_pair
decode_hex [] = some []
decode_hex (a ∷ []) = none
decode_hex (a ∷ b ∷ s) = hex_pair (hex_digit a) (hex_digit b) (decode_hex s)

bytea_body : Bytes → Option Bytes
unfolding decode_hex
bytea_body (a ∷ b ∷ s) = if a == b'\\' && b == b'x' then decode_hex s else none
bytea_body _ = none

-- The byte at the position, which is within the text.
byte_at : Bytes → ℕ → ℕ
byte_at s i = elim (get_elem? s i) [ some c ↦ c | none ↦ 0 ]

is_sign : ℕ → Bool
is_sign c = c == b'+' || c == b'-'

ends_with_zero_zone : Bytes → Bool
unfolding byte_at
ends_with_zero_zone s =
    byte_at s (length s - 3) == b'+'
    && byte_at s (length s - 2) == b'0'
    && byte_at s (length s - 1) == b'0'

-- The layout that `parseTime` chooses, and the text that it gives to it.
unfoldable pub time_layout : Bytes → Option (Layout × Bytes)
unfolding byte_at is_sign ends_with_zero_zone
time_layout s =
    if ltb (length s) 8
    then none
    else if leb (length s) 18
    then some (if byte_at s 2 == b':' then time_format else date_format, s)
    else if byte_at s 10 == b'T'
    then some (rfc3339_nano, s)
    else if is_sign (byte_at s (length s - 9))
    then some (timestamptz_format, s)
    else if is_sign (byte_at s (length s - 6))
    then some (timestamptz_format2, s)
    else if is_sign (byte_at s (length s - 3))
    then if ends_with_zero_zone s
      then some (timestamp_format, take (length s - 3) s)
      else some (timestamptz_format3, s)
    else some (timestamp_format, s)

-- A value, or the failure of its text.
or_bad : {A : Type 0} → Bytes → Option A → Bytes → Reading A
or_bad text none rd = err (bad_value text)
or_bad text (some a) rd = ok (a, rd)

-- Whether `n <= 0`.
unfoldable pub not_positive : ℤ → Bool
not_positive (pos zero) = true
not_positive (pos (suc n)) = false
not_positive (negsuc n) = true

is_true_text : Bytes → Bool
is_true_text (c ∷ []) = c == b't' || c == b'1'
is_true_text _ = false

module _ {Float Time : Type 0} (parsers : Parsers Float Time) where
  -- `parseTime`
  unfoldable pub parse_time : Bytes → Option Time
  unfolding time_layout
  parse_time s = elim (time_layout s) [ some l ↦ parsers.parse_layout l.0 l.1 | none ↦ none ]

  unfoldable pub read_bool_col : ℤ → Bytes → Reading (ColumnValue Float Time)
  unfolding discard is_true_text
  read_bool_col n rd = discard n rd >>= λ tmp. ok (bool_value (is_true_text tmp.0), tmp.1)

  unfoldable pub read_int_col : ℕ → ℤ → Bytes → Reading (ColumnValue Float Time)
  unfolding not_positive discard parse_int or_bad
  read_int_col bits n rd =
      if not_positive n
      then ok (zero_int, rd)
      else (discard n rd >>= λ tmp.
          or_bad tmp.0 (parse_int bits tmp.0) tmp.1 >>= λ v. ok (int_value v.0, v.1))

  unfoldable pub read_float_col : ℕ → ℤ → Bytes → Reading (ColumnValue Float Time)
  unfolding not_positive discard or_bad
  read_float_col bits n rd =
      if not_positive n
      then ok (zero_int, rd)
      else (discard n rd >>= λ tmp.
          or_bad tmp.0 (parsers.parse_float bits tmp.0) tmp.1 >>= λ v. ok (float_value v.0, v.1))

  unfoldable pub read_string_col : ℤ → Bytes → Reading (ColumnValue Float Time)
  unfolding not_positive discard
  read_string_col n rd =
      if not_positive n
      then ok (string_value [], rd)
      else (discard n rd >>= λ b. ok (string_value b.0, b.1))

  unfoldable pub read_bytes_col : ℤ → Bytes → Reading (ColumnValue Float Time)
  unfolding not_positive discard bytea_body or_bad
  read_bytes_col n rd =
      if not_positive n
      then ok (bytes_value [], rd)
      else (discard n rd >>= λ tmp.
          or_bad tmp.0 (bytea_body tmp.0) tmp.1 >>= λ v. ok (bytes_value v.0, v.1))

  unfoldable pub read_time_col : ℤ → Bytes → Reading (ColumnValue Float Time)
  unfolding not_positive discard parse_time or_bad
  read_time_col n rd =
      if not_positive n
      then ok (zero_time, rd)
      else (discard n rd >>= λ tmp.
          or_bad tmp.0 (parse_time tmp.0) tmp.1 >>= λ v. ok (time_value v.0, v.1))

  -- The switch on the type; a type without a case gives its bytes.
  unfoldable pub read_typed : ℕ → ℤ → Bytes → Reading (ColumnValue Float Time)
  unfolding read_bool_col read_int_col read_float_col read_time_col read_string_col read_bytes_col
      discard
  read_typed data_type n rd =
      if data_type == 16
      then read_bool_col n rd
      else if data_type == 21
      then read_int_col 16 n rd
      else if data_type == 23
      then read_int_col 32 n rd
      else if data_type == 20
      then read_int_col 64 n rd
      else if data_type == 700
      then read_float_col 32 n rd
      else if data_type == 701
      then read_float_col 64 n rd
      else if data_type == 1114 || data_type == 1184 || data_type == 1082
      then read_time_col n rd
      else if data_type == 25 || data_type == 1043
      then read_string_col n rd
      else if data_type == 17
      then read_bytes_col n rd
      else (discard n rd >>= λ b. ok (bytes_value b.0, b.1))

  type_number : ℤ → ℕ
  type_number (pos n) = n
  type_number (negsuc n) = 0

  -- `readColumnValue`
  unfoldable pub read_column_value : ℤ → ℤ → Bytes → Reading (ColumnValue Float Time)
  unfolding read_typed type_number
  read_column_value data_type (negsuc zero) rd = ok (null, rd)
  read_column_value data_type (pos n) rd = read_typed (type_number data_type) (pos n) rd
  read_column_value data_type (negsuc (suc n)) rd =
      read_typed (type_number data_type) (negsuc (suc n)) rd
