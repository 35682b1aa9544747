-- ===== src/Pgdriver/Rows.antt =====
-- The rows of driver/pgdriver/driver.go: Columns, Next, Close and readDataRow, over the bytes that the
-- server sends. The pool of row descriptions is left out; io.EOF and io.ErrUnexpectedEOF of a failed
-- read are both `eof`. A nil description, or one of too few types, is `slice_bounds_panic`.
pub mod Close
use uptrace_bun.Prelude.{
  ℕ, zero, suc, Bool, true, false, List, [], ◌∷◌, Option, none, some, Bytes, ◌==◌, if◌then◌else◌,
  length, get_elem?, Result, ok, err, ◌>>=◌,
}
use uptrace_bun.Strconv.{ℤ, pos, negsuc}
use uptrace_bun.Pgdriver.Reader.{
  Failure, eof, slice_bounds_panic, unexpected, wrong_columns, Reading, discard, read_int16,
  read_int32, read_error,
}
use uptrace_bun.Pgdriver.Replies.{Turn, continue, stop, fail, proceed, receive}
use uptrace_bun.Pgdriver.Loops.{RowDescription, Rows, closed, opened, pass_over}
use uptrace_bun.Pgdriver.Columns.{Parsers, ColumnValue, read_column_value}

-- `Columns`
unfoldable pub columns : Rows → List Bytes
columns closed = []
columns (opened none reusable) = []
columns (opened (some d) reusable) = d.names

unfoldable pub type_at : Option RowDescription → ℕ → Bytes → Reading ℤ
type_at none i rd = err slice_bounds_panic
type_at (some d) i rd = elim (get_elem? d.types i) [
  | some t ↦ ok (t, rd)
  | none ↦ err slice_bounds_panic
]

-- `len(dest) != int(numCol)`
unfoldable pub same_count : ℤ → ℕ → Bool
same_count (pos n) k = n == k
same_count (negsuc n) k = false

-- How a turn of `next` ends: with a row, or at ReadyForQuery with the first error.
pub data Found (Float Time : Type 0) : Type 0 where
  row_found : List (ColumnValue Float Time) → Found Float Time
  at_end : Option Failure → Found Float Time

-- `nil` with a row, or io.EOF.
pub data Next (Float Time : Type 0) : Type 0 where
  got : List (ColumnValue Float Time) → Next Float Time
  end_of_rows : Next Float Time

module _ {Float Time : Type 0} (parsers : Parsers Float Time) where
  -- The loop over the columns from the position `i` on.
  unfoldable pub read_cells :
      Option RowDescription → ℕ → ℕ → Bytes → Reading (List (ColumnValue Float Time))
  unfolding read_int32 type_at read_column_value
  read_cells desc i zero rd = ok ([], rd)
  read_cells desc i (suc n) rd = do
    len ← read_int32 rd
    data_type ← type_at desc i len.1
    value ← read_column_value parsers data_type.0 len.0 data_type.1
    rest ← read_cells desc (suc i) n value.1
    ok (value.0 ∷ rest.0, rest.1)

  -- `readDataRow` for as many values as `dest` has.
  unfoldable pub read_data_row :
      Option RowDescription → ℕ → Bytes → Reading (List (ColumnValue Float Time))
  unfolding read_int16 same_count read_cells
  read_data_row desc n rd = read_int16 rd >>= λ num.
      if same_count num.0 n then read_cells desc 0 n num.1 else err (wrong_columns num.0 n)

  -- The switch of `next`; the variable of the loop is `firstErr`.
  unfoldable pub on_next :
      Option RowDescription
      → ℕ
      → ℕ
      → ℤ
      → Option Failure
      → Bytes
      → Turn (Option Failure) (Found Float Time)
  unfolding read_data_row pass_over discard read_error
  on_next desc n c len first_err rd =
      if c == b'D'
      then proceed (read_data_row desc n rd) (λ vs rd'. stop (row_found vs) rd')
      else if c == b'C'
      then pass_over len first_err rd
      else if c == b'Z'
      then proceed (discard len rd) (λ _ rd'. stop (at_end first_err) rd')
      else if c == b'E'
      then proceed (read_error rd)
          (λ e rd'. continue (elim first_err [ some x ↦ some x | none ↦ some e ]) rd')
      else fail (unexpected c)

  -- What `Next` makes of the loop: the rows are closed at ReadyForQuery.
  unfoldable pub end_next :
      Rows
      → Result Failure (Found Float Time × Bytes)
      → Result Failure (Next Float Time × Bytes) × Rows
  end_next rows (err e) = (err e, rows)
  end_next rows (ok (row_found vs, rd)) = (ok (got vs, rd), rows)
  end_next rows (ok (at_end none, rd)) = (ok (end_of_rows, rd), closed)
  end_next rows (ok (at_end (some e), rd)) = (err e, closed)

  unfoldable pub finish_next :
      Rows
      → Option (Result Failure (Found Float Time × Bytes))
      → Option (Result Failure (Next Float Time × Bytes) × Rows)
  unfolding end_next
  finish_next rows none = none
  finish_next rows (some r) = some (end_next rows r)

  -- `Next` for so many values: the result and the rows. `none` is a loop that has run out of fuel,
  -- which is more rounds than there are bytes.
  unfoldable pub next_row :
      Rows → ℕ → Bytes → Option (Result Failure (Next Float Time × Bytes) × Rows)
  unfolding receive on_next finish_next
  next_row closed n rd = some (ok (end_of_rows, rd), closed)
  next_row (opened desc reusable) n rd =
      finish_next (opened desc reusable) (receive (on_next desc n) (suc (length rd)) none rd)

  -- What `Close` returns, by what `Next(nil)` does: whether it closes the connection, and the error.
  unfoldable pub close_after :
      Result Failure (Next Float Time × Bytes) × Rows → Bool × Option Failure
  close_after (ok r, rows) = (false, none)
  close_after (err e, rows) = (true, some e)

  unfoldable pub finish_close :
      Option (Result Failure (Next Float Time × Bytes) × Rows) → Option (Bool × Option Failure)
  unfolding close_after
  finish_close none = none
  finish_close (some r) = some (close_after r)

  -- `Close`; the rows are closed behind it.
  unfoldable pub close_rows : Rows → Bytes → Option (Bool × Option Failure)
  unfolding next_row finish_close
  close_rows closed rd = some (false, none)
  close_rows (opened desc reusable) rd = finish_close (next_row (opened desc reusable) 0 rd)
