-- ===== src/Pgdriver/Loops.antt =====
-- The replies to queries in driver/pgdriver/proto.go: readQuery, readQueryData, readExtQuery,
-- readExtQuery, readExtQueryData, readParseDescribeSync, readCloseStmtComplete, readNotification and
-- readRowDescription. A loop is given more rounds than there are bytes. The pool of row descriptions
-- is empty.
use uptrace_bun.Prelude.{
  ℕ, zero, suc, ◌||◌, List, [], ◌∷◌, Option, none, some, Bytes, Bool, true, false, ◌==◌,
  if◌then◌else◌, length, Result, ok, err, ◌>>=◌,
}
use uptrace_bun.Strconv.{ℤ, pos, negsuc}
use uptrace_bun.Pgdriver.Reader.{
  Failure, slice_bounds_panic, unexpected, empty_query, Reading, read_temp, discard, read_int16,
  read_int32, read_string, read_error,
}
use uptrace_bun.Pgdriver.Replies.{
  Turn, continue, stop, fail, proceed, receive, Pending, nothing, keep_first, parse_result,
}

pub record RowDescription : Type 0 where
  pub names : List Bytes
  pub types : List ℤ
  pub num_input : ℤ

-- `rows`: none open, or those that follow with a description.
pub data Rows : Type 0 where
  closed : Rows
  opened : Option RowDescription → Bool → Rows

-- The columns: name, six bytes, type, eight bytes.
unfoldable pub read_columns : ℕ → Bytes → Reading (List (Bytes × ℤ))
unfolding read_string read_temp read_int32
read_columns zero rd = ok ([], rd)
read_columns (suc n) rd = do
  name ← read_string rd
  six ← read_temp 6 (name.1)
  data_type ← read_int32 (six.1)
  eight ← read_temp 8 (data_type.1)
  rest ← read_columns n (eight.1)
  ok ((name.0, data_type.0) ∷ rest.0, rest.1)

names_of : List (Bytes × ℤ) → List Bytes
names_of [] = []
names_of (c ∷ cs) = c.0 ∷ names_of cs

types_of : List (Bytes × ℤ) → List ℤ
types_of [] = []
types_of (c ∷ cs) = c.1 ∷ types_of cs

-- The rounds of `for i := 0; i < int(n); i++`.
unfoldable pub rounds : ℤ → ℕ
rounds (pos n) = n
rounds (negsuc n) = 0

-- `readRowDescription`
unfoldable pub read_row_description : Bytes → Reading RowDescription
unfolding read_int16 rounds read_columns names_of types_of
read_row_description rd = do
  n ← read_int16 rd
  cs ← read_columns (rounds (n.0)) (n.1)
  ok (record { names = names_of (cs.0); types = types_of (cs.0); num_input = negsuc 0 }, cs.1)

-- A message whose payload does not matter.
unfoldable pub pass_over : {S R : Type 0} → ℤ → S → Bytes → Turn S R
unfolding discard
pass_over len s rd = proceed (discard len rd) (λ _ rd'. continue s rd')

-- An ErrorResponse: the first one is kept.
unfoldable pub note_error : {A R : Type 0} → Pending A → Bytes → Turn (Pending A) R
unfolding keep_first read_error
note_error s rd = proceed (read_error rd) (λ e rd'. continue (keep_first e s) rd')

-- Another result of the command.
unfoldable pub with_res : {A : Type 0} → A → Pending A → Pending A
with_res a s = record { res = some a; first_err = s.first_err }

-- An error that replaces the first one.
unfoldable pub with_err : {A : Type 0} → Failure → Pending A → Pending A
with_err e s = record { res = s.res; first_err = some e }

-- The end of a loop: the result, or the first error.
unfoldable pub end_loop : {A R : Type 0} → R → Pending A → Bytes → Turn (Pending A) R
end_loop r s rd = elim (s.first_err) [ some e ↦ fail e | none ↦ stop r rd ]

-- What becomes of the number of rows; `parseResult` fails only by a panic.
unfoldable pub complete_parsed :
    {R : Type 0} → Pending ℤ → Bytes → Result Failure ℤ → Turn (Pending ℤ) R
unfolding with_res
complete_parsed s rd (err e) = fail e
complete_parsed s rd (ok n) = continue (with_res n s) rd

-- The CommandComplete of `readQuery`: a read that fails has read all there is.
unfoldable pub complete_query : {R : Type 0} → Pending ℤ → Reading Bytes → Turn (Pending ℤ) R
unfolding with_err complete_parsed parse_result
complete_query s (err slice_bounds_panic) = fail slice_bounds_panic
complete_query s (err e) = continue (with_err e s) []
complete_query s (ok tag) = complete_parsed s (tag.1) (parse_result (tag.0))

-- The switch of `readQuery`, which returns `res` and `firstErr`.
unfoldable pub on_query : ℕ → ℤ → Pending ℤ → Bytes → Turn (Pending ℤ) (Pending ℤ)
unfolding note_error keep_first complete_query discard pass_over
on_query c len s rd =
    if c == b'E'
    then note_error s rd
    else if c == b'I'
    then continue (keep_first empty_query s) rd
    else if c == b'C'
    then complete_query s (discard len rd)
    else if c == b'D' || c == b'T' || c == b'N' || c == b'S'
    then pass_over len s rd
    else if c == b'Z'
    then proceed (discard len rd) (λ _ rd'. stop s rd')
    else fail (unexpected c)

unfoldable pub read_query : Bytes → Option (Result Failure (Pending ℤ × Bytes))
unfolding receive on_query
read_query rd = receive on_query (suc (length rd)) nothing rd

-- The switch of `readQueryData`.
unfoldable pub on_query_data : ℕ → ℤ → Pending Rows → Bytes → Turn (Pending Rows) Rows
unfolding note_error keep_first read_row_description pass_over discard end_loop
on_query_data c len s rd =
    if c == b'T'
    then proceed (read_row_description rd) (λ d rd'. stop (opened (some d) true) rd')
    else if c == b'C'
    then pass_over len s rd
    else if c == b'Z'
    then proceed (discard len rd) (λ _ rd'. end_loop closed s rd')
    else if c == b'E'
    then note_error s rd
    else if c == b'I'
    then continue (keep_first empty_query s) rd
    else if c == b'N' || c == b'S'
    then pass_over len s rd
    else fail (unexpected c)

unfoldable pub read_query_data : Bytes → Option (Result Failure (Rows × Bytes))
unfolding receive on_query_data
read_query_data rd = receive on_query_data (suc (length rd)) nothing rd

-- The switch of `readExtQuery`.
unfoldable pub on_ext_query : ℕ → ℤ → Pending ℤ → Bytes → Turn (Pending ℤ) (Option ℤ)
unfolding note_error keep_first discard pass_over complete_parsed parse_result end_loop
on_ext_query c len s rd =
    if c == b'2' || c == b'D'
    then pass_over len s rd
    else if c == b'C'
    then proceed (discard len rd) (λ tag rd'. complete_parsed s rd' (parse_result tag))
    else if c == b'Z'
    then proceed (discard len rd) (λ _ rd'. end_loop (s.res) s rd')
    else if c == b'E'
    then note_error s rd
    else if c == b'I'
    then continue (keep_first empty_query s) rd
    else if c == b'N' || c == b'S'
    then pass_over len s rd
    else fail (unexpected c)

unfoldable pub read_ext_query : Bytes → Option (Result Failure (Option ℤ × Bytes))
unfolding receive on_ext_query
read_ext_query rd = receive on_ext_query (suc (length rd)) nothing rd

-- The switch of `readExtQueryData`, for the description of the statement.
unfoldable pub on_ext_query_data :
    Option RowDescription → ℕ → ℤ → Pending Rows → Bytes → Turn (Pending Rows) Rows
unfolding note_error keep_first discard pass_over end_loop
on_ext_query_data row_desc c len s rd =
    if c == b'2'
    then proceed (discard len rd) (λ _ rd'. stop (opened row_desc false) rd')
    else if c == b'C'
    then pass_over len s rd
    else if c == b'Z'
    then proceed (discard len rd) (λ _ rd'. end_loop closed s rd')
    else if c == b'E'
    then note_error s rd
    else if c == b'I'
    then continue (keep_first empty_query s) rd
    else if c == b'N' || c == b'S'
    then pass_over len s rd
    else fail (unexpected c)

unfoldable pub read_ext_query_data :
    Option RowDescription → Bytes → Option (Result Failure (Rows × Bytes))
unfolding receive on_ext_query_data
read_ext_query_data row_desc rd = receive (on_ext_query_data row_desc) (suc (length rd)) nothing rd
