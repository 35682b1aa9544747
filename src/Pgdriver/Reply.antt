-- ===== src/Pgdriver/Reply.antt =====
-- The messages of a reply as the protocol has them, for the reads of driver/pgdriver/proto.go.
pub mod Tags
use uptrace_bun.Prelude.{
  ℕ, ◌+◌, ◌-◌, ◌*◌, ◌^◌, ◌<◌, ◌≤◌, ◌≢◌, List, [], ◌∷◌, ◌++◌, Bytes, length, Option, none, some, All,
}
use uptrace_bun.Pgdriver.Reader.{Failure, server, empty_query, buffer_size}
use uptrace_bun.Strconv.{ℤ, pos}
use uptrace_bun.Parser.Laws.{Lacks}
use uptrace_bun.Pgdriver.Messages.Frames.{frame}

-- The messages that `readQuery` passes over.
pub data Passed : Type 0 where
  data_row : Passed
  row_description : Passed
  notice : Passed
  parameter_status : Passed

-- A message of a reply: an error with its fields, an empty query, the end of a command with its tag
-- and the number of rows in it, or one that is passed over.
pub data Reply : Type 0 where
  failure : List (ℕ × Bytes) → Reply
  empty : Reply
  complete : Bytes → ℤ → Reply
  passed : Passed → Bytes → Reply

unfoldable pub type_of : Passed → ℕ
type_of data_row = b'D'
type_of row_description = b'T'
type_of notice = b'N'
type_of parameter_status = b'S'

unfoldable pub fields_text : List (ℕ × Bytes) → Bytes
fields_text [] = 0 ∷ []
fields_text (f ∷ fs) = f.0 ∷ ((f.1 ++ 0 ∷ []) ++ fields_text fs)

unfoldable pub type_and_payload : Reply → ℕ × Bytes
unfolding type_of fields_text
type_and_payload (failure fs) = (b'E', fields_text fs)
type_and_payload empty = (b'I', [])
type_and_payload (complete tag n) = (b'C', tag)
type_and_payload (passed k payload) = (type_of k, payload)

-- The bytes of the messages, with others behind.
unfoldable pub sent : List Reply → Bytes → Bytes
sent [] rest = rest
sent (r ∷ rs) rest = frame ((type_and_payload r).0) ((type_and_payload r).1) ++ sent rs rest

-- The payload has a length that the protocol can tell.
abbrev pub IsShort : Bytes → Type 0
IsShort payload = length payload + 4 < 2 ^ 31

-- The number that decimal digits are written for.
unfoldable pub decimal_value : Bytes → ℕ
decimal_value [] = 0
decimal_value (d ∷ ds) = (d - b'0') * 10 ^ length ds + decimal_value ds

abbrev pub IsDigit : ℕ → Type 0
IsDigit c = (b'0' ≤ c) × (c ≤ b'9')

-- A tag of a command that ends with a NUL, and the number of rows in it: behind the last space it has
-- the number in decimal, which is an int64, or a word, or it is one word.
pub data IsTag : Bytes → ℤ → Type 0 where
  rows :
      (words digits : Bytes) (d : ℕ)
      → All IsDigit (d ∷ digits)
      → decimal_value (d ∷ digits) < 2 ^ 63
      → IsTag (words ++ b' ' ∷ ((d ∷ digits) ++ 0 ∷ [])) (pos (decimal_value (d ∷ digits)))
  ends_in_word :
      (words word : Bytes) (c : ℕ)
      → b'9' < c
      → Lacks b' ' word
      → IsTag (words ++ b' ' ∷ ((c ∷ word) ++ 0 ∷ [])) (pos 0)
  one_word : (word : Bytes) → Lacks b' ' word → IsTag (word ++ 0 ∷ []) (pos 0)

-- A field of an error: its value has no NUL and fits into the buffer of the reader with one behind.
abbrev pub IsField : ℕ × Bytes → Type 0
IsField f = (f.0 ≢ 0) × All (λ c. c ≢ 0) (f.1) × (length (f.1) < buffer_size)

-- What makes a message well formed.
abbrev pub IsReply : Reply → Type 0
IsReply (failure fs) = All IsField fs
IsReply empty = Unit
IsReply (complete tag n) = IsTag tag n
IsReply (passed k payload) = Unit

-- The errors of a reply, and the numbers of rows.
unfoldable pub errors : List Reply → List Failure
errors [] = []
errors (failure fs ∷ rs) = server fs ∷ errors rs
errors (empty ∷ rs) = empty_query ∷ errors rs
errors (complete tag n ∷ rs) = errors rs
errors (passed k payload ∷ rs) = errors rs

unfoldable pub counts : List Reply → List ℤ
counts [] = []
counts (complete tag n ∷ rs) = n ∷ counts rs
counts (failure fs ∷ rs) = counts rs
counts (empty ∷ rs) = counts rs
counts (passed k payload ∷ rs) = counts rs

unfoldable pub first_or : {A : Type 0} → Option A → List A → Option A
first_or (some x) xs = some x
first_or none [] = none
first_or none (x ∷ xs) = some x

unfoldable pub last_or : {A : Type 0} → Option A → List A → Option A
last_or o [] = o
last_or o (x ∷ xs) = last_or (some x) xs
