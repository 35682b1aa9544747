-- ===== src/Pgdialect/ArrayParser.antt =====
-- dialect/pgdialect/array_parser.go, and `decodeStringSlice` of array_scan.go. The state is `rest`,
-- the bytes `p.b[p.i:]`; `unreadByte` follows a `readByte` and puts its byte back.
use uptrace_bun.Prelude.{
  ℕ, zero, suc, Bool, true, false, not, ◌||◌, List, [], ◌∷◌, ◌++◌, Option, none, some, Bytes, codes,
  ltb, ◌==◌, if◌then◌else◌, equal, length, take, drop, Result, ok, err, ◌>>=◌,
}
use uptrace_bun.Parser.{index_byte}

-- `eof` is io.EOF, `malformed` is "can't parse array"; `no_fuel` is the model's own.
pub data ArrayError : Type 0 where
  eof malformed no_fuel : ArrayError

pub record ArrayParser : Type 0 where
  pub rest : Bytes
  pub buf : Bytes
  pub failed : Bool

unfoldable pub ends_with : ℕ → Bytes → Bool
ends_with c [] = false
ends_with c (x ∷ []) = x == c
ends_with c (_ ∷ y ∷ s) = ends_with c (y ∷ s)

starts_with : ℕ → Bytes → Bool
starts_with c [] = false
starts_with c (x ∷ s) = x == c

unfoldable pub new_array_parser : Bytes → ArrayParser
unfolding ends_with starts_with
new_array_parser b = record {
  rest = drop 1 b;
  buf = [];
  failed = ltb (length b) 2 || not (starts_with b'{' b) || not (ends_with b'}' b);
}

unfoldable pub read_byte : ArrayParser → Result ArrayError (ℕ × ArrayParser)
read_byte p = elim (p.rest) [ [] ↦ err eof | c ∷ s ↦ ok (c, record p { rest = s }) ]

unfoldable pub unread_byte : ℕ → ArrayParser → ArrayParser
unread_byte c p = record p { rest = c ∷ p.rest }

unfoldable pub peek : ArrayParser → ℕ
peek p = elim (p.rest) [ [] ↦ 0 | c ∷ _ ↦ c ]

unfoldable pub skip_next : ArrayParser → ArrayParser
skip_next p = record p { rest = drop 1 p.rest }

skip_comma : ArrayParser → ArrayParser
unfolding peek skip_next
skip_comma p = if peek p == b',' then skip_next p else p

-- `p.b[p.i : len(p.b)-1]`
init : Bytes → Bytes
init [] = []
init (_ ∷ []) = []
init (x ∷ y ∷ s) = x ∷ init (y ∷ s)

last_byte : Bytes → Bytes
last_byte [] = []
last_byte (x ∷ []) = x ∷ []
last_byte (_ ∷ y ∷ s) = last_byte (y ∷ s)

-- `readSimple` behind the byte `c`.
unfoldable pub read_simple : ℕ → ArrayParser → Bytes × ArrayParser
unfolding unread_byte index_byte init last_byte
read_simple c p =
    let q = unread_byte c p in
    elim (index_byte b',' q.rest) [
      | some i ↦ (take i q.rest, record q { rest = drop i q.rest })
      | none ↦ (init q.rest, record q { rest = last_byte q.rest })
    ]

abbrev push : ArrayParser → ℕ → ArrayParser
push p c = record p { buf = p.buf ++ c ∷ [] }

-- The loop of `readSubstring`, with the byte `c` read ahead.
unfoldable pub read_substring_loop : ℕ → ℕ → ArrayParser → Result ArrayError ArrayParser
unfolding read_byte
read_substring_loop zero c p = err no_fuel
read_substring_loop (suc fuel) c p = elim (c == b'"') [
  | true ↦ ok p
  | false ↦ do
    (next, p') ← read_byte p
    elim (c == b'\\') [
      | false ↦ read_substring_loop fuel next (push p' c)
      | true ↦ elim (next == b'\\' || next == b'"') [
        | false ↦ read_substring_loop fuel next (push p' b'\\')
        | true ↦ do (c', q) ← read_byte (push p' next); read_substring_loop fuel c' q
      ]
    ]
]

unfoldable pub read_substring : ArrayParser → Result ArrayError (Bytes × ArrayParser)
unfolding read_substring_loop
read_substring p = do
  (c, p') ← read_byte p
  q ← read_substring_loop (suc (length p'.rest)) c (record p' { buf = [] })
  ok (q.buf, q)

-- An element; `none` is NULL.
unfoldable pub next_elem : ArrayParser → Result ArrayError (Option Bytes × ArrayParser)
unfolding read_byte read_substring skip_comma read_simple equal
next_elem p = elim (p.failed) [
  | true ↦ err malformed
  | false ↦ do
    (c, p') ← read_byte p
    elim (c == b'}') [
      | true ↦ err eof
      | false ↦ elim (c == b'"') [
        | true ↦ do (b, q) ← read_substring p'; ok (some b, skip_comma q)
        | false ↦
            let (b, q) = read_simple c p' in
            ok (if equal b (codes "NULL") then none else some b, skip_comma q)
      ]
    ]
]

-- The loop of `decodeStringSlice`: io.EOF ends it, and NULL is the empty string.
unfoldable pub decode_string_loop : ℕ → List Bytes → ArrayParser → Result ArrayError (List Bytes)
decode_string_loop zero slice p = err no_fuel
decode_string_loop (suc fuel) slice p = elim (next_elem p) [
  | err e ↦ elim e [ eof ↦ ok slice | malformed ↦ err malformed | no_fuel ↦ err no_fuel ]
  | ok (elem, q) ↦ decode_string_loop fuel (slice ++ elim elem [ none ↦ [] | some b ↦ b ] ∷ []) q
]

unfoldable pub decode_string_slice : Bytes → Result ArrayError (List Bytes)
unfolding decode_string_loop next_elem new_array_parser
decode_string_slice b = decode_string_loop (suc (length b)) [] (new_array_parser b)
