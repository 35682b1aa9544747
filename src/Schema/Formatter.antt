-- ===== src/Schema/Formatter.antt =====
-- schema/formatter.go: placeholders in a query are replaced by arguments.
pub mod Renders
pub mod Laws
pub mod Panics
use uptrace_bun.Prelude.{
  ℕ, zero, suc, ◌+◌, Bool, true, false, ◌&&◌, ◌||◌, List, [], ◌∷◌, ◌++◌, Option, none, some, Bytes,
  codes, ◌==◌, if◌then◌else◌, equal, length, take, drop, get_elem?, Result, ok, err, ◌>>=◌,
}
use uptrace_bun.Parser
use uptrace_bun.Parser.{Parser, valid, read_sep, read_identifier, index_byte, atoi, is_empty}
use uptrace_bun.Dialect.Append.{append_error}
use uptrace_bun.Dialect.Ident.{append_ident as dialect_append_ident}
use uptrace_bun.Schema.Dialects.{Name, is_invalid, ident_quote}
use uptrace_bun.Schema.Value.{
  NamedArgAppender, QueryAppender, Value, query_appender, Arg, append_query_appender, append_value,
}

pub record NamedArg : Type 0 where
  pub name : Bytes
  pub value : Arg

-- `namedArgs.Get`
unfoldable pub get_named : List NamedArg → Bytes → Option Arg
unfolding equal
get_named [] name = none
get_named (arg ∷ args) name = if equal arg.name name then some arg.value else get_named args name

-- Nil named arguments are the empty list: `WithArg` leaves at least one.
pub record Formatter : Type 0 where
  pub dialect : Name
  pub model : Option NamedArgAppender
  pub named_args : List NamedArg

unfoldable pub new_formatter : Name → Formatter
new_formatter d = record { dialect = d; model = none; named_args = [] }

unfoldable pub is_nop : Formatter → Bool
unfolding is_invalid
is_nop f = is_invalid f.dialect

unfoldable pub append_ident : Formatter → Bytes → Bytes → Bytes
append_ident f b ident = dialect_append_ident b ident (ident_quote f.dialect)

unfoldable pub with_model : Formatter → NamedArgAppender → Formatter
with_model f m = record f { model = some m }

unfoldable pub with_arg : Formatter → Bytes → Arg → Formatter
with_arg f name value = record f {
  named_args = f.named_args ++ (record { name = name; value = value }) ∷ [];
}

is_none {ℓ} : {A : Type ℓ} → Option A → Bool
is_none none = true
is_none (some _) = false

is_nil : List NamedArg → Bool
is_nil [] = true
is_nil (_ ∷ _) = false

unfoldable pub has_no_args : Formatter → Bool
unfolding is_none is_nil
has_no_args f = is_nil f.named_args && is_none f.model

unfoldable pub append_arg : Formatter → Bytes → Arg → Bytes
unfolding append_value
append_arg f b arg = append_value f.dialect b arg.value

-- The variable `namedArgs` of `append`. `nil_struct` is the nil pointer that `newStructArgs` returns
-- for an argument that is no struct: the interface around it is not nil, and its method panics.
pub data Lookup : Type 0 where
  nobody : Lookup
  asks : NamedArgAppender → Lookup
  nil_struct : Lookup

unfoldable pub lookup_of : Option NamedArgAppender → Lookup
lookup_of none = nil_struct
lookup_of (some m) = asks m

-- What `append` looks names up in: the only argument.
unfoldable pub sole_named_args : List Arg → Lookup
unfolding lookup_of
sole_named_args (arg ∷ []) = lookup_of arg.named_args
sole_named_args _ = nobody

-- The panic of a method on a nil pointer.
pub data Panic : Type 0 where
  nil_pointer : Panic

-- The label `restore_arg`.
unfoldable pub restore_arg : Bytes → Bytes → Bytes
restore_arg dst name = dst ++ b'?' ∷ name

unfoldable pub append_indexed : Formatter → List Arg → Bytes → Bytes → Bytes
unfolding restore_arg
append_indexed f args dst name = elim (atoi name) [
  | none ↦ restore_arg dst name
  | some idx ↦ elim (get_elem? args idx) [
    | none ↦ restore_arg dst name
    | some arg ↦ append_arg f dst arg
  ]
]

-- A lookup that may fail, and what follows if it does.
unfoldable pub try_named : Option NamedArgAppender → Bytes → Bytes → (Bytes → Bytes) → Bytes
try_named none dst name rest = rest dst
try_named (some m) dst name rest = if (m dst name).1 then (m dst name).0 else rest (m dst name).0

-- A name that `f.namedArgs` lacks.
unfoldable pub append_other : Formatter → Lookup → Bytes → Bytes → Result Panic Bytes
unfolding try_named restore_arg
append_other f nobody dst name = ok (try_named f.model dst name λ dst'. restore_arg dst' name)
append_other f (asks m) dst name = ok (
    try_named (some m) dst name λ dst'. try_named f.model dst' name λ dst''. restore_arg dst'' name)
append_other f nil_struct dst name = err nil_pointer

unfoldable pub append_named : Formatter → Lookup → Bytes → Bytes → Result Panic Bytes
unfolding get_named append_other
append_named f named dst name = elim (get_named f.named_args name) [
  | some value ↦ ok (append_arg f dst value)
  | none ↦ append_other f named dst name
]

-- The text so far, the parser and `argIndex`.
pub record State : Type 0 where
  pub dst : Bytes
  pub parser : Parser
  pub arg_index : ℕ

unfoldable pub append_positional : Formatter → List Arg → Bytes → Parser → ℕ → State
append_positional f args dst p i = elim (get_elem? args i) [
  | none ↦ record { dst = dst ++ b'?' ∷ []; parser = p; arg_index = i }
  | some arg ↦ record { dst = append_arg f dst arg; parser = p; arg_index = suc i }
]

-- The text before a placeholder without the backslash that ends it; `none` if there is none.
unfoldable pub strip_backslash : Bytes → Option Bytes
strip_backslash [] = none
strip_backslash (c ∷ []) = if c == b'\\' then some [] else none
strip_backslash (c ∷ d ∷ s) = elim (strip_backslash (d ∷ s)) [ none ↦ none | some t ↦ some (c ∷ t) ]

-- The body of the loop behind `ReadIdentifier`.
unfoldable pub append_identifier :
    Formatter → Lookup → List Arg → Bytes → ℕ → (Bytes × Bool) × Parser → Result Panic State
append_identifier f named args dst i ((name, numeric), q) =
    if is_empty name
    then ok (append_positional f args dst q i)
    else (if numeric then ok (append_indexed f args dst name) else append_named f named dst name)
      >>= λ dst'. ok (record { dst = dst'; parser = q; arg_index = i })

-- The body of the loop behind a question mark.
unfoldable pub append_placeholder :
    Formatter → Lookup → List Arg → Bytes → Parser → ℕ → Result Panic State
unfolding append_identifier append_positional append_indexed append_named atoi
append_placeholder f named args dst p i = append_identifier f named args dst i (read_identifier p)

-- The body of the loop behind `ReadSep`.
unfoldable pub append_read :
    Formatter → Lookup → List Arg → State → (Bytes × Bool) × Parser → Result Panic State
append_read f named args s ((b, found), p) =
    if found
    then elim (strip_backslash b) [
      | some t ↦
          ok (record { dst = (s.dst ++ t) ++ b'?' ∷ []; parser = p; arg_index = s.arg_index })
      | none ↦ append_placeholder f named args (s.dst ++ b) p s.arg_index
    ]
    else ok (record { dst = s.dst ++ b; parser = p; arg_index = s.arg_index })

unfoldable pub append_round : Formatter → Lookup → List Arg → State → Result Panic State
unfolding append_read
append_round f named args s = append_read f named args s (read_sep b'?' s.parser)

-- `for p.Valid()`; a round reads at least one byte, so the length of the query is enough fuel.
unfoldable pub append_loop : ℕ → Formatter → Lookup → List Arg → State → Result Panic State
append_loop zero f named args s = ok s
append_loop (suc fuel) f named args s = elim (valid s.parser) [
  | true ↦ append_round f named args s >>= λ s'. append_loop fuel f named args s'
  | false ↦ ok s
]

-- `Formatter.append`
unfoldable pub append : Formatter → Bytes → Parser → List Arg → Result Panic Bytes
unfolding append_loop append_round append_placeholder strip_backslash read_sep read_identifier
    sole_named_args valid append_arg
append f dst p args =
    append_loop (length p.rest) f (sole_named_args args) args
      (record { dst = dst; parser = p; arg_index = 0 })
    >>= λ s. ok (s.dst)

args_or_empty : Option (List Arg) → List Arg
args_or_empty none = []
args_or_empty (some args) = args

-- The query has no placeholder to fill in. Nil arguments are `none`.
unfoldable pub is_plain : Formatter → Bytes → Option (List Arg) → Bool
unfolding is_nop has_no_args is_none index_byte
is_plain f query args = is_nop f || is_none args && has_no_args f || is_none (index_byte b'?' query)

-- `AppendQuery`: the text, or the panic.
unfoldable pub try_append_query : Formatter → Bytes → Bytes → Option (List Arg) → Result Panic Bytes
unfolding append is_plain args_or_empty
try_append_query f dst query args =
    if is_plain f query args
    then ok (dst ++ query)
    else append f dst (Parser.new query) (args_or_empty args)

-- Not a byte: where it stands in a text, the code that writes the text has panicked, and what is
-- behind it is never written.
abbrev pub panic_mark : ℕ
panic_mark = 256

unfoldable pub text_or_mark : Bytes → Result Panic Bytes → Bytes
text_or_mark dst (ok b) = b
text_or_mark dst (err nil_pointer) = dst ++ panic_mark ∷ []

-- `AppendQuery` for the functions of the package that write a text: a panic is a mark in it.
unfoldable pub append_query : Formatter → Bytes → Bytes → Option (List Arg) → Bytes
unfolding try_append_query text_or_mark
append_query f dst query args = text_or_mark dst (try_append_query f dst query args)

unfoldable pub format_query : Formatter → Bytes → Option (List Arg) → Bytes
unfolding append_query
format_query f query args = if is_plain f query args then query else append_query f [] query args
