-- ===== src/Tests/Driver.antt =====
-- The PostgreSQL driver on sample messages.
use uptrace_bun.Prelude.{
  err, List, [], ◌∷◌, ◌++◌, Option, none, some, Bytes, codes, ok, ◌≡◌, refl, arith,
}
use uptrace_bun.Strconv.{pos}
use uptrace_bun.Dialect.Utf8.{runes}
use uptrace_bun.Pgdriver.Reader.{server}
use uptrace_bun.Pgdriver.WriteBuffer.{be16, be32}
use uptrace_bun.Pgdriver.Reply.{
  Reply, failure, complete, passed, notice, sent, type_and_payload, type_of, fields_text, errors,
  counts, first_or, last_or, IsTag, decimal_value,
}
use uptrace_bun.Pgdriver.Sync.{read_query-sent}
use uptrace_bun.Pgdriver.Loops.{read_query}
use uptrace_bun.Pgdriver.Messages.{
  DriverValue, int64, string, nil, append_stmt_arg, write_bind_execute, write_query,
}
use uptrace_bun.Pgdriver.Format.{format_driver_query, index_range}
use uptrace_bun.Pgdriver.Format.Plain.{format_driver_query-IsPlain}
use uptrace_bun.Pgdriver.Messages.Frames.{frame}
use uptrace_bun.Pgdriver.Messages.Bind.{read_bind, read_bind-write_bind_execute}

abbrev sample_args : List DriverValue
sample_args = int64 (pos 42) ∷ nil ∷ string (codes "a'b") ∷ []

abbrev sample_texts : List (Option Bytes)
sample_texts = some (codes "42") ∷ none ∷ some (codes "a'b") ∷ []

read_bind-write_bind_execute_example :
    (payload : Bytes) × (write_bind_execute (codes "s1") sample_args
      ≡ ok ((frame b'B' payload ++ frame b'E' (0 ∷ be32 0)) ++ frame b'S' []))
    × (read_bind payload ≡ ok (([], (codes "s1", sample_texts)), be16 0))
unfolding append_stmt_arg runes
read_bind-write_bind_execute_example =
    read_bind-write_bind_execute (codes "s1") sample_args sample_texts
      (omega arith, (omega arith, tt)) (omega arith) (refl, (refl, (refl, tt)))
      (omega arith, (tt, (omega arith, tt)))

write_query_sample : write_query (codes "x") ≡ b'Q' ∷ 0 ∷ 0 ∷ 0 ∷ 6 ∷ b'x' ∷ 0 ∷ []
unfolding write_query
write_query_sample = refl

-- A notice, an error with one field, and the end of a command.
abbrev sample_reply : List Reply
sample_reply =
    passed notice (codes "n")
    ∷ failure ((b'M', codes "bad") ∷ [])
    ∷ complete (codes "INSERT 0 3" ++ 0 ∷ []) (pos 3)
    ∷ []

insert-IsTag : IsTag (codes "INSERT 0 3" ++ 0 ∷ []) (pos 3)
unfolding decimal_value
insert-IsTag = IsTag.rows (codes "INSERT 0") [] b'3' ((omega arith, omega arith), tt) (omega arith)

read_query-sent_example :
    read_query (sent sample_reply (frame b'Z' (codes "I") ++ codes "next"))
    ≡ some (
        ok (
          record { res = some (pos 3); first_err = some (server ((b'M', codes "bad") ∷ [])) },
          codes "next",
        ))
unfolding type_and_payload type_of fields_text errors counts first_or last_or
read_query-sent_example =
    read_query-sent sample_reply (codes "I") (codes "next")
      (
        (omega arith, tt),
        (
          (
            omega arith,
            ((omega arith, (omega arith, (omega arith, (omega arith, tt))), omega arith), tt),
          ),
          ((omega arith, insert-IsTag), tt),
        ),
      )
      (omega arith)

format_sample :
    format_driver_query (codes "a = $1 AND b = $2 AND c = 'x' $") sample_args
    ≡ ok (codes "a = 42 AND b = NULL AND c = 'x' $")
unfolding format_driver_query
format_sample = refl

-- Behind a doubled quote, a placeholder in a literal is replaced.
format_quote_sample : format_driver_query (codes "'it''s $1'") sample_args ≡ ok (codes "'it''s 42'")
unfolding format_driver_query
format_quote_sample = refl

format_zero_sample : format_driver_query (codes "$0") sample_args ≡ err index_range
unfolding format_driver_query
format_zero_sample = refl

format_driver_query-IsPlain_example :
    format_driver_query (codes "'a'") sample_args ≡ ok (codes "'a'")
format_driver_query-IsPlain_example =
    format_driver_query-IsPlain (codes "'a'") sample_args
      (omega arith, (omega arith, (omega arith, tt)))
