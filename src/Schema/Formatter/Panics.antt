-- ===== src/Schema/Formatter/Panics.antt =====
-- Names that `Formatter.append` of schema/formatter.go looks up in an argument that is no struct.
use uptrace_bun.Prelude.{
  ℕ, zero, suc, ◌≤◌, ◌<◌, true, false, List, [], ◌∷◌, ◌++◌, none, some, Bytes, length, ◌≡◌, refl,
  ap, ◌∙◌, arith, All, length-append, ok, err, ◌>>=◌,
}
use uptrace_bun.Parser.{new, is_alpha, read_identifier}
use uptrace_bun.Parser.Laws.{Lacks}
use uptrace_bun.Parser.Identifiers.{EndsIdentifier, IsNameByte, read_identifier_name}
use uptrace_bun.Schema.Value.{Arg}
use uptrace_bun.Schema.Formatter.{
  Formatter, nil_struct, Panic, nil_pointer, append_named, append_other, append_round,
  append_identifier, append_loop, append, is_nop, get_named, lookup_of, sole_named_args,
  try_append_query,
}
use uptrace_bun.Schema.Formatter.Renders.{NoSlash}
use uptrace_bun.Schema.Formatter.Laws.{
  texts, at, round_placeholder, loop_step, try_append_query-append,
}

module _ (f : Formatter) (args : List Arg) where
  -- A round that panics ends the loop.
  panicking_round :
      (fuel : ℕ) (dst q : Bytes) (e : Panic)
      → append_round f nil_struct args (at f nil_struct args dst q 0) ≡ err e
      → 0 < length q
      → length q ≤ fuel
      → texts f nil_struct args (append_loop fuel f nil_struct args (at f nil_struct args dst q 0))
        ≡ err e
  panicking_round zero dst q e h l m = absurd (omega arith)
  panicking_round (suc fuel) dst [] e h l m = elim l [ ]
  panicking_round (suc fuel) dst (c ∷ q) e h l m = ap (texts f nil_struct args) (
      loop_step f nil_struct args fuel dst (c ∷ q) 0 (λ z. cons_ne z)
      ∙ ap (λ r. r >>= λ s. append_loop fuel f nil_struct args s) h)
    where
      cons_ne : c ∷ q ≡ [] → ⊥
      cons_ne z = cc

  unknown_name :
      (dst name rest : Bytes) (c : ℕ)
      → is_alpha c ≡ true
      → All IsNameByte name
      → EndsIdentifier rest
      → get_named f.named_args (c ∷ name) ≡ none
      → append_identifier f nil_struct args dst 0 (read_identifier (new (c ∷ (name ++ rest))))
        ≡ err nil_pointer
  unfolding append_identifier append_named append_other
  unknown_name dst name rest c n ns e p =
      rw (read_identifier_name c name rest n ns e) (rw (p, append_named) refl)

-- With one argument that is neither a struct nor a NamedArgAppender, and a dialect, a query whose
-- first question mark has no backslash before it and has a name behind it that the formatter does
-- not know makes `AppendQuery` panic.
pub try_append_query-nil_struct :
    (f : Formatter) (arg : Arg) (dst t name rest : Bytes) (c : ℕ)
    → is_nop f ≡ false
    → arg.named_args ≡ none
    → Lacks b'?' t
    → NoSlash t
    → is_alpha c ≡ true
    → All IsNameByte name
    → EndsIdentifier rest
    → get_named f.named_args (c ∷ name) ≡ none
    → try_append_query f dst (t ++ b'?' ∷ c ∷ (name ++ rest)) (some (arg ∷ [])) ≡ err nil_pointer
unfolding append sole_named_args lookup_of
try_append_query-nil_struct f arg dst t name rest c h a l n alpha ns e g =
    let q = t ++ b'?' ∷ c ∷ (name ++ rest) in
    let args = arg ∷ [] in
    try_append_query-append f args dst q _ h refl
    ∙ ap
        (λ o. append_loop (length q) f (lookup_of o) args (at f nil_struct args dst q 0) >>= λ s.
          ok (s.dst))
        a
    ∙ panicking_round f args (length q) dst q nil_pointer
        (round_placeholder f nil_struct args dst t (c ∷ (name ++ rest)) 0 l n
          ∙ unknown_name f args (dst ++ t) name rest c alpha ns e g)
        (omega (arith, length-append t (b'?' ∷ c ∷ (name ++ rest)))) (omega arith)
