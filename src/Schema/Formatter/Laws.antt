-- ===== src/Schema/Formatter/Laws.antt =====
-- `Formatter.append` of schema/formatter.go against the description of placeholders.
use uptrace_bun.Prelude.{
  ℕ, zero, suc, ◌≤◌, ◌<◌, true, false, List, [], ◌∷◌, ◌++◌, Option, none, some, Bytes, get_elem?,
  length, ◌≡◌, ◌≢◌, refl, sym, ap, ◌∙◌, arith, All, All-append, append_assoc, append-nil,
  length-append, ◌==◌, ==_iff, Bool-cases, inl, inr, Result, ok, ◌>>=◌,
}
use uptrace_bun.Parser.{new, valid, read_identifier, atoi, is_num, is_alpha, index_byte}
use uptrace_bun.Parser.Laws.{Lacks, read_sep_found, read_sep_missing, index_byte-Lacks}
use uptrace_bun.Parser.Identifiers.{
  NoIdentifier, EndsIdentifier, IsNameByte, read_identifier_none, read_identifier_number,
  read_identifier_name,
}
use uptrace_bun.Schema.Value.{Arg}
use uptrace_bun.Schema.Formatter.{
  Formatter, State, append_indexed, append_named, append_positional, append_placeholder,
  append_round, append_read, append_identifier, append_loop, append, append_query, is_plain, is_nop,
  get_named, strip_backslash, sole_named_args, try_append_query, text_or_mark, Lookup, Panic,
}
use uptrace_bun.Schema.Formatter.Renders.{
  Renders, Writes, NoSlash, plain, escaped, positional, exhausted, indexed, named,
}

strip_slash : (t : Bytes) → strip_backslash (t ++ b'\\' ∷ []) ≡ some t
unfolding strip_backslash
strip_slash [] = refl
strip_slash (c ∷ []) = refl
strip_slash (c ∷ d ∷ t) = rw (strip_slash (d ∷ t), strip_backslash)

strip_none : (t : Bytes) → NoSlash t → strip_backslash t ≡ none
unfolding strip_backslash
strip_none [] h = refl
strip_none (c ∷ []) h = elim (Bool-cases (c == b'\\')) [
  | inl e ↦ absurd (h [] (ap (λ x. x ∷ []) ((==_iff c b'\\').0 e)))
  | inr e ↦ rw e
]
strip_none (c ∷ d ∷ t) h =
    rw (strip_none (d ∷ t) (λ u e. h (c ∷ u) (ap (◌∷◌ c) e)), strip_backslash)

module _ (f : Formatter) (lookup : Lookup) (args : List Arg) where
  -- The text of a state, if the loop has not panicked.
  abbrev pub texts : Result Panic State → Result Panic Bytes
  texts r = r >>= λ s. ok (s.dst)

  abbrev pub at : Bytes → Bytes → ℕ → State
  at dst rest i = record { dst = dst; parser = new rest; arg_index = i }

  round_missing :
      (dst t : Bytes) (i : ℕ)
      → Lacks b'?' t
      → append_round f lookup args (at dst t i) ≡ ok (at (dst ++ t) [] i)
  unfolding append_round
  round_missing dst t i h = rw (read_sep_missing b'?' t h)

  round_escaped :
      (dst t rest : Bytes) (i : ℕ)
      → Lacks b'?' t
      → append_round f lookup args (at dst (t ++ b'\\' ∷ b'?' ∷ rest) i)
        ≡ ok (at ((dst ++ t) ++ b'?' ∷ []) rest i)
  unfolding append_round
  round_escaped dst t rest i h =
      let slashed = All-append _ t (b'\\' ∷ []) h (omega arith) in
      ap (λ x. append_round f lookup args (at dst x i))
        (sym (append_assoc t (b'\\' ∷ []) (b'?' ∷ rest)))
      ∙ ap (append_read f lookup args (at dst ((t ++ b'\\' ∷ []) ++ b'?' ∷ rest) i))
          (read_sep_found b'?' (t ++ b'\\' ∷ []) rest slashed)
      ∙ rw (strip_slash t)

  pub round_placeholder :
      (dst t rest : Bytes) (i : ℕ)
      → Lacks b'?' t
      → NoSlash t
      → append_round f lookup args (at dst (t ++ b'?' ∷ rest) i)
        ≡ append_identifier f lookup args (dst ++ t) i (read_identifier (new rest))
  unfolding append_round append_placeholder
  round_placeholder dst t rest i h n =
      ap (append_read f lookup args (at dst (t ++ b'?' ∷ rest) i)) (read_sep_found b'?' t rest h)
      ∙ rw (strip_none t n)

  pub loop_step :
      (fuel : ℕ) (dst rest : Bytes) (i : ℕ)
      → rest ≢ []
      → append_loop (suc fuel) f lookup args (at dst rest i)
        ≡ (append_round f lookup args (at dst rest i) >>= λ s. append_loop fuel f lookup args s)
  unfolding append_loop valid
  loop_step fuel dst [] i h = absurd (h refl)
  loop_step fuel dst (c ∷ rest) i h = refl

  loop_end :
      (fuel : ℕ) (dst : Bytes) (i : ℕ)
      → append_loop fuel f lookup args (at dst [] i) ≡ ok (at dst [] i)
  unfolding append_loop valid
  loop_end zero dst i = refl
  loop_end (suc fuel) dst i = refl

  -- A round that leaves less to read, and what the loop makes of the rest.
  advance :
      (fuel : ℕ) (dst q : Bytes) (i : ℕ) (dst' rest : Bytes) (i' : ℕ) (result : Result Panic Bytes)
      → append_round f lookup args (at dst q i) ≡ ok (at dst' rest i')
      → length rest < length q
      → length q ≤ fuel
      → ((fuel' : ℕ)
          → length rest ≤ fuel'
          → texts (append_loop fuel' f lookup args (at dst' rest i')) ≡ result)
      → texts (append_loop fuel f lookup args (at dst q i)) ≡ result
  advance zero dst q i dst' rest i' result e l m k = absurd (omega arith)
  advance (suc fuel) dst [] i dst' rest i' result e l m k = elim l [ ]
  advance (suc fuel) dst (c ∷ q) i dst' rest i' result e l m k =
      ap texts (
        loop_step fuel dst (c ∷ q) i (λ z. cons_ne z)
        ∙ ap (λ r. r >>= λ s. append_loop fuel f lookup args s) e)
      ∙ k fuel (omega arith)
    where
      cons_ne : c ∷ q ≡ [] → ⊥
      cons_ne z = cc

  positional_lem :
      (dst rest text : Bytes) (i : ℕ) {a : Arg}
      → NoIdentifier rest
      → get_elem? args i ≡ some a
      → Writes f a text
      → append_identifier f lookup args dst i (read_identifier (new rest))
        ≡ ok (at (dst ++ text) rest (suc i))
  unfolding append_identifier append_positional
  positional_lem dst rest text i n e w =
      rw (read_identifier_none rest n) (rw (e, append_positional) (rw (w dst)))

  get_elem?-none : (xs : List Arg) (i : ℕ) → length xs ≤ i → get_elem? xs i ≡ none
  get_elem?-none [] i h = refl
  get_elem?-none (a ∷ xs) zero h = elim h [ ]
  get_elem?-none (a ∷ xs) (suc i) h = get_elem?-none xs i (omega arith)

  exhausted_lem :
      (dst rest : Bytes) (i : ℕ)
      → NoIdentifier rest
      → length args ≤ i
      → append_identifier f lookup args dst i (read_identifier (new rest))
        ≡ ok (at (dst ++ b'?' ∷ []) rest i)
  unfolding append_identifier append_positional
  exhausted_lem dst rest i n l =
      rw (read_identifier_none rest n) (rw (get_elem?-none args i l, append_positional))

  indexed_lem :
      (dst digits rest text : Bytes) (c i : ℕ) {k : ℕ} {a : Arg}
      → is_num c ≡ true
      → All (λ d. is_num d ≡ true) digits
      → EndsIdentifier rest
      → atoi (c ∷ digits) ≡ some k
      → get_elem? args k ≡ some a
      → Writes f a text
      → append_identifier f lookup args dst i (read_identifier (new (c ∷ (digits ++ rest))))
        ≡ ok (at (dst ++ text) rest i)
  unfolding append_identifier append_indexed
  indexed_lem dst digits rest text c i n ds e p q w =
      rw (read_identifier_number c digits rest n ds e) (rw (p, append_indexed) (rw q (rw (w dst))))

  named_lem :
      (dst name rest text : Bytes) (c i : ℕ) {a : Arg}
      → is_alpha c ≡ true
      → All IsNameByte name
      → EndsIdentifier rest
      → get_named f.named_args (c ∷ name) ≡ some a
      → Writes f a text
      → append_identifier f lookup args dst i (read_identifier (new (c ∷ (name ++ rest))))
        ≡ ok (at (dst ++ text) rest i)
  unfolding append_identifier append_named
  named_lem dst name rest text c i n ns e p w =
      rw (read_identifier_name c name rest n ns e) (rw (p, append_named) (rw (w dst)))

  append_loop-Renders :
      {i : ℕ} {q out : Bytes} (fuel : ℕ) (dst : Bytes)
      → Renders f args i q out
      → length q ≤ fuel
      → texts (append_loop fuel f lookup args (at dst q i)) ≡ ok (dst ++ out)
  append_loop-Renders {i} fuel dst (plain [] h) m =
      ap texts (loop_end fuel dst i) ∙ ap ok (sym (append-nil dst))
  append_loop-Renders {i} fuel dst (plain (c ∷ t) h) m =
      advance fuel dst (c ∷ t) i (dst ++ c ∷ t) [] i _ (round_missing dst (c ∷ t) i h) (omega arith)
        m λ fuel' _. ap texts (loop_end fuel' (dst ++ c ∷ t) i)
  append_loop-Renders {i} fuel dst (escaped t rest out h r) m =
      advance fuel dst _ i ((dst ++ t) ++ b'?' ∷ []) rest i _ (round_escaped dst t rest i h)
        (omega (arith, length-append t (b'\\' ∷ b'?' ∷ rest))) m
        λ fuel' l.
          append_loop-Renders fuel' ((dst ++ t) ++ b'?' ∷ []) r l ∙ ap ok (simp append_assoc)
  append_loop-Renders {i} fuel dst (positional t rest out text h n e g w r) m =
      advance fuel dst _ i ((dst ++ t) ++ text) rest (suc i) _
        (round_placeholder dst t rest i h n ∙ positional_lem (dst ++ t) rest text i e g w)
        (omega (arith, length-append t (b'?' ∷ rest))) m
        λ fuel' l. append_loop-Renders fuel' ((dst ++ t) ++ text) r l ∙ ap ok (simp append_assoc)
  append_loop-Renders {i} fuel dst (exhausted t rest out h n e g r) m =
      advance fuel dst _ i ((dst ++ t) ++ b'?' ∷ []) rest i _
        (round_placeholder dst t rest i h n ∙ exhausted_lem (dst ++ t) rest i e g)
        (omega (arith, length-append t (b'?' ∷ rest))) m
        λ fuel' l.
          append_loop-Renders fuel' ((dst ++ t) ++ b'?' ∷ []) r l ∙ ap ok (simp append_assoc)
  append_loop-Renders {i} fuel dst (indexed c t digits rest out text h n d ds e p g w r) m =
      advance fuel dst _ i ((dst ++ t) ++ text) rest i _
        (round_placeholder dst t (c ∷ (digits ++ rest)) i h n
          ∙ indexed_lem (dst ++ t) digits rest text c i d ds e p g w)
        (omega (arith, length-append t (b'?' ∷ c ∷ (digits ++ rest)), length-append digits rest)) m
        λ fuel' l. append_loop-Renders fuel' ((dst ++ t) ++ text) r l ∙ ap ok (simp append_assoc)
  append_loop-Renders {i} fuel dst (named c t name rest out text h n d ds e g w r) m =
      advance fuel dst _ i ((dst ++ t) ++ text) rest i _
        (round_placeholder dst t (c ∷ (name ++ rest)) i h n
          ∙ named_lem (dst ++ t) name rest text c i d ds e g w)
        (omega (arith, length-append t (b'?' ∷ c ∷ (name ++ rest)), length-append name rest)) m
        λ fuel' l. append_loop-Renders fuel' ((dst ++ t) ++ text) r l ∙ ap ok (simp append_assoc)

append-Renders :
    (f : Formatter) (args : List Arg) (dst : Bytes) {query out : Bytes}
    → Renders f args 0 query out
    → append f dst (new query) args ≡ ok (dst ++ out)
unfolding append
append-Renders f args dst {query} r =
    append_loop-Renders f (sole_named_args args) args (length query) dst r (omega arith)

is_plain-false :
    (f : Formatter) (args : List Arg) (query : Bytes) (k : ℕ)
    → is_nop f ≡ false
    → index_byte b'?' query ≡ some k
    → is_plain f query (some args) ≡ false
unfolding is_plain
is_plain-false f args query k h e = rw (h, e)

is_plain-true :
    (f : Formatter) (args : List Arg) (query : Bytes)
    → is_nop f ≡ false
    → index_byte b'?' query ≡ none
    → is_plain f query (some args) ≡ true
unfolding is_plain
is_plain-true f args query h e = rw (h, e)

pub try_append_query-append :
    (f : Formatter) (args : List Arg) (dst query : Bytes) (o : Option ℕ)
    → is_nop f ≡ false
    → index_byte b'?' query ≡ o
    → try_append_query f dst query (some args) ≡ append f dst (new query) args
unfolding try_append_query
try_append_query-append f args dst query none h e =
    rw (is_plain-true f args query h e, try_append_query)
      (sym (append-Renders f args dst (plain query (index_byte-Lacks b'?' query e))))
try_append_query-append f args dst query (some k) h e =
    rw (is_plain-false f args query k h e, try_append_query)

-- With arguments that are not nil and a dialect, `AppendQuery` does not panic on a query whose
-- placeholders are those of the description, and appends the text that the query stands for,
-- whatever the arguments hold: the text of an argument is not read again.
pub append_query-Renders :
    (f : Formatter) (args : List Arg) (dst : Bytes) {query out : Bytes}
    → is_nop f ≡ false
    → Renders f args 0 query out
    → (try_append_query f dst query (some args) ≡ ok (dst ++ out))
      × (append_query f dst query (some args) ≡ dst ++ out)
unfolding append_query text_or_mark
append_query-Renders f args dst {query} h r =
    let written = try_append_query-append f args dst query _ h refl ∙ append-Renders f args dst r in
    (written, ap (text_or_mark dst) written)
