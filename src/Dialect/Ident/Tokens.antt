-- ===== src/Dialect/Ident/Tokens.antt =====
-- Reading what `AppendIdent` of dialect/append.go writes.
use uptrace_bun.Prelude.{
  ℕ, Bool, true, false, List, [], ◌∷◌, ◌++◌, Option, none, some, Bytes, ◌==◌, if◌then◌else◌, ◌≡◌,
  ◌≢◌, refl, ◌∙◌, ap, sym, arith, append-nil, append_assoc, Bool-cases, ==_iff, ==_false_iff, inl,
  inr,
}
use uptrace_bun.Dialect.Ident.{
  append_ident_loop, append_ident, Token, name, dot, Mode, outside, inside, lex, tokens,
}

-- The loop with no accumulator: the text that it appends, the closing quote included.
written : ℕ → Bool → Bytes → Bytes
written q false [] = []
written q true [] = q ∷ []
written q false (c ∷ s) =
    if c == b'*'
    then b'*' ∷ written q false s
    else if c == b'.'
    then b'.' ∷ written q false s
    else if c == q
    then q ∷ q ∷ q ∷ written q true s
    else q ∷ c ∷ written q true s
written q true (c ∷ s) =
    if c == b'.'
    then q ∷ b'.' ∷ written q false s
    else if c == q
    then q ∷ q ∷ written q true s
    else c ∷ written q true s

finish : ℕ → Bytes × Bool → Bytes
finish q r = if r.1 then r.0 ++ q ∷ [] else r.0

append_ident_loop-written :
    (q : ℕ) (s b : Bytes) (quoted : Bool)
    → finish q (append_ident_loop q b quoted s) ≡ b ++ written q quoted s
unfolding append_ident_loop written finish
append_ident_loop-written q [] b false = sym (append-nil b)
append_ident_loop-written q [] b true = refl
append_ident_loop-written q (c ∷ s) b false =
    grind (arith, append_ident_loop-written q s, append_assoc)
append_ident_loop-written q (c ∷ s) b true =
    grind (arith, append_ident_loop-written q s, append_assoc)

mode : Option Bytes → Mode
mode none = outside
mode (some n) = inside n

quoted : Option Bytes → Bool
quoted none = false
quoted (some n) = true

lex_open : (q : ℕ) (s : Bytes) → q ≢ b'*' → q ≢ b'.' → lex q outside (q ∷ s) ≡ lex q (inside []) s
unfolding lex
lex_open q s h k = ground arith

lex_double : (q : ℕ) (n s : Bytes) → lex q (inside n) (q ∷ q ∷ s) ≡ lex q (inside (n ++ q ∷ [])) s
unfolding lex
lex_double q n s = ground arith

lex_plain :
    (q c : ℕ) (n s : Bytes) → c ≢ q → lex q (inside n) (c ∷ s) ≡ lex q (inside (n ++ c ∷ [])) s
unfolding lex
lex_plain q c n s h = ground arith

lex_dot :
    (q : ℕ) (n s : Bytes) (ts : List Token)
    → q ≢ b'.'
    → lex q outside s ≡ some ts
    → lex q (inside n) (q ∷ b'.' ∷ s) ≡ some (name n ∷ dot ∷ ts)
unfolding lex
lex_dot q n s ts k e = ground arith

lex-written :
    (q : ℕ) (s : Bytes) (n : Option Bytes)
    → q ≢ b'*'
    → q ≢ b'.'
    → lex q (mode n) (written q (quoted n) s) ≡ some (tokens n s)
unfolding lex written tokens mode quoted
lex-written q [] none h k = refl
lex-written q [] (some n) h k = ground arith
lex-written q (c ∷ s) none h k =
    let parts = lex-written q s none h k in
    let part = lex-written q s (some (c ∷ [])) h k in
    elim (Bool-cases (c == b'*')) [
      | inl is_star ↦ rw is_star (ground (arith, parts))
      | inr not_star ↦ rw not_star (elim (Bool-cases (c == b'.')) [
        | inl is_dot ↦ rw is_dot (ground (arith, parts))
        | inr not_dot ↦ rw not_dot (elim (Bool-cases (c == q)) [
          | inl is_quote ↦ rw is_quote (
              lex_open q (q ∷ q ∷ written q true s) h k
              ∙ lex_double q [] _
              ∙ ap (λ x. lex q (inside (x ∷ [])) (written q true s)) (sym ((==_iff c q).0 is_quote))
              ∙ part)
          | inr not_quote ↦ rw not_quote (
              lex_open q (c ∷ written q true s) h k
              ∙ lex_plain q c [] _ ((==_false_iff c q).0 not_quote)
              ∙ part)
        ])
      ])
    ]
lex-written q (c ∷ s) (some n) h k =
    let parts = lex-written q s none h k in
    let part = lex-written q s (some (n ++ c ∷ [])) h k in
    elim (Bool-cases (c == b'.')) [
      | inl is_dot ↦ rw is_dot (lex_dot q n _ _ k parts)
      | inr not_dot ↦ rw not_dot (elim (Bool-cases (c == q)) [
        | inl is_quote ↦ rw is_quote (
            lex_double q n _
            ∙ ap (λ x. lex q (inside (n ++ x ∷ [])) (written q true s))
                (sym ((==_iff c q).0 is_quote))
            ∙ part)
        | inr not_quote ↦ rw not_quote (lex_plain q c n _ ((==_false_iff c q).0 not_quote) ∙ part)
      ])
    ]

-- With a quote byte other than a star or a dot, `AppendIdent` appends text that is read as exactly
-- the parts of the name, whatever bytes it holds: it never ends a quoted part early.
pub lex-append_ident :
    (field : Bytes) (quote : ℕ)
    → quote ≢ b'*'
    → quote ≢ b'.'
    → lex quote outside (append_ident [] field quote) ≡ some (tokens none field)
unfolding append_ident finish mode quoted
lex-append_ident field quote h k =
    ap (lex quote outside) (append_ident_loop-written quote field [] false)
    ∙ lex-written quote field none h k

-- The text so far is kept.
pub append_ident-append :
    (b field : Bytes) (quote : ℕ) → append_ident b field quote ≡ b ++ append_ident [] field quote
unfolding append_ident finish
append_ident-append b field quote =
    append_ident_loop-written quote field b false
    ∙ ap (λ x. b ++ x) (sym (append_ident_loop-written quote field [] false))
