-- ===== src/Dialect/Ident.antt =====
-- `AppendIdent` of dialect/append.go, and how a server reads the identifiers that it writes.
pub mod Tokens
use uptrace_bun.Prelude.{
  ℕ, Bool, true, false, not, ◌&&◌, List, [], ◌∷◌, ◌++◌, Option, none, some, Bytes, codes, ◌==◌,
  if◌then◌else◌, ◌≡◌, ◌≢◌, refl, ◌∙◌, ap, sym, arith, append-nil, append_assoc, Bool-cases, inl,
  inr,
}

-- The loop over the bytes of the name, with `quoted`; the text and the flag when it is done.
-- Each round first handles `*` and `.`, then opens the quotes if they are shut.
unfoldable pub append_ident_loop : ℕ → Bytes → Bool → Bytes → Bytes × Bool
append_ident_loop quote b quoted [] = (b, quoted)
append_ident_loop quote b quoted (c ∷ src) =
    let star = append_ident_loop quote (b ++ b'*' ∷ []) quoted src in
    let shut = if quoted then b ++ quote ∷ [] else b in
    let dot = append_ident_loop quote (shut ++ b'.' ∷ []) false src in
    let opened = if quoted then b else b ++ quote ∷ [] in
    let byte = if c == quote then opened ++ quote ∷ quote ∷ [] else opened ++ c ∷ [] in
    let plain = append_ident_loop quote byte true src in
    if c == b'*' && not quoted then star else if c == b'.' then dot else plain

unfoldable pub append_ident : Bytes → Bytes → ℕ → Bytes
unfolding append_ident_loop
append_ident b field quote =
    let (b', quoted) = append_ident_loop quote b false field in
    if quoted then b' ++ quote ∷ [] else b'

-- What a qualified name consists of.
pub data Token : Type 0 where
  name : Bytes → Token
  dot star : Token

-- Where the server stands: between tokens, inside a quoted name, or behind a quote in one, which
-- ends the name unless a second quote follows.
pub data Mode : Type 0 where
  outside : Mode
  inside closing : Bytes → Mode

end_name : Mode → Option (List Token)
end_name outside = some []
end_name (inside n) = none
end_name (closing n) = some (name n ∷ [])

-- Reads quoted names, dots and stars, and nothing else.
unfoldable pub lex : ℕ → Mode → Bytes → Option (List Token)
unfolding end_name
lex q m [] = end_name m
lex q outside (c ∷ s) =
    let starred = lex q outside s in
    let dotted = lex q outside s in
    let opened = lex q (inside []) s in
    if c == b'*'
    then elim starred [ none ↦ none | some ts ↦ some (star ∷ ts) ]
    else if c == b'.'
    then elim dotted [ none ↦ none | some ts ↦ some (dot ∷ ts) ]
    else if c == q
    then opened
    else none
lex q (inside n) (c ∷ s) =
    let shut = lex q (closing n) s in
    let more = lex q (inside (n ++ c ∷ [])) s in if c == q then shut else more
lex q (closing n) (c ∷ s) =
    let doubled = lex q (inside (n ++ q ∷ [])) s in
    let dotted = lex q outside s in
    if c == q
    then doubled
    else if c == b'.'
    then elim dotted [ none ↦ none | some ts ↦ some (name n ∷ dot ∷ ts) ]
    else none

-- The tokens that a name means: it is cut at the dots, and a star that begins a part is a star. The
-- second argument is the part read so far, `none` in front of one.
unfoldable pub tokens : Option Bytes → Bytes → List Token
tokens none [] = []
tokens (some n) [] = name n ∷ []
tokens none (c ∷ s) =
    let starred = tokens none s in
    let dotted = tokens none s in
    let more = tokens (some (c ∷ [])) s in
    if c == b'*' then star ∷ starred else if c == b'.' then dot ∷ dotted else more
tokens (some n) (c ∷ s) =
    let dotted = tokens none s in
    let more = tokens (some (n ++ c ∷ [])) s in if c == b'.' then name n ∷ dot ∷ dotted else more
