-- ===== src/Internal/Tagparser.antt =====
-- internal/tagparser/parser.go. The parser is the bytes behind its position, with the tag so far; a
-- map of options is an association list without a second entry for a key. `parse` runs on the length
-- of the tag: each round reads a byte.
pub mod Quoted
pub mod RoundTrip
use uptrace_bun.Prelude.{
  ℕ, zero, suc, Bool, true, false, not, ◌&&◌, List, [], ◌∷◌, ◌++◌, Option, none, some, Bytes, ◌==◌,
  if◌then◌else◌, equal, length,
}
use uptrace_bun.Parser.{is_empty}

pub record Tag : Type 0 where
  pub name : Bytes
  pub options : List (Bytes × Bytes)
  pub seen_name : Bool

-- `t.Options[name]`; `none` is a missing key.
unfoldable pub tag_option : Bytes → List (Bytes × Bytes) → Option Bytes
tag_option name [] = none
tag_option name (o ∷ os) = if equal o.0 name then some o.1 else tag_option name os

unfoldable pub has_option : Bytes → Tag → Bool
unfolding tag_option
has_option name t = elim (tag_option name t.options) [ some _ ↦ true | none ↦ false ]

-- `p.tag.Options[key] = value`
unfoldable pub put_option : Bytes → Bytes → List (Bytes × Bytes) → List (Bytes × Bytes)
put_option key value [] = (key, value) ∷ []
put_option key value (o ∷ os) =
    let rest = put_option key value os in if equal o.0 key then (key, value) ∷ os else o ∷ rest

unfoldable pub add_option : Bytes → Bytes → Tag → Tag
unfolding put_option
add_option key value t = record {
  name = t.name;
  options = if is_empty key then t.options else put_option key value t.options;
  seen_name = true;
}

unfoldable pub set_name : Bytes → Tag → Tag
unfolding add_option
set_name name t =
    if t.seen_name
    then add_option name [] t
    else record { name = name; options = t.options; seen_name = true }

cons_front : ℕ → Option (Bytes × Bytes) → Option (Bytes × Bytes)
cons_front c none = none
cons_front c (some (front, back)) = some (c ∷ front, back)

-- The text in front of the first quote, and what follows the quote; `none` without one.
unfoldable pub cut_quote : Bytes → Option (Bytes × Bytes)
unfolding cons_front
cut_quote [] = none
cut_quote (c ∷ s) = let rest = cut_quote s in if c == b'"' then some ([], s) else cons_front c rest

-- Whether the last byte is a backslash.
unfoldable pub ends_escaped : Bytes → Bool
ends_escaped [] = false
ends_escaped (c ∷ []) = c == b'\\'
ends_escaped (c ∷ d ∷ s) = ends_escaped (d ∷ s)

-- The loop of `parseQuotedValue`, which gives up what it read if there is no closing quote; a byte
-- that a backslash at the end stands for is NUL.
unfoldable pub parse_escaped : Bytes → Bytes → Bytes × Bytes
parse_escaped b [] = ([], [])
parse_escaped b (c ∷ []) = if c == b'"' then (b, []) else ([], [])
parse_escaped b (c ∷ d ∷ s) =
    let escaped = parse_escaped (b ++ d ∷ []) s in
    let plain = parse_escaped (b ++ c ∷ []) (d ∷ s) in
    if c == b'\\' then escaped else if c == b'"' then (b, d ∷ s) else plain

-- The value without escapes, if there is a first quote and no backslash stands in front of it.
unfoldable pub quoted_or_escaped : Bytes → Option (Bytes × Bytes) → Bytes × Bytes
unfolding ends_escaped parse_escaped
quoted_or_escaped s none = parse_escaped [] s
quoted_or_escaped s (some (front, back)) =
    if ends_escaped front then parse_escaped [] s else (front, back)

-- `parseQuotedValue` behind the opening quote: the value, and what follows the closing one.
unfoldable pub parse_quoted_value : Bytes → Bytes × Bytes
unfolding cut_quote quoted_or_escaped
parse_quoted_value s = quoted_or_escaped s (cut_quote s)

-- `parseValue`, `b` being the bytes from its start: a quote gives up what stands in front of it.
unfoldable pub parse_value : Bytes → Bytes → Bytes × Bytes
unfolding parse_quoted_value
parse_value b [] = (b, [])
parse_value b (c ∷ s) =
    let rest = parse_value (b ++ c ∷ []) s in
    if c == b'"' then parse_quoted_value s else if c == b',' then (b, s) else rest

-- `parseKeyValue`, `b` being the bytes from its start.
unfoldable pub parse_key_value : Bytes → Bytes → Tag → Tag × Bytes
unfolding set_name add_option parse_value parse_quoted_value
parse_key_value b [] t = (set_name b t, [])
parse_key_value b (c ∷ s) t =
    let rest = parse_key_value (b ++ c ∷ []) s t in
    if c == b','
    then (set_name b t, s)
    else if c == b':'
    then (add_option b (parse_value [] s).0 t, (parse_value [] s).1)
    else if c == b'"'
    then (set_name (parse_quoted_value s).0 t, (parse_quoted_value s).1)
    else rest

-- `if p.peek() == ','`
unfoldable pub skip_comma : Bytes → Bytes
skip_comma [] = []
skip_comma (c ∷ s) = if c == b',' then s else c ∷ s

unfoldable pub parse_loop : ℕ → Bytes → Tag → Tag
unfolding parse_key_value skip_comma
parse_loop fuel [] t = t
parse_loop zero (c ∷ s) t = t
parse_loop (suc fuel) (c ∷ s) t =
    let (t', rest) = parse_key_value [] (c ∷ s) t in parse_loop fuel (skip_comma rest) t'

-- `Parse`
unfoldable pub parse_tag : Bytes → Tag
unfolding parse_loop
parse_tag s = parse_loop (length s) s (record { name = []; options = []; seen_name = false })
