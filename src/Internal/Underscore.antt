-- ===== src/Internal/Underscore.antt =====
-- internal/underscore.go: names of columns and tables from Go names.
use uptrace_bun.Prelude.{
  ℕ, ◌+◌, ◌-◌, Bool, true, false, not, ◌&&◌, ◌||◌, [], ◌∷◌, Bytes, leb, ◌==◌, if◌then◌else◌,
}

unfoldable pub is_upper : ℕ → Bool
is_upper c = leb b'A' c && leb c b'Z'

unfoldable pub is_lower : ℕ → Bool
is_lower c = leb b'a' c && leb c b'z'

unfoldable pub to_upper : ℕ → ℕ
to_upper c = c - 32

unfoldable pub to_lower : ℕ → ℕ
to_lower c = c + 32

-- Whether the next byte is there, and is lower case.
unfoldable pub next_is_lower : Bytes → Bool
unfolding is_lower
next_is_lower [] = false
next_is_lower (c ∷ s) = is_lower c

unfoldable pub is_last : Bytes → Bool
is_last [] = true
is_last (c ∷ s) = false

-- The loop of `Underscore` behind its first byte, `previous` being the byte before.
unfoldable pub underscore_from : ℕ → Bytes → Bytes
unfolding is_upper is_lower to_lower next_is_lower is_last
underscore_from previous [] = []
underscore_from previous (c ∷ s) =
    let rest = underscore_from c s in
    if is_upper c
    then (if not (is_last s) && (is_lower previous || next_is_lower s)
        then b'_' ∷ to_lower c ∷ rest
        else to_lower c ∷ rest)
    else c ∷ rest

unfoldable pub underscore : Bytes → Bytes
unfolding underscore_from is_upper to_lower
underscore [] = []
underscore (c ∷ s) = (if is_upper c then to_lower c else c) ∷ underscore_from c s

-- The loop of `CamelCased` with `upperNext`.
unfoldable pub camel_cased_from : Bool → Bytes → Bytes
unfolding is_lower to_upper
camel_cased_from upper_next [] = []
camel_cased_from upper_next (c ∷ s) =
    let fresh = camel_cased_from true s in
    let rest = camel_cased_from false s in
    if c == b'_' then fresh else (if upper_next && is_lower c then to_upper c else c) ∷ rest

unfoldable pub camel_cased : Bytes → Bytes
unfolding camel_cased_from
camel_cased s = camel_cased_from true s

unfoldable pub to_exported : Bytes → Bytes
unfolding is_lower to_upper
to_exported [] = []
to_exported (c ∷ s) = (if is_lower c then to_upper c else c) ∷ s
