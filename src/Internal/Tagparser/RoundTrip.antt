-- ===== src/Internal/Tagparser/RoundTrip.antt =====
-- What internal/tagparser/parser.go makes of a tag that is written out.
use uptrace_bun.Prelude.{
  ℕ, zero, suc, ◌≤◌, ◌+◌, ◌≡◌, ◌≢◌, refl, sym, ap, subst, ◌∙◌, arith, true, false, List, [], ◌∷◌,
  ◌++◌, Bytes, ==_false_iff, length, length-append, append_assoc, All,
}
use uptrace_bun.Parser.{is_empty}
use uptrace_bun.Internal.Tagparser.{
  Tag, put_option, add_option, set_name, parse_value, parse_key_value, skip_comma, parse_loop,
  parse_tag,
}
use uptrace_bun.Internal.Tagparser.Quoted.{
  escape, IsBare, parse_key_value-bare, parse_value-plain, parse_quoted_value-escape,
}

-- An option: a key alone, or with a value, that is written as it is or between quotes.
pub data Item : Type 0 where
  flag : Bytes → Item
  plain : Bytes → Bytes → Item
  quoted : Bytes → Bytes → Item

item_text : Item → Bytes
unfolding escape
item_text (flag key) = key
item_text (plain key value) = key ++ b':' ∷ value
item_text (quoted key value) = key ++ b':' ∷ b'"' ∷ (escape value ++ b'"' ∷ [])

items_text : List Item → Bytes
unfolding item_text
items_text [] = []
items_text (i ∷ is) = b',' ∷ (item_text i ++ items_text is)

-- A tag: the name, and its options behind commas.
unfoldable pub tag_text : Bytes → List Item → Bytes
unfolding items_text
tag_text name items = name ++ items_text items

-- The options of the tag, a later one replacing an earlier one of the same key.
unfoldable pub options_of : List Item → List (Bytes × Bytes) → List (Bytes × Bytes)
unfolding put_option
options_of [] os = os
options_of (flag key ∷ is) os = options_of is (put_option key [] os)
options_of (plain key value ∷ is) os = options_of is (put_option key value os)
options_of (quoted key value ∷ is) os = options_of is (put_option key value os)

abbrev pub IsKey : Bytes → Type 0
IsKey s = IsBare s × (is_empty s ≡ false)

abbrev pub IsItem : Item → Type 0
IsItem (flag key) = IsKey key
IsItem (plain key value) = IsKey key × All (λ c. (c ≢ b',') × (c ≢ b'"')) value
IsItem (quoted key value) = IsKey key × All (λ c. c ≢ b'\\') value

-- What is left when the comma in front of the next option is gone.
tail_text : List Item → Bytes
unfolding item_text items_text
tail_text [] = []
tail_text (i ∷ is) = item_text i ++ items_text is

-- What an option does to the tag.
apply : Item → Tag → Tag
apply (flag key) t = set_name key t
apply (plain key value) t = add_option key value t
apply (quoted key value) t = add_option key value t

skip_comma-tail : (is : List Item) → skip_comma (items_text is) ≡ tail_text is
unfolding skip_comma items_text tail_text
skip_comma-tail [] = refl
skip_comma-tail (i ∷ is) = refl

skip_comma-key : (k rest : Bytes) → IsKey k → skip_comma (k ++ rest) ≡ k ++ rest
unfolding skip_comma
skip_comma-key [] rest (_, h) = absurd (ground (arith, h))
skip_comma-key (c ∷ k) rest (((n, _, _), _), _) = rw ((==_false_iff c b',').1 n) refl

skip_comma-item :
    (i : Item) (rest : Bytes) → IsItem i → skip_comma (item_text i ++ rest) ≡ item_text i ++ rest
unfolding item_text
skip_comma-item (flag k) rest h = skip_comma-key k rest h
skip_comma-item (plain k v) rest (h, _) =
    ap (λ s. skip_comma s) (append_assoc k _ rest)
    ∙ skip_comma-key k _ h
    ∙ sym (append_assoc k _ rest)
skip_comma-item (quoted k v) rest (h, _) =
    ap (λ s. skip_comma s) (append_assoc k _ rest)
    ∙ skip_comma-key k _ h
    ∙ sym (append_assoc k _ rest)

-- How the parser goes on behind `r`.
Leaves : List Item → Tag × Bytes → Tag → Type 0
Leaves is r t = (rest : Bytes) × (r ≡ (t, rest)) × (skip_comma rest ≡ tail_text is)

skip_comma-tail_text : (is : List Item) → All IsItem is → skip_comma (tail_text is) ≡ tail_text is
unfolding tail_text skip_comma
skip_comma-tail_text [] h = refl
skip_comma-tail_text (i ∷ is) (h, _) = skip_comma-item i (items_text is) h

name-Leaves :
    (k : Bytes) (is : List Item) (t : Tag)
    → IsBare k
    → All IsItem is
    → Leaves is (parse_key_value [] (k ++ items_text is) t) (set_name k t)
unfolding Leaves parse_key_value items_text tail_text skip_comma
name-Leaves k [] t h hs = ([], parse_key_value-bare [] k [] t h, refl)
name-Leaves k (i ∷ is) t h hs = (
  tail_text (i ∷ is),
  parse_key_value-bare [] k (items_text (i ∷ is)) t h,
  skip_comma-tail_text (i ∷ is) hs,
)

value-Leaves :
    (k v : Bytes) (is : List Item) (t : Tag)
    → IsBare k
    → All (λ c. (c ≢ b',') × (c ≢ b'"')) v
    → All IsItem is
    → Leaves is (parse_key_value [] (k ++ b':' ∷ (v ++ items_text is)) t) (add_option k v t)
unfolding Leaves parse_key_value parse_value items_text tail_text skip_comma
value-Leaves k v [] t h hv hs = (
  [],
  parse_key_value-bare [] k _ t h
      ∙ ap (λ r. (add_option k r.0 t, r.1)) (parse_value-plain [] v [] hv),
  refl,
)
value-Leaves k v (i ∷ is) t h hv hs = (
  tail_text (i ∷ is),
  parse_key_value-bare [] k _ t h
      ∙ ap (λ r. (add_option k r.0 t, r.1)) (parse_value-plain [] v (items_text (i ∷ is)) hv),
  skip_comma-tail_text (i ∷ is) hs,
)

quoted-Leaves :
    (k v : Bytes) (is : List Item) (t : Tag)
    → IsBare k
    → All (λ c. c ≢ b'\\') v
    → Leaves is
        (parse_key_value [] (k ++ b':' ∷ b'"' ∷ (escape v ++ b'"' ∷ items_text is)) t)
        (add_option k v t)
unfolding Leaves parse_key_value parse_value
quoted-Leaves k v is t h hv = (
  items_text is,
  parse_key_value-bare [] k _ t h
      ∙ ap (λ r. (add_option k r.0 t, r.1)) (parse_quoted_value-escape v (items_text is) hv),
  skip_comma-tail is,
)

item-Leaves :
    (i : Item) (is : List Item) (t : Tag)
    → IsItem i
    → All IsItem is
    → Leaves is (parse_key_value [] (tail_text (i ∷ is)) t) (apply i t)
unfolding tail_text item_text apply
item-Leaves (flag k) is t ((h, _)) hs = name-Leaves k is t h hs
item-Leaves (plain k v) is t ((h, _), hv) hs =
    subst (λ s. Leaves is (parse_key_value [] s t) (add_option k v t))
      (sym (append_assoc k (b':' ∷ v) (items_text is))) (value-Leaves k v is t h hv hs)
item-Leaves (quoted k v) is t ((h, _), hv) hs =
    subst (λ s. Leaves is (parse_key_value [] s t) (add_option k v t))
      (sym (
        append_assoc k (b':' ∷ b'"' ∷ (escape v ++ b'"' ∷ [])) (items_text is)
        ∙ ap (λ s. k ++ b':' ∷ b'"' ∷ s) (append_assoc (escape v) (b'"' ∷ []) (items_text is))))
      (quoted-Leaves k v is t h hv)

applied_to : List Item → Tag → Tag
unfolding apply
applied_to [] t = t
applied_to (i ∷ is) t = applied_to is (apply i t)

-- One round of the loop.
parse_loop-round :
    (fuel : ℕ) (is : List Item) (text : Bytes) (t t' : Tag)
    → is_empty text ≡ false
    → Leaves is (parse_key_value [] text t) t'
    → parse_loop (suc fuel) text t ≡ parse_loop fuel (tail_text is) t'
unfolding parse_loop Leaves
parse_loop-round fuel is [] t t' h l = absurd (ground (arith, h))
parse_loop-round fuel is (c ∷ s) t t' h (rest, parsed, left) =
    ap (λ r. parse_loop fuel (skip_comma r.1) r.0) parsed ∙ ap (λ r. parse_loop fuel r t') left

parse_loop_empty : (fuel : ℕ) (t : Tag) → parse_loop fuel (tail_text []) t ≡ t
unfolding parse_loop tail_text
parse_loop_empty zero t = refl
parse_loop_empty (suc fuel) t = refl

key_cons : (k rest : Bytes) → IsKey k → is_empty (k ++ rest) ≡ false
key_cons [] rest (_, h) = absurd (ground (arith, h))
key_cons (c ∷ k) rest h = refl

tail_text_cons : (i : Item) (is : List Item) → IsItem i → is_empty (tail_text (i ∷ is)) ≡ false
unfolding tail_text item_text
tail_text_cons (flag k) is h = key_cons k (items_text is) h
tail_text_cons (plain k v) is (h, _) =
    ap (λ s. is_empty s) (append_assoc k _ (items_text is)) ∙ key_cons k _ h
tail_text_cons (quoted k v) is (h, _) =
    ap (λ s. is_empty s) (append_assoc k _ (items_text is)) ∙ key_cons k _ h

parse_loop-tail_text :
    (fuel : ℕ) (is : List Item) (t : Tag)
    → length is ≤ fuel
    → All IsItem is
    → parse_loop fuel (tail_text is) t ≡ applied_to is t
unfolding applied_to
parse_loop-tail_text fuel [] t l h = parse_loop_empty fuel t
parse_loop-tail_text zero (i ∷ is) t l h = absurd (omega arith)
parse_loop-tail_text (suc fuel) (i ∷ is) t l (hi, h) =
    parse_loop-round fuel is (tail_text (i ∷ is)) t (apply i t) (tail_text_cons i is hi)
      (item-Leaves i is t hi h)
    ∙ parse_loop-tail_text fuel is (apply i t) (omega arith) h

add_option-key :
    (k v : Bytes) (t : Tag) → IsKey k → (add_option k v t).options ≡ put_option k v t.options
unfolding add_option
add_option-key k v t (_, h) = rw h refl

apply-options :
    (i : Item) (is : List Item) (t : Tag)
    → IsItem i
    → t.seen_name ≡ true
    → options_of is (apply i t).options ≡ options_of (i ∷ is) t.options
unfolding apply options_of set_name
apply-options (flag k) is t h seen = rw seen (ap (λ os. options_of is os) (add_option-key k [] t h))
apply-options (plain k v) is t (h, _) seen = ap (λ os. options_of is os) (add_option-key k v t h)
apply-options (quoted k v) is t (h, _) seen = ap (λ os. options_of is os) (add_option-key k v t h)

apply-name :
    (i : Item) (t : Tag)
    → t.seen_name ≡ true
    → ((apply i t).name ≡ t.name) × ((apply i t).seen_name ≡ true)
unfolding apply add_option set_name
apply-name (flag k) t seen = rw seen (refl, refl)
apply-name (plain k v) t seen = (refl, refl)
apply-name (quoted k v) t seen = (refl, refl)

applied_to_lem :
    (is : List Item) (t : Tag)
    → All IsItem is
    → t.seen_name ≡ true
    → ((applied_to is t).name ≡ t.name) × ((applied_to is t).options ≡ options_of is t.options)
unfolding applied_to options_of
applied_to_lem [] t h seen = (refl, refl)
applied_to_lem (i ∷ is) t (hi, h) seen =
    let (name, seen') = apply-name i t seen in
    let (more, options) = applied_to_lem is (apply i t) h seen' in
    (more ∙ name, options ∙ apply-options i is t hi seen)

key_length : (k : Bytes) → is_empty k ≡ false → 1 ≤ length k
key_length [] h = absurd (ground (arith, h))
key_length (c ∷ k) h = omega arith

item_text-length : (i : Item) → IsItem i → 1 ≤ length (item_text i)
unfolding item_text
item_text-length (flag k) (_, h) = key_length k h
item_text-length (plain k v) ((_, h), _) = omega (arith, key_length k h, length-append k (b':' ∷ v))
item_text-length (quoted k v) ((_, h), _) =
    omega (arith, key_length k h, length-append k (b':' ∷ b'"' ∷ (escape v ++ b'"' ∷ [])))

-- The comma and a byte of the key.
items_text-length :
    (is : List Item) → All IsItem is → length is + length is ≤ length (items_text is)
unfolding items_text
items_text-length [] h = omega arith
items_text-length (i ∷ is) (hi, h) =
    let more = items_text-length is h in
    let one = item_text-length i hi in
    let both = length-append (item_text i) (items_text is) in omega (arith, more, both, one)

start : Tag
start = record { name = []; options = []; seen_name = false }

items-length :
    (name : Bytes) (items : List Item) (fuel : ℕ)
    → length (tag_text name items) ≤ suc fuel
    → All IsItem items
    → length items ≤ fuel
unfolding tag_text
items-length name items fuel l hs =
    let two = items_text-length items hs in
    let both = length-append name (items_text items) in omega (arith, l, two, both)

parse_loop-tag_text :
    (fuel : ℕ) (name : Bytes) (items : List Item)
    → length (tag_text name items) ≤ fuel
    → is_empty (tag_text name items) ≡ false
    → IsBare name
    → All IsItem items
    → parse_loop fuel (tag_text name items) start ≡ applied_to items (set_name name start)
unfolding tag_text
parse_loop-tag_text zero name items l n h hs =
    let some_byte = key_length (tag_text name items) n in absurd (omega (arith, l, some_byte))
parse_loop-tag_text (suc fuel) name items l n h hs =
    parse_loop-round fuel items (tag_text name items) start (set_name name start) n
      (name-Leaves name items start h hs)
    ∙ parse_loop-tail_text fuel items (set_name name start) (items-length name items fuel l hs) hs

parse_tag-not_empty :
    (name : Bytes) (items : List Item)
    → is_empty (tag_text name items) ≡ false
    → IsBare name
    → All IsItem items
    → ((parse_tag (tag_text name items)).name ≡ name)
      × ((parse_tag (tag_text name items)).options ≡ options_of items [])
unfolding parse_tag start set_name
parse_tag-not_empty name items n h hs =
    let eq = parse_loop-tag_text (length (tag_text name items)) name items (omega arith) n h hs in
    let (named, options) = applied_to_lem items (set_name name start) hs refl in
    (ap (λ t. t.name) eq ∙ named, ap (λ t. t.options) eq ∙ options)

-- A tag that is written out, a bare name and then options behind commas (a key that is bare and not
-- empty, alone or with a value: one without a comma or quote, or any one without a backslash between
-- quotes and with its quotes escaped), is parsed to that name and to those options, a later one
-- replacing an earlier one of the same key.
pub parse_tag-tag_text :
    (name : Bytes) (items : List Item)
    → IsBare name
    → All IsItem items
    → ((parse_tag (tag_text name items)).name ≡ name)
      × ((parse_tag (tag_text name items)).options ≡ options_of items [])
unfolding parse_tag parse_loop tag_text items_text options_of
parse_tag-tag_text [] [] h hs = (refl, refl)
parse_tag-tag_text [] (i ∷ is) h hs = parse_tag-not_empty [] (i ∷ is) refl h hs
parse_tag-tag_text (c ∷ name) items h hs = parse_tag-not_empty (c ∷ name) items refl h hs
