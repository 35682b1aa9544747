-- ===== src/Query/Select/Order.antt =====
-- `Order` of query_select.go: what a string that the caller passes becomes.
use uptrace_bun.Prelude.{
  ℕ, zero, suc, true, false, [], ◌∷◌, ◌++◌, Option, none, some, Bytes, codes, take, drop, ok, ◌⊎◌,
  inl, inr, ◌≡◌, ◌≢◌, refl, sym, ap, ◌∙◌, arith, Bool-cases, append_assoc, append-nil, Result,
}
use uptrace_bun.Parser.{index_byte, is_num, is_alpha}
use uptrace_bun.Dialect.Ident.Tokens.{append_ident-append}
use uptrace_bun.Schema.Dialects.{ident_quote, Name, pg, invalid, sqlite, mysql5, mysql8}
use uptrace_bun.Schema.Value.{query_appender, append_value, append_query_appender}
use uptrace_bun.Schema.Formatter.{Formatter, is_nop, append_ident, append_arg}
use uptrace_bun.Schema.Formatter.Renders.{Writes, Renders}
use uptrace_bun.Schema.Formatter.Laws.{append_query-Renders}
use uptrace_bun.Schema.Sqlfmt.{append_with_args, safe_query, unsafe_ident, append_safe}
use uptrace_bun.Query.Select.{arg, is_sort, order_item, order_args}

index_byte_here : (c x : ℕ) (s : Bytes) → index_byte c (x ∷ s) ≡ some 0 → x ≡ c
unfolding index_byte
index_byte_here c x s h = ground arith

index_byte_behind :
    (c x : ℕ) (s : Bytes) (i : ℕ) → index_byte c (x ∷ s) ≡ some (suc i) → index_byte c s ≡ some i
unfolding index_byte
index_byte_behind c x s i h = ground arith

index_byte-split :
    (c : ℕ) (s : Bytes) (i : ℕ) → index_byte c s ≡ some i → s ≡ take i s ++ c ∷ drop (suc i) s
unfolding index_byte
index_byte-split c [] i h = cc
index_byte-split c (x ∷ s) zero h = ap (λ y. y ∷ s) (index_byte_here c x s h)
index_byte-split c (x ∷ s) (suc i) h =
    ap (λ t. x ∷ t) (index_byte-split c s i (index_byte_behind c x s i h))

appender-lem :
    (d : Name) (b : Bytes) (app : Bytes → Result Bytes Bytes)
    → append_value d b (query_appender app) ≡ append_query_appender b app
unfolding append_value
appender-lem pg b app = refl
appender-lem invalid b app = refl
appender-lem sqlite b app = refl
appender-lem mysql5 b app = refl
appender-lem mysql8 b app = refl

no_slash : (u : Bytes) → [] ≢ u ++ b'\\' ∷ []
no_slash [] = cc
no_slash (c ∷ u) = cc

first_byte : Bytes → ℕ
first_byte [] = 0
first_byte (c ∷ s) = c

space-NoSlash : (u : Bytes) → codes " " ≢ u ++ b'\\' ∷ []
unfolding first_byte
space-NoSlash [] h = omega (arith, ap first_byte h)
space-NoSlash (c ∷ u) h = no_slash u (ap (drop {A = ℕ} 1) h)

module _ (f : Formatter) (field sort : Bytes) where
  ident-Writes :
      Writes f (arg (query_appender (λ b. ok (append_ident f b field)))) (append_ident f [] field)
  unfolding append_arg append_query_appender arg append_ident
  ident-Writes b =
      appender-lem f.dialect b (λ x. ok (append_ident f x field))
      ∙ append_ident-append b field (ident_quote f.dialect)

  safe-Writes : Writes f (arg (query_appender (λ b. ok (append_safe b sort)))) sort
  unfolding append_arg append_query_appender arg append_safe
  safe-Writes b = appender-lem f.dialect b (λ x. ok (append_safe x sort))

  order-Renders :
      Renders f
        (order_args f field sort)
        0
        (codes "? ?")
        (append_ident f [] field ++ (codes " " ++ (sort ++ [])))
  unfolding order_args is_num is_alpha
  order-Renders =
      Renders.positional [] (codes " ?") (codes " " ++ (sort ++ [])) (append_ident f [] field) tt
        no_slash (refl, refl, omega arith) refl ident-Writes
        (Renders.positional (codes " ") [] [] sort (omega arith, tt) space-NoSlash tt refl
          safe-Writes (Renders.plain [] tt))

  -- A field with a sort order.
  sorted-lem :
      (b : Bytes)
      → is_nop f ≡ false
      → append_with_args f b (safe_query (codes "? ?") (some (order_args f field sort)))
        ≡ append_ident f b field ++ b' ' ∷ sort
  unfolding append_with_args safe_query append_ident
  sorted-lem b nop =
      (append_query-Renders f (order_args f field sort) b nop order-Renders).1
      ∙ ap (λ s. b ++ (append_ident f [] field ++ b' ' ∷ s)) (append-nil sort)
      ∙ sym (append_assoc b (append_ident f [] field) (b' ' ∷ sort))
      ∙ ap (λ x. x ++ b' ' ∷ sort) (sym (append_ident-append b field (ident_quote f.dialect)))

module _ (to_upper : Bytes → Bytes) (f : Formatter) (order : Bytes) where
  item_plain : index_byte b' ' order ≡ none → order_item to_upper f order ≡ unsafe_ident order
  unfolding order_item
  item_plain e = rw (e, order_item) refl

  item_sorted :
      (i : ℕ)
      → index_byte b' ' order ≡ some i
      → is_sort (to_upper (drop (suc i) order)) ≡ true
      → order_item to_upper f order
        ≡ safe_query (codes "? ?") (some (order_args f (take i order) (drop (suc i) order)))
  unfolding order_item
  item_sorted i e k = rw (order_item, e, k) refl

  item_other :
      (i : ℕ)
      → index_byte b' ' order ≡ some i
      → is_sort (to_upper (drop (suc i) order)) ≡ false
      → order_item to_upper f order ≡ unsafe_ident order
  unfolding order_item
  item_other i e k = rw (e, order_item, k) refl

  module _ (b : Bytes) (nop : is_nop f ≡ false) where
    -- The item is one identifier, or an identifier, a space and a known sort order.
    abbrev pub IsOrdered : Type 0
    IsOrdered =
        (append_with_args f b (order_item to_upper f order) ≡ append_ident f b order)
        ⊎ ((field sort : Bytes) × (order ≡ field ++ b' ' ∷ sort)
            × (is_sort (to_upper sort) ≡ true)
            × (append_with_args f b (order_item to_upper f order)
                ≡ append_ident f b field ++ b' ' ∷ sort))

    as_ident : order_item to_upper f order ≡ unsafe_ident order → IsOrdered
    unfolding append_with_args unsafe_ident
    as_ident e = inl (ap (append_with_args f b) e)

    ordered : (o : Option ℕ) → index_byte b' ' order ≡ o → IsOrdered
    ordered none e = as_ident (item_plain e)
    ordered (some i) e = elim (Bool-cases (is_sort (to_upper (drop (suc i) order)))) [
      | inl k ↦ inr (
        take i order,
        drop (suc i) order,
        index_byte-split b' ' order i e,
        k,
        ap (append_with_args f b) (item_sorted i e k)
            ∙ sorted-lem f (take i order) (drop (suc i) order) b nop,
      )
      | inr k ↦ as_ident (item_other i e k)
    ]

    -- With a dialect, what `Order` makes of a string is written as one identifier, the whole string, or as
    -- an identifier, a space and one of the sort orders that `Order` knows, up to the case of its letters.
    pub append_with_args-order_item : IsOrdered
    append_with_args-order_item = ordered (index_byte b' ' order) refl
