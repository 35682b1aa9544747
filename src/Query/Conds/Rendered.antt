-- ===== src/Query/Conds/Rendered.antt =====
-- The function `appendWhere` of query_base.go on nested conditions.
use uptrace_bun.Prelude.{
  Bool, true, false, List, [], ◌∷◌, ◌++◌, none, Bytes, codes, equal, ◌≡◌, refl, sym, ap, ◌∙◌,
  append_assoc, append-nil,
}
use uptrace_bun.Schema.Formatter.{Formatter}
use uptrace_bun.Schema.Sqlfmt.{QueryWithArgs, QueryWithSep, append_with_args, is_zero}
use uptrace_bun.Query.State.{add_where, add_where_group, clear_first_sep}
use uptrace_bun.Query.Where.{append_where_one, append_conditions}
use uptrace_bun.Query.Conds.{
  Conds, nil, cond, group, Connective, conjunction, disjunction, sep_of, item, call, intended,
  IsNested, NoFirstSep,
}

abbrev marker : Bytes → QueryWithSep
marker sep = record { query_with_args = record { query = []; args = none }; sep = sep }

group_lem :
    (ws : List QueryWithSep) (sep : Bytes) (w : QueryWithSep) (g : List QueryWithSep)
    → add_where_group ws sep (w ∷ g)
      ≡ ws ++ marker (sep ++ codes "(") ∷ (clear_first_sep (w ∷ g) ++ marker (codes ")") ∷ [])
unfolding add_where_group
group_lem ws sep w g = simp append_assoc

add_where_group-append :
    (ws : List QueryWithSep) (sep : Bytes) (g : List QueryWithSep)
    → add_where_group ws sep g ≡ ws ++ add_where_group [] sep g
unfolding add_where_group
add_where_group-append ws sep [] = sym (append-nil ws)
add_where_group-append ws sep (w ∷ g) = simp append_assoc

call-append : (ws : List QueryWithSep) (c : Conds) → call ws c ≡ ws ++ call [] c
unfolding call add_where
call-append ws nil = sym (append-nil ws)
call-append ws (cond k q rest) =
    call-append (ws ++ item k q ∷ []) rest
    ∙ append_assoc ws (item k q ∷ []) (call [] rest)
    ∙ ap (λ x. ws ++ x) (sym (call-append (item k q ∷ []) rest))
call-append ws (group sep inner rest) =
    call-append (add_where_group ws sep (call [] inner)) rest
    ∙ ap (λ x. x ++ call [] rest) (add_where_group-append ws sep (call [] inner))
    ∙ append_assoc ws (add_where_group [] sep (call [] inner)) (call [] rest)
    ∙ ap (λ x. ws ++ x) (sym (call-append (add_where_group [] sep (call [] inner)) rest))

append_conditions-append :
    (f : Formatter) (w : QueryWithSep) (xs ys : List QueryWithSep) (first : Bool) (b : Bytes)
    → append_conditions f first b (w ∷ (xs ++ ys))
      ≡ append_conditions f false (append_conditions f first b (w ∷ xs)) ys
unfolding append_conditions
append_conditions-append f w [] ys first b = refl
append_conditions-append f w (x ∷ xs) ys first b =
    append_conditions-append f x xs ys false (append_where_one f first b w)

module _ (f : Formatter) (b : Bytes) where
  one_behind :
      (q : QueryWithArgs) (sep : Bytes)
      → is_zero q ≡ false
      → append_where_one f false b (record { query_with_args = q; sep = sep })
        ≡ append_with_args f ((b ++ sep) ++ b'(' ∷ []) q ++ b')' ∷ []
  unfolding append_where_one
  one_behind q sep h = rw h

  one_first :
      (q : QueryWithArgs) (c : Connective)
      → is_zero q ≡ false
      → append_where_one f true b (item c q) ≡ append_with_args f (b ++ b'(' ∷ []) q ++ b')' ∷ []
  unfolding append_where_one equal
  one_first q conjunction h = rw h
  one_first q disjunction h = rw h

  marker_behind : (sep : Bytes) → append_where_one f false b (marker sep) ≡ b ++ sep
  unfolding append_where_one
  marker_behind sep = refl

  marker_first : append_where_one f true b (marker (codes "(")) ≡ b ++ codes "("
  unfolding append_where_one equal
  marker_first = refl

bare : QueryWithArgs → QueryWithSep
bare q = record { query_with_args = q; sep = [] }

call_cond :
    (c : Connective) (q : QueryWithArgs) (rest : Conds)
    → call [] (cond c q rest) ≡ item c q ∷ call [] rest
unfolding call add_where
call_cond c q rest = call-append (item c q ∷ []) rest

call_group :
    (sep : Bytes) (c : Connective) (q : QueryWithArgs) (inner rest : Conds)
    → call [] (group sep (cond c q inner) rest)
      ≡ marker (sep ++ codes "(") ∷ ((bare q ∷ call [] inner) ++ marker (codes ")") ∷ call [] rest)
unfolding call clear_first_sep bare
call_group sep c q inner rest =
    call-append (add_where_group [] sep (call [] (cond c q inner))) rest
    ∙ ap (λ x. add_where_group [] sep x ++ call [] rest) (call_cond c q inner)
    ∙ ap (λ x. x ++ call [] rest) (group_lem [] sep (item c q) (call [] inner))
    ∙ ap (λ x. marker (sep ++ codes "(") ∷ bare q ∷ x)
        (append_assoc (call [] inner) (marker (codes ")") ∷ []) (call [] rest))

-- The conditions of a group, its closing parenthesis and what follows.
group_conditions :
    (f : Formatter) (b : Bytes) (c : Connective) (q : QueryWithArgs) (inner : Conds)
    (ws : List QueryWithSep)
    → is_zero q ≡ false
    → ((b' : Bytes) → append_conditions f false b' (call [] inner) ≡ intended f false b' inner)
    → append_conditions f false b ((bare q ∷ call [] inner) ++ marker (codes ")") ∷ ws)
      ≡ append_conditions f false (intended f true b (cond c q inner) ++ codes ")") ws
unfolding append_conditions intended bare
group_conditions f b c q inner ws h ih =
    append_conditions-append f (bare q) (call [] inner) (marker (codes ")") ∷ ws) false b
    ∙ ap
        (λ x.
          append_conditions f false
            (append_where_one f false (append_conditions f false x (call [] inner))
              (marker (codes ")")))
            ws)
        (one_behind f b q [] h
          ∙ ap (λ x. append_with_args f (x ++ b'(' ∷ []) q ++ b')' ∷ []) (append-nil b))
    ∙ ap (λ x. append_conditions f false (append_where_one f false x (marker (codes ")"))) ws)
        (ih _)
    ∙ ap (λ x. append_conditions f false x ws) (marker_behind f _ (codes ")"))

rendered_behind :
    (f : Formatter) (b : Bytes) (c : Conds)
    → IsNested c
    → append_conditions f false b (call [] c) ≡ intended f false b c
unfolding append_conditions intended call
rendered_behind f b nil h = refl
rendered_behind f b (cond c q rest) (h, nested) =
    ap (append_conditions f false b) (call_cond c q rest)
    ∙ ap (λ x. append_conditions f false x (call [] rest)) (one_behind f b q (sep_of c) h)
    ∙ rendered_behind f _ rest nested
rendered_behind f b (group sep nil rest) (h, _, _) = absurd h
rendered_behind f b (group sep (group _ _ _) rest) (h, _, _) = absurd h
rendered_behind f b (group sep (cond c q inner) rest) (_, (h, nested), others) =
    ap (append_conditions f false b) (call_group sep c q inner rest)
    ∙ group_conditions f (append_where_one f false b (marker (sep ++ codes "("))) c q inner
        (call [] rest) h (λ b'. rendered_behind f b' inner nested)
    ∙ ap
        (λ x.
          append_conditions f false (intended f true x (cond c q inner) ++ codes ")")
            (call [] rest))
        (marker_behind f b (sep ++ codes "(") ∙ sym (append_assoc b sep (codes "(")))
    ∙ rendered_behind f _ rest others

-- If no condition is empty, every group begins with a condition and a group that comes first has no
-- separator, the conditions are written as they were nested: each condition and each group in
-- parentheses, and each but the first of its list behind its separator.
pub append_conditions-call :
    (f : Formatter) (b : Bytes) (c : Conds)
    → IsNested c
    → NoFirstSep c
    → append_conditions f true b (call [] c) ≡ intended f true b c
unfolding append_conditions intended call
append_conditions-call f b nil _ _ = refl
append_conditions-call f b (cond c q rest) (h, nested) _ =
    ap (append_conditions f true b) (call_cond c q rest)
    ∙ ap (λ x. append_conditions f false x (call [] rest)) (one_first f b q c h)
    ∙ rendered_behind f _ rest nested
append_conditions-call f b (group sep nil rest) (h, _, _) _ = absurd h
append_conditions-call f b (group sep (group _ _ _) rest) (h, _, _) _ = absurd h
append_conditions-call f b (group sep (cond c q inner) rest) (_, (h, nested), others) first =
    ap (append_conditions f true b) (call_group sep c q inner rest)
    ∙ group_conditions f (append_where_one f true b (marker (sep ++ codes "("))) c q inner
        (call [] rest) h (λ b'. rendered_behind f b' inner nested)
    ∙ ap
        (λ x.
          append_conditions f false (intended f true x (cond c q inner) ++ codes ")")
            (call [] rest))
        (ap (λ x. append_where_one f true b (marker (x ++ codes "("))) first ∙ marker_first f b)
    ∙ rendered_behind f _ rest others

marker_dropped :
    (f : Formatter) (b : Bytes) (c : Connective)
    → append_where_one f true b (marker (sep_of c ++ codes "(")) ≡ b
unfolding append_where_one equal
marker_dropped f b conjunction = refl
marker_dropped f b disjunction = refl

-- A group that comes first with the separator of `Where` or `WhereOr` loses its opening parenthesis and
-- keeps the closing one: what follows stands behind a text that is not balanced.
pub append_conditions-unbalanced :
    (f : Formatter) (b : Bytes) (k c : Connective) (q : QueryWithArgs) (inner rest : Conds)
    → IsNested (cond c q inner)
    → IsNested rest
    → append_conditions f true b (call [] (group (sep_of k) (cond c q inner) rest))
      ≡ intended f false (intended f true b (cond c q inner) ++ codes ")") rest
unfolding append_conditions
append_conditions-unbalanced f b k c q inner rest (h, nested) others =
    ap (append_conditions f true b) (call_group (sep_of k) c q inner rest)
    ∙ group_conditions f (append_where_one f true b (marker (sep_of k ++ codes "("))) c q inner
        (call [] rest) h (λ b'. rendered_behind f b' inner nested)
    ∙ ap
        (λ x.
          append_conditions f false (intended f true x (cond c q inner) ++ codes ")")
            (call [] rest))
        (marker_dropped f b k)
    ∙ rendered_behind f _ rest others
