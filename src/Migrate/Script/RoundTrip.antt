-- ===== src/Migrate/Script/RoundTrip.antt =====
-- SQL files made of queries, and the loop of `NewSQLMigrationFunc` in migrate/migration.go.
use uptrace_bun.Prelude.{
  false, List, [], ◌∷◌, ◌++◌, map, Bytes, codes, equal, ok, All, ◌≡◌, refl, sym, ap, ◌∙◌,
  append-nil, append_assoc,
}
use uptrace_bun.Migrate.Script.{has_prefix, add_last, scan_script}

-- The text of a query with these lines.
unfoldable pub text : List Bytes → Bytes
text [] = []
text (line ∷ lines) = line ++ b'\n' ∷ text lines

-- A file of queries with a split directive between them.
unfoldable pub script : List (List Bytes) → List Bytes
script [] = []
script (q ∷ []) = q
script (q ∷ r ∷ rest) = q ++ codes "--bun:split" ∷ script (r ∷ rest)

-- No line of the query is a directive.
abbrev pub IsQuery : List Bytes → Type 0
IsQuery = All (λ line. has_prefix line ≡ false)

-- The last query has a line.
abbrev pub LastFull : List (List Bytes) → Type 0
LastFull [] = Unit
LastFull ([] ∷ []) = ⊥
LastFull ((_ ∷ _) ∷ []) = Unit
LastFull (q ∷ r ∷ rest) = LastFull (r ∷ rest)

scan_line :
    (query line : Bytes) (queries lines : List Bytes)
    → has_prefix line ≡ false
    → scan_script query queries (line ∷ lines)
      ≡ scan_script ((query ++ line) ++ b'\n' ∷ []) queries lines
unfolding scan_script
scan_line query line queries lines h = rw (scan_script, h)

scan_query :
    (q : List Bytes) (query : Bytes) (queries lines : List Bytes)
    → IsQuery q
    → scan_script query queries (q ++ lines) ≡ scan_script (query ++ text q) queries lines
unfolding text
scan_query [] query queries lines h = ap (λ x. scan_script x queries lines) (sym (append-nil query))
scan_query (line ∷ q) query queries lines (h, hs) =
    scan_line query line queries (q ++ lines) h
    ∙ scan_query q ((query ++ line) ++ b'\n' ∷ []) queries lines hs
    ∙ ap (λ x. scan_script x queries lines) (simp append_assoc)

scan_split :
    (query : Bytes) (queries lines : List Bytes)
    → scan_script query queries (codes "--bun:split" ∷ lines)
      ≡ scan_script [] (queries ++ query ∷ []) lines
unfolding scan_script has_prefix equal
scan_split query queries lines = refl

add_last_line :
    (queries : List Bytes) (line : Bytes) (q : List Bytes)
    → add_last queries (text (line ∷ q)) ≡ queries ++ text (line ∷ q) ∷ []
unfolding add_last text
add_last_line queries [] q = refl
add_last_line queries (c ∷ line) q = refl

scan_queries :
    (queries : List Bytes) (qs : List (List Bytes))
    → All IsQuery qs
    → LastFull qs
    → scan_script [] queries (script qs) ≡ ok (queries ++ map text qs)
unfolding scan_script script add_last
scan_queries queries [] h full = ap ok (sym (append-nil queries))
scan_queries queries ([] ∷ []) h full = absurd full
scan_queries queries ((line ∷ q) ∷ []) (h, _) full =
    ap (scan_script [] queries) (sym (append-nil (line ∷ q)))
    ∙ scan_query (line ∷ q) [] queries [] h
    ∙ ap ok (add_last_line queries line q)
scan_queries queries (q ∷ r ∷ rest) (h, hs) full =
    scan_query q [] queries (codes "--bun:split" ∷ script (r ∷ rest)) h
    ∙ scan_split (text q) queries (script (r ∷ rest))
    ∙ scan_queries (queries ++ text q ∷ []) (r ∷ rest) hs full
    ∙ ap ok (append_assoc queries (text q ∷ []) (map text (r ∷ rest)))

-- If no line of the queries is a directive and the last query has a line, a file of queries with a
-- split directive between them is cut into exactly these queries, each line with its line break.
pub scan_script-script :
    (qs : List (List Bytes))
    → All IsQuery qs
    → LastFull qs
    → scan_script [] [] (script qs) ≡ ok (map text qs)
scan_script-script qs h full = scan_queries [] qs h full
