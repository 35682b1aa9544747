-- ===== src/Migrate/Script.antt =====
-- migrate/migration.go: how `NewSQLMigrationFunc` cuts a SQL file into queries. The lines are those
-- that bufio.Scanner yields.
pub mod RoundTrip
use uptrace_bun.Prelude.{
  ℕ, Bool, true, false, List, [], ◌∷◌, ◌++◌, Bytes, codes, equal, take, drop, Result, ok, err,
}

abbrev pub prefix : Bytes
prefix = codes "--bun:"

unfoldable pub has_prefix : Bytes → Bool
has_prefix line = equal (take 6 line) prefix

unfoldable pub add_last : List Bytes → Bytes → List Bytes
add_last queries [] = queries
add_last queries (c ∷ query) = queries ++ (c ∷ query) ∷ []

-- The loop over the lines, with the query so far and the queries so far; the error holds the
-- directive that is unknown.
unfoldable pub scan_script : Bytes → List Bytes → List Bytes → Result Bytes (List Bytes)
unfolding has_prefix add_last
scan_script query queries [] = ok (add_last queries query)
scan_script query queries (line ∷ lines) =
    let cut = scan_script [] (queries ++ query ∷ []) lines in
    let more = scan_script ((query ++ line) ++ b'\n' ∷ []) queries lines in
    elim (has_prefix line) [
      | false ↦ more
      | true ↦ elim (equal (drop 6 line) (codes "split")) [ true ↦ cut | false ↦ err (drop 6 line) ]
    ]
