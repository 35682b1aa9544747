-- ===== src/Schema/Dialects.antt =====
-- The dialects' names, quotes and features: dialect/dialect.go, dialect/feature/feature.go, and
-- dialect.go of each dialect. A set of features is a test instead of a bit mask.
use uptrace_bun.Prelude.{ℕ, Bool, true, false}

pub data Name : Type 0 where
  invalid pg sqlite mysql5 mysql8 : Name

pub data Feature : Type 0 where
  returning default_placeholder double_colon_cast values_row update_multi_table : Feature
  insert_table_alias delete_table_alias auto_increment table_cascade table_identity : Feature
  table_truncate on_duplicate_key : Feature

-- `d.Features().Has(f)`
unfoldable pub has_feature : Name → Feature → Bool
has_feature invalid returning = true
has_feature pg returning = true
has_feature pg default_placeholder = true
has_feature pg double_colon_cast = true
has_feature pg insert_table_alias = true
has_feature pg delete_table_alias = true
has_feature pg table_cascade = true
has_feature pg table_identity = true
has_feature pg table_truncate = true
has_feature sqlite returning = true
has_feature sqlite insert_table_alias = true
has_feature sqlite delete_table_alias = true
has_feature mysql5 auto_increment = true
has_feature mysql5 default_placeholder = true
has_feature mysql5 update_multi_table = true
has_feature mysql5 values_row = true
has_feature mysql5 table_truncate = true
has_feature mysql5 on_duplicate_key = true
has_feature mysql8 auto_increment = true
has_feature mysql8 default_placeholder = true
has_feature mysql8 update_multi_table = true
has_feature mysql8 values_row = true
has_feature mysql8 table_truncate = true
has_feature mysql8 on_duplicate_key = true
has_feature mysql8 delete_table_alias = true
has_feature _ _ = false

unfoldable pub ident_quote : Name → ℕ
ident_quote mysql5 = b'`'
ident_quote mysql8 = b'`'
ident_quote _ = b'"'

-- `Formatter.IsNop`: the dialect's name is `Invalid`.
unfoldable pub is_invalid : Name → Bool
is_invalid invalid = true
is_invalid _ = false
