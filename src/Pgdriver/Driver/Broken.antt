-- ===== src/Pgdriver/Driver/Broken.antt =====
-- What driver/pgdriver/driver.go does with a connection behind an error.
use uptrace_bun.Prelude.{
  ◌≡◌, refl, sym, ap, ◌∙◌, Bool, true, false, List, Option, none, some, Bytes, Bool-cases, inl, inr,
  if◌then◌else◌, Result, ok, err,
}
use uptrace_bun.Pgdriver.Messages.{DriverValue}
use uptrace_bun.Pgdriver.Driver.{
  DriverConn, DriverError, bad_conn, Op, exec, query_rows, close_conn, breaks_conn, check_bad_conn,
  unless_closed, exec_context, query_context, prepare_open, prepare,
}

module _ {A : Type 0} where
  -- Whether an operation left its connection closed, and whether it failed so that this is to be so.
  is_closed : Option (Result DriverError A × DriverConn) → Bool
  is_closed none = false
  is_closed (some (r, cn)) = cn.closed

  is_broken : Option (Result DriverError A × DriverConn) → Bool
  is_broken none = false
  is_broken (some (ok a, cn)) = false
  is_broken (some (err e, cn)) = breaks_conn e

  check_bad_conn-closes :
      (r : Option (Result DriverError A × DriverConn))
      → is_broken (check_bad_conn r) ≡ true
      → is_closed (check_bad_conn r) ≡ true
  unfolding check_bad_conn is_broken is_closed close_conn
  check_bad_conn-closes none h = h
  check_bad_conn-closes (some (ok a, cn)) h = cc
  check_bad_conn-closes (some (err e, cn)) h = rw h refl

  closed-refuses :
      (op : Op A) (cn : DriverConn)
      → cn.closed ≡ true
      → unless_closed op cn ≡ some (err bad_conn, cn)
  unfolding unless_closed
  closed-refuses op cn h = ap (λ b. if b then some (err bad_conn, cn) else op cn) h

  unless_closed-closes :
      (op : Op A) (cn : DriverConn)
      → is_broken (unless_closed (λ c. check_bad_conn (op c)) cn) ≡ true
      → is_closed (unless_closed (λ c. check_bad_conn (op c)) cn) ≡ true
  unfolding unless_closed is_closed
  unless_closed-closes op cn h = elim (Bool-cases (cn.closed)) [
    | inl e ↦ ap is_closed (closed-refuses (λ c. check_bad_conn (op c)) cn e) ∙ e
    | inr e ↦
        let open_conn = ap (λ b. if b then some (err bad_conn, cn) else check_bad_conn (op cn)) e in
        ap is_closed open_conn ∙ check_bad_conn-closes (op cn) (sym (ap is_broken open_conn) ∙ h)
  ]

-- If ExecContext returns an error for which a connection counts as bad, then ExecContext,
-- QueryContext and Prepare on the connection that it leaves return ErrBadConn and neither write to it
-- nor read from it.
pub exec_context-refuses :
    (query : Bytes) (args : List DriverValue) (cn cn' : DriverConn) (e : DriverError) (next : Bytes)
    (next_args : List DriverValue)
    → exec_context query args cn ≡ some (err e, cn')
    → breaks_conn e ≡ true
    → (exec_context next next_args cn' ≡ some (err bad_conn, cn'))
      × (query_context next next_args cn' ≡ some (err bad_conn, cn'))
      × (prepare next cn' ≡ some (err bad_conn, cn'))
unfolding exec_context query_context prepare is_closed is_broken
exec_context-refuses query args cn cn' e next next_args h b =
    let broken = ap is_broken h ∙ b in
    let closed = sym (ap is_closed h) ∙ unless_closed-closes (λ c. exec query args c) cn broken in
    (
      closed-refuses (λ c. check_bad_conn (exec next next_args c)) cn' closed,
      closed-refuses (λ c. check_bad_conn (query_rows next next_args c)) cn' closed,
      closed-refuses (λ c. prepare_open next c) cn' closed,
    )
