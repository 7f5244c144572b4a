-- ===== src/Store/Errors.antt =====
-- What a query of internal/app/control-plane/store/sqlc reports beside its rows.

-- No row (`sql.ErrNoRows`), a broken constraint, or a connection that failed.
pub data DbError : Type 0 where
  no_rows constraint unavailable : DbError
