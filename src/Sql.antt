-- ===== src/Sql.antt =====
-- The SQL instrumentation's view of a statement: `Params` its bound values (sql_params.go), `Dsn`
-- the server that it goes to, with the `Pairs` of a keyword DSN (sql_dsn.go), `Statement` its span
-- (sql.go), and `Driver` the wrapped connection (sql_driver.go).
pub mod Params
pub mod Pairs
pub mod Dsn
pub mod Statement
pub mod Driver
mod Tests
