-- ===== src/Sql/Driver.antt =====
-- sql_driver.go: the wrapped connections and statements. What the parent driver has is data, and its
-- methods answer with a result, with ErrSkip or with another error. A context in which a statement is
-- measured carries no deadline here.
pub mod Wrapped
use go_collector.Base.{
  ℕ, Bool, true, false, not, List, [], ◌∷◌, ◌++◌, Option, none, some, if◌then◌else◌,
}
use go_collector.Base.Bytes.{Bytes, codes, is_empty}
use go_collector.Base.Int.{ℤ}
use go_collector.Profiling.Io.{IoWait}
use go_collector.Profiling.Recorder.{IoRecorder}
use go_collector.Resource.{Build}
use go_collector.Sql.Dsn.{ConnTarget}
use go_collector.Sql.Params.{Value, ParamList, named_params, value_params}
use go_collector.Sql.Statement.{SqlDriver, SqlOp, start_sql_span, finish_sql_span, abandon_span}
use go_collector.Tracing.{Context, Drawn, Effect}

pub record NamedValue : Type 0 where
  pub name : Bytes
  pub value : Value

pub data Result (R : Type 0) : Type 0 where
  ok : R → Result R
  skip : Result R
  failed : Bytes → Result R

abbrev pub needs_named : Bytes
needs_named =
    codes
      "chronos: named parameters require a driver that implements NamedValueChecker / ExecerContext"

abbrev pub values_of : List NamedValue → List Value
values_of [] = []
values_of (a ∷ as') = a.value ∷ values_of as'

-- The values, unless one of them has a name.
unfoldable pub named_to_values : List NamedValue → Option (List Value)
named_to_values [] = some []
named_to_values (a ∷ more) = elim (named_to_values more) [
  | none ↦ none
  | some vs ↦ if is_empty a.name then some (a.value ∷ vs) else none
]

-- What surrounds a statement: its draws, its clock, how long it takes and from where it is called.
pub record Around : Type 0 where
  pub sha256 : Bytes → Bytes
  pub build : Build
  pub seed : Bytes
  pub marshal : List Bytes → Option Bytes
  pub drawn : Drawn
  pub now : Bytes
  pub duration : ℤ
  pub callers : List ℕ

-- What is observed of a statement: what it returns, the spans that it ends, the measured waits.
pub record Ran (R : Type 0) : Type 0 where
  pub result : Result R
  pub effects : List Effect
  pub io : Option (IoRecorder IoWait)

module _ {R : Type 0} where
  abbrev pub error_of : Result R → Option Bytes
  error_of (ok _) = none
  error_of skip = some (codes "driver: skip fast-path; continue as if unimplemented")
  error_of (failed e) = some e

-- What a connection of the parent has: two ways to run a statement, with the context and with the plain
-- values.
pub record Parent (R : Type 0) : Type 0 where
  pub with_context : Option (Context → Bytes → List NamedValue → Result R)
  pub plain : Option (Bytes → List Value → Result R)

-- What a prepared statement of the parent has.
pub record ParentStmt (R : Type 0) : Type 0 where
  pub stmt_context : Option (Context → List NamedValue → Result R)
  pub stmt_plain : List Value → Result R

abbrev pub begin_op : Around → SqlDriver → Context → Bytes → ConnTarget → ParamList → SqlOp
begin_op w d ctx query t p = start_sql_span w.marshal d ctx query t p w.drawn

module _ {R : Type 0} (w : Around) (d : SqlDriver) where
  abbrev pub finished : SqlOp → Result R → Option (IoRecorder IoWait) → Ran R
  finished op result io =
      let (effects, io') =
        finish_sql_span w.sha256 w.build w.now w.seed d op (error_of result) w.duration w.callers
          io in
      record { result = result; effects = effects; io = io' }

  -- ErrSkip abandons the span, and the next way is tried.
  abbrev pub or_next : SqlOp → Result R → Ran R → Option (IoRecorder IoWait) → Ran R
  or_next op skip next io = next
  or_next op (ok r) next io = finished op (ok r) io
  or_next op (failed e) next io = finished op (failed e) io

  abbrev pub skipped : Option (IoRecorder IoWait) → Ran R
  skipped io = record { result = skip; effects = []; io = io }

  abbrev pub run_plain :
      Context
      → Bytes
      → ConnTarget
      → List NamedValue
      → Option (Bytes → List Value → Result R)
      → Option (IoRecorder IoWait)
      → Ran R
  run_plain ctx query t args none io = skipped io
  run_plain ctx query t args (some exec) io = elim (named_to_values args) [
    | none ↦ record { result = failed needs_named; effects = []; io = io }
    | some vals ↦
        or_next (begin_op w d ctx query t (named_params (some (values_of args)))) (exec query vals)
          (skipped io) io
  ]

  -- sqlConn.ExecContext and sqlConn.QueryContext.
  unfoldable pub conn_run :
      Parent R → Context → Bytes → ConnTarget → List NamedValue → Option (IoRecorder IoWait) → Ran R
  conn_run parent ctx query t args io = elim parent.with_context [
    | none ↦ run_plain ctx query t args parent.plain io
    | some exec ↦
        or_next (begin_op w d ctx query t (named_params (some (values_of args))))
          (exec ctx query args) (run_plain ctx query t args parent.plain io) io
  ]

  -- sqlStmt.Exec and sqlStmt.Query, under no context.
  unfoldable pub stmt_run :
      ParentStmt R → Bytes → ConnTarget → List Value → Option (IoRecorder IoWait) → Ran R
  stmt_run parent query t args io =
      finished (begin_op w d none query t (value_params args)) (parent.stmt_plain args) io

  abbrev pub stmt_result : ParentStmt R → Context → List NamedValue → Result R
  stmt_result parent ctx args = elim parent.stmt_context [
    | some exec ↦ exec ctx args
    | none ↦ elim (named_to_values args) [
      | none ↦ failed needs_named
      | some vals ↦ parent.stmt_plain vals
    ]
  ]

  -- sqlStmt.ExecContext and sqlStmt.QueryContext.
  unfoldable pub stmt_run_context :
      ParentStmt R
      → Context
      → Bytes
      → ConnTarget
      → List NamedValue
      → Option (IoRecorder IoWait)
      → Ran R
  stmt_run_context parent ctx query t args io =
      finished (begin_op w d ctx query t (named_params (some (values_of args))))
        (stmt_result parent ctx args) io
