-- ===== src/Sql/Statement.antt =====
-- sql.go: the span of a statement, and the targets that a driver remembers. ToUpper, as ToLower, leaves
-- letters beyond ASCII as they are. What parseDSN makes of a DSN is a parameter here, and so is
-- json.Marshal of a list of texts; the client is the driver's, or the default one in place of a nil one.
pub mod Cached
use go_collector.Base.{
  ℕ, ◌-◌, Bool, true, false, not, ◌&&◌, ◌||◌, List, [], ◌∷◌, ◌++◌, Option, none, some, length, take,
  ltb, leb, ◌==◌, within, if◌then◌else◌,
}
use go_collector.Base.Assoc.{lookup, put}
use go_collector.Base.Bytes.{Bytes, codes, is_empty, bytes_eq}
use go_collector.Base.Decimal.{itoa}
use go_collector.Base.Int.{ℤ, pos}
use go_collector.Messaging.{upper_ascii}
use go_collector.Profiling.Io.{IoWait, record_io_wait}
use go_collector.Profiling.Recorder.{IoRecorder}
use go_collector.Resource.{Build}
use go_collector.Sql.Dsn.{ConnTarget, is_empty_target}
use go_collector.Sql.Params.{ParamList, items_of, bounded_parameters_json}
use go_collector.Text.Lower.{to_lower}
use go_collector.Text.Trim.{trim_space, trim_left, wide_spaces, ascii_space}
use go_collector.Tracing.{
  Client, Context, Drawn, Span, Effect, start_span, set_attribute, set_status, end,
}

abbrev pub max_sql_text_length : ℕ
max_sql_text_length = 16384

abbrev pub max_cached_dsns : ℕ
max_cached_dsns = 64

abbrev pub among : Bytes → List Bytes → Bool
among s [] = false
among s (t ∷ ts) = bytes_eq s t || among s ts

unfoldable pub system_from_driver : Bytes → Bytes
system_from_driver name =
    let lower = to_lower (trim_space name) in
    if bytes_eq lower (codes "mysql")
    then codes "mysql"
    else if among lower (codes "sqlite" ∷ codes "sqlite3" ∷ [])
    then codes "sqlite"
    else if among lower (codes "postgres" ∷ codes "postgresql" ∷ codes "pgx" ∷ codes "pq" ∷ [])
    then codes "postgresql"
    else if among lower (codes "sqlserver" ∷ codes "mssql" ∷ [])
    then codes "mssql"
    else if is_empty name
    then codes "sql"
    else to_lower name

-- unicode.IsSpace of a byte taken as a rune.
abbrev pub byte_space : ℕ → Bool
byte_space c = ascii_space c || (c == 0x85 || c == 0xa0)

abbrev pub first_word : Bytes → Bytes
first_word [] = []
first_word (c ∷ s) = if byte_space c then [] else c ∷ first_word s

unfoldable pub sql_verb : Bytes → Bytes
sql_verb query =
    let verb = upper_ascii (first_word (trim_left wide_spaces query)) in
    if is_empty verb then codes "QUERY" else verb

abbrev pub truncate_sql : Bytes → Bytes
truncate_sql s = if leb (length s) max_sql_text_length then s else take max_sql_text_length s

pub record SqlDriver : Type 0 where
  pub client : Client
  pub name : Bytes
  pub system : Bytes
  pub targets : List (Bytes × ConnTarget)

-- sqlDriver.target: the target of a DSN, and the driver that remembers it.
unfoldable pub target :
    (Bytes → Bytes → Bytes → ConnTarget) → Bytes → SqlDriver → ConnTarget × SqlDriver
target parse dsn d = elim (lookup dsn d.targets) [
  | some t ↦ (t, d)
  | none ↦
      let t = parse d.system d.name dsn in
      (
        t,
        if ltb (length d.targets) max_cached_dsns
            then record d { targets = put dsn t d.targets }
            else d,
      )
]

pub record SqlOp : Type 0 where
  pub span : Option Span
  pub ctx : Context
  pub verb : Bytes

abbrev pub set_both : Bytes → Bytes → Bytes → Span → Span
set_both key mirror value s =
    if is_empty value then s else set_attribute mirror value (set_attribute key value s)

abbrev pub set_one : Bytes → Bytes → Span → Span
set_one key value s = if is_empty value then s else set_attribute key value s

unfoldable pub set_target_attributes : ConnTarget → Span → Span
set_target_attributes t s =
    if is_empty_target t
    then s
    else set_one (codes "db.driver") t.driver (
        set_one (codes "db.user") t.user (
          set_one (codes "db.name") t.name (
            set_both (codes "server.port") (codes "net.peer.port") t.port
              (set_both (codes "db.host") (codes "server.address") t.host s))))

unfoldable pub set_parameter_attributes : (List Bytes → Option Bytes) → ParamList → Span → Span
set_parameter_attributes marshal p s =
    let count = length (items_of p) in
    if count == 0
    then s
    else set_one (codes "db.parameters") (bounded_parameters_json marshal p)
        (set_attribute (codes "db.parameters.count") (itoa count) s)

abbrev pub describe_statement : SqlDriver → Bytes → Bytes → Span → Span
describe_statement d verb query s = set_attribute (codes "db.query.text") (truncate_sql query) (
    set_attribute (codes "db.statement") (truncate_sql query) (
      set_attribute (codes "db.operation") verb (
        set_attribute (codes "db.statement.verb") verb (
          set_attribute (codes "db.system") d.system
            (set_attribute (codes "span.kind") (codes "client") s)))))

-- Without a span in the context the statement is measured, and has none.
unfoldable pub start_sql_span :
    (List Bytes → Option Bytes)
    → SqlDriver
    → Context
    → Bytes
    → ConnTarget
    → ParamList
    → Drawn
    → SqlOp
start_sql_span marshal d none query t p drawn = record {
  span = none;
  ctx = none;
  verb = sql_verb query;
}
start_sql_span marshal d (some parent) query t p drawn =
    let verb = sql_verb query in
    let (ctx, span) = start_span (some d.client) (some parent) (codes "SQL " ++ verb) drawn in
    record {
      span = some (
          set_parameter_attributes marshal p
            (set_target_attributes t (describe_statement d verb query span)));
      ctx = ctx;
      verb = verb;
    }

abbrev pub mark_failed : Option Bytes → Span → Span
mark_failed none s = s
mark_failed (some e) s =
    set_attribute (codes "exception.message") e
      (set_attribute (codes "error") (codes "true") (set_status (codes "error") s))

-- A nil span has nothing to end.
abbrev pub end_sql :
    (Bytes → Bytes) → Build → Bytes → Bytes → Option Bytes → Option Span → List Effect
end_sql sha256 build now seed err none = []
end_sql sha256 build now seed err (some s) = (end sha256 build now seed (mark_failed err s)).0 ∷ []

-- finishSQLSpan: the effect of the end, and the recorder with the measured wait.
abbrev pub finish_sql_span :
    (Bytes → Bytes)
    → Build
    → Bytes
    → Bytes
    → SqlDriver
    → SqlOp
    → Option Bytes
    → ℤ
    → List ℕ
    → Option (IoRecorder IoWait)
    → List Effect × Option (IoRecorder IoWait)
finish_sql_span sha256 build now seed d op err duration callers io = (
  end_sql sha256 build now seed err op.span,
  record_io_wait d.client.cfg op.ctx (codes "SQL " ++ op.verb) d.system duration callers now io,
)

abbrev pub abandon_span : SqlOp → SqlOp
abandon_span op = elim op.span [
  | none ↦ op
  | some s ↦ record op { span = some (record s { ended = true }) }
]
