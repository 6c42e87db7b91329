-- ===== src/Sql/Tests.antt =====
-- The theorems of the SQL instrumentation at concrete inputs.
use go_collector.Base.{ℕ, ◌≤◌, List, [], ◌∷◌, map, ◌≡◌, refl, none, some, length}
use go_collector.Base.Bytes.{Bytes, codes}
use go_collector.Base.Int.{pos}
use go_collector.Sql.Dsn.Mysql.{IsServer, mysql_dsn, parse_mysql_dsn-mysql_dsn}
use go_collector.Sql.Dsn.{ConnTarget, no_target, parse_mysql_dsn}
use go_collector.Sql.Driver.{Around, Parent, skip, failed, conn_run}
use go_collector.Sql.Driver.Wrapped.{answers, first_answer, EndsNone, conn_run-first_answer}
use go_collector.Sql.Statement.{SqlDriver}
use go_collector.Sql.Statement.Cached.{targets_of, targets_of-map}
use go_collector.Tracing.Sample.{client, drawn, build}

db-IsServer : IsServer (codes "db") (codes "3307")
db-IsServer = record {
  host_named = refl;
  host_unbracketed = (refl, (refl, tt));
  host_no_at = (refl, (refl, tt));
  port_named = refl;
  port_no_colon = (refl, (refl, (refl, (refl, tt))));
  port_no_at = (refl, (refl, (refl, (refl, tt))));
}

parse_mysql_dsn-mysql_dsn_example :
    parse_mysql_dsn (
      mysql_dsn
        (codes "app")
        (codes "p@ss/w:rd(")
        (codes "db")
        (codes "3307")
        (codes "shop")
        (codes "tls=true"))
    ≡ record {
      host = codes "db";
      port = codes "3307";
      name = codes "shop";
      user = codes "app";
      driver = [];
    }
parse_mysql_dsn-mysql_dsn_example =
    parse_mysql_dsn-mysql_dsn (codes "app") (codes "p@ss/w:rd(") (codes "db") (codes "3307")
      (codes "shop") (codes "tls=true") db-IsServer (refl, (refl, (refl, tt)))
      (refl, (refl, (refl, (refl, tt)))) (refl, (refl, (refl, (refl, tt))))
      (refl, (refl, (refl, (refl, (refl, (refl, (refl, (refl, tt))))))))

abbrev by_text : Bytes → Bytes → Bytes → ConnTarget
by_text system name dsn = record no_target { host = dsn }

abbrev two_dsns : List Bytes
two_dsns = codes "db1" ∷ codes "db2" ∷ codes "db1" ∷ []

targets_of-map_example :
    let d : SqlDriver = record {
      client = client;
      name = codes "pgx";
      system = codes "postgresql";
      targets = [];
    } in
    let (ts, d') = targets_of by_text two_dsns d in
    (ts ≡ map (by_text (codes "postgresql") (codes "pgx")) two_dsns) × (length d'.targets ≤ 64)
targets_of-map_example = targets_of-map by_text client (codes "postgresql") (codes "pgx") two_dsns

abbrev around : Around
around = record {
  sha256 = λ bytes. bytes;
  build = build;
  seed = codes "seed";
  marshal = λ texts. none;
  drawn = drawn;
  now = drawn.now;
  duration = pos 5;
  callers = 1 ∷ [];
}

-- The way with a context skips, and the plain one fails.
abbrev failing : Parent ℕ
failing = record {
  with_context = some (λ ctx query args. skip);
  plain = some (λ query vals. failed (codes "no such table"));
}

abbrev pgx : SqlDriver
pgx = record { client = client; name = codes "pgx"; system = codes "postgresql"; targets = [] }

conn_run-first_answer_example :
    let v = conn_run around pgx failing none (codes "SELECT 1") no_target [] none in
    (v.result ≡ first_answer (answers failing none (codes "SELECT 1") []))
    × (length v.effects ≤ 1)
    × EndsNone v
conn_run-first_answer_example =
    conn_run-first_answer around pgx none failing none (codes "SELECT 1") no_target []
