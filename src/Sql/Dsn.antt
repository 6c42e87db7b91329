-- ===== src/Sql/Dsn.antt =====
-- sql_dsn.go: the server, schema and user behind a DSN, which is taken to be valid UTF-8. net/url is
-- a parameter, and so is the order in which Go ranges over the pairs of a keyword DSN.
pub mod Mysql
use go_collector.Base.{
  ℕ, zero, suc, ◌-◌, Bool, true, false, not, ◌&&◌, ◌||◌, List, [], ◌∷◌, ◌++◌, Option, none, some,
  length, take, drop, leb, ◌==◌, if◌then◌else◌,
}
use go_collector.Base.Assoc.{lookup, put}
use go_collector.Base.Bytes.{Bytes, codes, is_empty, bytes_eq, has_prefix, has_suffix, trim_prefix}
use go_collector.Propagation.Percent.{contains_byte}
use go_collector.Sql.Pairs.{Pairs, keyword_pairs}
use go_collector.Text.Lower.{to_lower}
use go_collector.Text.Split.{cut}
use go_collector.Text.Trim.{trim_space}

pub record ConnTarget : Type 0 where
  pub host : Bytes
  pub port : Bytes
  pub name : Bytes
  pub user : Bytes
  pub driver : Bytes

abbrev pub no_target : ConnTarget
no_target = record { host = []; port = []; name = []; user = []; driver = [] }

abbrev pub is_empty_target : ConnTarget → Bool
is_empty_target t = is_empty t.host && is_empty t.port && is_empty t.name && is_empty t.user

-- strings.LastIndex: in front of and behind the last `sep`.
unfoldable pub cut_last : ℕ → Bytes → Option (Bytes × Bytes)
cut_last sep [] = none
cut_last sep (c ∷ s) = elim (cut_last sep s) [
  | some (before, after) ↦ some (c ∷ before, after)
  | none ↦ if c == sep then some ([], s) else none
]

-- strings.Index of a longer text: what stands in front of it.
abbrev pub before_text : Bytes → Bytes → Option Bytes
before_text p [] = none
before_text p (c ∷ s) =
    if has_prefix (c ∷ s) p
    then some []
    else elim (before_text p s) [ none ↦ none | some before ↦ some (c ∷ before) ]

abbrev pub contains_any : Bytes → Bytes → Bool
contains_any [] chars = false
contains_any (c ∷ s) chars = contains_byte c chars || contains_any s chars

abbrev pub is_url_dsn : Bytes → Bool
is_url_dsn dsn = elim (before_text (codes "://") dsn) [
  | none ↦ false
  | some scheme ↦ not (is_empty scheme) && not (contains_any scheme (codes " ;="))
]

-- What url.Parse tells: the user where there is one, and the value of a query parameter.
pub record Url : Type 0 where
  pub hostname : Bytes
  pub port : Bytes
  pub user : Option Bytes
  pub path : Bytes
  pub query : Bytes → Bytes

abbrev pub with_default_port : Bytes → ConnTarget → ConnTarget
with_default_port default_port t =
    if is_empty t.port && not (is_empty t.host) then record t { port = default_port } else t

abbrev pub query_name : Url → Bytes → Bytes → Bytes
query_name url database_param name =
    if not (is_empty database_param) && not (is_empty (url.query database_param))
    then url.query database_param
    else name

abbrev pub url_target : Url → Bytes → Bytes → ConnTarget
url_target url default_port database_param =
    let t =
      with_default_port default_port (record no_target { host = url.hostname; port = url.port }) in
    record t {
      user = elim url.user [ none ↦ [] | some user ↦ user ];
      name = query_name url database_param (trim_prefix url.path (codes "/"));
    }

-- The body of the range in parseKeywordDSN.
abbrev pub keyword_field : Bytes → Bytes → ConnTarget → ConnTarget
keyword_field key value t =
    if bytes_eq key (codes "host") || bytes_eq key (codes "hostaddr")
    then if is_empty t.host then record t { host = value } else t
    else if bytes_eq key (codes "port")
    then record t { port = value }
    else if bytes_eq key (codes "user")
    then record t { user = value }
    else if bytes_eq key (codes "dbname") || bytes_eq key (codes "database")
    then record t { name = value }
    else t

abbrev pub keyword_fields : Pairs → ConnTarget → ConnTarget
keyword_fields [] t = t
keyword_fields ((key, value) ∷ pairs) t = keyword_fields pairs (keyword_field key value t)

abbrev pub parse_keyword_dsn : (Pairs → Pairs) → Bytes → Bytes → ConnTarget
parse_keyword_dsn order dsn default_port =
    with_default_port default_port (keyword_fields (order (keyword_pairs dsn b' ')) no_target)

abbrev pub split_server_instance : Bytes → Bytes × Bytes
split_server_instance value = elim (cut_last b',' value) [
  | some (host, port) ↦ (trim_space host, trim_space port)
  | none ↦ (trim_space value, [])
]

-- The body of the range in parseSemicolonDSN.
abbrev pub semicolon_field : Bytes → Bytes → ConnTarget → ConnTarget
semicolon_field key value t =
    let (host, instance_port) = split_server_instance value in
    if bytes_eq key (codes "server")
      || bytes_eq key (codes "address")
      || bytes_eq key (codes "data source")
      || bytes_eq key (codes "host")
    then record t { host = host; port = if is_empty instance_port then t.port else instance_port }
    else if bytes_eq key (codes "port")
    then record t { port = value }
    else if bytes_eq key (codes "user id")
        || bytes_eq key (codes "uid")
        || bytes_eq key (codes "user")
    then record t { user = value }
    else if bytes_eq key (codes "database") || bytes_eq key (codes "initial catalog")
    then record t { name = value }
    else t

abbrev pub semicolon_fields : Pairs → ConnTarget → ConnTarget
semicolon_fields [] t = t
semicolon_fields ((key, value) ∷ pairs) t = semicolon_fields pairs (semicolon_field key value t)

abbrev pub parse_semicolon_dsn : (Pairs → Pairs) → Bytes → Bytes → ConnTarget
parse_semicolon_dsn order dsn default_port =
    with_default_port default_port (semicolon_fields (order (keyword_pairs dsn b';')) no_target)

abbrev pub split_last_colon : Bytes → Bytes × Bytes
split_last_colon address = elim (cut_last b':' address) [
  | some (host, port) ↦ if contains_byte b':' port then (address, []) else (host, port)
  | none ↦ (address, [])
]

unfoldable pub split_host_port : Bytes → Bytes × Bytes
split_host_port [] = split_last_colon []
split_host_port (c ∷ s) =
    if c == b'['
    then elim (cut b']' (c ∷ s)) [
      | some (bracketed, rest) ↦ (drop 1 bracketed, trim_prefix rest (codes ":"))
      | none ↦ split_last_colon (c ∷ s)
    ]
    else split_last_colon (c ∷ s)

-- Up to a `?`.
abbrev pub before_query : Bytes → Bytes
before_query s = elim (cut b'?' s) [ none ↦ s | some (before, params) ↦ before ]

abbrev pub mysql_user : Bytes → Bytes
mysql_user credentials = elim (cut b':' credentials) [
  | none ↦ credentials
  | some (user, password) ↦ user
]

-- protocol(address)
abbrev pub mysql_address : Bytes → Bytes × Bytes
mysql_address s = elim (cut b'(' s) [
  | none ↦ (s, [])
  | some (protocol, address) ↦
      if has_suffix s (codes ")") then (protocol, take (length address - 1) address) else (s, [])
]

unfoldable pub mysql_server : Bytes → ConnTarget → ConnTarget
mysql_server s t =
    let (protocol, address) = mysql_address s in
    let (host, port) =
      split_host_port (if is_empty address then codes "127.0.0.1:3306" else address) in
    if bytes_eq (to_lower protocol) (codes "unix")
    then record t { host = address }
    else record t { host = host; port = if is_empty port then codes "3306" else port }

unfoldable pub parse_mysql_dsn : Bytes → ConnTarget
parse_mysql_dsn dsn = elim (cut_last b'/' dsn) [
  | none ↦ no_target
  | some (before, after) ↦ elim (cut_last b'@' before) [
    | none ↦ mysql_server before (record no_target { name = before_query after })
    | some (credentials, server) ↦
        mysql_server server
          (record no_target { name = before_query after; user = mysql_user credentials })
  ]
]

-- path.Base of a text that is not empty: trailing slashes go, then all up to the last slash.
abbrev pub trim_slashes : Bytes → Bytes
trim_slashes [] = []
trim_slashes (c ∷ s) =
    let rest = trim_slashes s in if is_empty rest && c == b'/' then [] else c ∷ rest

abbrev pub base_of : Bytes → Bytes
base_of s = elim (cut_last b'/' s) [
  | some (dir, base) ↦ base
  | none ↦ if is_empty s then codes "/" else s
]

unfoldable pub sqlite_name : Bytes → Bytes
sqlite_name dsn =
    let trimmed = before_query (trim_prefix dsn (codes "file:")) in
    if is_empty trimmed || bytes_eq trimmed (codes ":memory:")
    then trimmed
    else base_of (trim_slashes trimmed)

module _ (parse_url : Bytes → Option Url) (order : Pairs → Pairs) where
  unfoldable pub parse_url_dsn : Bytes → Bytes → Bytes → ConnTarget
  parse_url_dsn dsn default_port database_param = elim (parse_url dsn) [
    | none ↦ no_target
    | some url ↦ url_target url default_port database_param
  ]

  unfoldable pub parse_dsn_target : Bytes → Bytes → ConnTarget
  unfolding parse_url_dsn
  parse_dsn_target system text =
      let dsn = trim_space text in
      if is_empty dsn
      then no_target
      else if bytes_eq system (codes "mysql")
      then parse_mysql_dsn dsn
      else if bytes_eq system (codes "postgresql")
      then if is_url_dsn dsn
        then parse_url_dsn dsn (codes "5432") []
        else parse_keyword_dsn order dsn (codes "5432")
      else if bytes_eq system (codes "mssql")
      then if is_url_dsn dsn
        then parse_url_dsn dsn (codes "1433") (codes "database")
        else parse_semicolon_dsn order dsn (codes "1433")
      else if bytes_eq system (codes "sqlite")
      then record no_target { name = sqlite_name dsn }
      else if is_url_dsn dsn
      then parse_url_dsn dsn [] []
      else no_target

  unfoldable pub parse_dsn : Bytes → Bytes → Bytes → ConnTarget
  unfolding parse_dsn_target
  parse_dsn system driver_name dsn = record (parse_dsn_target system dsn) {
    driver = trim_space driver_name;
  }
