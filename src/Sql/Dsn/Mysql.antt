-- ===== src/Sql/Dsn/Mysql.antt =====
-- A DSN in go-sql-driver's form, and what of it reaches a span.
use go_collector.Base.{
  ℕ, ◌-◌, false, [], ◌∷◌, ◌++◌, ◌≡◌, refl, ap, none, some, arith, length, length-append,
  take-append_of_eq,
}
use go_collector.Base.Bytes.{Bytes, codes, is_empty, has_suffix-append}
use go_collector.Propagation.Percent.{contains_byte}
use go_collector.Sql.Dsn.{
  ConnTarget, no_target, cut_last, before_query, mysql_user, mysql_address, split_last_colon,
  split_host_port, mysql_server, parse_mysql_dsn,
}
use go_collector.Text.Split.{cut, Free, Free-append, cut-append}

cut_last-Free : (sep : ℕ) (s : Bytes) → Free sep s → cut_last sep s ≡ none
unfolding cut_last
cut_last-Free sep [] h = refl
cut_last-Free sep (c ∷ s) h = rw (cut_last-Free sep s h.1, h.0) refl

cut_last-append : (sep : ℕ) (s t : Bytes) → Free sep t → cut_last sep (s ++ (sep ∷ t)) ≡ some (s, t)
unfolding cut_last
cut_last-append sep [] t h = rw (cut_last-Free sep t h) (ground arith)
cut_last-append sep (c ∷ s) t h = rw (cut_last-append sep s t h) refl

contains_byte-Free : (b : ℕ) (s : Bytes) → Free b s → contains_byte b s ≡ false
contains_byte-Free b [] h = refl
contains_byte-Free b (c ∷ s) h = rw (h.0, contains_byte-Free b s h.1) refl

-- An address that names a host and a port, as go-sql-driver's own `tcp` form has it.
pub record IsServer (host port : Bytes) : Type 0 where
  pub host_named : is_empty host ≡ false
  pub host_unbracketed : Free b'[' host
  pub host_no_at : Free b'@' host
  pub port_named : is_empty port ≡ false
  pub port_no_colon : Free b':' port
  pub port_no_at : Free b'@' port

split_host_port-IsServer :
    (host port : Bytes)
    → IsServer host port
    → split_host_port (host ++ (b':' ∷ port)) ≡ (host, port)
unfolding split_host_port
split_host_port-IsServer [] port h = absurd (ground (arith, h.host_named))
split_host_port-IsServer (c ∷ host) port h =
    rw
      (
        h.host_unbracketed.0,
        split_last_colon,
        cut_last-append b':' (c ∷ host) port h.port_no_colon,
        contains_byte-Free b':' port h.port_no_colon,
      )
      refl

abbrev pub tcp : Bytes → Bytes → Bytes
tcp host port = codes "tcp(" ++ ((host ++ (b':' ∷ port)) ++ codes ")")

mysql_address-tcp :
    (host port : Bytes) → mysql_address (tcp host port) ≡ (codes "tcp", host ++ (b':' ∷ port))
unfolding cut
mysql_address-tcp host port =
    let address = host ++ (b':' ∷ port) in
    rw (has_suffix-append (codes "tcp(" ++ address) (codes ")")) (
      ap (λ t. (codes "tcp", t))
        (take-append_of_eq (length (address ++ codes ")") - 1) address (codes ")")
          (omega (arith, length-append {0} address (codes ")")))))

keyed-nonempty : (k t : Bytes) → is_empty k ≡ false → is_empty (k ++ t) ≡ false
keyed-nonempty [] t h = absurd (ground (arith, h))
keyed-nonempty (c ∷ k) t h = refl

mysql_server-tcp :
    (host port : Bytes) (t : ConnTarget)
    → IsServer host port
    → mysql_server (tcp host port) t ≡ record t { host = host; port = port }
unfolding mysql_server
mysql_server-tcp host port t h =
    rw
      (
        mysql_address-tcp host port,
        keyed-nonempty host (b':' ∷ port) h.host_named,
        split_host_port-IsServer host port h,
        h.port_named,
      )
      refl

Free-tcp : (host port : Bytes) → IsServer host port → Free b'@' (tcp host port)
Free-tcp host port h = (
  refl,
  (
    refl,
    (
      refl,
      (
        refl,
        Free-append b'@' (host ++ (b':' ∷ port)) (codes ")")
            (Free-append b'@' host (b':' ∷ port) h.host_no_at (refl, h.port_no_at)) (refl, tt),
      ),
    ),
  ),
)

-- The DSN, from the user to the parameters behind the schema's name.
abbrev pub mysql_dsn : Bytes → Bytes → Bytes → Bytes → Bytes → Bytes → Bytes
mysql_dsn user password host port name params =
    (((user ++ (b':' ∷ password)) ++ (b'@' ∷ tcp host port)) ++ (b'/' ∷ (name ++ (b'?' ∷ params))))

-- From a DSN `user:password@tcp(host:port)/name?params` come its host, port, schema and user, whatever
-- the password is, also one with slashes, at signs, colons or parentheses: no byte of it is in the
-- target. The user has no colon, the schema no slash or `?`, and the parameters no slash.
pub parse_mysql_dsn-mysql_dsn :
    (user password host port name params : Bytes)
    → IsServer host port
    → Free b':' user
    → Free b'/' name
    → Free b'?' name
    → Free b'/' params
    → parse_mysql_dsn (mysql_dsn user password host port name params)
      ≡ record { host = host; port = port; name = name; user = user; driver = [] }
unfolding parse_mysql_dsn
parse_mysql_dsn-mysql_dsn user password host port name params server u n q p =
    rw
      (
        parse_mysql_dsn,
        cut_last-append b'/' ((user ++ (b':' ∷ password)) ++ (b'@' ∷ tcp host port))
            (name ++ (b'?' ∷ params)) (Free-append b'/' name (b'?' ∷ params) n (refl, p)),
        cut_last-append b'@' (user ++ (b':' ∷ password)) (tcp host port)
            (Free-tcp host port server),
        before_query,
        mysql_user,
        cut-append b'?' name params q,
        cut-append b':' user password u,
      )
      (mysql_server-tcp host port (record no_target { name = name; user = user }) server)
