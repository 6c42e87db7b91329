-- ===== src/Sql/Statement/Cached.antt =====
-- The memory of a driver changes no target, and is bounded.
use mathlib.Core.Path.{subst}
use go_collector.Base.{
  ◌≤◌, List, [], ◌∷◌, map, ◌≡◌, refl, sym, ap, ◌∙◌, Option, none, some, length, ltb, arith,
  Bool-cases, Option-cases, inl, inr,
}
use go_collector.Base.Assoc.{lookup, put, lookup-put, length-put}
use go_collector.Base.Bytes.{Bytes, bytes_eq, bytes_eq_iff}
use go_collector.Sql.Dsn.{ConnTarget}
use go_collector.Sql.Statement.{SqlDriver, target, max_cached_dsns}
use go_collector.Tracing.{Client}

two_equal : {t u : ConnTarget} {ts us : List ConnTarget} → t ≡ u → ts ≡ us → t ∷ ts ≡ u ∷ us
two_equal e f = rw (e, f) refl

module _ (parse : Bytes → Bytes → Bytes → ConnTarget) where
  -- The targets of successive DSNs.
  unfoldable pub targets_of : List Bytes → SqlDriver → List ConnTarget × SqlDriver
  targets_of [] d = ([], d)
  targets_of (dsn ∷ dsns) d =
      let (t, d') = target parse dsn d in let (ts, d'') = targets_of dsns d' in (t ∷ ts, d'')

  abbrev Right : Bytes → Bytes → Bytes → Option ConnTarget → Type 0
  Right system name dsn none = Unit
  Right system name dsn (some t) = t ≡ parse system name dsn

  -- Every remembered target is the one that parsing its DSN gives.
  record IsCache (system name : Bytes) (d : SqlDriver) : Type 0 where
    same_system : d.system ≡ system
    same_name : d.name ≡ name
    right : (dsn : Bytes) → Right system name dsn (lookup dsn d.targets)
    bounded : length d.targets ≤ 64

  put-Right :
      (system name key dsn : Bytes) (m : List (Bytes × ConnTarget))
      → Right system name dsn (lookup dsn m)
      → Right system name dsn (lookup dsn (put key (parse system name key) m))
  put-Right system name key dsn m h = elim (Bool-cases (bytes_eq key dsn)) [
    | inl same ↦
        rw (lookup-put key dsn (parse system name key) m, same)
          (ap (parse system name) ((bytes_eq_iff key dsn).0 same))
    | inr other ↦ rw (lookup-put key dsn (parse system name key) m, other) h
  ]

  abbrev Targets : Bytes → Bytes → Bytes → ConnTarget × SqlDriver → Type 0
  Targets system name dsn (t, d) = (t ≡ parse system name dsn) × IsCache system name d

  target-Targets :
      (system name dsn : Bytes) (d : SqlDriver)
      → IsCache system name d
      → Targets system name dsn (target parse dsn d)
  unfolding target
  target-Targets system name dsn d c = elim (Option-cases (lookup dsn d.targets)) [
    | inr (t, there) ↦ rw (target, there) (rw there at (c.right dsn), c)
    | inl absent ↦
        let parsed : parse d.system d.name dsn ≡ parse system name dsn =
          ap (λ x. parse x d.name dsn) c.same_system ∙ ap (λ x. parse system x dsn) c.same_name in
        elim (Bool-cases (ltb (length d.targets) max_cached_dsns)) [
          | inr full ↦ rw (target, absent, full) (parsed, c)
          | inl room ↦
              rw (target, absent, room)
                (
                  parsed,
                  record {
                    same_system = c.same_system;
                    same_name = c.same_name;
                    right = λ key.
                        subst (λ t. Right system name key (lookup key (put dsn t d.targets)))
                          (sym parsed) (put-Right system name dsn key d.targets (c.right key));
                    bounded = ground (arith, length-put dsn (parse d.system d.name dsn) d.targets);
                  },
                )
        ]
  ]

  targets_of-from :
      (system name : Bytes) (dsns : List Bytes) (d : SqlDriver)
      → IsCache system name d
      → ((targets_of dsns d).0 ≡ map (parse system name) dsns)
        × IsCache system name (targets_of dsns d).1
  unfolding targets_of
  targets_of-from system name [] d c = (refl, c)
  targets_of-from system name (dsn ∷ dsns) d c =
      let (e, c') = target-Targets system name dsn d c in
      let (es, c'') = targets_of-from system name dsns _ c' in (two_equal e es, c'')

  -- A driver that remembers nothing yet answers any DSNs, in any order and as often as they come, with
  -- the targets that parsing each would give, and never remembers more than 64.
  pub targets_of-map :
      (client : Client) (system name : Bytes) (dsns : List Bytes)
      → let d : SqlDriver = record {
        client = client;
        name = name;
        system = system;
        targets = [];
      } in
        let (ts, d') = targets_of dsns d in
        (ts ≡ map (parse system name) dsns) × (length d'.targets ≤ 64)
  targets_of-map client system name dsns =
      let (e, c) =
        targets_of-from system name dsns
          (record { client = client; name = name; system = system; targets = [] })
          (record {
            same_system = refl;
            same_name = refl;
            right = λ dsn. unfold lookup in tt;
            bounded = omega arith;
          }) in
      (e, c.bounded)
