-- ===== src/Sql/Driver/Wrapped.antt =====
-- A wrapped connection answers as its parent does, and a statement ends one span at most.
use go_collector.Base.{
  ◌≤◌, Bool, true, false, ◌&&◌, List, [], ◌∷◌, map, all, ◌≡◌, refl, Option, none, some, length,
  arith, if◌then◌else◌, Bool-cases, Option-cases, inl, inr,
}
use go_collector.Base.Bytes.{Bytes, codes, is_empty}
use go_collector.Profiling.Io.{IoWait}
use go_collector.Profiling.Recorder.{IoRecorder}
use go_collector.Sql.Driver.{
  NamedValue, Result, ok, skip, failed, values_of, named_to_values, Around, Ran, Parent, begin_op,
  or_next, skipped, run_plain, conn_run,
}
use go_collector.Sql.Dsn.{ConnTarget}
use go_collector.Sql.Params.{Value, named_params}
use go_collector.Sql.Statement.{SqlDriver, SqlOp, end_sql}
use go_collector.Tracing.{Context, Span}

module _ {R : Type 0} where
  -- What the ways of a parent answer, in the order in which they are tried: its ExecerContext or
  -- QueryerContext, and its Execer or Queryer on the bare values, which refuses arguments with names.
  abbrev pub plain_answer : (Bytes → List Value → Result R) → Bytes → List NamedValue → Result R
  plain_answer exec query args =
      if all (λ a. is_empty a.name) args
      then exec query (map (λ a. a.value) args)
      else failed (
          codes
            "chronos: named parameters require a driver that implements NamedValueChecker / ExecerContext")

  abbrev pub plain_answers :
      Option (Bytes → List Value → Result R) → Bytes → List NamedValue → List (Result R)
  plain_answers none query args = []
  plain_answers (some exec) query args = plain_answer exec query args ∷ []

  abbrev pub answers : Parent R → Context → Bytes → List NamedValue → List (Result R)
  answers parent ctx query args = elim parent.with_context [
    | none ↦ plain_answers parent.plain query args
    | some exec ↦ exec ctx query args ∷ plain_answers parent.plain query args
  ]

  -- The first answer that is not ErrSkip, and ErrSkip without one.
  abbrev pub first_answer : List (Result R) → Result R
  first_answer [] = skip
  first_answer (ok r ∷ rs) = ok r
  first_answer (failed e ∷ rs) = failed e
  first_answer (skip ∷ rs) = first_answer rs

  -- No span is ended where the answer is ErrSkip.
  abbrev pub EndsNone : Ran R → Type 0
  EndsNone v = elim v.result [ skip ↦ length v.effects ≡ 0 | ok _ ↦ Unit {0} | failed _ ↦ Unit {0} ]

with_empty :
    {A : Type 0} (b : Bool) (x : Option A)
    → (if b then x else none) ≡ (if b && true then x else none)
with_empty true x = refl
with_empty false x = refl

without_empty : {A : Type 0} (b : Bool) (x : Option A) → none ≡ (if b && false then x else none)
without_empty true x = refl
without_empty false x = refl

named_to_values_lem :
    (args : List NamedValue)
    → named_to_values args
      ≡ (if all (λ a. is_empty a.name) args then some (map (λ a. a.value) args) else none)
unfolding named_to_values
named_to_values_lem [] = refl
named_to_values_lem (a ∷ more) = elim (Bool-cases (all (λ b. is_empty b.name) more)) [
  | inl unnamed ↦ rw (named_to_values_lem more, unnamed) (with_empty (is_empty a.name) _)
  | inr named ↦ rw (named_to_values_lem more, named) (without_empty (is_empty a.name) _)
]

end_sql-length :
    (w : Around) (err : Option Bytes) (s : Option Span)
    → length (end_sql w.sha256 w.build w.now w.seed err s) ≤ 1
end_sql-length w err none = omega arith
end_sql-length w err (some s) = omega arith

module _ {R : Type 0} (w : Around) (d : SqlDriver) (io : Option (IoRecorder IoWait)) where
  -- The answer, with one span ended at most.
  abbrev Answers : Result R → Ran R → Type 0
  Answers r v = (v.result ≡ r) × (length v.effects ≤ 1) × EndsNone v

  -- Behind one way: its own answer where that is no ErrSkip, else what the ways behind it answer.
  or_next-Answers :
      (op : SqlOp) (r : Result R) (rs : List (Result R)) (v : Ran R)
      → Answers (first_answer rs) v
      → Answers (first_answer (r ∷ rs)) (or_next w d op r v io)
  or_next-Answers op (ok r) rs v a = (refl, end_sql-length w none op.span, tt)
  or_next-Answers op skip rs v a = a
  or_next-Answers op (failed e) rs v a = (refl, end_sql-length w (some e) op.span, tt)

  run_plain-Answers :
      (ctx : Context) (query : Bytes) (t : ConnTarget) (args : List NamedValue)
      (plain : Option (Bytes → List Value → Result R))
      → Answers
          (first_answer (plain_answers plain query args))
          (run_plain w d ctx query t args plain io)
  run_plain-Answers ctx query t args none = (refl, omega arith, refl)
  run_plain-Answers ctx query t args (some exec) =
      elim (Bool-cases (all (λ a. is_empty a.name) args)) [
        | inr named ↦ rw (run_plain, named_to_values_lem args, named) (refl, omega arith, tt)
        | inl unnamed ↦
            let vals = map (λ a. a.value) args in
            let op = begin_op w d ctx query t (named_params (some (values_of args))) in
            rw (run_plain, named_to_values_lem args, unnamed)
              (or_next-Answers op (exec query vals) [] (skipped w d io) (refl, omega arith, refl))
      ]

  -- A statement on a wrapped connection is answered as the first of the parent's own ways answers that
  -- does not skip it: with the context and the arguments as they are, then with the bare values of all
  -- of them, in order. ErrSkip is the answer if each way skips or is not there, and arguments with
  -- names are refused by the second way. The statement ends one span at most, and none where the answer
  -- is ErrSkip.
  pub conn_run-first_answer :
      (parent : Parent R) (ctx : Context) (query : Bytes) (t : ConnTarget) (args : List NamedValue)
      → let v = conn_run w d parent ctx query t args io in
        (v.result ≡ first_answer (answers parent ctx query args))
        × (length v.effects ≤ 1)
        × EndsNone v
  unfolding conn_run
  conn_run-first_answer parent ctx query t args = elim (Option-cases parent.with_context) [
    | inl absent ↦ rw (conn_run, absent) (run_plain-Answers ctx query t args parent.plain)
    | inr (exec, there) ↦
        rw (conn_run, there)
          (or_next-Answers (begin_op w d ctx query t (named_params (some (values_of args))))
            (exec ctx query args) (plain_answers parent.plain query args) _
            (run_plain-Answers ctx query t args parent.plain))
  ]
