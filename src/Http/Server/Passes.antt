-- ===== src/Http/Server/Passes.antt =====
-- What an application under the handler is given of a request's body.
use go_collector.Base.{
  ℕ, true, false, not, ◌||◌, ◌≡◌, ◌≤◌, refl, sym, ap, Option, none, some, length, take, take_all,
  ltb, arith, Bool-cases, inl, inr,
}
use go_collector.Base.Bytes.{Bytes}
use go_collector.Base.Int.{ℤ}
use go_collector.Config.{Config}
use go_collector.Http.Recorder.Captured.{passed, written, serve-passed}
use go_collector.Http.Server.{capture_request, handler, unwrapped, serve_traced, Served, Response}
use go_collector.Http.{
  Headers, Body, Request, http_route, should_skip_http_path, read_cap, read_body_cap,
}
use go_collector.Metrics.{Counters}
use go_collector.Resource.{Build, Attributes}
use go_collector.Tracing.{Client, Context, Drawn, Span}

abbrev pub cut_body : ℤ → Bytes → Body
cut_body max content = record { content = take (read_cap max) content; fails = false }

ltb→le : (a b : ℕ) → ltb a b ≡ false → b ≤ a
ltb→le a b h = ground arith

read_body_cap-cut :
    (content : Bytes) (max : ℤ)
    → (read_body_cap (record { content = content; fails = false }) max).0
      ≡ take (read_cap max) content
unfolding read_body_cap
read_body_cap-cut content max = elim (Bool-cases (ltb (read_cap max) (length content))) [
  | inl over ↦ rw over refl
  | inr fits ↦
      rw fits (sym (take_all (read_cap max) content (ltb→le (read_cap max) (length content) fits)))
]

capture_request-body :
    (marshal : Attributes → Option Bytes) (cfg : Config) (r : Request) (content : Bytes) (s : Span)
    → cfg.http_capture ≡ true
    → cfg.http_capture_bodies ≡ true
    → r.body ≡ some (record { content = content; fails = false })
    → (capture_request marshal cfg r s).0 ≡ some (cut_body cfg.http_max_body content)
unfolding capture_request
capture_request-body marshal cfg r content s on bodies b =
    rw (capture_request, on, b, bodies)
      (ap (λ x. some (record { content = x; fails = false }))
        (read_body_cap-cut content cfg.http_max_body))

module _ (marshal : Attributes → Option Bytes) (sha256 : Bytes → Bytes) (build : Build)
    (now seed : Bytes) (duration : ℤ) where
  -- A run of the handler.
  abbrev pub run :
      Option Client
      → (Context → Option Body → Response marshal)
      → Context
      → Request
      → Drawn
      → Headers
      → Counters
      → Served marshal
  run = handler marshal sha256 build now seed duration

  abbrev IsPassed : (Context → Option Body → Response marshal) → Served marshal → Type 0
  IsPassed app v =
      (passed v.recorder.down ≡ written (app v.ctx v.given).acts)
      × (v.panicked ≡ (app v.ctx v.given).panics)

  unwrapped-IsPassed :
      (app : Context → Option Body → Response marshal) (ctx : Context) (r : Request) (out : Headers)
      (counters : Counters)
      → IsPassed app (unwrapped marshal sha256 build now seed duration app ctx r out counters)
  unwrapped-IsPassed app ctx r out counters = (serve-passed (app ctx r.body).acts _, refl)

  serve_traced-IsPassed :
      (cfg : Config) (app : Context → Option Body → Response marshal) (span : Span) (r : Request)
      (route : Bytes) (out : Headers) (counters : Counters)
      → IsPassed app
          (serve_traced marshal sha256 build now seed duration cfg app span r route out counters)
  serve_traced-IsPassed cfg app span r route out counters = (serve-passed _ _, refl)

  -- Instrumented or not, skipped or traced, the bytes of a response are those that the application
  -- wrote for the context and the body that it was given, in order, and a panic of it is passed on.
  pub handler-IsPassed :
      (client : Option Client) (app : Context → Option Body → Response marshal) (ctx : Context)
      (r : Request) (drawn : Drawn) (out : Headers) (counters : Counters)
      → let v = run client app ctx r drawn out counters in
        (passed v.recorder.down ≡ written (app v.ctx v.given).acts)
        × (v.panicked ≡ (app v.ctx v.given).panics)
  unfolding handler
  handler-IsPassed none app ctx r drawn out counters = unwrapped-IsPassed app ctx r out counters
  handler-IsPassed (some c) app ctx r drawn out counters =
      elim (Bool-cases (not c.cfg.enabled || not c.cfg.apm_enabled)) [
        | inl off ↦ rw (handler, off) (unwrapped-IsPassed app ctx r out counters)
        | inr on ↦ elim (Bool-cases (should_skip_http_path c.cfg.http_skip_paths (http_route r))) [
          | inl skipped ↦ rw (handler, on, skipped) (unwrapped-IsPassed app ctx r out counters)
          | inr traced ↦
              rw (handler, on, traced)
                (serve_traced-IsPassed c.cfg app _ r (http_route r) out counters)
        ]
      ]

  -- With bodies captured, the application under a traced request is given, whatever it does, the first
  -- HTTPMaxBody bytes of the body, 65536 where that is no positive number, and its end behind them.
  pub handler-given :
      (c : Client) (app : Context → Option Body → Response marshal) (ctx : Context) (r : Request)
      (drawn : Drawn) (out : Headers) (counters : Counters) (content : Bytes)
      → not c.cfg.enabled || not c.cfg.apm_enabled ≡ false
      → should_skip_http_path c.cfg.http_skip_paths (http_route r) ≡ false
      → c.cfg.http_capture ≡ true
      → c.cfg.http_capture_bodies ≡ true
      → r.body ≡ some (record { content = content; fails = false })
      → (run (some c) app ctx r drawn out counters).given
        ≡ some (cut_body c.cfg.http_max_body content)
  unfolding handler
  handler-given c app ctx r drawn out counters content on traced capture bodies b =
      rw (handler, on, traced) (capture_request-body marshal c.cfg r content _ capture bodies b)
