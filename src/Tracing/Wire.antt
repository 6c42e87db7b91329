-- ===== src/Tracing/Wire.antt =====
-- spanRecord and spanBatch of tracing.go.
use go_collector.Base.{ℕ, List}
use go_collector.Base.Bytes.{Bytes}
use go_collector.Identity.{ProcessingIdentity, OrganisationRef, ApplicationRef}

pub record SpanRecord : Type 0 where
  pub organisation : OrganisationRef
  pub application : ApplicationRef
  pub trace_id : Bytes
  pub span_id : Bytes
  pub parent_span_id : Bytes
  pub name : Bytes
  pub started_at : Bytes
  pub ended_at : Bytes
  pub status : Bytes
  pub attributes : List (Bytes × Bytes)
  pub service_name : Bytes
  pub http_method : Bytes
  pub http_route : Bytes
  pub http_status_code : ℕ

pub record SpanBatch : Type 0 where
  pub schema : Bytes
  pub processing : ProcessingIdentity
  pub spans : List SpanRecord
  pub span_count : Bytes
