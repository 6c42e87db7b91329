-- ===== src/Messaging/Tests.antt =====
-- The theorems of message spans at concrete inputs.
use go_collector.Base.{true, [], ◌∷◌, ◌≡◌, refl, arith, none, some, length, ltb, if◌then◌else◌}
use go_collector.Base.Assoc.{lookup}
use go_collector.Base.Bytes.{codes}
use go_collector.Base.Int.{pos, negsuc}
use go_collector.Messaging.{
  MessagingSpan, operation_publish, truncated_key, capture_messaging_bodies, start_messaging_span,
}
use go_collector.Messaging.Body.{body_read, kept_of, start_messaging_span-body}
use go_collector.Tracing.Sample.{cfg, client, drawn}
use go_collector.Tracing.{Client}

-- Three bytes of a body are kept.
abbrev capturing : Client
capturing = record client {
  cfg = record cfg { messaging_capture_bodies = true; messaging_max_body = pos 3 };
}

-- Of its five bytes the first three are no UTF-8.
abbrev payload : MessagingSpan
payload = record {
  system = codes "kafka";
  operation = operation_publish;
  destination = codes "orders";
  server = [];
  partition = negsuc 0;
  offset = negsuc 0;
  body_size = pos 5;
  body = 200 ∷ 1 ∷ 2 ∷ 3 ∷ 4 ∷ [];
  message_id = [];
  consumer_group = [];
}

captures_payload : capture_messaging_bodies (some capturing) ≡ true
unfolding capture_messaging_bodies
captures_payload = refl

start_messaging_span-body_example :
    let a = (start_messaging_span (some capturing) none payload drawn).1.attributes in
    let kept = kept_of capturing.cfg.messaging_max_body payload.body in
    (body_read a ≡ some kept)
    × (lookup truncated_key a
        ≡ (if ltb (length kept) (length payload.body) then some (codes "true") else none))
start_messaging_span-body_example =
    start_messaging_span-body capturing none payload drawn captures_payload refl
      (omega arith, (omega arith, (omega arith, (omega arith, (omega arith, tt)))))
