-- ===== src/Http/Recorder.antt =====
-- responseRecorder of http.go, and what a handler of the application does with it.
pub mod Captured
use go_collector.Base.{
  ℕ, ◌+◌, ◌-◌, Bool, true, false, not, ◌&&◌, ◌||◌, List, [], ◌∷◌, ◌++◌, Option, none, some, length,
  take, ltb, leb, if◌then◌else◌,
}
use go_collector.Base.Assoc.{put}
use go_collector.Base.Bytes.{Bytes, codes}
use go_collector.Base.Int.{ℤ, pos, pos_part, ltb_ℤ}
use go_collector.Http.{Headers, get_header, body_cap_bytes}

-- What reaches the ResponseWriter underneath, in order.
pub data Down : Type 0 where
  header : ℤ → Down
  data_written : Bytes → Down

pub record ResponseRecorder : Type 0 where
  pub headers : Headers
  pub status : ℤ
  pub body : Bytes
  pub body_truncated : Bool
  pub wrote_header : Bool
  pub capture_body : Bool
  pub max_body : ℤ
  pub down : List Down

abbrev pub new_recorder : Headers → Bool → ℤ → ResponseRecorder
new_recorder headers capture max_body = record {
  headers = headers;
  status = pos 200;
  body = [];
  body_truncated = false;
  wrote_header = false;
  capture_body = capture;
  max_body = max_body;
  down = [];
}

unfoldable pub write_header : ℤ → ResponseRecorder → ResponseRecorder
write_header code r =
    if r.wrote_header
    then r
    else record r { wrote_header = true; status = code; down = r.down ++ (header code ∷ []) }

abbrev pub cap_of : ResponseRecorder → ℕ
cap_of r = pos_part (body_cap_bytes (get_header (codes "Content-Type") r.headers) r.max_body)

abbrev pub captures : ResponseRecorder → Bool
captures r = r.capture_body && ltb_ℤ (pos 0) r.max_body

-- What of the bytes is kept of a response.
unfoldable pub keep_body : Bytes → ResponseRecorder → ResponseRecorder
keep_body b r =
    let remain = cap_of r - length r.body in
    if not (captures r)
    then r
    else if ltb 0 remain
    then if ltb remain (length b)
      then record r { body = r.body ++ take remain b; body_truncated = true }
      else record r { body = r.body ++ b }
    else record r { body_truncated = true }

abbrev pub pass_down : Bytes → ResponseRecorder → ResponseRecorder
pass_down b r = record r { down = r.down ++ (data_written b ∷ []) }

unfoldable pub write : Bytes → ResponseRecorder → ResponseRecorder
write b r = pass_down b (keep_body b (write_header (pos 200) r))

-- What an application does with its ResponseWriter.
pub data Act : Type 0 where
  set_header : Bytes → Bytes → Act
  writes_header : ℤ → Act
  writes : Bytes → Act

abbrev pub act : Act → ResponseRecorder → ResponseRecorder
act (set_header key value) r = record r { headers = put key (value ∷ []) r.headers }
act (writes_header code) r = write_header code r
act (writes b) r = write b r

unfoldable pub serve : List Act → ResponseRecorder → ResponseRecorder
serve [] r = r
serve (a ∷ more) r = serve more (act a r)
