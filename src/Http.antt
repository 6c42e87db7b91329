-- ===== src/Http.antt =====
-- http.go: the instrumentation of servers and clients. A request is what net/http parsed; its URL is
-- there, as it is in every request that a server gets, and its headers are looked up under their
-- canonical keys.
pub mod Recorder
pub mod Server
pub mod Outbound
pub mod Hop
mod Tests
use go_collector.Base.{
  ℕ, ◌+◌, ◌*◌, ◌-◌, Bool, true, false, not, ◌&&◌, ◌||◌, List, [], ◌∷◌, ◌++◌, Option, none, some,
  length, take, ltb, leb, if◌then◌else◌,
}
use go_collector.Base.Assoc.{lookup}
use go_collector.Base.Bytes.{Bytes, codes, is_empty, bytes_eq}
use go_collector.Base.Int.{ℤ, pos, pos_part, ltb_ℤ, leb_ℤ}
use go_collector.Config.{Config}
use go_collector.Redact.{credentials}
use go_collector.Text.Fold.{equal_fold}
use go_collector.Text.Split.{split, cut}
use go_collector.Text.Trim.{trim_space}

abbrev pub Headers : Type 0
Headers = List (Bytes × List Bytes)

abbrev pub first_of : List Bytes → Bytes
first_of [] = []
first_of (v ∷ vs) = v

-- http.Header.Get
abbrev pub get_header : Bytes → Headers → Bytes
get_header key hs = elim (lookup key hs) [ none ↦ [] | some vs ↦ first_of vs ]

pub record Url : Type 0 where
  pub path : Bytes
  pub raw_query : Bytes
  pub request_uri : Bytes
  pub redacted : Bytes
  pub host : Bytes

-- A body yields its content, and then its end or an error.
pub record Body : Type 0 where
  pub content : Bytes
  pub fails : Bool

-- `cookies` and `query` are what Cookies and Query parse; a nil cookie is `none`.
pub record Request : Type 0 where
  pub verb : Bytes
  pub pattern_text : Bytes
  pub url : Url
  pub headers : Headers
  pub tls : Bool
  pub host : Bytes
  pub body : Option Body
  pub cookies : List (Option (Bytes × Bytes))
  pub query : Headers

unfoldable pub http_route : Request → Bytes
http_route r =
    if not (is_empty r.pattern_text)
    then r.pattern_text
    else if not (is_empty r.url.path)
    then r.url.path
    else codes "/"

-- The part of a pattern behind its method.
abbrev pub path_of_route : Bytes → Bytes
path_of_route route = elim (cut b' ' route) [
  | none ↦ route
  | some (_, path) ↦ if is_empty path then route else path
]

abbrev pub skips : List Bytes → Bytes → Bytes → Bool
skips [] path route = false
skips (c ∷ cs) path route =
    (not (is_empty c) && (bytes_eq path c || bytes_eq route c)) || skips cs path route

unfoldable pub should_skip_http_path : List Bytes → Bytes → Bool
should_skip_http_path skip route = not (is_empty route) && skips skip (path_of_route route) route

-- strings.TrimSpace(strings.Split(value, ",")[0])
abbrev pub first_field : Bytes → Bytes
first_field value = trim_space (first_of (split b',' value))

unfoldable pub request_scheme : Request → Bytes
request_scheme r =
    let proto = get_header (codes "X-Forwarded-Proto") r.headers in
    if not (is_empty proto)
    then first_field proto
    else if r.tls
    then codes "https"
    else codes "http"

unfoldable pub request_host : Request → Bytes
request_host r =
    let host = get_header (codes "X-Forwarded-Host") r.headers in
    if not (is_empty host) then first_field host else r.host

abbrev pub body_text : Config → Bytes → Bytes
body_text cfg body = if not cfg.http_redact then body else credentials body

abbrev pub default_max_body : ℕ
default_max_body = 65536

abbrev pub read_cap : ℤ → ℕ
read_cap max = if leb_ℤ max (pos 0) then default_max_body else pos_part max

-- One byte beyond the cap is read, and an error in front of it gives no body at all.
unfoldable pub read_body_cap : Body → ℤ → Bytes × Bool
read_body_cap b max =
    if ltb (read_cap max) (length b.content)
    then (take (read_cap max) b.content, true)
    else if b.fails
    then ([], false)
    else (b.content, false)

abbrev pub html_max_body_bytes : ℤ
html_max_body_bytes = pos (100 * 1024 * 1024)

abbrev pub media_of : Bytes → Bytes
media_of content_type = elim (cut b';' content_type) [
  | none ↦ content_type
  | some (media, _) ↦ media
]

unfoldable pub body_cap_bytes : Bytes → ℤ → ℤ
body_cap_bytes content_type default_max =
    if equal_fold (trim_space (media_of content_type)) (codes "text/html")
    then if ltb_ℤ html_max_body_bytes default_max then default_max else html_max_body_bytes
    else if leb_ℤ default_max (pos 0)
    then pos default_max_body
    else default_max

unfoldable pub header_map : Headers → List (Bytes × Bytes)
header_map [] = []
header_map ((k, []) ∷ hs) = header_map hs
header_map ((k, v ∷ _) ∷ hs) = (k, v) ∷ header_map hs
