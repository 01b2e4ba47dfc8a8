-- ===== src/Json/Http.antt =====
-- `trySetHTTP` and `addAppLayerData`: the analysis of a payload under the lock of its connection.
use pcap_sidecar.Common.{
  ℕ, Bool, true, false, not, ◌&&◌, ◌||◌, Option, none, some, List, [], ◌∷◌, length, ltb, nat_eq,
  string_eq, String, ◌==◌, if◌then◌else◌,
}
use pcap_sidecar.Flows.Libs.{FlowLibs}
use pcap_sidecar.Flows.Tables.{TraceAndSpan, FlowMutex}
use pcap_sidecar.Flows.Sessions.{Session, unlock_with_tcp_flags, unlock_with_trace_and_span}
use pcap_sidecar.Json.Libs.{Bytes, parsed, refused, JsonLibs}
use pcap_sidecar.Json.Documents.{
  Meta, meta_of, TraceField, unset, set_trace_and_span, BodyDetails, L7, preface_only, h2c,
  invalid_request, without_url, http_request, invalid_response, http_response, broken, Summary,
  no_message, h2c_only, h2c_streams, invalid, request_line, status_line,
}
use pcap_sidecar.Json.Headers.{
  add_http_headers, add_http_body_details, size_of_body, record_http11_request,
  link_http11_response_to_request,
}
use pcap_sidecar.Json.Frames.{
  trace_and_span, Seen, nothing_seen, add_if, put_if, or_traced, read_all, Loop,
}

abbrev pub is_nil {ℓ} : {A : Type ℓ} → List A → Bool
is_nil [] = true
is_nil (a ∷ rest) = false

-- A message whose header announces more than its body has.
abbrev pub is_fragmented : Option ℕ → ℕ → Bool
is_fragmented none size = false
is_fragmented (some announced) size = ltb size announced

-- What an analysis writes.
pub record Http : Type 0 where
  pub l7 : L7
  pub is_http2 : Bool
  pub meta : Option Meta
  pub trace : TraceField
  pub summary : Summary

module _ {W : FlowLibs} (L : JsonLibs W) where
  -- What has been found when the deferred function gives the lock back.
  pub record Scan : Type 0 where
    pub http : Http
    pub seen : Seen L

  -- The analysis of the frames `frames`, which end with the error `error`.
  unfoldable pub scan_h2 : Loop L → Option String → Scan
  scan_h2 l error =
      let all_streams = L.stream_set.to_slice l.seen.streams in
      record {
        http = record {
          l7 = if l.panicked then broken else h2c l.frames error all_streams;
          is_http2 = true;
          meta = none;
          trace = unset;
          summary =
              if l.panicked
              then no_message
              else if (length all_streams == 1 && L.stream_set.contains_one l.seen.streams 0)
                  || ltb 10 (length all_streams)
              then h2c_only
              else h2c_streams all_streams (L.stream_set.to_slice l.seen.requests)
                  (L.stream_set.to_slice l.seen.responses) (L.stream_set.to_slice l.seen.payloads);
        };
        seen = l.seen;
      }

  -- What is seen of a message of HTTP/1.1, whose stream is 1.
  abbrev pub see_message : Bool → Option TraceAndSpan → Option BodyDetails → Seen L
  see_message is_request ts body = record {
    streams = L.stream_set.add L.stream_set.empty 1;
    requests = add_if L is_request 1 L.stream_set.empty;
    responses = add_if L (not is_request) 1 L.stream_set.empty;
    payloads = add_if L (ltb 0 (size_of_body body)) 1 L.stream_set.empty;
    request_ts = put_if is_request 1 ts [];
    response_ts = put_if (not is_request) 1 ts [];
  }

  abbrev pub http11 : L7 → Bytes → TraceField → Summary → Http
  http11 l7 bytes trace summary = record {
    l7 = l7;
    is_http2 = false;
    meta = some (meta_of bytes);
    trace = trace;
    summary = summary;
  }

  -- The branch for requests: what is written, and the state with the request of a trace.
  unfoldable pub scan_request : ℕ → Bytes → FlowMutex W → Scan × FlowMutex W
  unfolding add_http_headers record_http11_request meta_of
  scan_request time bytes fm = elim (L.read_request bytes) [
    | refused error partial ↦ (
      record {
        http = http11 (invalid_request error partial) bytes unset (invalid error);
        seen = see_message true none none;
      },
      fm,
    )
    | parsed r ↦
        let ts = add_http_headers L 1 r.headers in
        let body = add_http_body_details r.body in
        if r.url == ""
        then (
          record {
            http = http11 (without_url (L.url_of_request bytes)) bytes unset no_message;
            seen = see_message true none none;
          },
          fm,
        )
        else (
          record {
            http =
                http11
                  (http_request r.url r.proto r.method body
                    (is_fragmented r.content_length (size_of_body body)))
                  bytes (elim ts [ none ↦ unset | some t ↦ set_trace_and_span (some t) ])
                  (request_line r.proto r.method r.url);
            seen = see_message true ts body;
          },
          elim ts [ none ↦ fm | some t ↦ record_http11_request L time t r.method r.host r.url fm ],
        )
  ]

  -- The branch for responses: `traced` is the trace that is known of the connection.
  unfoldable pub scan_response : ℕ → Bytes → Option TraceAndSpan → FlowMutex W → Scan
  unfolding add_http_headers link_http11_response_to_request meta_of
  scan_response time bytes traced fm = elim (L.read_response bytes) [
    | refused error partial ↦ record {
      http = http11 (invalid_response error partial) bytes unset (invalid error);
      seen = see_message false none none;
    }
    | parsed r ↦
        let ts = or_traced (add_http_headers L 1 r.headers) traced in
        let body = add_http_body_details r.body in
        record {
          http =
              http11
                (http_response r.proto r.status
                  (elim ts [ none ↦ none | some t ↦ link_http11_response_to_request L time t fm ])
                  body (is_fragmented r.content_length (size_of_body body)))
                bytes (elim ts [ none ↦ unset | some t ↦ set_trace_and_span (some t) ])
                (status_line r.proto r.status);
          seen = see_message false ts body;
        }
  ]

  -- The part for HTTP/1.1, which asks first for the trace of the connection.
  unfoldable pub scan_http11 : ℕ → Bytes → Session → FlowMutex W → Scan × FlowMutex W
  unfolding trace_and_span scan_request scan_response nothing_seen
  scan_http11 time bytes s fm = elim (trace_and_span s fm 1) [
    | none ↦ (
      record {
        http = record {
          l7 = broken;
          is_http2 = false;
          meta = none;
          trace = unset;
          summary = no_message;
        };
        seen = nothing_seen L;
      },
      fm,
    )
    | some traced ↦
        if L.is_http11_request bytes
        then scan_request time bytes fm
        else (scan_response time bytes traced fm, fm)
  ]

  abbrev pub starts_http2 : Bytes → Bool
  starts_http2 bytes =
      not (L.is_http11_request bytes) && not (L.is_http11_response bytes) && L.has_preface bytes

  -- All that is done between the guard and the deferred function.
  unfoldable pub scan_http : ℕ → Bytes → Session → FlowMutex W → Scan × FlowMutex W
  unfolding read_all scan_h2 scan_http11 nothing_seen
  scan_http time bytes s fm =
      let preface = starts_http2 bytes in
      let rest = if preface then L.without_preface bytes else bytes in
      let frames = L.read_frames rest in
      if preface && is_nil rest
      then (
        record {
          http = record {
            l7 = preface_only bytes;
            is_http2 = true;
            meta = none;
            trace = unset;
            summary = no_message;
          };
          seen = nothing_seen L;
        },
        fm,
      )
      else if preface || not (is_nil frames.0)
      then (scan_h2 (read_all L s fm frames.0) frames.1, fm)
      else scan_http11 time bytes s fm

  -- The deferred function.
  unfoldable pub release_scan : Bool → Scan → Session → FlowMutex W → FlowMutex W
  unfolding unlock_with_trace_and_span unlock_with_tcp_flags
  release_scan ctx_done scan s fm =
      let seen = scan.seen in
      if not (L.stream_set.is_empty seen.requests) || not (L.stream_set.is_empty seen.responses)
      then unlock_with_trace_and_span ctx_done s.tcp_flags scan.http.is_http2
          (L.stream_set.to_slice seen.requests) (L.stream_set.to_slice seen.responses)
          seen.request_ts seen.response_ts s fm
      else (unlock_with_tcp_flags ctx_done s.tcp_flags s fm).1

  -- `trySetHTTP`: `none` where the payload is not handled, which leaves the lock taken.
  unfoldable pub try_set_http : Bool → ℕ → Bytes → Session → FlowMutex W → Option Http × FlowMutex W
  unfolding scan_http release_scan
  try_set_http ctx_done time bytes s fm =
      let r = scan_http time bytes s fm in
      if not (L.is_http11_request bytes)
        && not (L.is_http11_response bytes)
        && not (L.has_preface bytes)
        && is_nil (L.read_frames bytes).0
      then (none, fm)
      else (some r.0.http, release_scan ctx_done r.0 s r.1)
