-- ===== src/Json/Links.antt =====
-- A response is shown with the request of its trace.
use pcap_sidecar.Common.{
  ℕ, ◌≡◌, ◌⊎◌, refl, ap, ◌∙◌, Bool, true, false, Option, none, some, [], nat_eq, string_eq, ◌==◌,
  inl, inr, same_self,
}
use Prim.Native.String.{◌++◌ as concat}
use pcap_sidecar.Filters.TcpFlags.{is_connection_termination}
use pcap_sidecar.Flows.Libs.{FlowLibs}
use pcap_sidecar.Flows.Tables.{TraceAndSpan, FlowMutex}
use pcap_sidecar.Flows.Sessions.{Session}
use pcap_sidecar.Flows.Filled.{IsPresent}
use pcap_sidecar.Json.Libs.{Bytes, HttpRequest, Request, Response, parsed, JsonLibs}
use pcap_sidecar.Json.Documents.{L7, http_response, Linked}
use pcap_sidecar.Json.Headers.{
  add_http_headers, record_http11_request, link_http11_response_to_request, latency_of,
}
use pcap_sidecar.Json.Frames.{trace_and_span}
use pcap_sidecar.Json.Calm.{trace_and_span-known}
use pcap_sidecar.Json.Http.{
  Http, Scan, scan_request, scan_response, scan_http11, scan_http, release_scan, try_set_http,
}
use pcap_sidecar.Json.Kept.{release_scan-SameRequests}

abbrev pub linked_in : L7 → Option Linked
linked_in (http_response proto status linked body fragmented) = linked
linked_in other = none

-- What an analysis shows of the request of a response.
abbrev pub linked_of : Option Http → Option Linked
linked_of none = none
linked_of (some h) = linked_in h.l7

module _ {W : FlowLibs} (L : JsonLibs W) where
  -- A payload with a request whose trace is `ts`.
  pub record IsTracedRequest (bytes : Bytes) (ts : TraceAndSpan) (r : Request) : Type 0 where
    pub matches : L.is_http11_request bytes ≡ true
    pub no_frame : (L.read_frames bytes).0 ≡ []
    pub reads : L.read_request bytes ≡ parsed r
    pub has_url : (r.url == "") ≡ false
    pub has_trace : add_http_headers L 1 r.headers ≡ some ts

  -- A payload with a response whose trace is `ts`.
  pub record IsTracedResponse (bytes : Bytes) (ts : TraceAndSpan) (r : Response) : Type 0 where
    pub not_request : L.is_http11_request bytes ≡ false
    pub matches : L.is_http11_response bytes ≡ true
    pub no_frame : (L.read_frames bytes).0 ≡ []
    pub reads : L.read_response bytes ≡ parsed r
    pub has_trace : add_http_headers L 1 r.headers ≡ some ts

  -- A payload that one of the two expressions for HTTP/1.1 matches, and that has no frames.
  abbrev IsHttp11 : Bytes → Type 0
  IsHttp11 bytes =
      ((L.is_http11_request bytes ≡ true)
        ⊎ ((L.is_http11_request bytes ≡ false) × (L.is_http11_response bytes ≡ true)))
      × ((L.read_frames bytes).0 ≡ [])

  try_set_http-handled :
      (ctx_done : Bool) (time : ℕ) (bytes : Bytes) (s : Session) (fm : FlowMutex W)
      → IsHttp11 bytes
      → try_set_http L ctx_done time bytes s fm ≡ (
        some (scan_http L time bytes s fm).0.http,
        release_scan L ctx_done (scan_http L time bytes s fm).0 s (scan_http L time bytes s fm).1,
      )
  unfolding try_set_http
  try_set_http-handled ctx_done time bytes s fm (inl a, d) = rw (try_set_http, a) refl
  try_set_http-handled ctx_done time bytes s fm (inr (a, b), d) = rw (try_set_http, a, b) refl

  scan_http-http11 :
      (time : ℕ) (bytes : Bytes) (s : Session) (fm : FlowMutex W)
      → IsHttp11 bytes
      → scan_http L time bytes s fm ≡ scan_http11 L time bytes s fm
  unfolding scan_http
  scan_http-http11 time bytes s fm (inl a, d) = rw (scan_http, a, d) refl
  scan_http-http11 time bytes s fm (inr (a, b), d) = rw (scan_http, a, b, d) refl

  try_set_http-http11 :
      (ctx_done : Bool) (time : ℕ) (bytes : Bytes) (s : Session) (fm : FlowMutex W)
      → IsHttp11 bytes
      → try_set_http L ctx_done time bytes s fm ≡ (
        some (scan_http11 L time bytes s fm).0.http,
        release_scan L ctx_done
            (scan_http11 L time bytes s fm).0
            s
            (scan_http11 L time bytes s fm).1,
      )
  try_set_http-http11 ctx_done time bytes s fm h =
      try_set_http-handled ctx_done time bytes s fm h
      ∙ ap (λ (x : Scan L × FlowMutex W). (some x.0.http, release_scan L ctx_done x.0 s x.1))
          (scan_http-http11 time bytes s fm h)

  scan_http11-records :
      (time : ℕ) (bytes : Bytes) (ts : TraceAndSpan) (r : Request) (s : Session) (fm : FlowMutex W)
      (traced : Option TraceAndSpan)
      → IsTracedRequest bytes ts r
      → trace_and_span s fm 1 ≡ some traced
      → (scan_http11 L time bytes s fm).1.requests
        ≡ W.requests.set fm.requests ts.trace_id
            (L.of_request record { timestamp = time; method = r.method; url = concat r.host r.url })
  unfolding scan_http11 scan_request record_http11_request
  scan_http11-records time bytes ts r s fm traced q e =
      rw (scan_http11, e, q.matches, scan_request, q.reads, q.has_url, q.has_trace) refl

  try_set_http-records :
      (ctx_done : Bool) (time : ℕ) (bytes : Bytes) (ts : TraceAndSpan) (r : Request) (s : Session)
      (fm : FlowMutex W) (traced : Option TraceAndSpan)
      → IsTracedRequest bytes ts r
      → trace_and_span s fm 1 ≡ some traced
      → is_connection_termination s.tcp_flags ≡ false
      → (try_set_http L ctx_done time bytes s fm).1.requests
        ≡ W.requests.set fm.requests ts.trace_id
            (L.of_request record { timestamp = time; method = r.method; url = concat r.host r.url })
  try_set_http-records ctx_done time bytes ts r s fm traced q e t =
      let scan = scan_http11 L time bytes s fm in
      ap (λ (x : Option Http × FlowMutex W). x.1.requests)
        (try_set_http-http11 ctx_done time bytes s fm (inl q.matches, q.no_frame))
      ∙ release_scan-SameRequests L ctx_done scan.0 s scan.1 t
      ∙ scan_http11-records time bytes ts r s fm traced q e

  try_set_http-shows :
      (ctx_done : Bool) (time : ℕ) (bytes : Bytes) (ts : TraceAndSpan) (r : Response) (s : Session)
      (fm : FlowMutex W) (traced : Option TraceAndSpan) (request : HttpRequest)
      → IsTracedResponse bytes ts r
      → trace_and_span s fm 1 ≡ some traced
      → W.requests.get fm.requests ts.trace_id ≡ some (L.of_request request)
      → linked_of (try_set_http L ctx_done time bytes s fm).0
        ≡ some record { request = request; latency = latency_of time request.timestamp }
  unfolding scan_http11 scan_response link_http11_response_to_request
  try_set_http-shows ctx_done time bytes ts r s fm traced request q e g =
      rw
        (
          try_set_http-http11 ctx_done time bytes s fm (inr (q.not_request, q.matches), q.no_frame),
          scan_http11,
          e,
          q.not_request,
          scan_response,
          q.reads,
          q.has_trace,
          link_http11_response_to_request,
          g,
          L.to_request-of_request request,
        )
        refl

  -- A request with a trace and a URL is analysed, and the goroutines go on, from any states without
  -- empty maps of traced flows, until a response with its trace is analysed. Unless the entry of the
  -- trace was changed in between: the response is shown with the method of the request, its host
  -- and URL, its time, and the time that has passed since. The packet of the request does not end
  -- its connection.
  pub try_set_http-links :
      (ctx_done ctx_done' : Bool) (time time' : ℕ) (bytes bytes' : Bytes) (ts ts' : TraceAndSpan)
      (r : Request) (r' : Response) (s s' : Session) (fm fm' : FlowMutex W)
      → IsTracedRequest bytes ts r
      → IsTracedResponse bytes' ts' r'
      → ts'.trace_id ≡ ts.trace_id
      → is_connection_termination s.tcp_flags ≡ false
      → IsPresent fm
      → IsPresent fm'
      → W.requests.get fm'.requests ts.trace_id
        ≡ W.requests.get (try_set_http L ctx_done time bytes s fm).1.requests ts.trace_id
      → linked_of (try_set_http L ctx_done' time' bytes' s' fm').0
        ≡ some record {
          request = record { timestamp = time; method = r.method; url = concat r.host r.url };
          latency = latency_of time' time;
        }
  try_set_http-links ctx_done ctx_done' time time' bytes bytes' ts ts' r r' s s' fm fm' q q' same t
        p p' kept =
      let a = trace_and_span-known s fm 1 p in
      let b = trace_and_span-known s' fm' 1 p' in
      let request : HttpRequest = record {
        timestamp = time;
        method = r.method;
        url = concat r.host r.url;
      } in
      try_set_http-shows ctx_done' time' bytes' ts' r' s' fm' b.0 request q' b.1 (
        rw same (
          kept
          ∙ ap (λ m. W.requests.get m ts.trace_id)
              (try_set_http-records ctx_done time bytes ts r s fm a.0 q a.1 t)
          ∙ rw
              (
                W.requests.get-set fm.requests ts.trace_id (L.of_request request) ts.trace_id,
                same_self ts.trace_id,
              )
              refl))
