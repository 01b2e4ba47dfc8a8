-- ===== src/Json/Runs.antt =====
-- The analysis of a payload as steps of the goroutines that use the flow mutex.
use pcap_sidecar.Common.{
  ℕ, ◌+◌, Bool, not, ◌&&◌, ◌||◌, length, nat_eq, string_eq, ◌==◌, if◌then◌else◌, Bool-cases,
  Option-cases, inl, inr, holds_if,
}
use Prim.Native.String.{◌++◌ as concat}
use pcap_sidecar.Flows.Libs.{FlowLibs}
use pcap_sidecar.Flows.Tables.{FlowMutex}
use pcap_sidecar.Flows.Sessions.{Session, unlock_with_tcp_flags}
use pcap_sidecar.Flows.Steps.{unlocks, traces, records, Reaches, steps}
use pcap_sidecar.Json.Libs.{Bytes, JsonLibs}
use pcap_sidecar.Json.Headers.{add_http_headers, record_http11_request}
use pcap_sidecar.Json.Frames.{trace_and_span}
use pcap_sidecar.Json.Http.{
  Scan, scan_request, scan_http11, scan_http, release_scan, try_set_http, is_nil, starts_http2,
}
use pcap_sidecar.Json.Calm.{Reading-cases}

module _ {W : FlowLibs} where
  -- The goroutines may come to the state, with some number of moves.
  abbrev pub Runs : FlowMutex W → FlowMutex W → Type 0
  Runs fm fm' = (k : ℕ) × Reaches fm k fm'

  unlock_with_tcp_flags-Runs :
      (ctx_done : Bool) (s : Session) (fm a : FlowMutex W)
      → Runs fm a
      → Runs fm (unlock_with_tcp_flags ctx_done s.tcp_flags s a).1
  unlock_with_tcp_flags-Runs ctx_done s fm a (k, r) =
      (k + 0, steps r (unlocks ctx_done s.tcp_flags s))

module _ {W : FlowLibs} (L : JsonLibs W) where
  release_scan-Runs :
      (ctx_done : Bool) (scan : Scan L) (s : Session) (fm a : FlowMutex W)
      → Runs fm a
      → Runs fm (release_scan L ctx_done scan s a)
  unfolding release_scan
  release_scan-Runs ctx_done scan s fm a (k, r) =
      let seen = scan.seen in
      elim (Bool-cases
        (not (L.stream_set.is_empty seen.requests) || not (L.stream_set.is_empty seen.responses))) [
          | inl h ↦
              rw (release_scan, h)
                (
                  k
                      + (length (L.stream_set.to_slice seen.requests)
                          + length (L.stream_set.to_slice seen.responses)),
                  steps r (
                      traces ctx_done s.tcp_flags scan.http.is_http2
                        (L.stream_set.to_slice seen.requests) (L.stream_set.to_slice seen.responses)
                        seen.request_ts seen.response_ts s),
                )
          | inr h ↦ rw (release_scan, h) (unlock_with_tcp_flags-Runs ctx_done s fm a (k, r))
        ]

  scan_request-Runs :
      (time : ℕ) (bytes : Bytes) (fm a : FlowMutex W)
      → Runs fm a
      → Runs fm (scan_request L time bytes a).1
  unfolding scan_request record_http11_request
  scan_request-Runs time bytes fm a (k, r) = elim (Reading-cases (L.read_request bytes)) [
    | inl (error, partial, e) ↦ rw (scan_request, e) (k, r)
    | inr (m, e) ↦ elim (Bool-cases (m.url == "")) [
      | inl h ↦ rw (scan_request, e, h) (k, r)
      | inr h ↦ elim (Option-cases (add_http_headers L 1 m.headers)) [
        | inl n ↦ rw (scan_request, e, h, n) (k, r)
        | inr (ts, n) ↦
            rw (scan_request, e, h, n)
              (
                k + 0,
                steps r (
                    records ts.trace_id (
                      L.of_request
                        record { timestamp = time; method = m.method; url = concat m.host m.url })),
              )
      ]
    ]
  ]

  scan_http11-Runs :
      (time : ℕ) (bytes : Bytes) (s : Session) (fm a : FlowMutex W)
      → Runs fm a
      → Runs fm (scan_http11 L time bytes s a).1
  unfolding scan_http11
  scan_http11-Runs time bytes s fm a r = elim (Option-cases (trace_and_span s a 1)) [
    | inl n ↦ rw (scan_http11, n) r
    | inr (traced, e) ↦
        rw (scan_http11, e)
          (holds_if (λ (x : Scan L × FlowMutex W). Runs fm x.1) (L.is_http11_request bytes) _ _
            (λ h. scan_request-Runs time bytes fm a r) (λ h. r))
  ]

  scan_http-Runs :
      (time : ℕ) (bytes : Bytes) (s : Session) (fm a : FlowMutex W)
      → Runs fm a
      → Runs fm (scan_http L time bytes s a).1
  unfolding scan_http
  scan_http-Runs time bytes s fm a r =
      let rest = if starts_http2 L bytes then L.without_preface bytes else bytes in
      let frames = (L.read_frames rest).0 in
      holds_if (λ (x : Scan L × FlowMutex W). Runs fm x.1) (starts_http2 L bytes && is_nil rest) _ _
        (λ h. r)
        (λ h.
          holds_if (λ (x : Scan L × FlowMutex W). Runs fm x.1)
            (starts_http2 L bytes || not (is_nil frames)) _ _ (λ e. r)
            (λ e. scan_http11-Runs time bytes s fm a r))

  pub try_set_http-Runs :
      (ctx_done : Bool) (time : ℕ) (bytes : Bytes) (s : Session) (fm a : FlowMutex W)
      → Runs fm a
      → Runs fm (try_set_http L ctx_done time bytes s a).1
  unfolding try_set_http
  try_set_http-Runs ctx_done time bytes s fm a r =
      elim (Bool-cases (
        not (L.is_http11_request bytes)
        && not (L.is_http11_response bytes)
        && not (L.has_preface bytes)
        && is_nil (L.read_frames bytes).0)) [
          | inl e ↦ rw (try_set_http, e) r
          | inr e ↦
              rw (try_set_http, e)
                (release_scan-Runs ctx_done (scan_http L time bytes s a).0 s fm
                  (scan_http L time bytes s a).1 (scan_http-Runs time bytes s fm a r))
        ]
