-- ===== src/Json/Kept.antt =====
-- The lock is given back without a change of the map of requests.
use pcap_sidecar.Common.{
  ℕ, ◌≡◌, refl, ◌∙◌, Bool, false, not, ◌||◌, List, [], ◌∷◌, fold, bit_and, bit_or, nat_eq,
  string_eq, ◌==◌, Bool-cases, Option-cases, inl, inr,
}
use pcap_sidecar.Common.Maps.{lookup}
use pcap_sidecar.Filters.TcpFlags.{is_connection_termination, tcp_syn, tcp_fin, tcp_rst}
use pcap_sidecar.Flows.Libs.{FlowLibs}
use pcap_sidecar.Flows.Tables.{
  TraceAndSpan, FlowMutex, traced_flow, new_traced, add_flow, track_connection, key_of_flow,
}
use pcap_sidecar.Flows.Sessions.{
  Session, unlock_with_tcp_flags, unlock_with_trace_and_span, ref_of, request_stream, respond,
  response_stream, on_carrier,
}
use pcap_sidecar.Json.Libs.{JsonLibs}
use pcap_sidecar.Json.Http.{Scan, release_scan}

module _ {W : FlowLibs} where
  abbrev pub SameRequests : FlowMutex W → FlowMutex W → Type 0
  SameRequests fm fm' = fm'.requests ≡ fm.requests

  fold-SameRequests :
      (f : FlowMutex W → ℕ → FlowMutex W)
      → ((fm : FlowMutex W) (stream : ℕ) → SameRequests fm (f fm stream))
      → (items : List ℕ) (fm : FlowMutex W) → SameRequests fm (fold f fm items)
  fold-SameRequests f m [] fm = refl
  fold-SameRequests f m (a ∷ items) fm = fold-SameRequests f m items (f fm a) ∙ m fm a

  add_flow-SameRequests :
      (flow stream key tf : ℕ) (fm : FlowMutex W) → SameRequests fm (add_flow flow stream key tf fm)
  unfolding add_flow
  add_flow-SameRequests flow stream key tf fm = elim (Option-cases (W.refs.get fm.flow_map flow)) [
    | inl e ↦ rw (add_flow, e) refl
    | inr (t, e) ↦ rw (add_flow, e) refl
  ]

  request_stream-SameRequests :
      (s : Session) (request_ts : List (ℕ × TraceAndSpan)) (fm : FlowMutex W) (stream : ℕ)
      → SameRequests fm (request_stream s request_ts fm stream)
  unfolding request_stream track_connection new_traced
  request_stream-SameRequests s request_ts fm stream =
      elim (Option-cases (lookup request_ts stream)) [
        | inl e ↦ rw (request_stream, e) refl
        | inr (ts, e) ↦
            rw (request_stream, e)
              (add_flow-SameRequests s.flow ts.stream_id (key_of_flow s.local s.seq s.ack)
                fm.next_traced (new_traced s.carrier ts fm))
      ]

  response_stream-SameRequests :
      (s : Session) (response_ts : List (ℕ × TraceAndSpan)) (fm : FlowMutex W) (stream : ℕ)
      → SameRequests fm (response_stream s response_ts fm stream)
  unfolding response_stream respond
  response_stream-SameRequests s response_ts fm stream =
      elim (Option-cases (lookup response_ts stream)) [
        | inl e ↦ rw (response_stream, e) refl
        | inr (ts, e) ↦ elim (Option-cases (traced_flow fm s.table (ref_of s) ts.stream_id)) [
          | inl d ↦ rw (response_stream, e, d) refl
          | inr (found, d) ↦ elim (Option-cases found) [
            | inl n ↦ rw (response_stream, e, d, n) refl
            | inr (tf, n) ↦ rw (response_stream, e, d, n) refl
          ]
        ]
      ]

  unlock_with_trace_and_span-SameRequests :
      (ctx_done : Bool) (flags : ℕ) (is_http2 : Bool) (requests responses : List ℕ)
      (request_ts response_ts : List (ℕ × TraceAndSpan)) (s : Session) (fm : FlowMutex W)
      → is_connection_termination flags ≡ false
      → SameRequests fm (
          unlock_with_trace_and_span ctx_done flags is_http2 requests responses request_ts
            response_ts s fm)
  unfolding unlock_with_trace_and_span unlock_with_tcp_flags
  unlock_with_trace_and_span-SameRequests ctx_done flags h requests responses request_ts response_ts
        s fm t =
      let a = on_carrier s.carrier (λ c. record c { is_http2 = h }) fm in
      let b = fold (request_stream s request_ts) a requests in
      let same =
        fold-SameRequests (response_stream s response_ts)
          (response_stream-SameRequests s response_ts) responses b
        ∙ fold-SameRequests (request_stream s request_ts) (request_stream-SameRequests s request_ts)
            requests a in
      elim (Bool-cases (bit_and s.tcp_flags (bit_or (bit_or tcp_syn tcp_fin) tcp_rst) == 0)) [
        | inl e ↦ rw (unlock_with_trace_and_span, e, unlock_with_tcp_flags, t) same
        | inr e ↦ rw (unlock_with_trace_and_span, e, unlock_with_tcp_flags, t) refl
      ]

module _ {W : FlowLibs} (L : JsonLibs W) where
  pub release_scan-SameRequests :
      (ctx_done : Bool) (scan : Scan L) (s : Session) (fm : FlowMutex W)
      → is_connection_termination s.tcp_flags ≡ false
      → SameRequests fm (release_scan L ctx_done scan s fm)
  unfolding release_scan unlock_with_tcp_flags
  release_scan-SameRequests ctx_done scan s fm t =
      let seen = scan.seen in
      elim (Bool-cases
        (not (L.stream_set.is_empty seen.requests) || not (L.stream_set.is_empty seen.responses))) [
          | inl h ↦
              rw (release_scan, h)
                (unlock_with_trace_and_span-SameRequests ctx_done s.tcp_flags scan.http.is_http2
                  (L.stream_set.to_slice seen.requests) (L.stream_set.to_slice seen.responses)
                  seen.request_ts seen.response_ts s fm t)
          | inr h ↦ rw (release_scan, h, unlock_with_tcp_flags, t) refl
        ]
