-- ===== src/Json/Releases.antt =====
-- The lock of a flow is given back on every path of `finalize`.
use pcap_sidecar.Common.{
  ℕ, ◌≡◌, refl, Bool, true, false, not, ◌&&◌, ◌||◌, Option, none, some, nat_eq, string_eq,
  Bool-cases, Option-cases, inl, inr, holds_if,
}
use pcap_sidecar.Flows.Libs.{FlowLibs}
use pcap_sidecar.Flows.Tables.{FlowMutex}
use pcap_sidecar.Flows.Sessions.{Session}
use pcap_sidecar.Flows.Filled.{IsPresent}
use pcap_sidecar.Json.Libs.{Bytes, JsonLibs}
use pcap_sidecar.Json.Frames.{trace_and_span}
use pcap_sidecar.Json.Http.{Scan, scan_http, release_scan, try_set_http, is_nil}
use pcap_sidecar.Json.Final.{
  TcpJson, empty_layer, http, other_payload, no_payload, panicked, add_app_layer_data, add_trace,
  finalize_locked,
}
use pcap_sidecar.Flows.Freed.{
  IsFree, unlock_with_tcp_flags-IsFree, unlock_with_trace_and_span-IsFree,
}
use pcap_sidecar.Json.Calm.{is_broken, trace_and_span-present, scan_http-Calm}

-- A panic has stopped the translation of the packet.
abbrev pub has_panicked : TcpJson → Bool
has_panicked panicked = true
has_panicked (http h size text) = is_broken h.l7
has_panicked empty_layer = false
has_panicked (other_payload size bytes) = false
has_panicked (no_payload ts) = false

module _ {W : FlowLibs} (L : JsonLibs W) where
  release_scan-IsFree :
      (ctx_done : Bool) (scan : Scan L) (s : Session) (fm : FlowMutex W)
      → IsFree s (release_scan L ctx_done scan s fm)
  unfolding release_scan
  release_scan-IsFree ctx_done scan s fm =
      let seen = scan.seen in
      elim (Bool-cases
        (not (L.stream_set.is_empty seen.requests) || not (L.stream_set.is_empty seen.responses))) [
          | inl h ↦
              rw (release_scan, h)
                (unlock_with_trace_and_span-IsFree ctx_done s.tcp_flags scan.http.is_http2
                  (L.stream_set.to_slice seen.requests) (L.stream_set.to_slice seen.responses)
                  seen.request_ts seen.response_ts s fm)
          | inr h ↦ rw (release_scan, h) (unlock_with_tcp_flags-IsFree ctx_done s.tcp_flags s fm)
        ]

  -- The outcome has not panicked, and the lock is free.
  abbrev pub IsReleased : Session → TcpJson × FlowMutex W → Type 0
  IsReleased s r = (has_panicked r.0 ≡ false) × IsFree s r.1

  add_app_layer_data-IsReleased :
      (ctx_done : Bool) (time : ℕ) (bytes : Bytes) (s : Session) (fm : FlowMutex W)
      → IsPresent fm
      → IsReleased s (add_app_layer_data L ctx_done time bytes s fm)
  unfolding add_app_layer_data try_set_http
  add_app_layer_data-IsReleased ctx_done time bytes s fm p =
      holds_if (IsReleased s) (is_nil bytes) _ _
        (λ h. (refl, unlock_with_tcp_flags-IsFree ctx_done s.tcp_flags s fm))
        (λ h.
          elim (Bool-cases (
            not (L.is_http11_request bytes)
            && not (L.is_http11_response bytes)
            && not (L.has_preface bytes)
            && is_nil (L.read_frames bytes).0)) [
              | inl e ↦ rw e (
                refl,
                unlock_with_tcp_flags-IsFree ctx_done s.tcp_flags s
                    (try_set_http L ctx_done time bytes s fm).1,
              )
              | inr e ↦ rw e (
                scan_http-Calm L time bytes s fm p,
                rw (try_set_http, e)
                    (release_scan-IsFree ctx_done (scan_http L time bytes s fm).0 s
                      (scan_http L time bytes s fm).1),
              )
            ])

  add_trace-IsReleased :
      (ctx_done : Bool) (s : Session) (fm : FlowMutex W)
      → IsPresent fm
      → IsReleased s (add_trace L ctx_done s fm)
  unfolding add_trace
  add_trace-IsReleased ctx_done s fm p =
      let free = unlock_with_tcp_flags-IsFree ctx_done s.tcp_flags s fm in
      holds_if (IsReleased s) (fm.carriers s.carrier).is_http2 _ _ (λ h. (refl, free))
        (λ h. elim (Option-cases (trace_and_span s fm 1)) [
          | inl n ↦ absurd (trace_and_span-present s fm 1 p n)
          | inr (ts, e) ↦ rw e (refl, free)
        ])

  pub finalize_locked-IsReleased :
      (ctx_done : Bool) (time : ℕ) (app : Option Bytes) (s : Session) (fm : FlowMutex W)
      → IsPresent fm
      → IsReleased s (finalize_locked L ctx_done time app s fm)
  unfolding finalize_locked
  finalize_locked-IsReleased ctx_done time none s fm p = add_trace-IsReleased ctx_done s fm p
  finalize_locked-IsReleased ctx_done time (some bytes) s fm p =
      holds_if (IsReleased s) _ _ _ (λ h. add_app_layer_data-IsReleased ctx_done time bytes s fm p)
        (λ h. add_trace-IsReleased ctx_done s fm p)
