-- ===== src/Json/Streams.antt =====
-- The traces that an analysis hands to the lock belong to streams that it hands over with them.
use pcap_sidecar.Common.{
  List, ℕ, ◌≡◌, refl, Bool, true, false, not, ◌&&◌, ◌||◌, Option, none, some, [], arith, nat_eq,
  ◌==◌, if◌then◌else◌, Option-cases, inl, inr, holds_if, string_eq,
}
use pcap_sidecar.Flows.Libs.{FlowLibs}
use pcap_sidecar.Flows.Tables.{TraceAndSpan, FlowMutex}
use pcap_sidecar.Flows.Sessions.{Session}
use pcap_sidecar.Json.Libs.{Frame, Bytes, JsonLibs}
use pcap_sidecar.Json.Headers.{add_http_headers, add_http_body_details}
use pcap_sidecar.Json.Frames.{nothing_seen, or_traced, read_all, trace_and_span}
use pcap_sidecar.Json.Documents.{BodyDetails}
use pcap_sidecar.Json.Http.{
  Scan, scan_h2, scan_request, scan_response, scan_http11, scan_http, see_message, is_nil,
  starts_http2,
}
use pcap_sidecar.Json.Calm.{Reading-cases}
use pcap_sidecar.Json.Linked.{
  put_if-none, IsLinked, add_http_headers-stream, nothing_seen-IsLinked, grown-IsLinked,
  read_frames-IsLinked,
}

module _ {W : FlowLibs} (L : JsonLibs W) where
  see_message-IsLinked :
      (is_request : Bool) (ts : Option TraceAndSpan) (body : Option BodyDetails)
      → ((t : TraceAndSpan) → is_request ≡ true → ts ≡ some t → t.stream_id ≡ 1)
      → (frames : List Frame) → IsLinked L frames (see_message L is_request ts body)
  unfolding nothing_seen
  see_message-IsLinked true ts body m frames =
      grown-IsLinked L frames true false false 1 ts none (nothing_seen L)
        (see_message L true ts body) (λ t e. m t refl e) refl refl refl (put_if-none false 1 ts)
        (λ e. e) (λ p q. absurd (ground (arith, q))) (nothing_seen-IsLinked L frames)
  see_message-IsLinked false ts body m frames =
      grown-IsLinked L frames false true true 1 none ts (nothing_seen L)
        (see_message L false ts body) (λ t e. absurd (ground (arith, e))) refl refl
        (put_if-none false 1 ts) refl (λ e. e) (λ p q. absurd (ground (arith, p)))
        (nothing_seen-IsLinked L frames)

  abbrev Links : Scan L × FlowMutex W → Type 0
  Links r = (frames : List Frame) → IsLinked L frames r.0.seen

  scan_request-Links :
      (time : ℕ) (bytes : Bytes) (fm : FlowMutex W) → Links (scan_request L time bytes fm)
  unfolding scan_request
  scan_request-Links time bytes fm = elim (Reading-cases (L.read_request bytes)) [
    | inl (error, partial, e) ↦
        rw (scan_request, e)
          (see_message-IsLinked true none none (λ t q d. absurd (ground (arith, d))))
    | inr (r, e) ↦
        rw (scan_request, e)
          (holds_if Links (r.url == "") _ _
            (λ h. see_message-IsLinked true none none (λ t q d. absurd (ground (arith, d))))
            (λ h.
              see_message-IsLinked true (add_http_headers L 1 r.headers)
                (add_http_body_details r.body) (λ t q. add_http_headers-stream L 1 r.headers t)))
  ]

  scan_response-Links :
      (time : ℕ) (bytes : Bytes) (traced : Option TraceAndSpan) (fm fm' : FlowMutex W)
      → Links (scan_response L time bytes traced fm, fm')
  unfolding scan_response
  scan_response-Links time bytes traced fm fm' = elim (Reading-cases (L.read_response bytes)) [
    | inl (error, partial, e) ↦
        rw (scan_response, e)
          (see_message-IsLinked false none none (λ t q. absurd (ground (arith, q))))
    | inr (r, e) ↦
        rw (scan_response, e)
          (see_message-IsLinked false (or_traced (add_http_headers L 1 r.headers) traced)
            (add_http_body_details r.body) (λ t q. absurd (ground (arith, q))))
  ]

  scan_http11-Links :
      (time : ℕ) (bytes : Bytes) (s : Session) (fm : FlowMutex W)
      → Links (scan_http11 L time bytes s fm)
  unfolding scan_http11
  scan_http11-Links time bytes s fm = elim (Option-cases (trace_and_span s fm 1)) [
    | inl n ↦ rw (scan_http11, n) (nothing_seen-IsLinked L)
    | inr (traced, e) ↦
        rw (scan_http11, e)
          (holds_if Links (L.is_http11_request bytes) _ _ (λ h. scan_request-Links time bytes fm)
            (λ h. scan_response-Links time bytes traced fm fm))
  ]

  -- The frames of a payload.
  abbrev pub frames_of : Bytes → List Frame
  frames_of bytes =
      (L.read_frames (if starts_http2 L bytes then L.without_preface bytes else bytes)).0

  -- For every payload, session and state, whatever the parsers answer: each trace that the deferred
  -- function hands over for a request is that of its stream, and its stream is among those with a
  -- request; each trace for a response stands at a stream with a response, or at one with a request
  -- of which one of the frames of the payload is both a request and a response.
  pub scan_http-IsLinked :
      (time : ℕ) (bytes : Bytes) (s : Session) (fm : FlowMutex W)
      → IsLinked L (frames_of bytes) (scan_http L time bytes s fm).0.seen
  unfolding scan_http scan_h2 read_all
  scan_http-IsLinked time bytes s fm =
      let rest = if starts_http2 L bytes then L.without_preface bytes else bytes in
      let frames = (L.read_frames rest).0 in
      let l =
        read_frames-IsLinked L frames s fm frames
          (record { seen = nothing_seen L; frames = []; panicked = false }) (λ stream e. e)
          (nothing_seen-IsLinked L frames) in
      holds_if (λ (r : Scan L × FlowMutex W). IsLinked L frames r.0.seen)
        (starts_http2 L bytes && is_nil rest) _ _ (λ h. nothing_seen-IsLinked L frames)
        (λ h.
          holds_if (λ (r : Scan L × FlowMutex W). IsLinked L frames r.0.seen)
            (starts_http2 L bytes || not (is_nil frames)) _ _ (λ e. l)
            (λ e. scan_http11-Links time bytes s fm frames))
