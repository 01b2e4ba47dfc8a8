-- ===== src/Json/Calm.antt =====
-- The scan of a payload does not panic when the map of traced flows has no missing entry.
use pcap_sidecar.Common.{
  ℕ, ◌≡◌, ◌≢◌, ◌⊎◌, refl, String, Bool, true, false, not, ◌&&◌, ◌||◌, Option, none, some, List, [],
  ◌∷◌, fold, arith, nat_eq, string_eq, ◌==◌, if◌then◌else◌, Option-cases, inl, inr, holds_if,
}
use pcap_sidecar.Flows.Libs.{FlowLibs}
use pcap_sidecar.Flows.Tables.{TraceAndSpan, FlowMutex, traced_flow}
use pcap_sidecar.Flows.Sessions.{Session, ref_of}
use pcap_sidecar.Flows.Filled.{IsPresent}
use pcap_sidecar.Flows.Present.{traced_flow-present}
use pcap_sidecar.Json.Libs.{Bytes, Frame, Reading, parsed, refused, JsonLibs}
use pcap_sidecar.Json.Documents.{
  L7, preface_only, h2c, invalid_request, without_url, http_request, invalid_response,
  http_response, broken,
}
use pcap_sidecar.Json.Frames.{trace_and_span, nothing_seen, Loop, read_frame, read_all}
use pcap_sidecar.Json.Http.{
  Scan, scan_h2, scan_request, scan_response, scan_http11, scan_http, is_nil, starts_http2,
}

module _ {W : FlowLibs} where
  pub trace_and_span-present :
      (s : Session) (fm : FlowMutex W) (stream : ℕ)
      → IsPresent fm
      → trace_and_span s fm stream ≢ none
  unfolding trace_and_span
  trace_and_span-present s fm stream p e =
      elim (Option-cases (traced_flow fm s.table (ref_of s) stream)) [
        | inl n ↦ absurd (ground (arith, e, n))
        | inr (found, d) ↦ elim (Option-cases found) [
          | inl n ↦ traced_flow-present fm s.table (ref_of s) stream p (ground (arith, d, n))
          | inr (tf, n) ↦ absurd (ground (arith, e, d, n))
        ]
      ]

pub trace_and_span-known :
    {W : FlowLibs} (s : Session) (fm : FlowMutex W) (stream : ℕ)
    → IsPresent fm
    → (traced : Option TraceAndSpan) × (trace_and_span s fm stream ≡ some traced)
trace_and_span-known s fm stream p = elim (Option-cases (trace_and_span s fm stream)) [
  | inl n ↦ absurd (trace_and_span-present s fm stream p n)
  | inr known ↦ known
]

pub Reading-cases :
    {A : Type 0} (r : Reading A)
    → ((error : String) × (partial : Bool) × (r ≡ refused error partial))
      ⊎ ((a : A) × (r ≡ parsed a))
Reading-cases (refused error partial) = inl (error, partial, refl)
Reading-cases (parsed a) = inr (a, refl)

abbrev pub is_broken : L7 → Bool
is_broken broken = true
is_broken (preface_only bytes) = false
is_broken (h2c frames error streams) = false
is_broken (invalid_request error partial) = false
is_broken (without_url url) = false
is_broken (http_request url proto method body fragmented) = false
is_broken (invalid_response error partial) = false
is_broken (http_response proto status linked body fragmented) = false

module _ {W : FlowLibs} (L : JsonLibs W) where
  read_frames-calm :
      (s : Session) (fm : FlowMutex W) (frames : List Frame) (l : Loop L)
      → IsPresent fm
      → l.panicked ≡ false
      → (fold (read_frame L s fm) l frames).panicked ≡ false
  unfolding read_frame
  read_frames-calm s fm [] l p c = c
  read_frames-calm s fm (f ∷ frames) l p c =
      read_frames-calm s fm frames (read_frame L s fm l f) p
        (elim (Option-cases (trace_and_span s fm f.stream)) [
          | inl n ↦ absurd (trace_and_span-present s fm f.stream p n)
          | inr (traced, e) ↦ ground (arith, e, c)
        ])

  abbrev pub Calm : Scan L × FlowMutex W → Type 0
  Calm r = is_broken r.0.http.l7 ≡ false

  scan_request-Calm :
      (time : ℕ) (bytes : Bytes) (fm : FlowMutex W) → Calm (scan_request L time bytes fm)
  unfolding scan_request
  scan_request-Calm time bytes fm = elim (Reading-cases (L.read_request bytes)) [
    | inl (error, partial, e) ↦ rw (scan_request, e) refl
    | inr (r, e) ↦ rw (scan_request, e) (holds_if Calm (r.url == "") _ _ (λ h. refl) (λ h. refl))
  ]

  scan_response-Calm :
      (time : ℕ) (bytes : Bytes) (traced : Option TraceAndSpan) (fm fm' : FlowMutex W)
      → Calm (scan_response L time bytes traced fm, fm')
  unfolding scan_response
  scan_response-Calm time bytes traced fm fm' = elim (Reading-cases (L.read_response bytes)) [
    | inl (error, partial, e) ↦ rw (scan_response, e) refl
    | inr (r, e) ↦ rw (scan_response, e) refl
  ]

  scan_http11-Calm :
      (time : ℕ) (bytes : Bytes) (s : Session) (fm : FlowMutex W)
      → IsPresent fm
      → Calm (scan_http11 L time bytes s fm)
  unfolding scan_http11
  scan_http11-Calm time bytes s fm p = elim (Option-cases (trace_and_span s fm 1)) [
    | inl n ↦ absurd (trace_and_span-present s fm 1 p n)
    | inr (traced, e) ↦
        rw (scan_http11, e)
          (holds_if Calm (L.is_http11_request bytes) _ _ (λ h. scan_request-Calm time bytes fm)
            (λ h. scan_response-Calm time bytes traced fm fm))
  ]

  pub scan_http-Calm :
      (time : ℕ) (bytes : Bytes) (s : Session) (fm : FlowMutex W)
      → IsPresent fm
      → Calm (scan_http L time bytes s fm)
  unfolding scan_http scan_h2 read_all
  scan_http-Calm time bytes s fm p =
      let rest = if starts_http2 L bytes then L.without_preface bytes else bytes in
      let frames = (L.read_frames rest).0 in
      let calm =
        read_frames-calm s fm frames
          (record { seen = nothing_seen L; frames = []; panicked = false }) p refl in
      holds_if Calm (starts_http2 L bytes && is_nil rest) _ _ (λ h. refl)
        (λ h.
          holds_if Calm (starts_http2 L bytes || not (is_nil frames)) _ _ (λ e. rw calm refl)
            (λ e. scan_http11-Calm time bytes s fm p))
