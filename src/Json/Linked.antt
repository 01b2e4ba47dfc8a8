-- ===== src/Json/Linked.antt =====
-- The streams and the traces that the loop over the frames of a payload collects.
use pcap_sidecar.Common.{
  ℕ, ◌≡◌, ◌⊎◌, refl, Bool, true, false, not, ◌&&◌, ◌||◌, Option, none, some, any, sym, List, [],
  ◌∷◌, fold, arith, nat_eq, ◌==◌, Bool-cases, Option-cases, inl, inr, same_self, holds_if, String,
  string_eq,
}
use pcap_sidecar.Common.Maps.{lookup}
use pcap_sidecar.Flows.Libs.{FlowLibs}
use pcap_sidecar.Flows.Tables.{TraceAndSpan, FlowMutex}
use pcap_sidecar.Flows.Sessions.{Session}
use pcap_sidecar.Json.Libs.{
  Frame, FrameBody, goaway, rst, ping, settings, headers, metadata, payload, unknown, JsonLibs,
}
use pcap_sidecar.Json.Headers.{add_http_headers}
use pcap_sidecar.Json.Frames.{
  Seen, nothing_seen, add_if, put_if, or_traced, own_trace, see_frame, read_frame, Loop,
  trace_and_span, is_header, is_some,
}

last_test : (a b : Bool) → (a && b) ≡ true → b ≡ true
last_test true b e = e
last_test false b e = absurd (ground (arith, e))

pub put_if-none :
    (b : Bool) (k : ℕ) (ts : Option TraceAndSpan) → put_if false k ts [] ≡ put_if b k none []
put_if-none b k none = refl
put_if-none b k (some ts) = refl

or_true : (b : Bool) → (b || true) ≡ true
or_true true = refl
or_true false = refl

lookup-put_if :
    (b : Bool) (k : ℕ) (own : Option TraceAndSpan) (m : List (ℕ × TraceAndSpan)) (j : ℕ)
    (ts : TraceAndSpan)
    → lookup (put_if b k own m) j ≡ some ts
    → ((b ≡ true) × (k ≡ j) × (own ≡ some ts)) ⊎ (lookup m j ≡ some ts)
lookup-put_if b k none m j ts e = inr e
lookup-put_if false k (some o) m j ts e = inr e
lookup-put_if true k (some o) m j ts e = elim (Bool-cases (k == j)) [
  | inl h ↦ inl (refl, (nat_eq.same_iff k j).0 h, ground (arith, e, h))
  | inr h ↦ inr (ground (arith, e, h))
]

-- A frame of the stream that is both a request and a response.
abbrev pub is_both : ℕ → Frame → Bool
is_both stream f = f.stream == stream && (is_header ":method" f.body && is_header ":status" f.body)

module _ {W : FlowLibs} (L : JsonLibs W) where
  -- Each trace of a request is that of its stream, and its stream is one with a request; each trace
  -- of a response stands at a stream with a response, or at one with a request of which one of the
  -- frames was both.
  pub record IsLinked (frames : List Frame) (seen : Seen L) : Type 0 where
    pub of_requests :
        (stream : ℕ) (ts : TraceAndSpan)
        → lookup seen.request_ts stream ≡ some ts
        → (L.stream_set.contains_one seen.requests stream ≡ true) × (ts.stream_id ≡ stream)
    pub of_responses :
        (stream : ℕ) (ts : TraceAndSpan)
        → lookup seen.response_ts stream ≡ some ts
        → (L.stream_set.contains_one seen.responses stream
            || (L.stream_set.contains_one seen.requests stream && any (is_both stream) frames))
          ≡ true

  add_if-contains :
      (b : Bool) (stream x : ℕ) (set : L.stream_set.Carrier)
      → L.stream_set.contains_one (add_if L b stream set) x
        ≡ ((b && x == stream) || L.stream_set.contains_one set x)
  add_if-contains true stream x set = L.stream_set.contains_one-add set stream x
  add_if-contains false stream x set = refl

  pub add_http_headers-stream :
      (stream : ℕ) (fields : List (String × String)) (ts : TraceAndSpan)
      → add_http_headers L stream fields ≡ some ts
      → ts.stream_id ≡ stream
  unfolding add_http_headers
  add_http_headers-stream stream fields ts e = ground (arith, e)

  own_trace-stream :
      (stream : ℕ) (body : FrameBody) (ts : TraceAndSpan)
      → own_trace L stream body ≡ some ts
      → ts.stream_id ≡ stream
  own_trace-stream stream (headers fields) ts e =
      add_http_headers-stream stream (L.header_map fields) ts e
  own_trace-stream stream goaway ts e = absurd (ground (arith, e))
  own_trace-stream stream rst ts e = absurd (ground (arith, e))
  own_trace-stream stream (ping a d) ts e = absurd (ground (arith, e))
  own_trace-stream stream (settings a d) ts e = absurd (ground (arith, e))
  own_trace-stream stream (metadata d) ts e = absurd (ground (arith, e))
  own_trace-stream stream (payload d) ts e = absurd (ground (arith, e))
  own_trace-stream stream unknown ts e = absurd (ground (arith, e))

  pub nothing_seen-IsLinked : (frames : List Frame) → IsLinked frames (nothing_seen L)
  unfolding nothing_seen
  nothing_seen-IsLinked frames = record {
    of_requests = λ stream ts h. absurd (ground (arith, h));
    of_responses = λ stream ts h. absurd (ground (arith, h));
  }

  -- Where the sets and the maps get a stream by the tests `is_request` and `is_response`.
  pub grown-IsLinked :
      (frames : List Frame) (is_request is_response kept : Bool) (k : ℕ)
      (own traced : Option TraceAndSpan) (seen seen' : Seen L)
      → ((ts : TraceAndSpan) → own ≡ some ts → ts.stream_id ≡ k)
      → seen'.requests ≡ add_if L is_request k seen.requests
      → seen'.responses ≡ add_if L (not is_request && is_response) k seen.responses
      → seen'.request_ts ≡ put_if is_request k own seen.request_ts
      → seen'.response_ts ≡ put_if kept k traced seen.response_ts
      → (kept ≡ true → is_response ≡ true)
      → (is_request ≡ true → is_response ≡ true → any (is_both k) frames ≡ true)
      → IsLinked frames seen
      → IsLinked frames seen'
  grown-IsLinked frames is_request is_response kept k own traced seen seen' mine e1 e2 e3 e4 only
        both l =
      record {
        of_requests = λ stream ts h.
            let c = add_if-contains is_request k stream seen.requests in
            elim (lookup-put_if is_request k own seen.request_ts stream ts
              (ground (arith, h, e3))) [
                | inl (b, j, o) ↦
                    (rw (e1, c, b, j) (rw (same_self stream) refl), ground (arith, mine ts o, j))
                | inr old ↦
                    let q = l.of_requests stream ts old in (rw (e1, c) (rw q.0 (or_true _)), q.1)
              ];
        of_responses = λ stream ts h.
            let c = add_if-contains is_request k stream seen.requests in
            let d = add_if-contains (not is_request && is_response) k stream seen.responses in
            elim (lookup-put_if kept k traced seen.response_ts stream ts (ground (arith, h, e4))) [
              | inl (b, j, o) ↦
                  rw (e1, e2, c, d)
                    (elim (Bool-cases is_request) [
                      | inl q ↦ rw (q, sym j) (ground (arith, both q (only b), same_self k))
                      | inr q ↦ rw (q, sym j) (ground (arith, only b, same_self k))
                    ])
              | inr old ↦ rw (e1, e2, c, d) (ground (arith, l.of_responses stream ts old))
            ];
      }

  see_frame-IsLinked :
      (frames : List Frame) (traced : Option TraceAndSpan) (f : Frame) (seen : Seen L)
      → (is_both f.stream f ≡ true → any (is_both f.stream) frames ≡ true)
      → IsLinked frames seen
      → IsLinked frames (see_frame L traced f seen)
  unfolding see_frame
  see_frame-IsLinked frames traced f seen both l =
      let own = own_trace L f.stream f.body in
      let is_request = is_header ":method" f.body in
      let is_response = is_header ":status" f.body in
      grown-IsLinked frames is_request is_response
        ((not (is_some own) || not is_request) && is_response) f.stream own (or_traced own traced)
        seen (see_frame L traced f seen) (own_trace-stream f.stream f.body) refl refl refl refl
        (last_test (not (is_some own) || not is_request) is_response)
        (λ p q. both (rw (p, q, same_self f.stream) refl)) l

  read_frame-IsLinked :
      (frames : List Frame) (s : Session) (fm : FlowMutex W) (l : Loop L) (f : Frame)
      → (is_both f.stream f ≡ true → any (is_both f.stream) frames ≡ true)
      → IsLinked frames l.seen
      → IsLinked frames (read_frame L s fm l f).seen
  unfolding read_frame
  read_frame-IsLinked frames s fm l f both h = elim (Option-cases (trace_and_span s fm f.stream)) [
    | inl n ↦
        rw (read_frame, n)
          (holds_if (IsLinked frames) l.panicked l.seen _ (λ p. h)
            (λ p. record { of_requests = h.of_requests; of_responses = h.of_responses }))
    | inr (traced, e) ↦ elim (Bool-cases l.panicked) [
      | inl p ↦ rw (read_frame, e, p) h
      | inr p ↦ rw (read_frame, e, p) (see_frame-IsLinked frames traced f l.seen both h)
    ]
  ]

  pub read_frames-IsLinked :
      (frames : List Frame) (s : Session) (fm : FlowMutex W) (rest : List Frame) (l : Loop L)
      → ((stream : ℕ) → any (is_both stream) rest ≡ true → any (is_both stream) frames ≡ true)
      → IsLinked frames l.seen
      → IsLinked frames (fold (read_frame L s fm) l rest).seen
  read_frames-IsLinked frames s fm [] l both h = h
  read_frames-IsLinked frames s fm (f ∷ rest) l both h =
      read_frames-IsLinked frames s fm rest (read_frame L s fm l f)
        (λ stream e. both stream (any-cons stream f rest (inr e)))
        (read_frame-IsLinked frames s fm l f (λ e. both f.stream (any-cons f.stream f rest (inl e)))
          h)
    where
      any-cons :
          (stream : ℕ) (f : Frame) (rest : List Frame)
          → ((is_both stream f ≡ true) ⊎ (any (is_both stream) rest ≡ true))
          → any (is_both stream) (f ∷ rest) ≡ true
      any-cons stream f rest (inl e) = rw e refl
      any-cons stream f rest (inr e) = rw e (or_true (is_both stream f))
