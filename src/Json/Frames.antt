-- ===== src/Json/Frames.antt =====
-- The loop of `trySetHTTP` over the frames of HTTP/2.
use pcap_sidecar.Common.{
  ℕ, Bool, true, false, not, ◌&&◌, ◌||◌, Option, none, some, List, [], ◌∷◌, ◌++◌, any, fold, String,
  string_eq, nat_eq, ◌==◌, if◌then◌else◌,
}
use pcap_sidecar.Flows.Libs.{FlowLibs}
use pcap_sidecar.Flows.Tables.{TraceAndSpan, FlowMutex, traced_flow}
use pcap_sidecar.Flows.Sessions.{Session, ref_of}
use pcap_sidecar.Json.Libs.{Frame, FrameBody, headers, payload, JsonLibs}
use pcap_sidecar.Json.Documents.{
  BodyDetails, FrameJson, Role, request, response, TraceField, unset, set_trace_and_span,
}
use pcap_sidecar.Json.Headers.{add_http_headers, add_http_body_details}

module _ {W : FlowLibs} where
  -- The function for traces that `lock` returns: `none` is the panic on a nil traced flow.
  unfoldable pub trace_and_span : Session → FlowMutex W → ℕ → Option (Option TraceAndSpan)
  unfolding traced_flow
  trace_and_span s fm stream = elim (traced_flow fm s.table (ref_of s) stream) [
    | none ↦ some none
    | some none ↦ none
    | some (some tf) ↦ some (some (fm.traced tf).ts)
  ]

abbrev pub is_header : String → FrameBody → Bool
is_header name (headers fields) = any (λ f. f.0 == name) fields
is_header name other = false

abbrev pub is_some {ℓ} : {A : Type ℓ} → Option A → Bool
is_some none = false
is_some (some a) = true

-- The trace of a frame, or what is known of its stream.
abbrev pub or_traced : Option TraceAndSpan → Option TraceAndSpan → Option TraceAndSpan
or_traced (some ts) traced = some ts
or_traced none traced = traced

-- `none` where there is no trace: nothing is written.
abbrev pub frame_trace : Option TraceAndSpan → TraceField
frame_trace none = unset
frame_trace (some ts) = set_trace_and_span (some ts)

abbrev pub role_of : Bool → Bool → Option Role
role_of true is_response = some request
role_of false true = some response
role_of false false = none

-- An assignment to a key of a map: a key is found by its last one.
abbrev pub put_if :
    Bool → ℕ → Option TraceAndSpan → List (ℕ × TraceAndSpan) → List (ℕ × TraceAndSpan)
put_if b stream none m = m
put_if b stream (some ts) m = if b then (stream, ts) ∷ m else m

module _ {W : FlowLibs} (L : JsonLibs W) where
  -- The sets and maps of `trySetHTTP`.
  pub record Seen : Type 0 where
    pub streams : L.stream_set.Carrier
    pub requests : L.stream_set.Carrier
    pub responses : L.stream_set.Carrier
    pub payloads : L.stream_set.Carrier
    pub request_ts : List (ℕ × TraceAndSpan)
    pub response_ts : List (ℕ × TraceAndSpan)

  unfoldable pub nothing_seen : Seen
  nothing_seen = record {
    streams = L.stream_set.empty;
    requests = L.stream_set.empty;
    responses = L.stream_set.empty;
    payloads = L.stream_set.empty;
    request_ts = [];
    response_ts = [];
  }

  abbrev pub add_if : Bool → ℕ → L.stream_set.Carrier → L.stream_set.Carrier
  add_if b stream set = if b then L.stream_set.add set stream else set

  abbrev pub is_payload : FrameBody → Bool
  is_payload (payload bytes) = true
  is_payload other = false

  abbrev pub own_trace : ℕ → FrameBody → Option TraceAndSpan
  own_trace stream (headers fields) = add_http_headers L stream (L.header_map fields)
  own_trace stream other = none

  abbrev pub details_of : FrameBody → Option BodyDetails
  details_of (payload bytes) = add_http_body_details (some bytes)
  details_of other = none

  -- What a frame of a stream adds, where `traced` is the trace that is known of the stream.
  unfoldable pub see_frame : Option TraceAndSpan → Frame → Seen → Seen
  unfolding add_http_headers
  see_frame traced f seen =
      let own = own_trace f.stream f.body in
      let is_request = is_header ":method" f.body in
      let is_response = is_header ":status" f.body in
      record {
        streams = L.stream_set.add seen.streams f.stream;
        requests = add_if is_request f.stream seen.requests;
        responses = add_if (not is_request && is_response) f.stream seen.responses;
        payloads = add_if (is_payload f.body) f.stream seen.payloads;
        request_ts = put_if is_request f.stream own seen.request_ts;
        response_ts =
            put_if ((not (is_some own) || not is_request) && is_response) f.stream
              (or_traced own traced) seen.response_ts;
      }

  unfoldable pub frame_json : Option TraceAndSpan → Frame → FrameJson
  unfolding add_http_headers
  frame_json traced f = record {
    stream = f.stream;
    size = f.size;
    flags = f.flags;
    content = f.body;
    data_details = details_of f.body;
    kind = role_of (is_header ":method" f.body) (is_header ":status" f.body);
    trace = frame_trace (or_traced (own_trace f.stream f.body) traced);
  }

  -- The state of the loop: `panicked` is a nil traced flow, which ends it.
  pub record Loop : Type 0 where
    pub seen : Seen
    pub frames : List FrameJson
    pub panicked : Bool

  -- The body of the loop.
  unfoldable pub read_frame : Session → FlowMutex W → Loop → Frame → Loop
  unfolding trace_and_span see_frame frame_json
  read_frame s fm l f = elim (trace_and_span s fm f.stream) [
    | none ↦ record l {
      seen =
          if l.panicked
          then l.seen
          else record l.seen { streams = L.stream_set.add l.seen.streams f.stream };
      panicked = true;
    }
    | some traced ↦ if l.panicked then l else record {
      seen = see_frame traced f l.seen;
      frames = l.frames ++ frame_json traced f ∷ [];
      panicked = false;
    }
  ]

  unfoldable pub read_all : Session → FlowMutex W → List Frame → Loop
  unfolding read_frame nothing_seen
  read_all s fm frames =
      fold (read_frame s fm) (record { seen = nothing_seen; frames = []; panicked = false }) frames
