-- ===== src/Json/Headers.antt =====
-- The headers with traces, and the map from traces to requests.
use pcap_sidecar.Common.{
  ℕ, ◌-◌, ◌/◌, String, true, false, Option, none, some, List, fold, length, leb, string_eq,
  if◌then◌else◌,
}
use Prim.Native.String.{◌++◌ as concat}
use pcap_sidecar.Flows.Libs.{FlowLibs}
use pcap_sidecar.Flows.Tables.{TraceAndSpan, FlowMutex}
use pcap_sidecar.Json.Libs.{Bytes, JsonLibs}
use pcap_sidecar.Json.Documents.{clip, BodyDetails, Latency, Linked}

-- `addHTTPBodyDetails`: what it writes, nothing where the body cannot be read.
abbrev pub add_http_body_details : Option Bytes → Option BodyDetails
add_http_body_details none = none
add_http_body_details (some body) = some record { size = length body; content = clip 512 body }

-- The size that it returns.
abbrev pub size_of_body : Option BodyDetails → ℕ
size_of_body none = 0
size_of_body (some details) = details.size

-- `Sub` and `Milliseconds` on times in nanoseconds.
abbrev pub latency_of : ℕ → ℕ → Latency
latency_of later earlier =
    if leb earlier later
    then record { negative = false; milliseconds = (later - earlier) / 1000000 }
    else record { negative = true; milliseconds = (earlier - later) / 1000000 }

module _ {W : FlowLibs} (L : JsonLibs W) where
  -- The loop over `traceAndSpanRegex` at one header.
  unfoldable pub read_header : Option (String × String) → String × String → Option (String × String)
  read_header found (key, value) =
      fold (λ f entry. if L.equal_fold key entry.0 then entry.1 value else f) found
        L.trace_and_span_regex

  -- `addHTTPHeaders`, with the stream that its callers put into the result.
  unfoldable pub add_http_headers : ℕ → List (String × String) → Option TraceAndSpan
  unfolding read_header
  add_http_headers stream headers = elim (fold read_header none headers) [
    | none ↦ none
    | some (trace, span) ↦ some record { trace_id = trace; span_id = span; stream_id = stream }
  ]

  -- `recordHTTP11Request`
  unfoldable pub record_http11_request :
      ℕ → TraceAndSpan → String → String → String → FlowMutex W → FlowMutex W
  record_http11_request time ts method host url fm = record fm {
    requests =
        W.requests.set fm.requests ts.trace_id
          (L.of_request record { timestamp = time; method = method; url = concat host url });
  }

  -- `linkHTTP11ResponseToRequest`: what it writes, or nothing with an error.
  unfoldable pub link_http11_response_to_request : ℕ → TraceAndSpan → FlowMutex W → Option Linked
  link_http11_response_to_request time ts fm = elim (W.requests.get fm.requests ts.trace_id) [
    | none ↦ none
    | some r ↦
        some
          record { request = L.to_request r; latency = latency_of time (L.to_request r).timestamp }
  ]
