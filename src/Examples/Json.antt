-- ===== src/Examples/Json.antt =====
-- The JSON translator on small payloads.
use pcap_sidecar.Common.{
  ◌^◌, ◌*◌, arith, length, ℕ, ◌≡◌, ◌≢◌, refl, true, false, Option, none, some, [], ◌∷◌, nat_eq,
  string_eq, ◌==◌,
}
use pcap_sidecar.Filters.TcpFlags.{is_connection_termination}
use pcap_sidecar.Flows.Tables.{TraceAndSpan, FlowMutex, traced_flow}
use pcap_sidecar.Flows.Sessions.{Session, get_carrier, reap}
use pcap_sidecar.Flows.Steps.{new_flow_mutex, creates, reaps, Reaches, stays, steps}
use pcap_sidecar.Flows.Present.{lookups-calm, IsPresent-reached}
use pcap_sidecar.Flows.Filled.{IsPresent}
use pcap_sidecar.Json.Documents.{meta_of, cut, lines_of, split_rounds}
use pcap_sidecar.Json.Options.{window_option, scaled, no_number, window_option_lem}
use pcap_sidecar.Json.Output.{write, incomplete, write-complains}
use pcap_sidecar.Json.Headers.{add_http_headers, read_header, latency_of}
use pcap_sidecar.Json.Http.{scan_http, try_set_http}
use pcap_sidecar.Json.Layers.{ipv4, tcp, translate, finalize_head, Iface}
use pcap_sidecar.Json.Directions.{finalize_head-reverse}
use pcap_sidecar.Json.Linked.{IsLinked}
use pcap_sidecar.Json.Streams.{scan_http-IsLinked, frames_of}
use Prim.Native.String.{◌++◌ as concat}
use pcap_sidecar.Json.Runs.{try_set_http-Runs}
use pcap_sidecar.Json.Links.{linked_of, IsTracedRequest, IsTracedResponse, try_set_http-links}
use pcap_sidecar.Samples.Json.{json_flow_libs, json_libs, hash_libs}

abbrev start : FlowMutex json_flow_libs
start = new_flow_mutex json_flow_libs

abbrev created : FlowMutex json_flow_libs
created = (get_carrier 7 start).1

created-Reaches : Reaches start 0 created
created-Reaches = steps stays (creates 7)

abbrev ts1 : TraceAndSpan
ts1 = record { trace_id = "t1"; span_id = "s1"; stream_id = 1 }

abbrev eth0 : Iface
eth0 = record { index = 2; name = "eth0"; addrs = [] }

abbrev session : Session
session = record {
  flow = 7;
  carrier = 0;
  tcp_flags = 16;
  seq = 100;
  ack = 200;
  local = true;
  table = none;
}

created-IsPresent : IsPresent created
created-IsPresent = IsPresent-reached 0 created created-Reaches

finalize_head-reverse_example :
    ((finalize_head hash_libs
        (λ p. p == 1)
        (record { min_port = 32768; max_port = 65535 })
        []
        eth0
        (translate hash_libs 2 (ipv4 (10 ∷ []) (20 ∷ []) 6) (tcp 80 40000) false)).flow
      ≡ (finalize_head hash_libs
          (λ p. p == 1)
          (record { min_port = 32768; max_port = 65535 })
          []
          eth0
          (translate hash_libs 2 (ipv4 (20 ∷ []) (10 ∷ []) 6) (tcp 40000 80) false)).flow)
    × ((finalize_head hash_libs
          (λ p. p == 1)
          (record { min_port = 32768; max_port = 65535 })
          []
          eth0
          (translate hash_libs 2 (ipv4 (10 ∷ []) (20 ∷ []) 6) (tcp 80 40000) false)).kind
        ≡ (finalize_head hash_libs
            (λ p. p == 1)
            (record { min_port = 32768; max_port = 65535 })
            []
            eth0
            (translate hash_libs 2 (ipv4 (20 ∷ []) (10 ∷ []) 6) (tcp 40000 80) false)).kind)
finalize_head-reverse_example =
    finalize_head-reverse hash_libs (λ p. p == 1) (record { min_port = 32768; max_port = 65535 }) []
      eth0 2 (ipv4 (10 ∷ []) (20 ∷ []) 6) (tcp 80 40000) false

-- A packet with two frames of a request.
scan_http-IsLinked_example :
    IsLinked json_libs
      (frames_of json_libs (1 ∷ []))
      (scan_http json_libs 5 (1 ∷ []) session created).0.seen
scan_http-IsLinked_example = scan_http-IsLinked json_libs 5 (1 ∷ []) session created

traced_request : IsTracedRequest json_libs (71 ∷ []) ts1 (record {
  url = "/a";
  proto = "HTTP/1.1";
  method = "GET";
  host = "b";
  headers = ("traceparent", "t1") ∷ [];
  content_length = none;
  body = some [];
})
unfolding add_http_headers read_header
traced_request = record {
  matches = refl;
  no_frame = refl;
  reads = refl;
  has_url = refl;
  has_trace = refl;
}

traced_response : IsTracedResponse json_libs (72 ∷ []) ts1 (record {
  proto = "HTTP/1.1";
  status = "200 OK";
  headers = ("traceparent", "t1") ∷ [];
  content_length = some 4;
  body = some (1 ∷ []);
})
unfolding add_http_headers read_header
traced_response = record {
  not_request = refl;
  matches = refl;
  no_frame = refl;
  reads = refl;
  has_trace = refl;
}

abbrev asked : FlowMutex json_flow_libs
asked = (try_set_http json_libs false 5000000 (71 ∷ []) session created).1

asked-IsPresent : IsPresent asked
asked-IsPresent =
    let r =
      try_set_http-Runs json_libs false 5000000 (71 ∷ []) session start created
        (0, created-Reaches) in
    IsPresent-reached r.0 asked r.1

-- A connection whose stream 1 has an empty map.
abbrev emptied : FlowMutex json_flow_libs
emptied = record start {
  mutex_map = (7, 0) ∷ [];
  flow_map = (7, 0) ∷ [];
  tables = λ p. (1, []) ∷ [];
}

-- The reaper untracks a connection with a traced flow.
lookups-calm_example :
    IsPresent (reap true 7 asked)
    × ((table : Option ℕ) (ref stream : ℕ)
        → traced_flow (reap true 7 asked) table ref stream ≢ some none)
lookups-calm_example = lookups-calm asked (reap true 7 asked) (reaps true 7) asked-IsPresent

-- The response comes three milliseconds after the request.
try_set_http-links_example :
    linked_of (try_set_http json_libs false 8000000 (72 ∷ []) session asked).0
    ≡ some record {
      request = record { timestamp = 5000000; method = "GET"; url = concat "b" "/a" };
      latency = latency_of 8000000 5000000;
    }
unfolding is_connection_termination
try_set_http-links_example =
    try_set_http-links json_libs false false 5000000 8000000 (71 ∷ []) (72 ∷ []) ts1 ts1 _ _ session
      session created asked traced_request traced_response refl refl created-IsPresent
      asked-IsPresent refl

-- A document of two bytes, and a writer that takes all that it is given.
write-complains_example :
    write (λ bytes. some (length bytes)) (some (123 ∷ 125 ∷ [])) ≡ incomplete 1 3
write-complains_example =
    write-complains (λ bytes. some (length bytes)) (123 ∷ 125 ∷ [])
      (λ e. absurd (ground (arith, e))) refl

test_meta_of : (meta_of (65 ∷ 13 ∷ 10 ∷ 66 ∷ 13 ∷ 10 ∷ 13 ∷ 10 ∷ 67 ∷ [])).headers ≡ (66 ∷ []) ∷ []
unfolding meta_of cut lines_of split_rounds
test_meta_of = refl

window_option_lem_example :
    (window_option 512 7 ≡ scaled (2 ^ 7) (512 * 2 ^ 7)) × (window_option 512 0 ≡ no_number)
window_option_lem_example = window_option_lem 512 6 (omega arith) (omega arith)
