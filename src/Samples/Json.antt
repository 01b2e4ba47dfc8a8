-- ===== src/Samples/Json.antt =====
-- Payloads of one byte: what they hold is told by the byte.
use pcap_sidecar.Common.{
  ℕ, ◌+◌, ◌*◌, refl, String, Bool, false, none, some, List, [], ◌∷◌, nat_eq, string_eq, ◌==◌,
  if◌then◌else◌,
}
use pcap_sidecar.Flows.Libs.{FlowLibs}
use pcap_sidecar.Samples.Maps.{list_map}
use pcap_sidecar.Samples.Sets.{list_set}
use pcap_sidecar.Samples.Flows.{skip_map}
use pcap_sidecar.Json.Libs.{Bytes, HttpRequest, Frame, headers, payload, parsed, JsonLibs}
use pcap_sidecar.Json.Layers.{HashLibs}

-- The maps of the translator, with requests as they are.
abbrev pub json_flow_libs : FlowLibs
json_flow_libs = record {
  Request = HttpRequest;
  requests = list_map;
  refs = list_map;
  sequences = skip_map;
  streams = list_map;
}

abbrev pub starts : ℕ → Bytes → Bool
starts n [] = false
starts n (b ∷ bytes) = b == n

abbrev tail : Bytes → Bytes
tail [] = []
tail (b ∷ bytes) = bytes

abbrev trace_header : List (String × String)
trace_header = ("traceparent", "t1") ∷ []

-- A request with a trace, and its data.
abbrev pub two_frames : List Frame
two_frames =
    record { stream = 3; size = 9; flags = 4; body = headers ((":method", "GET") ∷ trace_header) }
    ∷ record { stream = 3; size = 2; flags = 0; body = payload (104 ∷ 105 ∷ []) }
    ∷ []

abbrev no_frames : List Frame
no_frames = []

-- 71 (G) starts a request, 72 (H) a response, 80 (P) the preface, and 1 a list of frames.
abbrev pub json_libs : JsonLibs json_flow_libs
json_libs = record {
  is_http11_request = starts 71;
  is_http11_response = starts 72;
  has_preface = starts 80;
  without_preface = tail;
  url_of_request = λ bytes. none;
  read_frames = λ bytes. (if starts 1 bytes then two_frames else no_frames, none);
  read_request = λ bytes. parsed record {
    url = "/a";
    proto = "HTTP/1.1";
    method = "GET";
    host = "b";
    headers = trace_header;
    content_length = none;
    body = some [];
  };
  read_response = λ bytes. parsed record {
    proto = "HTTP/1.1";
    status = "200 OK";
    headers = trace_header;
    content_length = some 4;
    body = some (1 ∷ []);
  };
  header_map = λ fields. fields;
  equal_fold = λ s t. s == t;
  trace_and_span_regex = ("traceparent", λ v. some (v, "s1")) ∷ [];
  stream_set = list_set;
  to_request = λ r. r;
  of_request = λ r. r;
  to_request-of_request = λ r. refl;
}

-- A sum of the bytes in place of a hash.
abbrev pub sum_of : Bytes → ℕ
sum_of [] = 0
sum_of (b ∷ bytes) = b + sum_of bytes

abbrev pub hash_libs : HashLibs
hash_libs = record {
  init64 = 5;
  hash_uint64 = λ n. n * 31;
  hash_bytes64 = sum_of;
  add_uint64 = λ a b. a * 7 + b;
  ip_text = λ bytes. "ip";
}
