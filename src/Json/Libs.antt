-- ===== src/Json/Libs.antt =====
-- What the JSON translator calls: expressions, the frames of HTTP/2, the parsers of HTTP/1.1, and
-- sets of streams, as parameters.
use pcap_sidecar.Common.{ℕ, ◌≡◌, String, Bool, Option, List, nat_eq}
use pcap_sidecar.Common.Sets.{SetApi}
use pcap_sidecar.Flows.Libs.{FlowLibs}

-- A payload is the list of its bytes.
abbrev pub Bytes : Type 0
Bytes = List ℕ

-- `httpRequest`
pub record HttpRequest : Type 0 where
  pub timestamp : ℕ
  pub method : String
  pub url : String

-- The frames that the translator tells apart. The fields of a frame with headers are those that
-- its decoder finds.
pub data FrameBody : Type 0 where
  goaway : FrameBody
  rst : FrameBody
  ping : Bool → Bytes → FrameBody
  settings : Bool → List (ℕ × ℕ) → FrameBody
  headers : List (String × String) → FrameBody
  metadata : List (String × String) → FrameBody
  payload : Bytes → FrameBody
  unknown : FrameBody

-- The header of a frame, and its content.
pub record Frame : Type 0 where
  pub stream : ℕ
  pub size : ℕ
  pub flags : ℕ
  pub body : FrameBody

-- What `http.ReadRequest` finds: an absent URL is the empty text, `content_length` is its header as
-- a number, and there is no body where reading it fails.
pub record Request : Type 0 where
  pub url : String
  pub proto : String
  pub method : String
  pub host : String
  pub headers : List (String × String)
  pub content_length : Option ℕ
  pub body : Option Bytes

-- What `http.ReadResponse` finds.
pub record Response : Type 0 where
  pub proto : String
  pub status : String
  pub headers : List (String × String)
  pub content_length : Option ℕ
  pub body : Option Bytes

-- A message, or the error and whether there is a message beside it.
pub data Reading (A : Type 0) : Type 0 where
  parsed : A → Reading A
  refused : String → Bool → Reading A

pub record JsonLibs (W : FlowLibs) : Type 1 where
  -- The expressions for the first bytes of a payload; the last removes the HTTP/2 preface.
  pub is_http11_request : Bytes → Bool
  pub is_http11_response : Bytes → Bool
  pub has_preface : Bytes → Bool
  pub without_preface : Bytes → Bytes
  -- The URL by the expression for requests.
  pub url_of_request : Bytes → Option String
  -- What `ReadFrame` returns until it returns no frame, and the last error if it is not the end.
  pub read_frames : Bytes → List Frame × Option String
  pub read_request : Bytes → Reading Request
  pub read_response : Bytes → Reading Response
  -- `http.Header` with `Add`: the keys in the order of a loop, with their first values.
  pub header_map : List (String × String) → List (String × String)
  pub equal_fold : String → String → Bool
  -- `traceAndSpanRegex`: for each header, what its expression finds in a value.
  pub trace_and_span_regex : List (String × (String → Option (String × String)))
  pub stream_set : SetApi ℕ
  -- The values of the map of requests.
  pub to_request : W.Request → HttpRequest
  pub of_request : HttpRequest → W.Request
  pub to_request-of_request : (r : HttpRequest) → to_request (of_request r) ≡ r
