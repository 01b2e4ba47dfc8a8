-- ===== src/Json/Documents.antt =====
-- The parts of a translation that the analysis of a payload writes: each field stands for the path
-- of that name.
use pcap_sidecar.Common.{
  ℕ, zero, suc, ◌-◌, String, Bool, Option, none, some, List, [], ◌∷◌, ◌++◌, map, take, length, ltb,
  nat_eq, ◌==◌, if◌then◌else◌,
}
use pcap_sidecar.Flows.Tables.{TraceAndSpan}
use pcap_sidecar.Json.Libs.{Bytes, FrameBody, HttpRequest}

-- A text that is cut off before its limit, with dots in place of its last three characters.
abbrev pub clip : ℕ → Bytes → Bytes
clip n bytes = if ltb n (length bytes) then take (n - 3) bytes ++ 46 ∷ 46 ∷ 46 ∷ [] else bytes

-- The same without the dots.
abbrev pub cut_off : ℕ → Bytes → Bytes
cut_off n bytes = if ltb n (length bytes) then take (n - 3) bytes else bytes

-- What is left behind a prefix.
abbrev pub strip : Bytes → Bytes → Option Bytes
strip [] bytes = some bytes
strip (a ∷ sep) [] = none
strip (a ∷ sep) (b ∷ bytes) = if a == b then strip sep bytes else none

-- What stands before the first separator, and behind it.
unfoldable pub cut : Bytes → Bytes → Bytes × Option Bytes
cut sep [] = ([], none)
cut sep (b ∷ bytes) =
    let later = cut sep bytes in
    elim (strip sep (b ∷ bytes)) [ some rest ↦ ([], some rest) | none ↦ (b ∷ later.0, later.1) ]

-- `bytes.Split`; as many rounds as there are bytes are enough for a separator that is not empty.
unfoldable pub split_rounds : ℕ → Bytes → Bytes → List Bytes
unfolding cut
split_rounds zero sep bytes = bytes ∷ []
split_rounds (suc n) sep bytes =
    let parts = cut sep bytes in
    elim parts.1 [ none ↦ parts.0 ∷ [] | some rest ↦ parts.0 ∷ split_rounds n sep rest ]

-- A line break of HTTP.
abbrev pub line_break : Bytes
line_break = 13 ∷ 10 ∷ []

unfoldable pub lines_of : Bytes → List Bytes
unfolding split_rounds
lines_of bytes = split_rounds (length bytes) line_break bytes

-- The text for an empty line, `<EMPTY>`.
abbrev pub empty_line : Bytes
empty_line = 60 ∷ 69 ∷ 77 ∷ 80 ∷ 84 ∷ 89 ∷ 62 ∷ []

-- A line, or the text for an empty one.
abbrev pub or_empty : Bytes → Bytes
or_empty [] = empty_line
or_empty (b ∷ line) = b ∷ line

-- `L7` for HTTP/1.1: the first line, the headers, and the lines of the body.
pub record Meta : Type 0 where
  pub preface : Bytes
  pub headers : List Bytes
  pub body : Option (List Bytes)

unfoldable pub meta_of : Bytes → Meta
unfolding cut lines_of
meta_of bytes =
    let parts = cut (13 ∷ 10 ∷ line_break) bytes in
    let head = lines_of parts.0 in
    record {
      preface = elim head [ [] ↦ [] | line ∷ lines ↦ line ];
      headers = elim head [ [] ↦ [] | line ∷ lines ↦ map (λ l. or_empty (cut_off 128 l)) lines ];
      body = elim parts.1 [
        | none ↦ none
        | some rest ↦ some (map (λ l. or_empty (clip 128 l)) (lines_of rest))
      ];
    }

-- `setTraceAndSpan`: nothing is written, the translation is marked as not sampled, or a trace.
pub data TraceField : Type 0 where
  unset : TraceField
  not_sampled : TraceField
  sampled : String → String → TraceField

abbrev pub set_trace_and_span : Option TraceAndSpan → TraceField
set_trace_and_span none = not_sampled
set_trace_and_span (some ts) = sampled ts.trace_id ts.span_id

-- The body of a message, as `addHTTPBodyDetails` writes it: its size and its text.
pub record BodyDetails : Type 0 where
  pub size : ℕ
  pub content : Bytes

-- One frame of a stream.
pub data Role : Type 0 where
  request : Role
  response : Role

pub record FrameJson : Type 0 where
  pub stream : ℕ
  pub size : ℕ
  pub flags : ℕ
  pub content : FrameBody
  pub data_details : Option BodyDetails
  pub kind : Option Role
  pub trace : TraceField

-- The latency in milliseconds, which is negative where the clock was.
pub record Latency : Type 0 where
  pub negative : Bool
  pub milliseconds : ℕ

-- A response with what is known of its request.
pub record Linked : Type 0 where
  pub request : HttpRequest
  pub latency : Latency

-- `HTTP`
pub data L7 : Type 0 where
  preface_only : Bytes → L7
  h2c : List FrameJson → Option String → List ℕ → L7
  invalid_request : String → Bool → L7
  without_url : Option String → L7
  http_request : String → String → String → Option BodyDetails → Bool → L7
  invalid_response : String → Bool → L7
  http_response : String → String → Option Linked → Option BodyDetails → Bool → L7
  -- A panic has stopped the analysis.
  broken : L7

-- What is put behind the message, if it is written at all.
pub data Summary : Type 0 where
  no_message : Summary
  h2c_only : Summary
  h2c_streams : List ℕ → List ℕ → List ℕ → List ℕ → Summary
  invalid : String → Summary
  request_line : String → String → String → Summary
  status_line : String → String → Summary
