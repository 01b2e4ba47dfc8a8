-- ===== src/Samples/Texts.antt =====
-- The functions on texts that the providers call, over small tables.
use pcap_sidecar.Common.{
  ℕ, ◌≤◌, ◌+◌, ◌*◌, ◌^◌, String, Bool, true, false, none, some, arith, nat_eq, string_eq, ◌==◌,
  if◌then◌else◌,
}
use pcap_sidecar.Filters.Addrs.{v4}
use pcap_sidecar.Providers.Texts.{TextLibs}
use pcap_sidecar.Samples.Sets.{list_set}

abbrev pub upper : String → String
upper s = if s == "foo" then "FOO" else if s == "syn" then "SYN" else s

abbrev pub parse_port : String → ℕ × Bool
parse_port s = if s == "80" then (80, true) else if s == "70000" then (65535, false) else (0, false)

pub parse_port-bound : (s : String) → (parse_port s).0 ≤ 0xFFFF
parse_port-bound s = ground arith

abbrev pub sample_texts : TextLibs
sample_texts = record {
  texts = list_set;
  equal_fold = λ s t. s == t;
  to_lower = λ s. s;
  to_upper = upper;
  parse_uint16 = parse_port;
  parse_uint16_bound = parse_port-bound;
  format_hex = λ n. if n == 2 then "2" else "0";
  parse_addr = λ s. if s == "10.0.0.1" then some (v4 (10 * 2 ^ 24 + 1)) else none;
  addr_string = λ a. "10.0.0.1";
  prefix_string = λ p. "10.0.0.0/8";
  prefix_contains = λ p a. true;
  lookup_host = λ s. none;
}
