-- ===== src/Samples/Libs.antt =====
-- The packages that the filters call, over lists and small tables.
use pcap_sidecar.Common.{
  ℕ, String, ◌+◌, ◌*◌, ◌%◌, ◌^◌, Option, none, some, List, [], ◌∷◌, fold, nat_eq, string_eq, ◌==◌,
  if◌then◌else◌,
}
use pcap_sidecar.Filters.Addrs.{Addr, v4, v6, Prefix}
use pcap_sidecar.Filters.Libs.{FilterLibs}
use pcap_sidecar.Samples.Sets.{list_set}
use pcap_sidecar.Samples.Trees.{list_tree}

abbrev pub lookup_text {ℓ} : {A : Type ℓ} → List (String × A) → String → Option A
lookup_text [] k = none
lookup_text ((j, a) ∷ rest) k = if k == j then some a else lookup_text rest k

-- 10.0.0.0, 10.1.0.0 and the loopback address of IPv6
abbrev pub prefixes : List (String × Prefix)
prefixes =
    ("10.0.0.0/8", record { addr = v4 (10 * 2 ^ 24); bits = 8 })
    ∷ ("10.1.0.0/16", record { addr = v4 (10 * 2 ^ 24 + 2 ^ 16); bits = 16 })
    ∷ ("::1/128", record { addr = v6 1; bits = 128 })
    ∷ []

abbrev pub sockets : List (String × (Addr × ℕ))
sockets =
    ("10.0.0.1:80", (v4 (10 * 2 ^ 24 + 1), 80))
    ∷ ("10.0.0.2:4000", (v4 (10 * 2 ^ 24 + 2), 4000))
    ∷ []

abbrev pub sample_libs : FilterLibs
sample_libs = record {
  sets = list_set;
  trees = list_tree;
  hash_bytes64 = λ bytes. fold (λ h b. (h * 31 + b) % 2 ^ 64) 7 bytes;
  hash_uint64 = λ h. h;
  parse_prefix = lookup_text prefixes;
  parse_addr_port = lookup_text sockets;
}
