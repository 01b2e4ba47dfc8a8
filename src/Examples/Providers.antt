-- ===== src/Examples/Providers.antt =====
-- The providers at concrete configurations.
use pcap_sidecar.Common.{
  ℕ, ◌≡◌, refl, ap, Bool-cases, inl, inr, String, false, not, ◌&&◌, ◌||◌, Option, none, some, List,
  [], ◌∷◌, arith, nat_eq, string_eq, ◌==◌, any,
}
use pcap_sidecar.Common.Members.{is_member}
use pcap_sidecar.Filters.Config.{PcapFilters, new_pcap_filters}
use pcap_sidecar.Samples.Libs.{sample_libs}
use pcap_sidecar.Samples.Texts.{sample_texts, upper}
use pcap_sidecar.Providers.Texts.{split, split_on, join, is_unset}
use pcap_sidecar.Providers.Apply.{
  Provider, provide_pcap_filter, apply_filter, no_providers, expressions, provide_pcap_filter-joins,
}
use pcap_sidecar.Providers.Ports.{ports_each, flags_each}
use pcap_sidecar.Providers.Protos.{
  l3_proto_get, l4_proto_get, l3_proto, l4_proto, l3_proto_default_filter, l4_proto_default_filter,
}
use pcap_sidecar.Providers.Addresses.{ip_get, get_ips_and_nets}
use pcap_sidecar.Providers.Laws.Ports.{names_port, ports_each-entries}
use pcap_sidecar.Providers.Laws.Flags.{flags_each-kept}
use pcap_sidecar.Providers.Laws.Protos.{names_number, l3_proto_get-numbers, l4_proto_get-numbers}
use pcap_sidecar.Providers.Laws.Addresses.{ip_get-no_nets}

abbrev fresh : PcapFilters sample_libs
fresh = new_pcap_filters sample_libs

abbrev three : List (Option (Provider ℕ))
three =
    some (λ n. (n, some "tcp"))
    ∷ none
    ∷ some (λ n. (n, none))
    ∷ some (λ n. (n, some "port 80"))
    ∷ []

provide_pcap_filter-joins_example :
    (provide_pcap_filter (λ s t. s == t) false none three 0).1
    ≡ some (join " and " (expressions three 0))
unfolding no_providers
provide_pcap_filter-joins_example = provide_pcap_filter-joins (λ s t. s == t) none three 0 refl refl

joined : (provide_pcap_filter (λ s t. s == t) false none three 0).1 ≡ some "(tcp) and (port 80)"
unfolding provide_pcap_filter no_providers apply_filter
joined = refl

parts_of : split "tcp,,udp" ≡ "tcp" ∷ "" ∷ "udp" ∷ []
unfolding split_on
parts_of = refl

test_ports_each-entries :
    (sample_libs.sets.contains_one
        (ports_each sample_texts ("80" ∷ "x" ∷ "ALL" ∷ []) fresh).0.l4.ports
        0
      ≡ (any (names_port sample_texts 0) ("80" ∷ "x" ∷ "ALL" ∷ [])
          || sample_libs.sets.contains_one fresh.l4.ports 0))
    × (sample_texts.texts.contains_one
          (ports_each sample_texts ("80" ∷ "x" ∷ "ALL" ∷ []) fresh).1
          "x"
        ≡ (not (is_unset sample_texts "x") && is_member {A = String} "x" ("80" ∷ "x" ∷ "ALL" ∷ [])))
test_ports_each-entries = ports_each-entries sample_texts ("80" ∷ "x" ∷ "ALL" ∷ []) fresh 0 "x"

no_upper : (y : String) → ("foo" == upper y) ≡ false
no_upper y = elim (Bool-cases (y == "foo")) [
  | inl e ↦ ap (λ z. "foo" == upper z) ((string_eq.same_iff y "foo").0 e)
  | inr n ↦ elim (Bool-cases (y == "syn")) [
    | inl e ↦ ap (λ z. "foo" == upper z) ((string_eq.same_iff y "syn").0 e)
    | inr m ↦ ground (arith, n, m, string_eq.same_iff "foo" y, string_eq.same_iff y "foo")
  ]
]

test_flags_each-kept :
    sample_texts.texts.contains_one
      (flags_each {L = sample_libs} sample_texts ("syn" ∷ "foo" ∷ []) fresh).flags_set
      "foo"
    ≡ is_member {A = String} "foo" ("syn" ∷ "foo" ∷ [])
test_flags_each-kept = flags_each-kept sample_texts "foo" no_upper ("syn" ∷ "foo" ∷ []) fresh

test_l3_protos :
    sample_libs.sets.contains_one (l3_proto_get sample_texts "ipv4,arp" fresh).0.l3.protos 4 ≡ (
      any (names_number l3_proto 4) (split "ipv4,arp")
      || sample_libs.sets.contains_one fresh.l3.protos 4)
unfolding split_on l3_proto_default_filter
test_l3_protos = l3_proto_get-numbers sample_texts "ipv4,arp" fresh 4 refl refl

test_l4_proto_get-numbers :
    sample_libs.sets.contains_one (l4_proto_get sample_texts "tcp,58" fresh).0.l4.protos 6 ≡ (
      any (names_number l4_proto 6) (split "tcp,58")
      || sample_libs.sets.contains_one fresh.l4.protos 6)
unfolding split_on l4_proto_default_filter
test_l4_proto_get-numbers = l4_proto_get-numbers sample_texts "tcp,58" fresh 6 refl refl

ip_get-no_nets_example : (ip_get {L = sample_libs} sample_texts "10.0.0.1" "" "" fresh).0 ≡ fresh
unfolding get_ips_and_nets split_on
ip_get-no_nets_example = ip_get-no_nets sample_texts "10.0.0.1" "" fresh refl
