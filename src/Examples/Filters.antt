-- ===== src/Examples/Filters.antt =====
-- The filters of packet_filter.go and translator_worker.go at concrete packets.
use pcap_sidecar.Common.{
  ℕ, ◌+◌, ◌*◌, ◌^◌, ◌≡◌, refl, true, false, not, ◌&&◌, if◌then◌else◌, none, some, [], ◌∷◌, arith,
  ◌<◌,
}
use pcap_sidecar.Filters.TcpFlags.{TcpLayer, materialize, parse_tcp_flags, set_if}
use pcap_sidecar.Filters.Addrs.{
  v4, prefix_from, overlaps, ip_less_than_func, from_be_bytes, as_slice,
}
use pcap_sidecar.Filters.Config.{
  PcapFilters, new_pcap_filters, add_ports, deny_port, add_ipv4_range, add_tcp_flags, add_l4_proto,
  allow_socket, deny_socket, hash_socket_from2tuples, combine_and_add_tcp_flags, hash2tuple,
  hash_uint64s, hash_socket_from_addrs_and_ports,
}
use pcap_sidecar.Filters.Queries.{
  allows_ipv4_addr, allows_ipv6_bytes, has_l3_protos, has_ipv4s, has_l4_protos, has_tcp_flags,
  allows_any_tcp_flags, has_l4_addrs, allows_any_l4_addr, allows_socket, denies_socket, allows_tcp,
}
use pcap_sidecar.Filters.Worker.{
  Packet, should_translate, is_l3_allowed, is_ipv4_allowed, to_ip4_addrs, is_l4_allowed,
  is_tcp_allowed, is_socket_allowed, are_ports_allowed, to4, copy_into,
}
use pcap_sidecar.Filters.Admission.{
  network_of, transport_of, touches, admitted, network_admitted, transport_admitted,
}
use pcap_sidecar.Filters.Admission.Refines.{should_translate-admitted}
use pcap_sidecar.Filters.Admission.Reverse.{reverse, IsDecoded, should_translate-reverse}
use pcap_sidecar.Filters.Admission.Ports.{should_translate-deny_port}
use pcap_sidecar.Filters.Admission.Fresh.{should_translate-new_pcap_filters}
use pcap_sidecar.Filters.Admission.Sockets.{key_is, should_translate-update_no_sockets}
use pcap_sidecar.Filters.Admission.Flags.{Shared, should_translate-flags, add_tcp_flags-combine}
use pcap_sidecar.Filters.Admission.Networks.{
  range4, in_range, allows_ipv4_addr-add_ipv4_range, allows_ipv4_addr-add_ipv4_range_overlap,
  allows_ipv6_bytes-no_networks4,
}
use pcap_sidecar.Samples.Trees.{without}
use pcap_sidecar.Samples.Libs.{sample_libs}

-- 10.0.0.1:80 opens a connection to 10.0.0.2:4000.
abbrev syn : TcpLayer
syn = record {
  src_port = 80;
  dst_port = 4000;
  fin = false;
  syn = true;
  rst = false;
  psh = false;
  ack = false;
  urg = false;
  ece = false;
  cwr = false;
}

abbrev packet : Packet
packet = record {
  ipv4 = some (record { src_ip = 10 ∷ 0 ∷ 0 ∷ 1 ∷ []; dst_ip = 10 ∷ 0 ∷ 0 ∷ 2 ∷ [] });
  ipv6 = none;
  tcp = some syn;
  udp = none;
}

abbrev filters : PcapFilters sample_libs
filters =
    add_tcp_flags
      (add_l4_proto
        (add_ipv4_range (add_ports (new_pcap_filters sample_libs) (80 ∷ [])) "10.0.0.0/8") 6)
      ("SYN" ∷ [])

translated : should_translate filters packet ≡ true
unfolding should_translate is_l3_allowed is_ipv4_allowed to_ip4_addrs is_l4_allowed is_tcp_allowed
    is_socket_allowed has_l3_protos has_ipv4s allows_ipv4_addr prefix_from ip_less_than_func
    has_l4_protos has_tcp_flags allows_any_tcp_flags parse_tcp_flags has_l4_addrs allows_any_l4_addr
    allows_socket denies_socket allows_tcp new_pcap_filters add_ports add_ipv4_range add_l4_proto
    add_tcp_flags materialize to4 copy_into from_be_bytes set_if are_ports_allowed without
    hash_socket_from_addrs_and_ports
translated = refl

packet-IsDecoded : IsDecoded packet
packet-IsDecoded = record { ipv4_long = (refl, refl); ipv6_long = tt }

should_translate-admitted_example :
    should_translate filters packet ≡ admitted filters (network_of packet) (transport_of packet)
should_translate-admitted_example = should_translate-admitted filters packet

should_translate-reverse_example :
    should_translate filters (reverse packet) ≡ should_translate filters packet
should_translate-reverse_example = should_translate-reverse filters packet packet-IsDecoded

should_translate-deny_port_example :
    should_translate (deny_port filters 80) packet
    ≡ (not (touches 80 (transport_of packet)) && should_translate filters packet)
should_translate-deny_port_example = should_translate-deny_port filters 80 packet

test_should_translate-new_pcap_filters :
    should_translate (new_pcap_filters sample_libs) packet ≡ true
test_should_translate-new_pcap_filters = should_translate-new_pcap_filters sample_libs packet

abbrev socket_key_sample : ℕ
socket_key_sample = 13529197

socket_parsed :
    hash_socket_from2tuples sample_libs "10.0.0.1:80" "10.0.0.2:4000" ≡ some socket_key_sample
unfolding hash_socket_from2tuples hash2tuple hash_uint64s as_slice
socket_parsed = refl

should_translate-update_no_sockets_example :
    (should_translate (deny_socket filters "10.0.0.1:80" "10.0.0.2:4000").0 packet ≡ (
      not (key_is sample_libs socket_key_sample (network_of packet) (transport_of packet))
      && should_translate filters packet))
    × (should_translate (allow_socket filters "10.0.0.1:80" "10.0.0.2:4000").0 packet ≡ (
        if key_is sample_libs socket_key_sample (network_of packet) (transport_of packet)
        then network_admitted filters (network_of packet)
          && transport_admitted filters (transport_of packet)
        else should_translate filters packet))
should_translate-update_no_sockets_example =
    should_translate-update_no_sockets filters "10.0.0.1:80" "10.0.0.2:4000" socket_parsed packet

flags_set : 0 < filters.l4.flags
unfolding add_tcp_flags materialize add_l4_proto add_ipv4_range add_ports new_pcap_filters
flags_set = omega arith

should_translate-flags_example : Shared syn filters.l4.flags
should_translate-flags_example = should_translate-flags filters packet syn refl flags_set translated

test_add_tcp_flags-combine :
    add_tcp_flags filters ("FIN" ∷ "RST" ∷ [])
    ≡ combine_and_add_tcp_flags filters ("FIN" ∷ "RST" ∷ [])
test_add_tcp_flags-combine = add_tcp_flags-combine filters ("FIN" ∷ "RST" ∷ [])

abbrev wide : ℕ
wide = 10 * 2 ^ 24

abbrev narrow : ℕ
narrow = 10 * 2 ^ 24 + 2 ^ 16

test_allows_ipv4_addr-add_ipv4_range :
    allows_ipv4_addr (add_ipv4_range (new_pcap_filters sample_libs) "10.0.0.0/8") (v4 (wide + 1))
    ≡ in_range (range4 wide 8) (v4 (wide + 1))
test_allows_ipv4_addr-add_ipv4_range =
    allows_ipv4_addr-add_ipv4_range sample_libs "10.0.0.0/8" wide 8 refl (wide + 1) (omega arith)

-- 10.0.0.1 lies in the first range, and is not allowed once the second is added.
allows_ipv4_addr-add_ipv4_range_overlap_example :
    allows_ipv4_addr
      (add_ipv4_range (add_ipv4_range (new_pcap_filters sample_libs) "10.0.0.0/8") "10.1.0.0/16")
      (v4 (wide + 1))
    ≡ in_range (range4 narrow 16) (v4 (wide + 1))
unfolding overlaps
allows_ipv4_addr-add_ipv4_range_overlap_example =
    allows_ipv4_addr-add_ipv4_range_overlap sample_libs "10.1.0.0/16" "10.0.0.0/8" narrow 16 wide 8
      (omega arith) refl refl (wide + 1) refl

allows_ipv6_bytes-no_networks4_example :
    allows_ipv6_bytes
      (new_pcap_filters sample_libs)
      (0 ∷ 0 ∷ 0 ∷ 0 ∷ 0 ∷ 0 ∷ 0 ∷ 0 ∷ 0 ∷ 0 ∷ 0 ∷ 0 ∷ 0 ∷ 0 ∷ 0 ∷ 1 ∷ [])
    ≡ false
unfolding new_pcap_filters
allows_ipv6_bytes-no_networks4_example =
    allows_ipv6_bytes-no_networks4 (new_pcap_filters sample_libs) _ refl
