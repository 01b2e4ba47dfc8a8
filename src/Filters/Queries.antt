-- ===== src/Filters/Queries.antt =====
-- The methods of `pcapFilters` that say what a packet may be, from packet_filter.go.
use pcap_sidecar.Common.{ℕ, Bool, not, ◌&&◌, ◌||◌, List, [], ◌∷◌, ltb, bit_and, if◌then◌else◌}
use pcap_sidecar.Filters.TcpFlags.{tcp_flag_nil}
use pcap_sidecar.Filters.Addrs.{Addr, v4, v6, Prefix, is4, prefix_from, from_be_bytes}
use pcap_sidecar.Filters.Libs.{FilterLibs}
use pcap_sidecar.Filters.Config.{PcapFilters, hash_socket_from_addrs_and_ports}

-- `allowsIPaddr`
unfoldable pub allows_ip_addr : (L : FilterLibs) → L.trees.Tree → Prefix → Bool
allows_ip_addr L networks network = L.trees.has networks network

module _ {L : FilterLibs} where
  unfoldable pub has_l3_protos : PcapFilters L → Bool
  has_l3_protos f = not (L.sets.is_empty f.l3.protos)

  unfoldable pub has_ipv4s : PcapFilters L → Bool
  has_ipv4s f = ltb 0 (L.trees.len f.l3.networks4)

  unfoldable pub has_ipv6s : PcapFilters L → Bool
  has_ipv6s f = ltb 0 (L.trees.len f.l3.networks6)

  unfoldable pub has_ips : PcapFilters L → Bool
  has_ips f = has_ipv4s f || has_ipv6s f

  unfoldable pub allows_l3_proto : PcapFilters L → ℕ → Bool
  allows_l3_proto f proto = L.sets.contains_one f.l3.protos proto

  unfoldable pub allows_ipv4 : PcapFilters L → Bool
  allows_ipv4 f = L.sets.contains_one f.l3.protos 0x04

  unfoldable pub allows_ipv6 : PcapFilters L → Bool
  allows_ipv6 f = L.sets.contains f.l3.protos (0x29 ∷ [])

  unfoldable pub allows_ipv4_addr : PcapFilters L → Addr → Bool
  unfolding allows_ip_addr
  allows_ipv4_addr f ip4 = allows_ip_addr L f.l3.networks4 (prefix_from ip4 32)

  unfoldable pub allows_ipv4_bytes : PcapFilters L → List ℕ → Bool
  allows_ipv4_bytes f ip4 = allows_ipv4_addr f (v4 (from_be_bytes ip4))

  unfoldable pub allows_ipv6_addr : PcapFilters L → Addr → Bool
  unfolding allows_ip_addr
  allows_ipv6_addr f ip6 = allows_ip_addr L f.l3.networks6 (prefix_from ip6 128)

  -- As in the source, the 16 bytes go to the test for IPv4.
  unfoldable pub allows_ipv6_bytes : PcapFilters L → List ℕ → Bool
  allows_ipv6_bytes f ip6 = allows_ipv4_addr f (v6 (from_be_bytes ip6))

  unfoldable pub allows_ip : PcapFilters L → Addr → Bool
  allows_ip f ip = if is4 ip then allows_ipv4_addr f ip else allows_ipv6_addr f ip

  unfoldable pub has_l4_protos : PcapFilters L → Bool
  has_l4_protos f = not (L.sets.is_empty f.l4.protos)

  unfoldable pub allows_l4_proto : PcapFilters L → ℕ → Bool
  allows_l4_proto f proto = L.sets.contains_one f.l4.protos proto

  unfoldable pub allows_tcp : PcapFilters L → Bool
  allows_tcp f = L.sets.contains_one f.l4.protos 0x06

  unfoldable pub allows_udp : PcapFilters L → Bool
  allows_udp f = L.sets.contains_one f.l4.protos 0x11

  unfoldable pub has_l4_addrs : PcapFilters L → Bool
  has_l4_addrs f = not (L.sets.is_empty f.l4.ports) || not (L.sets.is_empty f.l4.no_ports)

  unfoldable pub allows_l4_addr : PcapFilters L → ℕ → Bool
  allows_l4_addr f port =
      not (L.sets.contains_one f.l4.no_ports port)
      && (L.sets.is_empty f.l4.ports || L.sets.contains_one f.l4.ports port)

  unfoldable pub denies_any_l4_addr : PcapFilters L → List ℕ → Bool
  denies_any_l4_addr f ports =
      not (L.sets.is_empty f.l4.no_ports) && L.sets.contains_any f.l4.no_ports ports

  unfoldable pub allows_any_l4_addr : PcapFilters L → List ℕ → Bool
  unfolding denies_any_l4_addr
  allows_any_l4_addr f ports =
      not (denies_any_l4_addr f ports)
      && (L.sets.is_empty f.l4.ports || L.sets.contains_any f.l4.ports ports)

  unfoldable pub has_tcp_flags : PcapFilters L → Bool
  has_tcp_flags f = ltb tcp_flag_nil f.l4.flags

  unfoldable pub allows_any_tcp_flags : PcapFilters L → ℕ → Bool
  allows_any_tcp_flags f flags = ltb tcp_flag_nil (bit_and flags f.l4.flags)

  unfoldable pub denies_socket : PcapFilters L → Addr → ℕ → Addr → ℕ → Bool
  denies_socket f src_addr src_port dst_addr dst_port =
      let hash = hash_socket_from_addrs_and_ports L src_addr src_port dst_addr dst_port in
      not (L.sets.is_empty f.no_sockets) && L.sets.contains_one f.no_sockets hash

  unfoldable pub allows_socket : PcapFilters L → Addr → ℕ → Addr → ℕ → Bool
  unfolding denies_socket
  allows_socket f src_addr src_port dst_addr dst_port =
      not (denies_socket f src_addr src_port dst_addr dst_port)
