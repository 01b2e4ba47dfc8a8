-- ===== src/Filters/Admission.antt =====
-- What a set of filters promises, without the order of the tests and the early returns of
-- translator_worker.go: a packet is admitted on its network, its transport and its socket.
pub mod Refines
pub mod Fresh
pub mod Ports
pub mod Sockets
pub mod Flags
pub mod Networks
pub mod Reverse
use pcap_sidecar.Common.{
  ℕ, Bool, true, false, not, nat_beq, ◌&&◌, ◌||◌, Option, none, some, ltb, bit_and,
}
use pcap_sidecar.Filters.TcpFlags.{parse_tcp_flags}
use pcap_sidecar.Filters.Addrs.{Addr, prefix_from}
use pcap_sidecar.Filters.Libs.{FilterLibs}
use pcap_sidecar.Filters.Config.{PcapFilters, hash_socket_from_addrs_and_ports}
use pcap_sidecar.Filters.Worker.{Packet, to_ip4_addrs, to_ip6_addrs}

pub data Network : Type 0 where
  net4 net6 : (src dst : Addr) → Network

pub data Transport : Type 0 where
  over_tcp : (flags src dst : ℕ) → Transport
  over_udp : (src dst : ℕ) → Transport

unfoldable pub network_of : Packet → Option Network
network_of packet = elim packet.ipv4 [
  | some ip4 ↦ let (src, dst) = to_ip4_addrs ip4 in some (net4 src dst)
  | none ↦ elim packet.ipv6 [
    | some ip6 ↦ let (src, dst) = to_ip6_addrs ip6 in some (net6 src dst)
    | none ↦ none
  ]
]

unfoldable pub transport_of : Packet → Option Transport
transport_of packet = elim packet.tcp [
  | some tcp ↦ some (over_tcp (parse_tcp_flags tcp) tcp.src_port tcp.dst_port)
  | none ↦ elim packet.udp [ some udp ↦ some (over_udp udp.src_port udp.dst_port) | none ↦ none ]
]

-- The key of the packet's socket, if it has two addresses and two ports.
unfoldable pub socket_key : FilterLibs → Option Network → Option Transport → Option ℕ
socket_key L none trans = none
socket_key L (some net) none = none
socket_key L (some (net4 a b)) (some (over_tcp _ p q)) =
    some (hash_socket_from_addrs_and_ports L a p b q)
socket_key L (some (net4 a b)) (some (over_udp p q)) =
    some (hash_socket_from_addrs_and_ports L a p b q)
socket_key L (some (net6 a b)) (some (over_tcp _ p q)) =
    some (hash_socket_from_addrs_and_ports L a p b q)
socket_key L (some (net6 a b)) (some (over_udp p q)) =
    some (hash_socket_from_addrs_and_ports L a p b q)

-- Whether the packet's transport has the port, as its source or its destination.
unfoldable pub touches : ℕ → Option Transport → Bool
touches port none = false
touches port (some (over_tcp _ p q)) = nat_beq p port || nat_beq q port
touches port (some (over_udp p q)) = nat_beq p port || nat_beq q port

module _ {L : FilterLibs} (f : PcapFilters L) where
  -- A set or a tree with nothing in it restricts nothing.
  abbrev pub listed : L.sets.Carrier → ℕ → Bool
  listed s x = L.sets.is_empty s || L.sets.contains_one s x

  abbrev pub routed : L.trees.Tree → ℕ → Addr → Addr → Bool
  routed t n src dst =
      not (ltb 0 (L.trees.len t))
      || (L.trees.has t (prefix_from src n) && L.trees.has t (prefix_from dst n))

  unfoldable pub network_admitted : Option Network → Bool
  network_admitted none = true
  network_admitted (some (net4 src dst)) =
      listed f.l3.protos 0x04 && routed f.l3.networks4 32 src dst
  network_admitted (some (net6 src dst)) =
      listed f.l3.protos 0x29 && routed f.l3.networks6 128 src dst

  unfoldable pub ports_admitted : ℕ → ℕ → Bool
  ports_admitted src dst =
      not (L.sets.contains_one f.l4.no_ports src || L.sets.contains_one f.l4.no_ports dst)
      && (L.sets.is_empty f.l4.ports
          || (L.sets.contains_one f.l4.ports src || L.sets.contains_one f.l4.ports dst))

  unfoldable pub flags_admitted : ℕ → Bool
  flags_admitted flags = not (ltb 0 f.l4.flags) || ltb 0 (bit_and flags f.l4.flags)

  unfoldable pub transport_admitted : Option Transport → Bool
  transport_admitted none = true
  transport_admitted (some (over_tcp flags src dst)) =
      listed f.l4.protos 0x06 && (flags_admitted flags && ports_admitted src dst)
  transport_admitted (some (over_udp src dst)) = listed f.l4.protos 0x11 && ports_admitted src dst

  unfoldable pub socket_admitted : Option Network → Option Transport → Bool
  unfolding socket_key
  socket_admitted net trans = elim (socket_key L net trans) [
    | some hash ↦ not (L.sets.contains_one f.no_sockets hash)
    | none ↦ true
  ]

  unfoldable pub admitted : Option Network → Option Transport → Bool
  admitted net trans =
      network_admitted net && (transport_admitted trans && socket_admitted net trans)
