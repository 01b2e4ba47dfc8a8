-- ===== src/Filters/Admission/Refines.antt =====
-- `shouldTranslate` decides exactly what the filters promise.
use pcap_sidecar.Common.{
  ℕ, ◌≡◌, refl, true, false, not, ◌&&◌, ◌||◌, Option, none, some, [], ◌∷◌, arith, Bool-cases, inl,
  inr,
}
use pcap_sidecar.Common.{nat_eq}
use pcap_sidecar.Common.Sets.{SetApi}
use pcap_sidecar.Filters.TcpFlags.{TcpLayer, parse_tcp_flags}
use pcap_sidecar.Filters.Addrs.{Addr}
use pcap_sidecar.Filters.Libs.{FilterLibs}
use pcap_sidecar.Filters.Config.{PcapFilters, hash_socket_from_addrs_and_ports}
use pcap_sidecar.Filters.Queries.{
  has_l3_protos, has_ipv4s, has_ipv6s, allows_ipv4, allows_ipv6, allows_ipv4_addr, allows_ipv6_addr,
  has_l4_protos, allows_tcp, allows_udp, has_l4_addrs, allows_any_l4_addr, has_tcp_flags,
  allows_any_tcp_flags, allows_socket, denies_any_l4_addr, denies_socket,
}
use pcap_sidecar.Filters.Worker.{
  Packet, IpLayer, UdpLayer, to_ip4_addrs, to_ip6_addrs, is_ipv4_allowed, is_ipv6_allowed,
  is_l3_allowed, is_tcp_allowed, is_udp_allowed, is_l4_allowed, are_ports_allowed,
  is_socket_allowed, should_translate,
}
use pcap_sidecar.Filters.Admission.{
  net4, net6, over_tcp, over_udp, network_of, transport_of, network_admitted, ports_admitted,
  flags_admitted, transport_admitted, socket_admitted, admitted,
}

module _ (S : SetApi ℕ) where
  -- The test for an empty set that the source makes first saves time and changes nothing.
  pub nonempty-contains_one :
      (s : S.Carrier) (x : ℕ) → (not (S.is_empty s) && S.contains_one s x) ≡ S.contains_one s x
  nonempty-contains_one s x = elim (Bool-cases (S.is_empty s)) [
    | inl e ↦ rw (e, (S.is_empty_iff s).0 e x)
    | inr e ↦ rw e
  ]

module _ {L : FilterLibs} (f : PcapFilters L) where
  denies-eq :
      (src dst : ℕ)
      → denies_any_l4_addr f (src ∷ dst ∷ [])
        ≡ (L.sets.contains_one f.l4.no_ports src || L.sets.contains_one f.l4.no_ports dst)
  unfolding denies_any_l4_addr
  denies-eq src dst = ground (
    arith,
    L.sets.contains_any_lem f.l4.no_ports (src ∷ dst ∷ []),
    nonempty-contains_one L.sets f.l4.no_ports src,
    nonempty-contains_one L.sets f.l4.no_ports dst,
  )

  allows_any-eq : (src dst : ℕ) → allows_any_l4_addr f (src ∷ dst ∷ []) ≡ ports_admitted f src dst
  unfolding allows_any_l4_addr ports_admitted
  allows_any-eq src dst =
      ground (arith, denies-eq src dst, L.sets.contains_any_lem f.l4.ports (src ∷ dst ∷ []))

  are_ports_allowed-eq :
      (src dst : ℕ) → are_ports_allowed f src dst ≡ (some src, some dst, ports_admitted f src dst)
  unfolding are_ports_allowed
  are_ports_allowed-eq src dst = ground (arith, allows_any-eq src dst)

  -- With neither list of ports, every port is admitted.
  ports_admitted-unlisted : (src dst : ℕ) → has_l4_addrs f ≡ false → ports_admitted f src dst ≡ true
  unfolding has_l4_addrs ports_admitted
  ports_admitted-unlisted src dst h = ground (
    arith,
    nonempty-contains_one L.sets f.l4.no_ports src,
    nonempty-contains_one L.sets f.l4.no_ports dst,
  )

  is_tcp_allowed-eq :
      (tcp : TcpLayer)
      → is_tcp_allowed f tcp ≡ (
        some tcp.src_port,
        some tcp.dst_port,
        transport_admitted f (some (over_tcp (parse_tcp_flags tcp) tcp.src_port tcp.dst_port)),
      )
  unfolding is_tcp_allowed transport_admitted flags_admitted has_l4_protos has_tcp_flags allows_tcp
      allows_any_tcp_flags
  is_tcp_allowed-eq tcp = ground (
    arith,
    are_ports_allowed-eq tcp.src_port tcp.dst_port,
    ports_admitted-unlisted tcp.src_port tcp.dst_port,
  )

  is_udp_allowed-eq :
      (udp : UdpLayer)
      → is_udp_allowed f udp ≡ (
        some udp.src_port,
        some udp.dst_port,
        transport_admitted f (some (over_udp udp.src_port udp.dst_port)),
      )
  unfolding is_udp_allowed transport_admitted has_l4_protos allows_udp
  is_udp_allowed-eq udp = ground (
    arith,
    are_ports_allowed-eq udp.src_port udp.dst_port,
    ports_admitted-unlisted udp.src_port udp.dst_port,
  )

  -- What the third part of a verdict says, and the addresses that come with an admitted one.
  is_ipv4_allowed-verdict :
      (ip4 : IpLayer)
      → (is_ipv4_allowed f ip4).2
        ≡ network_admitted f (some (net4 (to_ip4_addrs ip4).0 (to_ip4_addrs ip4).1))
  unfolding is_ipv4_allowed network_admitted has_l3_protos has_ipv4s allows_ipv4 allows_ipv4_addr
  is_ipv4_allowed-verdict ip4 = ground arith

  is_ipv4_allowed-addrs :
      (ip4 : IpLayer)
      → ((is_ipv4_allowed f ip4).0 ≡ some (to_ip4_addrs ip4).0)
        × ((is_ipv4_allowed f ip4).1 ≡ some (to_ip4_addrs ip4).1)
  unfolding is_ipv4_allowed
  is_ipv4_allowed-addrs ip4 = (ground arith, ground arith)

  is_ipv6_allowed-verdict :
      (ip6 : IpLayer)
      → (is_ipv6_allowed f ip6).2
        ≡ network_admitted f (some (net6 (to_ip6_addrs ip6).0 (to_ip6_addrs ip6).1))
  unfolding is_ipv6_allowed network_admitted has_l3_protos has_ipv6s allows_ipv6 allows_ipv6_addr
  is_ipv6_allowed-verdict ip6 = ground (arith, L.sets.contains_lem f.l3.protos (0x29 ∷ []))

  is_ipv6_allowed-addrs :
      (ip6 : IpLayer)
      → (is_ipv6_allowed f ip6).2 ≡ true
      → ((is_ipv6_allowed f ip6).0 ≡ some (to_ip6_addrs ip6).0)
        × ((is_ipv6_allowed f ip6).1 ≡ some (to_ip6_addrs ip6).1)
  unfolding is_ipv6_allowed
  is_ipv6_allowed-addrs ip6 h = (ground arith, ground arith)

  allows_socket-eq :
      (a : Addr) (p : ℕ) (b : Addr) (q : ℕ)
      → allows_socket f a p b q
        ≡ not (L.sets.contains_one f.no_sockets (hash_socket_from_addrs_and_ports L a p b q))
  unfolding allows_socket denies_socket
  allows_socket-eq a p b q = ground (
    arith,
    nonempty-contains_one L.sets f.no_sockets (hash_socket_from_addrs_and_ports L a p b q),
  )

  network_none : network_admitted f none ≡ true
  unfolding network_admitted
  network_none = refl

  transport_none : transport_admitted f none ≡ true
  unfolding transport_admitted
  transport_none = refl

  abbrev packet : Option IpLayer → Option IpLayer → Option TcpLayer → Option UdpLayer → Packet
  packet a b t u = record { ipv4 = a; ipv6 = b; tcp = t; udp = u }

  should_translate-cases :
      (a b : Option IpLayer) (t : Option TcpLayer) (u : Option UdpLayer)
      → should_translate f (packet a b t u)
        ≡ admitted f (network_of (packet a b t u)) (transport_of (packet a b t u))
  unfolding should_translate is_l3_allowed is_l4_allowed is_socket_allowed network_of transport_of
      admitted socket_admitted
  should_translate-cases (some ip4) b (some tcp) u = ground (
    arith,
    is_ipv4_allowed-verdict ip4,
    is_ipv4_allowed-addrs ip4,
    is_tcp_allowed-eq tcp,
    allows_socket-eq (to_ip4_addrs ip4).0 tcp.src_port (to_ip4_addrs ip4).1 tcp.dst_port,
  )
  should_translate-cases (some ip4) b none (some udp) = ground (
    arith,
    is_ipv4_allowed-verdict ip4,
    is_ipv4_allowed-addrs ip4,
    is_udp_allowed-eq udp,
    allows_socket-eq (to_ip4_addrs ip4).0 udp.src_port (to_ip4_addrs ip4).1 udp.dst_port,
  )
  should_translate-cases (some ip4) b none none =
      ground (arith, is_ipv4_allowed-verdict ip4, is_ipv4_allowed-addrs ip4, transport_none)
  should_translate-cases none (some ip6) (some tcp) u = ground (
    arith,
    is_ipv6_allowed-verdict ip6,
    is_ipv6_allowed-addrs ip6,
    is_tcp_allowed-eq tcp,
    allows_socket-eq (to_ip6_addrs ip6).0 tcp.src_port (to_ip6_addrs ip6).1 tcp.dst_port,
  )
  should_translate-cases none (some ip6) none (some udp) = ground (
    arith,
    is_ipv6_allowed-verdict ip6,
    is_ipv6_allowed-addrs ip6,
    is_udp_allowed-eq udp,
    allows_socket-eq (to_ip6_addrs ip6).0 udp.src_port (to_ip6_addrs ip6).1 udp.dst_port,
  )
  should_translate-cases none (some ip6) none none =
      ground (arith, is_ipv6_allowed-verdict ip6, is_ipv6_allowed-addrs ip6, transport_none)
  should_translate-cases none none (some tcp) u =
      ground (arith, network_none, is_tcp_allowed-eq tcp)
  should_translate-cases none none none (some udp) =
      ground (arith, network_none, is_udp_allowed-eq udp)
  should_translate-cases none none none none = ground (arith, network_none, transport_none)

  -- `shouldTranslate` is the conjunction of the three promises, for every packet and all filters.
  pub should_translate-admitted :
      (p : Packet) → should_translate f p ≡ admitted f (network_of p) (transport_of p)
  should_translate-admitted p = should_translate-cases p.ipv4 p.ipv6 p.tcp p.udp
