-- ===== src/Filters/Worker.antt =====
-- The decision of a worker whether to translate its packet: `isL3Allowed`, `isL4Allowed`,
-- `isSocketAllowed` and `shouldTranslate` of pcap-cli/internal/transformer/translator_worker.go.
use pcap_sidecar.Common.{
  ℕ, Bool, true, false, not, ◌&&◌, Option, none, some, List, [], ◌∷◌, ◌++◌, nat_beq, length, take,
  drop, if◌then◌else◌,
}
use pcap_sidecar.Filters.TcpFlags.{TcpLayer, parse_tcp_flags}
use pcap_sidecar.Filters.Addrs.{Addr, v4, v6, from_be_bytes}
use pcap_sidecar.Filters.Libs.{FilterLibs}
use pcap_sidecar.Filters.Config.{PcapFilters}
use pcap_sidecar.Filters.Queries.{
  has_l3_protos, has_ipv4s, has_ipv6s, allows_ipv4, allows_ipv6, allows_ipv4_addr, allows_ipv6_addr,
  has_l4_protos, allows_tcp, allows_udp, has_l4_addrs, allows_any_l4_addr, has_tcp_flags,
  allows_any_tcp_flags, allows_socket,
}

-- The fields that the sources read of gopacket's layers; `net.IP` is a list of bytes.
pub record IpLayer : Type 0 where
  pub src_ip : List ℕ
  pub dst_ip : List ℕ

pub record UdpLayer : Type 0 where
  pub src_port : ℕ
  pub dst_port : ℕ

-- `packet.Layer(t)` for the layer types that are asked for; `none` is nil.
pub record Packet : Type 0 where
  pub ipv4 : Option IpLayer
  pub ipv6 : Option IpLayer
  pub tcp : Option TcpLayer
  pub udp : Option UdpLayer

-- Go's `copy(dst, src)` on arrays and slices.
unfoldable pub copy_into : List ℕ → List ℕ → List ℕ
copy_into dst src = take (length dst) src ++ drop (length src) dst

abbrev v4_in_v6_prefix : List ℕ
v4_in_v6_prefix = 0 ∷ 0 ∷ 0 ∷ 0 ∷ 0 ∷ 0 ∷ 0 ∷ 0 ∷ 0 ∷ 0 ∷ 0xff ∷ 0xff ∷ []

abbrev same_bytes : List ℕ → List ℕ → Bool
same_bytes [] [] = true
same_bytes (x ∷ xs) (y ∷ ys) = nat_beq x y && same_bytes xs ys
same_bytes _ _ = false

-- `net.IP.To4` and `net.IP.To16`; the empty list is nil.
unfoldable pub to4 : List ℕ → List ℕ
to4 ip =
    if nat_beq (length ip) 4
    then ip
    else if nat_beq (length ip) 16 && same_bytes (take 12 ip) v4_in_v6_prefix
    then drop 12 ip
    else []

unfoldable pub to16 : List ℕ → List ℕ
to16 ip =
    if nat_beq (length ip) 4
    then v4_in_v6_prefix ++ ip
    else if nat_beq (length ip) 16
    then ip
    else []

abbrev pub zeros4 : List ℕ
zeros4 = 0 ∷ 0 ∷ 0 ∷ 0 ∷ []

abbrev pub zeros16 : List ℕ
zeros16 = zeros4 ++ zeros4 ++ zeros4 ++ zeros4

-- One array serves both addresses, as in the source.
unfoldable pub to_ip4_addrs : IpLayer → Addr × Addr
to_ip4_addrs ip4 =
    let src_bytes = copy_into zeros4 (to4 ip4.src_ip) in
    let dst_bytes = copy_into src_bytes (to4 ip4.dst_ip) in
    (v4 (from_be_bytes src_bytes), v4 (from_be_bytes dst_bytes))

unfoldable pub to_ip6_addrs : IpLayer → Addr × Addr
to_ip6_addrs ip6 =
    let src_bytes = copy_into zeros16 (to16 ip6.src_ip) in
    let dst_bytes = copy_into src_bytes (to16 ip6.dst_ip) in
    (v6 (from_be_bytes src_bytes), v6 (from_be_bytes dst_bytes))

-- Addresses or ports that may be nil, with the verdict.
abbrev pub Verdict : Type 0 → Type 0
Verdict A = Option A × Option A × Bool

module _ {L : FilterLibs} (filters : PcapFilters L) where
  unfoldable pub is_ipv4_allowed : IpLayer → Verdict Addr
  is_ipv4_allowed ip4 =
      let (src, dst) = to_ip4_addrs ip4 in
      if has_l3_protos filters && not (allows_ipv4 filters)
      then (some src, some dst, false)
      else if not (has_ipv4s filters)
      then (some src, some dst, true)
      else if not (allows_ipv4_addr filters src)
      then (some src, some dst, false)
      else (some src, some dst, allows_ipv4_addr filters dst)

  -- On a source that is not allowed the source is returned twice, as in the source.
  unfoldable pub is_ipv6_allowed : IpLayer → Verdict Addr
  is_ipv6_allowed ip6 =
      let (src, dst) = to_ip6_addrs ip6 in
      if has_l3_protos filters && not (allows_ipv6 filters)
      then (some src, some dst, false)
      else if not (has_ipv6s filters)
      then (some src, some dst, true)
      else if not (allows_ipv6_addr filters src)
      then (some src, some src, false)
      else (some src, some dst, allows_ipv6_addr filters dst)

  unfoldable pub is_l3_allowed : Packet → Verdict Addr
  is_l3_allowed packet = elim packet.ipv4 [
    | some ip4 ↦ is_ipv4_allowed ip4
    | none ↦ elim packet.ipv6 [ some ip6 ↦ is_ipv6_allowed ip6 | none ↦ (none, none, true) ]
  ]

  unfoldable pub are_ports_allowed : ℕ → ℕ → Verdict ℕ
  are_ports_allowed src dst =
      if allows_any_l4_addr filters (src ∷ dst ∷ [])
      then (some src, some dst, true)
      else (some src, some dst, false)

  unfoldable pub is_tcp_allowed : TcpLayer → Verdict ℕ
  unfolding are_ports_allowed
  is_tcp_allowed tcp =
      if has_l4_protos filters && not (allows_tcp filters)
      then (some tcp.src_port, some tcp.dst_port, false)
      else if has_tcp_flags filters && not (allows_any_tcp_flags filters (parse_tcp_flags tcp))
      then (some tcp.src_port, some tcp.dst_port, false)
      else if has_l4_addrs filters
      then are_ports_allowed tcp.src_port tcp.dst_port
      else (some tcp.src_port, some tcp.dst_port, true)

  unfoldable pub is_udp_allowed : UdpLayer → Verdict ℕ
  unfolding are_ports_allowed
  is_udp_allowed udp =
      if has_l4_protos filters && not (allows_udp filters)
      then (some udp.src_port, some udp.dst_port, false)
      else if has_l4_addrs filters
      then are_ports_allowed udp.src_port udp.dst_port
      else (some udp.src_port, some udp.dst_port, true)

  unfoldable pub is_l4_allowed : Packet → Verdict ℕ
  is_l4_allowed packet = elim packet.tcp [
    | some tcp ↦ is_tcp_allowed tcp
    | none ↦ elim packet.udp [ some udp ↦ is_udp_allowed udp | none ↦ (none, none, true) ]
  ]

  unfoldable pub is_socket_allowed : Option Addr → Option ℕ → Option Addr → Option ℕ → Bool
  is_socket_allowed (some src_addr) (some src_port) (some dst_addr) (some dst_port) =
      allows_socket filters src_addr src_port dst_addr dst_port
  is_socket_allowed _ _ _ _ = true

  unfoldable pub should_translate : Packet → Bool
  should_translate packet =
      let (src_addr, dst_addr, l3_allowed) = is_l3_allowed packet in
      let (src_port, dst_port, l4_allowed) = is_l4_allowed packet in
      if l3_allowed && l4_allowed
      then is_socket_allowed src_addr src_port dst_addr dst_port
      else false

-- The first test of `Run`: no filters at all is `none`.
unfoldable pub is_translated : {L : FilterLibs} → Option (PcapFilters L) → Packet → Bool
is_translated none packet = true
is_translated (some filters) packet = should_translate filters packet
