-- ===== src/Filters/Admission/Reverse.antt =====
-- The filters do not tell the two directions of a conversation apart.
use pcap_sidecar.Common.{
  ℕ, zero, suc, ◌≡◌, refl, Option, none, some, arith, List, [], ◌∷◌, ◌++◌, length, take, drop,
  nat_eq, ap, ap₂, sym, ◌∙◌,
}
use pcap_sidecar.Filters.Libs.{FilterLibs}
use pcap_sidecar.Filters.TcpFlags.{TcpLayer, parse_tcp_flags}
use pcap_sidecar.Filters.Addrs.{v4, v6, from_be_bytes}
use pcap_sidecar.Filters.Config.{PcapFilters, hash_uint64s, hash_socket_from_addrs_and_ports}
use pcap_sidecar.Filters.Worker.{
  Packet, IpLayer, UdpLayer, copy_into, to4, to16, to_ip4_addrs, to_ip6_addrs, should_translate,
  zeros4, zeros16,
}
use pcap_sidecar.Filters.Admission.{
  Network, net4, net6, Transport, over_tcp, over_udp, network_of, transport_of, socket_key,
  network_admitted, ports_admitted, transport_admitted, socket_admitted, admitted,
}
use pcap_sidecar.Filters.Admission.Refines.{should_translate-admitted}

flip_network : Option Network → Option Network
flip_network none = none
flip_network (some (net4 a b)) = some (net4 b a)
flip_network (some (net6 a b)) = some (net6 b a)

flip_transport : Option Transport → Option Transport
flip_transport none = none
flip_transport (some (over_tcp g p q)) = some (over_tcp g q p)
flip_transport (some (over_udp p q)) = some (over_udp q p)

-- Addition is commutative, so the hash of a socket does not depend on the order of its ends.
pub hash_uint64s_comm :
    (L : FilterLibs) (a b : ℕ) → hash_uint64s L (a ∷ b ∷ []) ≡ hash_uint64s L (b ∷ a ∷ [])
unfolding hash_uint64s
hash_uint64s_comm L a b = ap L.hash_uint64 (omega arith)

socket_key-flip :
    (L : FilterLibs) (net : Option Network) (trans : Option Transport)
    → socket_key L (flip_network net) (flip_transport trans) ≡ socket_key L net trans
unfolding socket_key flip_network flip_transport hash_socket_from_addrs_and_ports
socket_key-flip L none trans = refl
socket_key-flip L (some (net4 a b)) none = refl
socket_key-flip L (some (net6 a b)) none = refl
socket_key-flip L (some (net4 a b)) (some (over_tcp g p q)) = ap some (hash_uint64s_comm L _ _)
socket_key-flip L (some (net4 a b)) (some (over_udp p q)) = ap some (hash_uint64s_comm L _ _)
socket_key-flip L (some (net6 a b)) (some (over_tcp g p q)) = ap some (hash_uint64s_comm L _ _)
socket_key-flip L (some (net6 a b)) (some (over_udp p q)) = ap some (hash_uint64s_comm L _ _)

module _ {L : FilterLibs} (f : PcapFilters L) where
  network_admitted-flip :
      (net : Option Network) → network_admitted f (flip_network net) ≡ network_admitted f net
  unfolding network_admitted flip_network
  network_admitted-flip none = refl
  network_admitted-flip (some (net4 a b)) = ground arith
  network_admitted-flip (some (net6 a b)) = ground arith

  ports_admitted_comm : (p q : ℕ) → ports_admitted f p q ≡ ports_admitted f q p
  unfolding ports_admitted
  ports_admitted_comm p q = ground arith

  transport_admitted-flip :
      (trans : Option Transport)
      → transport_admitted f (flip_transport trans) ≡ transport_admitted f trans
  unfolding transport_admitted flip_transport
  transport_admitted-flip none = refl
  transport_admitted-flip (some (over_tcp g p q)) = ground (arith, ports_admitted_comm p q)
  transport_admitted-flip (some (over_udp p q)) = ground (arith, ports_admitted_comm p q)

  admitted-flip :
      (net : Option Network) (trans : Option Transport)
      → admitted f (flip_network net) (flip_transport trans) ≡ admitted f net trans
  unfolding admitted socket_admitted
  admitted-flip net trans =
      rw (
        network_admitted-flip,
        transport_admitted-flip,
        socket_key-flip L net trans,
        socket_admitted,
      )

-- The packet that travels the other way.
swap_ip : Option IpLayer → Option IpLayer
swap_ip none = none
swap_ip (some ip) = some (record { src_ip = ip.dst_ip; dst_ip = ip.src_ip })

swap_tcp : Option TcpLayer → Option TcpLayer
swap_tcp none = none
swap_tcp (some tcp) = some (record tcp { src_port = tcp.dst_port; dst_port = tcp.src_port })

swap_udp : Option UdpLayer → Option UdpLayer
swap_udp none = none
swap_udp (some udp) = some (record { src_port = udp.dst_port; dst_port = udp.src_port })

pub reverse : Packet → Packet
unfolding swap_ip swap_tcp swap_udp
reverse p = record {
  ipv4 = swap_ip p.ipv4;
  ipv6 = swap_ip p.ipv6;
  tcp = swap_tcp p.tcp;
  udp = swap_udp p.udp;
}

abbrev IpsAreLong : ℕ → Option IpLayer → Type 0
IpsAreLong n none = Unit
IpsAreLong n (some ip) = (length ip.src_ip ≡ n) × (length ip.dst_ip ≡ n)

-- gopacket decodes addresses of 4 bytes from IPv4 headers and of 16 bytes from IPv6 headers.
pub record IsDecoded (p : Packet) : Type 0 where
  pub ipv4_long : IpsAreLong 4 p.ipv4
  pub ipv6_long : IpsAreLong 16 p.ipv6

take_all : (n : ℕ) (xs : List ℕ) → length xs ≡ n → take n xs ≡ xs
take_all zero [] h = refl
take_all zero (x ∷ xs) h = absurd (omega arith)
take_all (suc n) [] h = refl
take_all (suc n) (x ∷ xs) h = ap (λ l. x ∷ l) (take_all n xs (omega arith))

drop_all : (n : ℕ) (xs : List ℕ) → length xs ≡ n → drop n xs ≡ []
drop_all zero [] h = refl
drop_all zero (x ∷ xs) h = absurd (omega arith)
drop_all (suc n) [] h = refl
drop_all (suc n) (x ∷ xs) h = drop_all n xs (omega arith)

append_nil : (xs : List ℕ) → xs ++ [] ≡ xs
append_nil [] = refl
append_nil (x ∷ xs) = ap (λ l. x ∷ l) (append_nil xs)

-- A copy of the array's length overwrites all of it.
copy_into_all : (dst src : List ℕ) → length src ≡ length dst → copy_into dst src ≡ src
unfolding copy_into
copy_into_all dst src h =
    ap₂ (λ (a b : List ℕ). a ++ b) (take_all (length dst) src h) (drop_all (length src) dst (sym h))
    ∙ append_nil src

to4_self : (ip : List ℕ) → length ip ≡ 4 → to4 ip ≡ ip
unfolding to4
to4_self ip h = ground arith

to16_self : (ip : List ℕ) → length ip ≡ 16 → to16 ip ≡ ip
unfolding to16
to16_self ip h = ground arith

to_ip4_addrs-eq :
    (src dst : List ℕ)
    → length src ≡ 4
    → length dst ≡ 4
    → to_ip4_addrs (record { src_ip = src; dst_ip = dst })
      ≡ (v4 (from_be_bytes src), v4 (from_be_bytes dst))
unfolding to_ip4_addrs
to_ip4_addrs-eq src dst hs hd = rw (
  to4_self src hs,
  to4_self dst hd,
  copy_into_all zeros4 src hs,
  copy_into_all src dst (hd ∙ sym hs),
)

to_ip6_addrs-eq :
    (src dst : List ℕ)
    → length src ≡ 16
    → length dst ≡ 16
    → to_ip6_addrs (record { src_ip = src; dst_ip = dst })
      ≡ (v6 (from_be_bytes src), v6 (from_be_bytes dst))
unfolding to_ip6_addrs
to_ip6_addrs-eq src dst hs hd = rw (
  to16_self src hs,
  to16_self dst hd,
  copy_into_all zeros16 src hs,
  copy_into_all src dst (hd ∙ sym hs),
)

abbrev with_ips : Packet → Option IpLayer → Option IpLayer → Packet
with_ips p a b = record p { ipv4 = a; ipv6 = b }

network_of-cases :
    (p : Packet) (a b : Option IpLayer)
    → IpsAreLong 4 a
    → IpsAreLong 16 b
    → network_of (reverse (with_ips p a b)) ≡ flip_network (network_of (with_ips p a b))
unfolding network_of reverse flip_network
network_of-cases p none none h k = refl
network_of-cases p none (some ip) h k =
    rw (to_ip6_addrs-eq ip.src_ip ip.dst_ip k.0 k.1, to_ip6_addrs-eq ip.dst_ip ip.src_ip k.1 k.0)
network_of-cases p (some ip) b h k =
    rw (to_ip4_addrs-eq ip.src_ip ip.dst_ip h.0 h.1, to_ip4_addrs-eq ip.dst_ip ip.src_ip h.1 h.0)

parse_tcp_flags-swap :
    (tcp : TcpLayer) (p q : ℕ)
    → parse_tcp_flags (record tcp { src_port = p; dst_port = q }) ≡ parse_tcp_flags tcp
unfolding parse_tcp_flags
parse_tcp_flags-swap tcp p q = refl

transport_of-cases :
    (p : Packet) (t : Option TcpLayer) (u : Option UdpLayer)
    → transport_of (reverse (record p { tcp = t; udp = u }))
      ≡ flip_transport (transport_of (record p { tcp = t; udp = u }))
unfolding transport_of reverse flip_transport
transport_of-cases p none none = refl
transport_of-cases p none (some udp) = refl
transport_of-cases p (some tcp) u = rw parse_tcp_flags-swap

-- A packet and the one with its addresses and its ports swapped, with the same TCP flags, are both
-- translated, or neither is.
pub should_translate-reverse :
    {L : FilterLibs} (f : PcapFilters L) (p : Packet)
    → IsDecoded p
    → should_translate f (reverse p) ≡ should_translate f p
should_translate-reverse f p d =
    should_translate-admitted f (reverse p)
    ∙ ap₂ (admitted f) (network_of-cases p p.ipv4 p.ipv6 d.ipv4_long d.ipv6_long)
        (transport_of-cases p p.tcp p.udp)
    ∙ admitted-flip f (network_of p) (transport_of p)
    ∙ sym (should_translate-admitted f p)
