-- ===== src/Json/Directions.antt =====
-- The flow of a packet does not depend on its direction.
use pcap_sidecar.Common.{ℕ, ◌≡◌, refl, ap, String, Bool, some, List, arith, nat_eq, string_eq}
use pcap_sidecar.Filters.TcpFlags.{PcapEphemeralPorts}
use pcap_sidecar.Json.Libs.{Bytes}
use pcap_sidecar.Json.Layers.{
  HashLibs, NetworkLayer, arp, ipv4, ipv6, no_network, TransportLayer, tcp, udp, no_transport,
  add64, ip_json, arp_layer, ports_json, translate, Iface, flow_of_ip, finalize_ip, finalize_head,
  l4_of, meta_flow_of,
}

-- The layers of an answer.
abbrev pub reverse_network : NetworkLayer → NetworkLayer
reverse_network (arp src dst) = arp dst src
reverse_network (ipv4 src dst proto) = ipv4 dst src proto
reverse_network (ipv6 src dst proto) = ipv6 dst src proto
reverse_network no_network = no_network

abbrev pub reverse_transport : TransportLayer → TransportLayer
reverse_transport (tcp src dst) = tcp dst src
reverse_transport (udp src dst) = udp dst src
reverse_transport no_transport = no_transport

add64-swap : (a b c : ℕ) → add64 (add64 a b) c ≡ add64 (add64 a c) b
add64-swap a b c = omega arith

module _ (H : HashLibs) where
  ip_flow-swap :
      (tag : ℕ) (src dst : Bytes) (proto : ℕ)
      → (ip_json H tag src dst proto).flow ≡ (ip_json H tag dst src proto).flow
  unfolding ip_json
  ip_flow-swap tag src dst proto =
      ap H.hash_uint64 (add64-swap tag (H.hash_bytes64 src) (H.hash_bytes64 dst))

  arp_flow-swap : (src dst : Bytes) → (arp_layer H src dst).flow ≡ (arp_layer H dst src).flow
  unfolding arp_layer
  arp_flow-swap src dst = ap H.hash_uint64 (add64_comm (H.hash_bytes64 src) (H.hash_bytes64 dst))
    where
      add64_comm : (a b : ℕ) → add64 a b ≡ add64 b a
      add64_comm a b = omega arith

  ports_flow-swap :
      (tag src dst : ℕ) → (ports_json H tag src dst).flow ≡ (ports_json H tag dst src).flow
  unfolding ports_json
  ports_flow-swap tag src dst = ap H.hash_uint64 (add64-swap tag src dst)

  flow_of_ip-reverse :
      (tag meta : ℕ) (src dst : Bytes) (proto : ℕ) (t : TransportLayer)
      → flow_of_ip H meta (ip_json H tag src dst proto) (l4_of H t)
        ≡ flow_of_ip H meta (ip_json H tag dst src proto) (l4_of H (reverse_transport t))
  unfolding flow_of_ip
  flow_of_ip-reverse tag meta src dst proto (tcp a b) =
      rw (ip_flow-swap tag src dst proto, ports_flow-swap 6 a b) refl
  flow_of_ip-reverse tag meta src dst proto (udp a b) =
      rw (ip_flow-swap tag src dst proto, ports_flow-swap 17 a b) refl
  flow_of_ip-reverse tag meta src dst proto no_transport = rw (ip_flow-swap tag src dst proto) refl

  module _ (is_icmp : ℕ → Bool) (e : PcapEphemeralPorts) (ifaces : List (String × Iface))
      (iface : Iface) where
    -- A packet and its answer, captured on one interface, get the same kind and the same identifier
    -- of their flow, or both get none.
    pub finalize_head-reverse :
        (index : ℕ) (n : NetworkLayer) (t : TransportLayer) (m : Bool)
        → ((finalize_head H is_icmp e ifaces iface (translate H index n t m)).flow
            ≡ (finalize_head H is_icmp e ifaces iface
                (translate H index (reverse_network n) (reverse_transport t) m)).flow)
          × ((finalize_head H is_icmp e ifaces iface (translate H index n t m)).kind
              ≡ (finalize_head H is_icmp e ifaces iface
                  (translate H index (reverse_network n) (reverse_transport t) m)).kind)
    unfolding finalize_head translate finalize_ip ip_json
    finalize_head-reverse index (arp src dst) t m =
        (ap (λ f. some (H.add_uint64 (meta_flow_of H index) f)) (arp_flow-swap src dst), refl)
    finalize_head-reverse index (ipv4 src dst proto) t m =
        (ap (λ f. some f) (flow_of_ip-reverse 4 (meta_flow_of H index) src dst proto t), refl)
    finalize_head-reverse index (ipv6 src dst proto) t m =
        (ap (λ f. some f) (flow_of_ip-reverse 41 (meta_flow_of H index) src dst proto t), refl)
    finalize_head-reverse index no_network t m = (refl, refl)
