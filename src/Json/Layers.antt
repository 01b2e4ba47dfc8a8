-- ===== src/Json/Layers.antt =====
-- The identifiers of flows: what the translations of the layers write under `flow`, as numbers where
-- the code has their decimal texts, and what `finalize` makes of them.
use pcap_sidecar.Common.{
  ℕ, ◌+◌, ◌%◌, ◌^◌, String, Bool, true, false, not, ◌&&◌, ◌||◌, Option, none, some, List, contains,
  nat_eq, string_eq, ◌==◌, if◌then◌else◌,
}
use pcap_sidecar.Common.Maps.{lookup}
use pcap_sidecar.Filters.TcpFlags.{PcapEphemeralPorts, is_ephemeral_port}
use pcap_sidecar.Json.Libs.{Bytes}

-- The package fnv1a, and the texts of addresses.
pub record HashLibs : Type 0 where
  pub init64 : ℕ
  pub hash_uint64 : ℕ → ℕ
  pub hash_bytes64 : Bytes → ℕ
  pub add_uint64 : ℕ → ℕ → ℕ
  pub ip_text : Bytes → String

-- The fields of the layers that the identifiers are made of, with the addresses as `To4` and `To16`
-- give them.
pub data NetworkLayer : Type 0 where
  arp : Bytes → Bytes → NetworkLayer
  ipv4 : Bytes → Bytes → ℕ → NetworkLayer
  ipv6 : Bytes → Bytes → ℕ → NetworkLayer
  no_network : NetworkLayer

pub data TransportLayer : Type 0 where
  tcp : ℕ → ℕ → TransportLayer
  udp : ℕ → ℕ → TransportLayer
  no_transport : TransportLayer

-- The parts `L3`, `L4` and `ARP` of a translation.
pub record L3Json : Type 0 where
  pub src : Bytes
  pub dst : Bytes
  pub proto : ℕ
  pub flow : ℕ

pub record L4Json : Type 0 where
  pub src : ℕ
  pub dst : ℕ
  pub flow : ℕ

pub record ArpJson : Type 0 where
  pub src : Bytes
  pub dst : Bytes
  pub flow : ℕ

pub record Translation : Type 0 where
  pub meta_flow : ℕ
  pub l3 : Option L3Json
  pub l4 : Option L4Json
  pub arp_json : Option ArpJson
  -- Whether there is a message of ICMP.
  pub has_icmp_message : Bool

-- `PcapIface`
pub record Iface : Type 0 where
  pub index : ℕ
  pub name : String
  pub addrs : List String

abbrev pub add64 : ℕ → ℕ → ℕ
add64 a b = (a + b) % 2 ^ 64

abbrev pub protocol_tcp : ℕ
protocol_tcp = 6

abbrev pub protocol_udp : ℕ
protocol_udp = 17

-- The texts by which a translation names its flow.
pub data Kind : Type 0 where
  of_arp : Kind
  of_l2 : Kind
  of_icmp : Kind
  of_l3 : Kind
  of_udp : Kind
  of_tcp : Kind

-- What `finalize` has set when it locks the flow or returns.
pub record Head : Type 0 where
  pub kind : Kind
  -- `flow`
  pub flow : Option ℕ
  -- `local`
  pub local : Option Bool
  pub reported : Iface
  -- A part that is read without a test is missing: the packet is given up.
  pub panics : Bool

module _ (H : HashLibs) where
  -- `next`
  unfoldable pub meta_flow_of : ℕ → ℕ
  meta_flow_of index = H.add_uint64 H.init64 index

  -- `translateIPv4Layer`, `translateIPv6Layer`
  unfoldable pub ip_json : ℕ → Bytes → Bytes → ℕ → L3Json
  ip_json tag src dst proto = record {
    src = src;
    dst = dst;
    proto = proto;
    flow = H.hash_uint64 (add64 (add64 tag (H.hash_bytes64 src)) (H.hash_bytes64 dst));
  }

  -- `translateARPLayer`
  unfoldable pub arp_layer : Bytes → Bytes → ArpJson
  arp_layer src dst = record {
    src = src;
    dst = dst;
    flow = H.hash_uint64 (add64 (H.hash_bytes64 src) (H.hash_bytes64 dst));
  }

  -- `translateTCPLayer`, `translateUDPLayer`
  unfoldable pub ports_json : ℕ → ℕ → ℕ → L4Json
  ports_json tag src dst = record {
    src = src;
    dst = dst;
    flow = H.hash_uint64 (add64 (add64 tag src) dst);
  }

  abbrev pub l3_of : NetworkLayer → Option L3Json
  l3_of (ipv4 src dst proto) = some (ip_json 4 src dst proto)
  l3_of (ipv6 src dst proto) = some (ip_json 41 src dst proto)
  l3_of (arp src dst) = none
  l3_of no_network = none

  abbrev pub arp_of : NetworkLayer → Option ArpJson
  arp_of (arp src dst) = some (arp_layer src dst)
  arp_of (ipv4 src dst proto) = none
  arp_of (ipv6 src dst proto) = none
  arp_of no_network = none

  abbrev pub l4_of : TransportLayer → Option L4Json
  l4_of (tcp src dst) = some (ports_json 6 src dst)
  l4_of (udp src dst) = some (ports_json 17 src dst)
  l4_of no_transport = none

  -- The translation of a packet that is captured on the interface `index`, which is that of the
  -- translator and of the worker.
  unfoldable pub translate : ℕ → NetworkLayer → TransportLayer → Bool → Translation
  unfolding meta_flow_of ip_json arp_layer ports_json
  translate index network transport has_icmp_message = record {
    meta_flow = meta_flow_of index;
    l3 = l3_of network;
    l4 = l4_of transport;
    arp_json = arp_of network;
    has_icmp_message = has_icmp_message;
  }

  -- `checkL3Address`: the interface that is reported.
  unfoldable pub check_l3_address : List (String × Iface) → Iface → Bytes → Bytes → Iface
  check_l3_address ifaces iface src dst =
      if iface.index == 0
      then elim (lookup ifaces (H.ip_text src)) [
        | some i ↦ i
        | none ↦ elim (lookup ifaces (H.ip_text dst)) [ some i ↦ i | none ↦ iface ]
      ]
      else iface

  -- The flow of a packet with addresses.
  unfoldable pub flow_of_ip : ℕ → L3Json → Option L4Json → ℕ
  flow_of_ip meta l3 none = H.add_uint64 (H.add_uint64 meta l3.flow) 255
  flow_of_ip meta l3 (some l4) = H.add_uint64 (H.add_uint64 meta l3.flow) l4.flow

  abbrev pub port_of : Option L4Json → ℕ
  port_of none = 0
  port_of (some l4) = l4.src

  abbrev pub is_missing : Option L4Json → Bool
  is_missing none = true
  is_missing (some l4) = false

  -- What follows the address check for an IP packet, without the numbers of ICMP: `is_icmp` tells
  -- them.
  unfoldable pub finalize_ip :
      (ℕ → Bool) → PcapEphemeralPorts → Iface → Iface → Translation → L3Json → Head
  unfolding flow_of_ip is_ephemeral_port
  finalize_ip is_icmp e iface reported t l3 =
      let local =
        contains (H.ip_text l3.src) iface.addrs && not (is_ephemeral_port e (port_of t.l4)) in
      let has_ports = l3.proto == protocol_tcp || l3.proto == protocol_udp in
      record {
        kind =
            if l3.proto == protocol_tcp
            then of_tcp
            else if l3.proto == protocol_udp
            then of_udp
            else if is_icmp l3.proto
            then of_icmp
            else of_l3;
        flow = some (flow_of_ip t.meta_flow l3 t.l4);
        local = if has_ports then some local else none;
        reported = reported;
        panics =
            if l3.proto == protocol_tcp
            then is_missing t.l4
            else if l3.proto == protocol_udp
            then false
            else is_icmp l3.proto && not t.has_icmp_message;
      }

  -- `finalize` up to the lock.
  unfoldable pub finalize_head :
      (ℕ → Bool) → PcapEphemeralPorts → List (String × Iface) → Iface → Translation → Head
  unfolding check_l3_address finalize_ip
  finalize_head is_icmp e ifaces iface t = elim t.l3 [
    | some l3 ↦ finalize_ip is_icmp e iface (check_l3_address ifaces iface l3.src l3.dst) t l3
    | none ↦ elim t.arp_json [
      | some a ↦ record {
        kind = of_arp;
        flow = some (H.add_uint64 t.meta_flow a.flow);
        local = none;
        reported = check_l3_address ifaces iface a.src a.dst;
        panics = false;
      }
      | none ↦ record { kind = of_l2; flow = none; local = none; reported = iface; panics = false }
    ]
  ]
