-- ===== src/Filters/Config.antt =====
-- `pcapFilters` of packet_filter.go and the methods by which its users fill it.
use pcap_sidecar.Common.{
  ℕ, ◌+◌, ◌%◌, ◌^◌, String, Bool, true, false, not, ◌&&◌, ◌||◌, Option, none, some, List, [], ◌∷◌,
  fold, bit_or, if◌then◌else◌,
}
use Prim.Native.String.{◌++◌}
use pcap_sidecar.Filters.TcpFlags.{materialize, merge_tcp_flags, tcp_flag_nil}
use pcap_sidecar.Filters.Addrs.{Addr, is4, is6, as_slice}
use pcap_sidecar.Filters.Libs.{FilterLibs}

pub record PcapL3Filters (L : FilterLibs) : Type 0 where
  pub networks4 : L.trees.Tree
  pub networks6 : L.trees.Tree
  pub protos : L.sets.Carrier

pub record PcapL4Filters (L : FilterLibs) : Type 0 where
  pub ports : L.sets.Carrier
  pub no_ports : L.sets.Carrier
  pub flags : ℕ
  pub protos : L.sets.Carrier

pub record PcapFilters (L : FilterLibs) : Type 0 where
  pub l3 : PcapL3Filters L
  pub l4 : PcapL4Filters L
  pub no_sockets : L.sets.Carrier

-- `NewPcapFilters`
unfoldable pub new_pcap_filters : (L : FilterLibs) → PcapFilters L
new_pcap_filters L = record {
  l3 = record { networks4 = L.trees.new; networks6 = L.trees.new; protos = L.sets.empty };
  l4 = record {
    ports = L.sets.empty;
    no_ports = L.sets.empty;
    flags = tcp_flag_nil;
    protos = L.sets.empty;
  };
  no_sockets = L.sets.empty;
}

module _ (L : FilterLibs) where
  -- uint64 addition wraps around.
  unfoldable pub hash_addr_and_port : Addr → ℕ → ℕ
  hash_addr_and_port addr port = (L.hash_bytes64 (as_slice addr) + port) % 2 ^ 64

  unfoldable pub hash2tuple : String → Option ℕ
  unfolding hash_addr_and_port
  hash2tuple ip_and_port = elim (L.parse_addr_port ip_and_port) [
    | some (addr, port) ↦ some (hash_addr_and_port addr port)
    | none ↦ none
  ]

  unfoldable pub hash_uint64s : List ℕ → ℕ
  hash_uint64s hashes = L.hash_uint64 (fold (λ hash h. (hash + h) % 2 ^ 64) 0 hashes)

  abbrev pub both_hashes : Option ℕ → Option ℕ → Option ℕ
  both_hashes (some l) (some r) = some (hash_uint64s (l ∷ r ∷ []))
  both_hashes _ _ = none

  unfoldable pub hash_socket_from2tuples : String → String → Option ℕ
  hash_socket_from2tuples local remote = both_hashes (hash2tuple local) (hash2tuple remote)

  unfoldable pub hash_socket_from_addrs_and_ports : Addr → ℕ → Addr → ℕ → ℕ
  unfolding hash_addr_and_port hash_uint64s
  hash_socket_from_addrs_and_ports src_addr src_port dst_addr dst_port =
      hash_uint64s
        (hash_addr_and_port src_addr src_port ∷ hash_addr_and_port dst_addr dst_port ∷ [])

  -- `addNetwork`: a text that does not parse, or is of the other family, is ignored.
  unfoldable pub add_network : L.trees.Tree → Bool → String → L.trees.Tree
  add_network networks is_ipv6 ip_range = elim (L.parse_prefix ip_range) [
    | some prefix ↦
        if (is_ipv6 && is6 prefix.addr) || (not is_ipv6 && is4 prefix.addr)
        then L.trees.replace_or_insert networks prefix
        else networks
    | none ↦ networks
  ]

module _ {L : FilterLibs} where
  unfoldable pub add_ipv4_range : PcapFilters L → String → PcapFilters L
  unfolding add_network
  add_ipv4_range f ip_range = record f {
    l3 = record (f.l3) { networks4 = add_network L f.l3.networks4 false ip_range };
  }

  unfoldable pub add_ipv4_ranges : PcapFilters L → List String → PcapFilters L
  unfolding add_ipv4_range
  add_ipv4_ranges f ip_ranges = fold add_ipv4_range f ip_ranges

  unfoldable pub add_ipv4 : PcapFilters L → String → PcapFilters L
  unfolding add_network
  add_ipv4 f ipv4 = record f {
    l3 = record (f.l3) { networks4 = add_network L f.l3.networks4 false (ipv4 ++ "/32") };
  }

  unfoldable pub add_ipv4s : PcapFilters L → List String → PcapFilters L
  unfolding add_ipv4
  add_ipv4s f ipv4s = fold add_ipv4 f ipv4s

  unfoldable pub add_ipv6_range : PcapFilters L → String → PcapFilters L
  unfolding add_network
  add_ipv6_range f ip_range = record f {
    l3 = record (f.l3) { networks6 = add_network L f.l3.networks6 true ip_range };
  }

  unfoldable pub add_ipv6_ranges : PcapFilters L → List String → PcapFilters L
  unfolding add_ipv6_range
  add_ipv6_ranges f ip_ranges = fold add_ipv6_range f ip_ranges

  unfoldable pub add_ipv6 : PcapFilters L → String → PcapFilters L
  unfolding add_network
  add_ipv6 f ipv6 = record f {
    l3 = record (f.l3) { networks6 = add_network L f.l3.networks6 true (ipv6 ++ "/128") };
  }

  unfoldable pub add_ipv6s : PcapFilters L → List String → PcapFilters L
  unfolding add_ipv6
  add_ipv6s f ipv6s = fold add_ipv6 f ipv6s

  unfoldable pub add_port : PcapFilters L → ℕ → PcapFilters L
  add_port f port = record f { l4 = record (f.l4) { ports = L.sets.add f.l4.ports port } }

  unfoldable pub add_ports : PcapFilters L → List ℕ → PcapFilters L
  unfolding add_port
  add_ports f ports = fold add_port f ports

  unfoldable pub deny_port : PcapFilters L → ℕ → PcapFilters L
  deny_port f port = record f { l4 = record (f.l4) { no_ports = L.sets.add f.l4.no_ports port } }

  unfoldable pub deny_ports : PcapFilters L → List ℕ → PcapFilters L
  unfolding deny_port
  deny_ports f ports = fold deny_port f ports

  unfoldable pub allow_port : PcapFilters L → ℕ → PcapFilters L
  allow_port f port = record f { l4 = record (f.l4) { no_ports = L.sets.del f.l4.no_ports port } }

  unfoldable pub allow_ports : PcapFilters L → List ℕ → PcapFilters L
  unfolding allow_port
  allow_ports f ports = fold allow_port f ports

  unfoldable pub add_tcp_flags : PcapFilters L → List String → PcapFilters L
  add_tcp_flags f flags = record f {
    l4 = record (f.l4) {
      flags = fold (λ set flag. bit_or set (materialize flag)) f.l4.flags flags;
    };
  }

  unfoldable pub combine_and_add_tcp_flags : PcapFilters L → List String → PcapFilters L
  combine_and_add_tcp_flags f flags = record f {
    l4 = record (f.l4) { flags = bit_or f.l4.flags (merge_tcp_flags flags) };
  }

  unfoldable pub add_l3_proto : PcapFilters L → ℕ → PcapFilters L
  add_l3_proto f proto = record f { l3 = record (f.l3) { protos = L.sets.add f.l3.protos proto } }

  unfoldable pub add_l3_protos : PcapFilters L → List ℕ → PcapFilters L
  unfolding add_l3_proto
  add_l3_protos f protos = fold add_l3_proto f protos

  unfoldable pub add_l4_proto : PcapFilters L → ℕ → PcapFilters L
  add_l4_proto f proto = record f { l4 = record (f.l4) { protos = L.sets.add f.l4.protos proto } }

  unfoldable pub add_l4_protos : PcapFilters L → List ℕ → PcapFilters L
  unfolding add_l4_proto
  add_l4_protos f protos = fold add_l4_proto f protos

  -- `updateNoSockets`, with the Boolean that it returns.
  unfoldable pub update_no_sockets : PcapFilters L → String → String → Bool → PcapFilters L × Bool
  update_no_sockets f local remote allowed = elim (hash_socket_from2tuples L local remote) [
    | some hash ↦ (
      record f {
        no_sockets = if allowed then L.sets.del f.no_sockets hash else L.sets.add f.no_sockets hash;
      },
      true,
    )
    | none ↦ (f, false)
  ]

  unfoldable pub allow_socket : PcapFilters L → String → String → PcapFilters L × Bool
  unfolding update_no_sockets
  allow_socket f local remote = update_no_sockets f local remote true

  unfoldable pub deny_socket : PcapFilters L → String → String → PcapFilters L × Bool
  unfolding update_no_sockets
  deny_socket f local remote = update_no_sockets f local remote false
