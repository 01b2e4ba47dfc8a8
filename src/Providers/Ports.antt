-- ===== src/Providers/Ports.antt =====
-- The providers of ports and of TCP flags.
use Prim.Native.String.{◌++◌ as concat}
use pcap_sidecar.Common.{
  ℕ, ◌%◌, ◌^◌, String, not, ◌||◌, Option, none, some, List, [], ◌∷◌, nat_eq, string_eq, ◌==◌, leb,
  if◌then◌else◌, fold, bit_or,
}
use pcap_sidecar.Filters.Libs.{FilterLibs}
use pcap_sidecar.Filters.TcpFlags.{materialize}
use pcap_sidecar.Filters.Config.{PcapFilters, add_port, add_tcp_flags}
use pcap_sidecar.Providers.Texts.{TextLibs, split, join, is_blank, set_of, is_unset}

pub record FlagsState (L : FilterLibs) (T : TextLibs) : Type 0 where
  pub filters : PcapFilters L
  pub flags_set : T.texts.Carrier
  pub set_flags : ℕ

module _ {L : FilterLibs} (T : TextLibs) where
  -- The closure that `portSet.Each` calls, on the filters and the set.
  unfoldable pub port_each :
      PcapFilters L × T.texts.Carrier → String → PcapFilters L × T.texts.Carrier
  port_each (f, port_set) port_str =
      let (port, ok) = T.parse_uint16 port_str in
      if is_unset T port_str
      then (f, T.texts.del port_set port_str)
      else if not ok || leb port 0xFFFF
      then (add_port f (port % 2 ^ 16), port_set)
      else (f, T.texts.del port_set port_str)

  -- `portSet.Each` over the set of the entries.
  unfoldable pub ports_each : List String → PcapFilters L → PcapFilters L × T.texts.Carrier
  unfolding port_each
  ports_each ports f =
      let port_set = set_of T ports in fold port_each (f, port_set) (T.texts.to_slice port_set)

  unfoldable pub ports_text : PcapFilters L × T.texts.Carrier → PcapFilters L × Option String
  ports_text (f, port_set) =
      if T.texts.is_empty port_set
      then (f, none)
      else (f, some (concat "port " (join " or port " (T.texts.to_slice port_set))))

  -- `PortsFilterProvider.Get`
  unfoldable pub ports_get : String → PcapFilters L → PcapFilters L × Option String
  unfolding ports_each ports_text
  ports_get raw f =
      if raw == ""
      then (f, none)
      else let ports = split (T.to_lower raw) in
        if is_blank ports then (f, none) else ports_text (ports_each ports f)

  -- The closure that `flagsSet.Each` calls.
  unfoldable pub flag_each : FlagsState L T → String → FlagsState L T
  flag_each s entry =
      let flag_str = T.to_upper entry in
      let flag = materialize flag_str in
      if flag == 0 then record s { flags_set = T.texts.del s.flags_set flag_str } else record s {
        filters = add_tcp_flags s.filters (flag_str ∷ []);
        set_flags = bit_or s.set_flags flag;
      }

  unfoldable pub flags_each : List String → PcapFilters L → FlagsState L T
  unfolding flag_each
  flags_each flags f =
      let flags_set = set_of T flags in
      fold flag_each (record { filters = f; flags_set = flags_set; set_flags = 0 })
        (T.texts.to_slice flags_set)

  unfoldable pub flags_text : FlagsState L T → PcapFilters L × Option String
  flags_text s =
      if s.set_flags == 0 || T.texts.is_empty s.flags_set
      then (s.filters, none)
      else let ip6_filter = concat "ip6[13+40]&0x" (concat (T.format_hex s.set_flags) "!=0") in
        let ip4_filter = concat "tcp-" (join "|tcp-" (T.texts.to_slice s.flags_set)) in
        (
          s.filters,
          some (
              concat "(tcp[tcpflags]&("
                (concat ip4_filter (concat ")!=0) or (" (concat ip6_filter ")")))),
        )

  -- `TCPFlagsFilterProvider.Get`
  unfoldable pub flags_get : String → PcapFilters L → PcapFilters L × Option String
  unfolding flags_each flags_text
  flags_get raw f =
      if is_unset T raw
      then (f, none)
      else let flags = split (T.to_lower raw) in
        if is_blank flags then (f, none) else flags_text (flags_each flags f)
