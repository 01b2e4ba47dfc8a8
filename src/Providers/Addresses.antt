-- ===== src/Providers/Addresses.antt =====
-- The providers of host names and of addresses and networks.
use Prim.Native.String.{◌++◌ as concat}
use pcap_sidecar.Common.{
  String, false, not, ◌&&◌, ◌||◌, Option, none, some, List, [], ◌∷◌, ◌++◌, nat_eq, string_eq, ◌==◌,
  if◌then◌else◌, fold,
}
use pcap_sidecar.Filters.Addrs.{Prefix, is4, is6}
use pcap_sidecar.Filters.Libs.{FilterLibs}
use pcap_sidecar.Filters.Config.{
  PcapFilters, add_ipv4s, add_ipv6s, add_ipv4_ranges, add_ipv6_ranges,
}
use pcap_sidecar.Providers.Texts.{TextLibs, split, join, is_blank, set_of, is_any, is_unset}

abbrev pub default_ipv4_net : String
default_ipv4_net = "0.0.0.0/0"

abbrev pub default_ipv6_net : String
default_ipv6_net = "::/0"

unfoldable pub default_ip_filter : String
default_ip_filter = "net 0.0.0.0/0 or net ::/0"

unfoldable pub ip_text : String → String → String
unfolding default_ip_filter
ip_text ip_filter net_filter =
    if not (ip_filter == "") && not (net_filter == "")
    then concat "(" (concat ip_filter (concat ") or (" (concat net_filter ")")))
    else if not (ip_filter == "")
    then ip_filter
    else if not (net_filter == "")
    then net_filter
    else default_ip_filter

module _ (T : TextLibs) where
  -- `hostToIPs`
  unfoldable pub host_to_ips : String → List String
  host_to_ips host =
      if host == "" then [] else elim (T.lookup_host host) [ some ips ↦ ips | none ↦ [] ]

  -- One part of the expression, the empty text for the empty set.
  unfoldable pub part : String → String → T.texts.Carrier → String
  part head sep set =
      if T.texts.is_empty set then "" else concat head (join sep (T.texts.to_slice set))

  -- The addresses of the configuration with those of the host names.
  unfoldable pub append_ips : T.texts.Carrier → Option T.texts.Carrier → T.texts.Carrier
  append_ips ip_set none = ip_set
  append_ips ip_set (some ips) = fold T.texts.add ip_set (T.texts.to_slice ips)

pub record Found (L : FilterLibs) : Type 0 where
  pub filters : PcapFilters L
  pub ips : List String
  pub nets : List String

module _ {L : FilterLibs} (T : TextLibs) where
  unfoldable pub add_host_ip :
      PcapFilters L × T.texts.Carrier → String → PcapFilters L × T.texts.Carrier
  add_host_ip (f, ip_set) ip = elim (T.parse_addr ip) [
    | none ↦ (f, ip_set)
    | some addr ↦ (
      if is4 addr then add_ipv4s f (ip ∷ []) else add_ipv6s f (ip ∷ []),
      T.texts.add ip_set (T.addr_string addr),
    )
  ]

  unfoldable pub add_host :
      PcapFilters L × T.texts.Carrier → String → PcapFilters L × T.texts.Carrier
  unfolding host_to_ips add_host_ip
  add_host s host = if is_unset T host then s else fold add_host_ip s (host_to_ips T host)

  -- `hostsToIPs`: no set is its answer false.
  unfoldable pub hosts_to_ips : String → PcapFilters L → PcapFilters L × Option T.texts.Carrier
  unfolding add_host
  hosts_to_ips raw f =
      if is_unset T raw
      then (f, none)
      else let hosts = split raw in
        if is_blank hosts
        then (f, none)
        else let (f', ip_set) = fold add_host (f, T.texts.empty) hosts in (f', some ip_set)

  -- `DNSFilterProvider.Get`
  unfoldable pub dns_get : String → PcapFilters L → PcapFilters L × Option String
  unfolding hosts_to_ips
  dns_get raw f =
      let (f', ips) = hosts_to_ips raw f in
      elim ips [
        | none ↦ (f', none)
        | some ip_set ↦
            if T.texts.is_empty ip_set
            then (f', none)
            else (f', some (concat "host " (join " or host " (T.texts.to_slice ip_set))))
      ]

  -- A text that parses as a prefix.
  unfoldable pub add_net : Found L → String → Prefix → Found L
  add_net s ip_or_net net = record s {
    nets = s.nets ++ T.prefix_string net ∷ [];
    filters =
        if is4 net.addr
        then add_ipv4_ranges s.filters (ip_or_net ∷ [])
        else add_ipv6_ranges s.filters (ip_or_net ∷ []);
  }

  -- The body of the loop over the addresses and networks.
  unfoldable pub add_ip_or_net : Found L → String → Found L
  unfolding add_net
  add_ip_or_net s ip_or_net =
      if ip_or_net == "" || T.equal_fold ip_or_net "DISABLED"
      then s
      else if is_any T ip_or_net
      then record s { nets = s.nets ++ default_ipv4_net ∷ default_ipv6_net ∷ [] }
      else elim (T.parse_addr ip_or_net) [
        | some addr ↦
            if is4 addr || is6 addr then record s { ips = s.ips ++ T.addr_string addr ∷ [] } else s
        | none ↦ elim (L.parse_prefix ip_or_net) [ some net ↦ add_net s ip_or_net net | none ↦ s ]
      ]

  -- `getIPsAndNETs`
  unfoldable pub get_ips_and_nets : String → String → PcapFilters L → Found L
  unfolding add_ip_or_net
  get_ips_and_nets raw4 raw6 f =
      let found : Found L = record { filters = f; ips = []; nets = [] } in
      if raw4 == "" && raw6 == ""
      then found
      else fold add_ip_or_net found (split (concat raw4 (concat "," raw6)))

  -- The closure that `ipSet.Each` calls for one network. An address that does not parse is neither
  -- of the two families, and in no network.
  unfoldable pub drop_ip :
      Option Prefix → PcapFilters L × T.texts.Carrier → String → PcapFilters L × T.texts.Carrier
  drop_ip net (f, ip_set) ip = elim (T.parse_addr ip) [
    | none ↦ (f, ip_set)
    | some addr ↦
        if elim net [ some p ↦ T.prefix_contains p addr | none ↦ false ]
        then (f, T.texts.del ip_set ip)
        else if is4 addr
        then (add_ipv4s f (ip ∷ []), ip_set)
        else if is6 addr
        then (add_ipv6s f (ip ∷ []), ip_set)
        else (f, ip_set)
  ]

  -- The loop over the networks.
  unfoldable pub drop_ips :
      List String → PcapFilters L × T.texts.Carrier → PcapFilters L × T.texts.Carrier
  unfolding drop_ip
  drop_ips [] s = s
  drop_ips (net ∷ nets) s =
      drop_ips nets (fold (drop_ip (L.parse_prefix net)) s (T.texts.to_slice s.1))

  -- `IPFilterProvider.Get`
  unfoldable pub ip_get : String → String → String → PcapFilters L → PcapFilters L × Option String
  unfolding get_ips_and_nets hosts_to_ips append_ips drop_ips part ip_text
  ip_get raw4 raw6 dns f =
      if raw4 == "" && raw6 == "" && dns == ""
      then (f, none)
      else let found = get_ips_and_nets raw4 raw6 f in
        let (f', hosts) = hosts_to_ips dns found.filters in
        let (f'', ip_set) = drop_ips found.nets (f', append_ips T (set_of T found.ips) hosts) in
        (
          f'',
          some (
              ip_text (part T "host " " or host " ip_set)
                (part T "net " " or net " (set_of T found.nets))),
        )
