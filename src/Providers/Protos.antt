-- ===== src/Providers/Protos.antt =====
-- The providers of the protocols of layers 3 and 4.
use pcap_sidecar.Common.{
  ℕ, String, Bool, ◌||◌, Option, none, some, List, [], ◌∷◌, nat_eq, string_eq, ◌==◌, if◌then◌else◌,
  fold, any,
}
use pcap_sidecar.Filters.Libs.{FilterLibs}
use pcap_sidecar.Filters.Config.{PcapFilters, add_l3_proto, add_l4_proto}
use pcap_sidecar.Providers.Texts.{TextLibs, split, join, is_blank, is_any}

unfoldable pub l3_proto_default_filter : String
l3_proto_default_filter = "ip or ip6 or arp"

unfoldable pub l4_proto_default_filter : String
l4_proto_default_filter = "tcp or udp or icmp or icmp6"

-- The text of the expression and the protocol number that a name stands for.
pub record Proto : Type 0 where
  pub text : String
  pub number : Option ℕ

abbrev pub is_one_of : String → List String → Bool
is_one_of s names = any (λ name. s == name) names

unfoldable pub l3_proto : String → Option Proto
l3_proto proto =
    if is_one_of proto ("ip" ∷ "ip4" ∷ "ipv4" ∷ "4" ∷ "0x04" ∷ [])
    then some (record { text = "ip"; number = some 0x04 })
    else if is_one_of proto ("ip6" ∷ "ipv6" ∷ "41" ∷ "0x29" ∷ [])
    then some (record { text = "ip6"; number = some 0x29 })
    else if is_one_of proto ("arp" ∷ "0x0806" ∷ [])
    then some (record { text = "arp"; number = none })
    else none

unfoldable pub l4_proto : String → Option Proto
l4_proto proto =
    if is_one_of proto ("tcp" ∷ "6" ∷ "0x06" ∷ [])
    then some (record { text = "tcp"; number = some 0x06 })
    else if is_one_of proto ("udp" ∷ "17" ∷ "0x11" ∷ [])
    then some (record { text = "udp"; number = some 0x11 })
    else if is_one_of proto ("icmp" ∷ "icmp4" ∷ "1" ∷ "0x01" ∷ [])
    then some (record { text = "icmp"; number = some 0x01 })
    else if is_one_of proto ("icmp6" ∷ "58" ∷ "0x3A" ∷ [])
    then some (record { text = "icmp6"; number = some 0x3A })
    else none

module _ {L : FilterLibs} (T : TextLibs) where
  -- The body of the loop over the names; `add` is `AddL3Proto` or `AddL4Proto`.
  unfoldable pub add_proto :
      (String → Option Proto)
      → (PcapFilters L → ℕ → PcapFilters L)
      → PcapFilters L × T.texts.Carrier
      → String
      → PcapFilters L × T.texts.Carrier
  add_proto proto_of add (f, protos) name = elim (proto_of name) [
    | none ↦ (f, protos)
    | some proto ↦
        (elim proto.number [ none ↦ f | some n ↦ add f n ], T.texts.add protos proto.text)
  ]

  unfoldable pub protos_text :
      String → PcapFilters L × T.texts.Carrier → PcapFilters L × Option String
  protos_text default_filter (f, protos) =
      if T.texts.is_empty protos
      then (f, some default_filter)
      else (f, some (join " or " (T.texts.to_slice protos)))

  -- What the two `Get` share once the text of the configuration is not one of the defaults.
  unfoldable pub protos_get :
      String
      → (String → Option Proto)
      → (PcapFilters L → ℕ → PcapFilters L)
      → String
      → PcapFilters L
      → PcapFilters L × Option String
  unfolding add_proto protos_text
  protos_get default_filter proto_of add raw f =
      let protos = split raw in
      if is_blank protos
      then (f, some default_filter)
      else protos_text default_filter (fold (add_proto proto_of add) (f, T.texts.empty) protos)

  -- `L3ProtoFilterProvider.Get`
  unfoldable pub l3_proto_get : String → PcapFilters L → PcapFilters L × Option String
  unfolding protos_get l3_proto_default_filter
  l3_proto_get raw f =
      if raw == "" || is_any T raw || T.equal_fold raw l3_proto_default_filter
      then (f, some l3_proto_default_filter)
      else protos_get l3_proto_default_filter l3_proto add_l3_proto raw f

  -- `L4ProtoFilterProvider.Get`
  unfoldable pub l4_proto_get : String → PcapFilters L → PcapFilters L × Option String
  unfolding protos_get l4_proto_default_filter
  l4_proto_get raw f =
      if raw == ""
        || raw == "23"
        || raw == "0x17"
        || is_any T raw
        || T.equal_fold raw l4_proto_default_filter
      then (f, some l4_proto_default_filter)
      else protos_get l4_proto_default_filter l4_proto add_l4_proto raw f
