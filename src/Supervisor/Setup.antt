-- ===== src/Supervisor/Setup.antt =====
-- What `main` makes of its flags: the range of ephemeral ports, the filters and their providers.
use Prim.Native.Char.{code}
use Prim.Native.String.{[] as nil, ◌∷◌ as cons}
use pcap_sidecar.Common.{
  ℕ, ◌+◌, ◌-◌, ◌*◌, String, Bool, true, false, not, ◌&&◌, ◌||◌, Option, none, some, List, [], ◌∷◌,
  ◌++◌, ltb, leb, nat_eq, string_eq, ◌==◌, if◌then◌else◌,
}
use pcap_sidecar.Filters.TcpFlags.{PcapEphemeralPorts}

-- `strconv.ParseUint(s, 10, 16)` from some digit on: the value, and whether there is an error. An
-- error of the range gives the greatest value, and one of the syntax 0.
unfoldable pub parse_digits : String → ℕ → ℕ × Bool
parse_digits nil n = (n, false)
parse_digits (cons c s) n =
    let m = 10 * n + (code c - 48) in
    let rest = parse_digits s m in
    if ltb (code c) 48 || ltb 57 (code c)
    then (0, true)
    else if ltb 65535 m
    then (65535, true)
    else rest

unfoldable pub parse_uint16 : String → ℕ × Bool
unfolding parse_digits
parse_uint16 nil = (0, true)
parse_uint16 (cons c s) = parse_digits (cons c s) 0

-- `strings.SplitN(s, ",", 2)` where it has two parts.
unfoldable pub split_two : String → Option (String × String)
split_two nil = none
split_two (cons c s) =
    let rest = split_two s in
    if code c == 44
    then some (nil, s)
    else elim rest [ none ↦ none | some (a, b) ↦ some (cons c a, b) ]

abbrev pub default_range : PcapEphemeralPorts
default_range = record { min_port = 0x8000; max_port = 0xFFFF }

-- The body of the loop: `is_first` is `i == 0`.
unfoldable pub set_port : Bool → ℕ × Bool → PcapEphemeralPorts → PcapEphemeralPorts
set_port is_first (value, has_error) range =
    if has_error && leb 0x0400 value && leb value 0xFFFF
    then (if is_first && ltb value range.max_port
        then record range { min_port = value }
        else if ltb range.min_port value
        then record range { max_port = value }
        else range)
    else range

-- `parseEphemeralPorts`
unfoldable pub parse_ephemeral_ports : String → PcapEphemeralPorts
unfolding parse_uint16 split_two set_port
parse_ephemeral_ports ephemerals = elim (split_two ephemerals) [
  | none ↦ default_range
  | some (a, b) ↦ set_port false (parse_uint16 b) (set_port true (parse_uint16 a) default_range)
]

-- The flags that the filters are made of; `P` is a provider.
pub record FilterFlags : Type 0 where
  pub compat : Bool
  pub filter : String
  pub l3_protos : String
  pub l4_protos : String
  pub ports : String
  pub tcp_flags : String

-- The factories of the providers, the provider of addresses if its `Get` gives a filter, and that of
-- processes.
pub record Factories (P : Type 0) : Type 0 where
  pub l3_proto : String → P
  pub l4_proto : String → P
  pub ports : String → P
  pub tcp_flags : String → P
  pub ip : Option P
  pub process : P

-- `PcapDefaultFilter`
abbrev pub pcap_default_filter : String
pcap_default_filter = "(tcp or udp or icmp or icmp6) and (ip or ip6 or arp)"

abbrev pub max_no_procs_interval : ℕ
max_no_procs_interval = 240

-- The interval of the provider of processes.
unfoldable pub no_procs_interval : ℕ → ℕ
no_procs_interval n = if ltb max_no_procs_interval n then max_no_procs_interval else n

abbrev pub append_some : {P : Type 0} → List P → Option P → List P
append_some filters none = filters
append_some filters (some p) = filters ++ p ∷ []

abbrev pub has_none : {P : Type 0} → List P → Bool
has_none [] = true
has_none (p ∷ filters) = false

-- `strings.EqualFold` and `strings.TrimSpace` are parameters.
module _ (equal_fold : String → String → Bool) (trim_space : String → String) where
  -- The filter of the flag.
  unfoldable pub raw_filter : FilterFlags → String
  raw_filter f = if f.compat || equal_fold f.filter "DISABLED" then "" else trim_space f.filter

module _ {P : Type 0} (equal_fold : String → String → Bool) where
  -- `appendFilter`
  unfoldable pub append_filter : Bool → List P → String → (String → P) → List P
  append_filter ctx_done filters raw factory =
      if ctx_done || raw == "" || equal_fold raw "ALL" || equal_fold raw "ANY"
      then filters
      else filters ++ factory raw ∷ []

  -- The providers of the simple filters.
  unfoldable pub simple_filters : Bool → FilterFlags → Factories P → List P
  unfolding append_filter
  simple_filters ctx_done f make =
      let a = append_filter ctx_done [] f.l3_protos make.l3_proto in
      let b = append_filter ctx_done a f.l4_protos make.l4_proto in
      let c = append_filter ctx_done b f.ports make.ports in
      append_some (append_filter ctx_done c f.tcp_flags make.tcp_flags) make.ip

-- The choice between the filter of the flag and the simple filters.
unfoldable pub choose_filters : {P : Type 0} → Bool → String → List P → P → String × List P
choose_filters compat raw simple process =
    if compat || raw == ""
    then (
      (if has_none simple && not compat then pcap_default_filter else raw),
      simple ++ process ∷ [],
    )
    else (raw, process ∷ [])

module _ {P : Type 0} (equal_fold : String → String → Bool) (trim_space : String → String) where
  -- The part of `main` on filters: the filter, and the providers.
  unfoldable pub set_up_filters : Bool → FilterFlags → Factories P → String × List P
  unfolding choose_filters
  set_up_filters ctx_done f make =
      choose_filters f.compat (raw_filter equal_fold trim_space f)
        (simple_filters equal_fold ctx_done f make) make.process
