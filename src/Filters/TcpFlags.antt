-- ===== src/Filters/TcpFlags.antt =====
-- TCP flags as a byte: the tables of pcap-cli/internal/transformer/transformer.go, `parseTCPflags`
-- and `isConnectionTermination` of utils.go, `materialize` and `mergeTCPFlags` of packet_filter.go.
pub mod Laws
use pcap_sidecar.Common.{
  ℕ, String, Bool, not, ◌&&◌, Option, none, some, List, [], ◌∷◌, leb, nat_beq, ◌==◌, string_eq,
  fold, bit_or, bit_and, if◌then◌else◌,
}

-- The fields of `layers.TCP` (gopacket) that the sources read.
pub record TcpLayer : Type 0 where
  pub src_port : ℕ
  pub dst_port : ℕ
  pub fin : Bool
  pub syn : Bool
  pub rst : Bool
  pub psh : Bool
  pub ack : Bool
  pub urg : Bool
  pub ece : Bool
  pub cwr : Bool

abbrev pub tcp_flag_nil : ℕ
tcp_flag_nil = 0b00000000

-- `tcpFlags`, the map from names to bits.
abbrev pub tcp_flags : List (String × ℕ)
tcp_flags =
    ("FIN", 0b00000001)
    ∷ ("SYN", 0b00000010)
    ∷ ("RST", 0b00000100)
    ∷ ("PSH", 0b00001000)
    ∷ ("ACK", 0b00010000)
    ∷ ("URG", 0b00100000)
    ∷ ("ECE", 0b01000000)
    ∷ ("CWR", 0b10000000)
    ∷ []

abbrev pub tcp_fin : ℕ
tcp_fin = 0b00000001

abbrev pub tcp_syn : ℕ
tcp_syn = 0b00000010

abbrev pub tcp_rst : ℕ
tcp_rst = 0b00000100

abbrev pub tcp_psh : ℕ
tcp_psh = 0b00001000

abbrev pub tcp_ack : ℕ
tcp_ack = 0b00010000

abbrev pub tcp_urg : ℕ
tcp_urg = 0b00100000

abbrev pub tcp_ece : ℕ
tcp_ece = 0b01000000

abbrev pub tcp_cwr : ℕ
tcp_cwr = 0b10000000

-- `m[k]` with the `ok` of Go's map access.
unfoldable pub lookup_flag : List (String × ℕ) → String → Option ℕ
lookup_flag [] k = none
lookup_flag ((j, v) ∷ m) k = if k == j then some v else lookup_flag m k

-- A name that is not in the map is no flag.
unfoldable pub materialize : String → ℕ
unfolding lookup_flag
materialize flag = elim (lookup_flag tcp_flags flag) [ some f ↦ f | none ↦ tcp_flag_nil ]

unfoldable pub merge_tcp_flags : List String → ℕ
merge_tcp_flags flags = fold (λ merged flag. bit_or merged (materialize flag)) 0 flags

unfoldable pub set_if : Bool → ℕ → ℕ → ℕ
set_if b flag flags = if b then bit_or flags flag else flags

unfoldable pub parse_tcp_flags : TcpLayer → ℕ
parse_tcp_flags tcp =
    let f0 = set_if tcp.syn tcp_syn 0b00000000 in
    let f1 = set_if tcp.ack tcp_ack f0 in
    let f2 = set_if tcp.psh tcp_psh f1 in
    let f3 = set_if tcp.fin tcp_fin f2 in
    let f4 = set_if tcp.rst tcp_rst f3 in
    let f5 = set_if tcp.urg tcp_urg f4 in
    let f6 = set_if tcp.ece tcp_ece f5 in set_if tcp.cwr tcp_cwr f6

unfoldable pub is_connection_termination : ℕ → Bool
is_connection_termination flags = not (nat_beq (bit_and flags (bit_or tcp_fin tcp_rst)) 0)

pub record PcapEphemeralPorts : Type 0 where
  pub min_port : ℕ
  pub max_port : ℕ

unfoldable pub is_ephemeral_port : PcapEphemeralPorts → ℕ → Bool
is_ephemeral_port eph port = leb eph.min_port port && leb port eph.max_port
