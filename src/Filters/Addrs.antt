-- ===== src/Filters/Addrs.antt =====
-- What the filters use of Go's `net/netip`: addresses, prefixes, `Overlaps`, `Less` and the bytes of
-- an address. IPv6 zones are left out: packets and the configured ranges carry none.
use pcap_sidecar.Common.{
  ℕ, zero, suc, ◌+◌, ◌-◌, ◌*◌, ◌/◌, ◌%◌, ◌^◌, Bool, true, false, not, ◌&&◌, List, [], ◌∷◌, ◌++◌,
  ltb, leb, nat_beq, fold, if◌then◌else◌,
}

pub data Addr : Type 0 where
  v4 : ℕ → Addr
  v6 : ℕ → Addr

abbrev pub is4 : Addr → Bool
is4 (v4 n) = true
is4 (v6 n) = false

abbrev pub is6 : Addr → Bool
is6 a = not (is4 a)

abbrev pub bit_len : Addr → ℕ
bit_len (v4 n) = 32
bit_len (v6 n) = 128

abbrev pub value : Addr → ℕ
value (v4 n) = n
value (v6 n) = n

-- The `n` bytes of a number, most significant first.
unfoldable pub be_bytes : ℕ → ℕ → List ℕ
be_bytes zero x = []
be_bytes (suc n) x = be_bytes n (x / 256) ++ (x % 256) ∷ []

unfoldable pub from_be_bytes : List ℕ → ℕ
from_be_bytes bytes = fold (λ n b. n * 256 + b) 0 bytes

-- `Addr.AsSlice`
unfoldable pub as_slice : Addr → List ℕ
unfolding be_bytes
as_slice (v4 n) = be_bytes 4 n
as_slice (v6 n) = be_bytes 16 n

-- `netip.Prefix`; the address is kept as it was given, not masked.
pub record Prefix : Type 0 where
  pub addr : Addr
  pub bits : ℕ

-- `netip.PrefixFrom`: too many bits make an invalid prefix, `bits` out of range.
unfoldable pub prefix_from : Addr → ℕ → Prefix
prefix_from a n = record { addr = a; bits = n }

abbrev pub is_valid : Prefix → Bool
is_valid p = leb p.bits (bit_len p.addr)

-- The first `n` bits of an address, which `Addr.Prefix` keeps.
abbrev pub top_bits : ℕ → Addr → ℕ
top_bits n a = value a / 2 ^ (bit_len a - n)

-- `Prefix.Overlaps`
unfoldable pub overlaps : Prefix → Prefix → Bool
overlaps p q =
    let n = if leb p.bits q.bits then p.bits else q.bits in
    is_valid p
    && is_valid q
    && nat_beq (bit_len p.addr) (bit_len q.addr)
    && nat_beq (top_bits n p.addr) (top_bits n q.addr)

-- `Addr.Less`: by family, then by value.
unfoldable pub addr_less : Addr → Addr → Bool
addr_less a b =
    if ltb (bit_len a) (bit_len b)
    then true
    else if ltb (bit_len b) (bit_len a)
    then false
    else ltb (value a) (value b)

-- `ipLessThanFunc` of packet_filter.go, the order of the trees of networks.
unfoldable pub ip_less_than_func : Prefix → Prefix → Bool
unfolding overlaps addr_less
ip_less_than_func a b = if overlaps a b then false else addr_less a.addr b.addr
