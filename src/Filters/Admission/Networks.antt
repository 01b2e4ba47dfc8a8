-- ===== src/Filters/Admission/Networks.antt =====
-- Ranges of addresses in the trees that `ipLessThanFunc` orders.
use pcap_sidecar.Common.{
  ℕ, String, ◌≤◌, ◌≡◌, ◌⊎◌, inl, inr, refl, true, false, not, ◌&&◌, ◌||◌, Bool, some, arith, List,
  [], ◌∷◌, any, ltb, nat_beq, ap, sym, ◌∙◌, subst,
}
use pcap_sidecar.Filters.Libs.{TreeApi, FilterLibs, In, first, later, IsWeakOrder, same_item}
use pcap_sidecar.Filters.Config.{PcapFilters, new_pcap_filters, add_network, add_ipv4_range}
use pcap_sidecar.Filters.Queries.{allows_ipv4_addr, allows_ipv6_bytes}
use pcap_sidecar.Filters.Addrs.{
  from_be_bytes, Addr, v4, v6, Prefix, top_bits, prefix_from, overlaps, addr_less,
  ip_less_than_func,
}

overlaps_comm : (p q : Prefix) → overlaps p q ≡ overlaps q p
unfolding overlaps
overlaps_comm p q = ground arith

addr_less_irrefl : (a : Addr) → addr_less a a ≡ false
unfolding addr_less
addr_less_irrefl a = ground arith

addr_less_asym : (a b : Addr) → addr_less a b ≡ true → addr_less b a ≡ false
unfolding addr_less
addr_less_asym a b h = ground arith

less_irrefl : (p : Prefix) → ip_less_than_func p p ≡ false
unfolding ip_less_than_func
less_irrefl p = ground (arith, addr_less_irrefl p.addr)

less_asym : (p q : Prefix) → ip_less_than_func p q ≡ true → ip_less_than_func q p ≡ false
unfolding ip_less_than_func
less_asym p q h = ground (arith, overlaps_comm p q, addr_less_asym p.addr q.addr)

-- Two prefixes are always in order.
IsWeakOrder-two :
    (x y : Prefix) (xs : List Prefix)
    → ((a : Prefix) → In a xs → (a ≡ x) ⊎ (a ≡ y))
    → IsWeakOrder xs
IsWeakOrder-two x y xs h = record {
  irreflexive = λ a m. less_irrefl a;
  transitive = λ a b c ma mb mc p q.
      ground (arith, h a ma, h b mb, h c mc, less_irrefl x, less_irrefl y, less_asym x y);
  same_transitive =
      λ a b c ma mb mc p q. ground (arith, h a ma, h b mb, h c mc, less_irrefl x, less_irrefl y);
}

prefix_from_addr : (a : ℕ) → (prefix_from (v4 a) 32).addr ≡ v4 a
unfolding prefix_from
prefix_from_addr a = refl

not-In_nil : {a : Prefix} → In a [] → ⊥
not-In_nil m = elim m [ ]

true≢false : ◌≡◌ {A = Bool} true false → ⊥
true≢false e = cc

or_false : (b : Bool) → (b || false) ≡ b
or_false b = ground arith

-- The value of an address lies in the range of a prefix.
abbrev pub in_range : Prefix → Addr → Bool
in_range p a = nat_beq (top_bits p.bits p.addr) (top_bits p.bits a)

overlaps-host :
    (n a b : ℕ)
    → b ≤ 32
    → overlaps (record { addr = v4 n; bits = b }) (prefix_from (v4 a) 32)
      ≡ in_range (record { addr = v4 n; bits = b }) (v4 a)
unfolding overlaps prefix_from
overlaps-host n a b h = ground arith

addr_less_value : (n a : ℕ) → addr_less (v4 n) (v4 a) ≡ ltb n a
unfolding addr_less
addr_less_value n a = refl

same_item-host :
    (n a b : ℕ)
    → b ≤ 32
    → same_item (record { addr = v4 n; bits = b }) (prefix_from (v4 a) 32)
      ≡ in_range (record { addr = v4 n; bits = b }) (v4 a)
unfolding ip_less_than_func
same_item-host n a b h = ground (
  arith,
  overlaps-host n a b h,
  overlaps_comm (record { addr = v4 n; bits = b }) (prefix_from (v4 a) 32),
  addr_less_value n a,
  addr_less_value a n,
  prefix_from_addr a,
)

module _ (T : TreeApi) where
  open T use {Tree, new, replace_or_insert, has, items}

  In-new : {a : Prefix} → In a (items new) → ⊥
  In-new {a} m = not-In_nil (subst (In a) T.items-new m)

  IsWeakOrder-new : (p : Prefix) → IsWeakOrder (p ∷ items new)
  IsWeakOrder-new p = IsWeakOrder-two p p _ (λ a m. alone a m)
    where
      alone : (a : Prefix) → In a (p ∷ items new) → (a ≡ p) ⊎ (a ≡ p)
      alone a (first e) = inl e
      alone a (later m) = absurd (In-new m)

  has_none : (key : Prefix) → has new key ≡ false
  has_none key = T.has_lem new key (IsWeakOrder-new key) ∙ rw T.items-new

  members_one : (p a : Prefix) → In a (items (replace_or_insert new p)) → a ≡ p
  members_one p a m = elim (T.in-replace_or_insert new p a (IsWeakOrder-new p) m) [
    | inl e ↦ e
    | inr (old, _) ↦ absurd (In-new old)
  ]

  IsWeakOrder-one : (p key : Prefix) → IsWeakOrder (key ∷ items (replace_or_insert new p))
  IsWeakOrder-one p key = IsWeakOrder-two key p _ member
    where
      member : (a : Prefix) → In a (key ∷ items (replace_or_insert new p)) → (a ≡ key) ⊎ (a ≡ p)
      member a (first e) = inl e
      member a (later m) = inr (members_one p a m)

  any_one :
      (p : Prefix) (test : Prefix → Bool) → any test (items (replace_or_insert new p)) ≡ test p
  any_one p test =
      rw (T.any-replace_or_insert new p test (IsWeakOrder-new p))
        (rw T.items-new (or_false (test p)))

  -- A tree with one range has what the range is one item with.
  pub has_one : (p key : Prefix) → has (replace_or_insert new p) key ≡ same_item p key
  has_one p key =
      T.has_lem (replace_or_insert new p) key (IsWeakOrder-one p key)
      ∙ any_one p (λ item. same_item item key)

  members_two :
      (p q a : Prefix)
      → same_item p q ≡ true
      → In a (items (replace_or_insert (replace_or_insert new p) q))
      → a ≡ q
  members_two p q a same m =
      elim (T.in-replace_or_insert (replace_or_insert new p) q a (IsWeakOrder-one p q) m) [
        | inl e ↦ e
        | inr (old, differs) ↦
            absurd (
              true≢false (sym same ∙ ap (λ x. same_item x q) (sym (members_one p a old)) ∙ differs))
      ]

  -- A range that overlaps the one in the tree takes its place.
  pub has_two :
      (p q key : Prefix)
      → same_item p q ≡ true
      → has (replace_or_insert (replace_or_insert new p) q) key ≡ same_item q key
  has_two p q key same =
      T.has_lem _ key (IsWeakOrder-two key q _ member)
      ∙ T.any-replace_or_insert (replace_or_insert new p) q (λ item. same_item item key)
          (IsWeakOrder-one p q)
      ∙ ap (λ rest. same_item q key || rest)
          (any_one p (λ item. not (same_item item q) && same_item item key))
      ∙ dropped (same_item p q) (same_item q key) (same_item p key) same
    where
      member :
          (a : Prefix)
          → In a (key ∷ items (replace_or_insert (replace_or_insert new p) q))
          → (a ≡ key) ⊎ (a ≡ q)
      member a (first e) = inl e
      member a (later m) = inr (members_two p q a same m)

      dropped : (s x y : Bool) → s ≡ true → (x || (not s && y)) ≡ x
      dropped s x y e = ground arith

same_of_overlap : (p q : Prefix) → overlaps p q ≡ true → same_item p q ≡ true
unfolding ip_less_than_func
same_of_overlap p q h = ground (arith, overlaps_comm p q)

abbrev pub range4 : ℕ → ℕ → Prefix
range4 n b = record { addr = v4 n; bits = b }

module _ (L : FilterLibs) (r : String) (n b : ℕ)
    (parsed : L.parse_prefix r ≡ some (range4 n b)) where
  networks4-add_ipv4_range :
      (f : PcapFilters L)
      → (add_ipv4_range f r).l3.networks4 ≡ L.trees.replace_or_insert f.l3.networks4 (range4 n b)
  unfolding add_ipv4_range
  networks4-add_ipv4_range f = rw (parsed, add_network)

  -- With one range configured, an address is allowed exactly if it lies in it.
  pub allows_ipv4_addr-add_ipv4_range :
      (a : ℕ)
      → b ≤ 32
      → allows_ipv4_addr (add_ipv4_range (new_pcap_filters L) r) (v4 a)
        ≡ in_range (range4 n b) (v4 a)
  unfolding allows_ipv4_addr
  allows_ipv4_addr-add_ipv4_range a small = rw (networks4-add_ipv4_range (new_pcap_filters L)) (
      unfold new_pcap_filters in
      (has_one L.trees (range4 n b) (prefix_from (v4 a) 32) ∙ same_item-host n a b small))

module _ (L : FilterLibs) (r s : String) (n b m c : ℕ) (small : b ≤ 32)
    (parsed_r : L.parse_prefix r ≡ some (range4 n b))
    (parsed_s : L.parse_prefix s ≡ some (range4 m c)) where
  networks4_two :
      (add_ipv4_range (add_ipv4_range (new_pcap_filters L) s) r).l3.networks4
      ≡ L.trees.replace_or_insert (L.trees.replace_or_insert L.trees.new (range4 m c)) (range4 n b)
  unfolding new_pcap_filters
  networks4_two =
      networks4-add_ipv4_range L r n b parsed_r (add_ipv4_range (new_pcap_filters L) s)
      ∙ ap (λ t. L.trees.replace_or_insert t (range4 n b))
          (networks4-add_ipv4_range L s m c parsed_s (new_pcap_filters L))

  -- A range that overlaps the only one configured before, in filters that are new otherwise, takes its
  -- place: what only the earlier range has is no longer allowed.
  pub allows_ipv4_addr-add_ipv4_range_overlap :
      (a : ℕ)
      → overlaps (range4 m c) (range4 n b) ≡ true
      → allows_ipv4_addr (add_ipv4_range (add_ipv4_range (new_pcap_filters L) s) r) (v4 a)
        ≡ in_range (range4 n b) (v4 a)
  unfolding allows_ipv4_addr
  allows_ipv4_addr-add_ipv4_range_overlap a o = rw networks4_two (
      has_two L.trees (range4 m c) (range4 n b) (prefix_from (v4 a) 32)
        (same_of_overlap (range4 m c) (range4 n b) o)
      ∙ same_item-host n a b small)

module _ {L : FilterLibs} (f : PcapFilters L) where
  -- The test of the bytes of an IPv6 address does not look at the IPv6 ranges: without IPv4 ranges
  -- it fails, whatever IPv6 ranges there are.
  pub allows_ipv6_bytes-no_networks4 :
      (bytes : List ℕ) → f.l3.networks4 ≡ L.trees.new → allows_ipv6_bytes f bytes ≡ false
  unfolding allows_ipv6_bytes allows_ipv4_addr
  allows_ipv6_bytes-no_networks4 bytes e =
      rw e (has_none L.trees (prefix_from (v6 (from_be_bytes bytes)) 32))
