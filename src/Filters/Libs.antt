-- ===== src/Filters/Libs.antt =====
-- The packages that the filters call and that the sources do not contain, as parameters: the
-- hash `fnv1a`, the sets of `mapset`, the trees of `google/btree`, and the text parsers of `netip`.
use pcap_sidecar.Common.{
  ℕ, String, ◌≡◌, ◌⊎◌, Bool, true, false, not, ◌&&◌, ◌||◌, Option, List, [], ◌∷◌, nat_eq, any,
  length,
}
use pcap_sidecar.Common.Sets.{SetApi}
use pcap_sidecar.Filters.Addrs.{Addr, Prefix, ip_less_than_func}

-- Two items of a tree that neither precedes are one item to the tree.
abbrev pub same_item : Prefix → Prefix → Bool
same_item a b = not (ip_less_than_func a b) && not (ip_less_than_func b a)

pub data In {ℓ} {A : Type ℓ} (x : A) : List A → Type ℓ where
  first : {y : A} {ys : List A} → x ≡ y → In x (y ∷ ys)
  later : {y : A} {ys : List A} → In x ys → In x (y ∷ ys)

-- `less` is a strict weak order on the members of the list, which `btree` asks of its items and keys.
pub record IsWeakOrder (xs : List Prefix) : Type 0 where
  pub irreflexive : (a : Prefix) → In a xs → ip_less_than_func a a ≡ false
  pub transitive :
      (a b c : Prefix)
      → In a xs
      → In b xs
      → In c xs
      → ip_less_than_func a b ≡ true
      → ip_less_than_func b c ≡ true
      → ip_less_than_func a c ≡ true
  pub same_transitive :
      (a b c : Prefix)
      → In a xs
      → In b xs
      → In c xs
      → same_item a b ≡ true
      → same_item b c ≡ true
      → same_item a c ≡ true

-- `btree.BTreeG[netip.Prefix]` over `ipLessThanFunc`.
pub record TreeApi : Type 1 where
  pub Tree : Type 0
  pub new : Tree
  pub replace_or_insert : Tree → Prefix → Tree
  pub has : Tree → Prefix → Bool
  pub len : Tree → ℕ
  pub items : Tree → List Prefix
  pub items-new : items new ≡ []
  pub len_lem : (t : Tree) → len t ≡ length (items t)
  pub has_lem :
      (t : Tree) (key : Prefix)
      → IsWeakOrder (key ∷ items t)
      → has t key ≡ any (λ item. same_item item key) (items t)
  -- An item that the tree already holds is replaced.
  pub any-replace_or_insert :
      (t : Tree) (new_item : Prefix) (p : Prefix → Bool)
      → IsWeakOrder (new_item ∷ items t)
      → any p (items (replace_or_insert t new_item))
        ≡ (p new_item || any (λ item. not (same_item item new_item) && p item) (items t))
  pub in-replace_or_insert :
      (t : Tree) (new_item x : Prefix)
      → IsWeakOrder (new_item ∷ items t)
      → In x (items (replace_or_insert t new_item))
      → (x ≡ new_item) ⊎ (In x (items t) × (same_item x new_item ≡ false))

pub record FilterLibs : Type 1 where
  pub sets : SetApi ℕ
  pub trees : TreeApi
  pub hash_bytes64 : List ℕ → ℕ
  pub hash_uint64 : ℕ → ℕ
  -- `netip.ParsePrefix` and `netip.ParseAddrPort`; `none` is the error.
  pub parse_prefix : String → Option Prefix
  pub parse_addr_port : String → Option (Addr × ℕ)
