-- ===== src/Samples/Trees.antt =====
-- `btree.BTreeG[netip.Prefix]` as a list without two items that are one to `ipLessThanFunc`.
use pcap_sidecar.Common.{
  ◌≡◌, refl, ◌⊎◌, inl, inr, Bool, true, false, not, ◌&&◌, ◌||◌, List, [], ◌∷◌, arith, any, length,
  if◌then◌else◌, ap, ◌∙◌,
}
use pcap_sidecar.Filters.Addrs.{Prefix}
use pcap_sidecar.Filters.Libs.{TreeApi, In, first, later, same_item}

unfoldable pub without : Prefix → List Prefix → List Prefix
without p [] = []
without p (x ∷ xs) = if same_item x p then without p xs else x ∷ without p xs

any-without :
    (p : Prefix) (test : Prefix → Bool) (xs : List Prefix)
    → any test (without p xs) ≡ any (λ x. not (same_item x p) && test x) xs
unfolding without
any-without p test [] = refl
any-without p test (x ∷ xs) = ground (arith, any-without p test xs)

In-kept :
    {x : Prefix} (b : Bool) (y : Prefix) (l : List Prefix)
    → In x (if b then l else y ∷ l)
    → In x l ⊎ ((x ≡ y) × (b ≡ false))
In-kept true y l m = inl m
In-kept false y l (first e) = inr (e, refl)
In-kept false y l (later m) = inl m

In-without :
    (p x : Prefix) (xs : List Prefix) → In x (without p xs) → In x xs × (same_item x p ≡ false)
unfolding without
In-without p x [] m = elim m [ ]
In-without p x (y ∷ xs) m = elim (In-kept (same_item y p) y (without p xs) m) [
  | inl old ↦ let (i, d) = In-without p x xs old in (later i, d)
  | inr (e, d) ↦ (first e, ap (λ z. same_item z p) e ∙ d)
]

pub In-inserted :
    (t : List Prefix) (p x : Prefix)
    → In x (p ∷ without p t)
    → (x ≡ p) ⊎ (In x t × (same_item x p ≡ false))
In-inserted t p x (first e) = inl e
In-inserted t p x (later m) = inr (In-without p x t m)

pub any_inserted :
    (t : List Prefix) (p : Prefix) (test : Prefix → Bool)
    → any test (p ∷ without p t) ≡ (test p || any (λ x. not (same_item x p) && test x) t)
any_inserted t p test = ap (λ b. test p || b) (any-without p test t)

abbrev pub list_tree : TreeApi
list_tree = record {
  Tree = List Prefix;
  new = [];
  replace_or_insert = λ t p. p ∷ without p t;
  has = λ t key. any (λ item. same_item item key) t;
  len = length;
  items = λ t. t;
  items-new = refl;
  len_lem = λ t. refl;
  has_lem = λ t key w. refl;
  any-replace_or_insert = λ t p test w. any_inserted t p test;
  in-replace_or_insert = λ t p x w m. In-inserted t p x m;
}
