-- ===== src/Samples/Maps.antt =====
-- `haxmap.Map` as an association list.
use pcap_sidecar.Common.{
  ◌≡◌, refl, none, some, List, [], ◌∷◌, arith, Comparable, ◌==◌, if◌then◌else◌,
}
use pcap_sidecar.Common.Maps.{MapApi, lookup}

module _ {K V : Type 0} ⦃c : Comparable K⦄ where
  abbrev pub without : List (K × V) → K → List (K × V)
  without [] j = []
  without ((i, v) ∷ m) j = let rest = without m j in if i == j then rest else (i, v) ∷ rest

  pub lookup-without :
      (m : List (K × V)) (i j : K) → lookup (without m i) j ≡ (if i == j then none else lookup m j)
  lookup-without [] i j = ground arith
  lookup-without ((k, v) ∷ m) i j =
      ground (arith, lookup-without m i j, c.same_iff k i, c.same_iff k j, c.same_iff i j)

  pub lookup-with :
      (m : List (K × V)) (i : K) (v : V) (j : K)
      → lookup ((i, v) ∷ without m i) j ≡ (if i == j then some v else lookup m j)
  lookup-with m i v j = ground (arith, lookup-without m i j)

  abbrev pub list_map : MapApi K V
  list_map = record {
    Carrier = List (K × V);
    empty = [];
    get = lookup;
    set = λ m i v. (i, v) ∷ without m i;
    entries = λ m. m;
    lookup-entries = λ m j. refl;
    del = without;
    get-empty = λ j. refl;
    get-set = lookup-with;
    get-del = lookup-without;
  }
