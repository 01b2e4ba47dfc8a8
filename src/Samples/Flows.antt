-- ===== src/Samples/Flows.antt =====
-- `skipmap.Uint32Map` as a list that is sorted when it is visited, and the maps of the flow mutex.
use pcap_sidecar.Common.{
  holds_if, ap, ◌∙◌, none, ℕ, ◌<◌, ◌≡◌, refl, subst, sym, ltb→lt, String, some, List, [], ◌∷◌,
  arith, ltb, nat_eq, string_eq, ◌==◌, if◌then◌else◌,
}
use pcap_sidecar.Common.Maps.{lookup}
use pcap_sidecar.Flows.Libs.{SkipMapApi, FlowLibs, IsAscending, IsSorted}
use pcap_sidecar.Samples.Maps.{list_map, without, lookup-without}

module _ {V : Type 0} where
  unfoldable pub insert : List (ℕ × V) → ℕ → V → List (ℕ × V)
  insert [] k v = (k, v) ∷ []
  insert ((j, w) ∷ m) k v =
      let rest = insert m k v in
      if ltb k j then (k, v) ∷ (j, w) ∷ m else if k == j then (k, v) ∷ m else (j, w) ∷ rest

  pub lookup-insert :
      (m : List (ℕ × V)) (k : ℕ) (v : V) (j : ℕ)
      → lookup (insert m k v) j ≡ (if k == j then some v else lookup m j)
  unfolding insert
  lookup-insert [] k v j = refl
  lookup-insert ((i, w) ∷ m) k v j = ground (arith, lookup-insert m k v j)

  pub insert-IsAscending :
      (low : ℕ) (m : List (ℕ × V)) (k : ℕ) (v : V)
      → IsAscending low m
      → low < k
      → IsAscending low (insert m k v)
  unfolding insert
  insert-IsAscending low [] k v a b = (b, tt)
  insert-IsAscending low ((i, w) ∷ m) k v (l, a) b =
      holds_if (IsAscending low) (ltb k i) _ _ (λ h. (b, (ltb→lt k i h, a)))
        (λ h.
          holds_if (IsAscending low) (k == i) _ _
            (λ e. (b, subst (λ n. IsAscending n m) (sym ((nat_eq.same_iff k i).0 e)) a))
            (λ e. (l, insert-IsAscending i m k v a (ground (arith, h, e)))))

  pub insert-IsSorted : (m : List (ℕ × V)) (k : ℕ) (v : V) → IsSorted m → IsSorted (insert m k v)
  unfolding insert
  insert-IsSorted [] k v a = tt
  insert-IsSorted ((i, w) ∷ m) k v a =
      holds_if IsSorted (ltb k i) _ _ (λ h. (ltb→lt k i h, a))
        (λ h.
          holds_if IsSorted (k == i) _ _
            (λ e. subst (λ n. IsAscending n m) (sym ((nat_eq.same_iff k i).0 e)) a)
            (λ e. insert-IsAscending i m k v a (ground (arith, h, e))))

  abbrev pub sort_items : List (ℕ × V) → List (ℕ × V)
  sort_items [] = []
  sort_items ((k, v) ∷ m) = insert (sort_items m) k v

  pub sort_items-IsSorted : (m : List (ℕ × V)) → IsSorted (sort_items m)
  sort_items-IsSorted [] = tt
  sort_items-IsSorted ((k, v) ∷ m) = insert-IsSorted (sort_items m) k v (sort_items-IsSorted m)

  pub lookup-sort_items : (m : List (ℕ × V)) (j : ℕ) → lookup (sort_items m) j ≡ lookup m j
  lookup-sort_items [] j = refl
  lookup-sort_items ((k, v) ∷ m) j =
      lookup-insert (sort_items m) k v j
      ∙ ap (λ found. if k == j then some v else found) (lookup-sort_items m j)

  abbrev pub skip_map : SkipMapApi V
  skip_map = record {
    Carrier = List (ℕ × V);
    empty = [];
    store = λ m k v. (k, v) ∷ m;
    delete = without;
    items = sort_items;
    items-IsSorted = sort_items-IsSorted;
    lookup-items = λ m k v j. lookup-insert (sort_items m) k v j;
    lookup-delete = λ m k j.
        lookup-sort_items (without m k) j
        ∙ lookup-without m k j
        ∙ ap (λ found. if k == j then none else found) (sym (lookup-sort_items m j));
  }

-- Requests are kept as their methods.
abbrev pub flow_libs : FlowLibs
flow_libs = record {
  Request = String;
  requests = list_map;
  refs = list_map;
  sequences = skip_map;
  streams = list_map;
}
