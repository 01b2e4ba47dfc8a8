-- ===== src/Samples/Processes.antt =====
-- The functions that the provider of process filters calls, over small tables.
use pcap_sidecar.Common.{
  ◌≡◌, refl, String, not, ◌&&◌, none, List, [], ◌∷◌, arith, contains, string_eq, nat_eq, ◌==◌,
  if◌then◌else◌, Bool-cases, inl, inr, ap,
}
use pcap_sidecar.Processes.Provider.{ProcessLibs}
use pcap_sidecar.Samples.Sets.{list_set}

abbrev pub minus : List String → List String → List String
minus [] ys = []
minus (x ∷ xs) ys = let rest = minus xs ys in if contains x ys then rest else x ∷ rest

pub contains-minus :
    (xs ys : List String) (j : String)
    → contains j (minus xs ys) ≡ (contains j xs && not (contains j ys))
contains-minus [] ys j = refl
contains-minus (x ∷ xs) ys j = elim (Bool-cases (j == x)) [
  | inl h ↦
      ground
        (arith, h, contains-minus xs ys j, ap (λ k. contains k ys) ((string_eq.same_iff j x).0 h))
  | inr h ↦ ground (arith, h, contains-minus xs ys j)
]

abbrev pub process_libs : ProcessLibs
process_libs = record {
  texts = list_set;
  difference = minus;
  contains_one-difference = contains-minus;
  itoa = λ n. if n == 7 then "7" else "3";
  unmarshal = λ line. none;
}
