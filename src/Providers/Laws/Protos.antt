-- ===== src/Providers/Laws/Protos.antt =====
-- The protocols that reach the in-process filters.
use pcap_sidecar.Common.{
  ℕ, ◌≡◌, refl, ap, ◌∙◌, String, Bool, false, ◌||◌, Option, none, some, List, [], ◌∷◌, arith,
  nat_eq, string_eq, ◌==◌, fold, any, Option-cases, inl, inr,
}
use pcap_sidecar.Filters.Libs.{FilterLibs}
use pcap_sidecar.Filters.Config.{PcapFilters, add_l3_proto, add_l4_proto}
use pcap_sidecar.Providers.Texts.{TextLibs, split, is_blank, is_any}
use pcap_sidecar.Providers.Protos.{
  Proto, l3_proto, l4_proto, add_proto, protos_get, protos_text, l3_proto_get, l4_proto_get,
  l3_proto_default_filter, l4_proto_default_filter,
}

abbrev pub is_number : ℕ → Option ℕ → Bool
is_number n none = false
is_number n (some m) = n == m

-- The name stands for the protocol number.
abbrev pub names_number : (String → Option Proto) → ℕ → String → Bool
names_number proto_of n name = elim (proto_of name) [
  | none ↦ false
  | some proto ↦ is_number n proto.number
]

filters-protos_text :
    {L : FilterLibs} (T : TextLibs) (default_filter : String) (s : PcapFilters L × T.texts.Carrier)
    → (protos_text T default_filter s).0 ≡ s.0
unfolding protos_text
filters-protos_text T default_filter (f, protos) = ground arith

module _ {L : FilterLibs} (T : TextLibs) (proto_of : String → Option Proto)
    (add : PcapFilters L → ℕ → PcapFilters L) (protos : PcapFilters L → L.sets.Carrier)
    (add_lem : (f : PcapFilters L) (n : ℕ) → protos (add f n) ≡ L.sets.add (protos f) n) where
  number-step :
      (r : Option Proto) (f : PcapFilters L) (n : ℕ)
      → L.sets.contains_one
          (protos (elim r [ none ↦ f | some p ↦ elim p.number [ none ↦ f | some m ↦ add f m ] ]))
          n
        ≡ (elim r [ none ↦ false | some p ↦ is_number n p.number ]
            || L.sets.contains_one (protos f) n)
  number-step none f n = refl
  number-step (some p) f n = elim (Option-cases p.number) [
    | inl d ↦ rw d refl
    | inr (m, d) ↦
        rw d
          (ap (λ c. L.sets.contains_one c n) (add_lem f m) ∙ L.sets.contains_one-add (protos f) m n)
  ]

  filters-add_proto :
      (r : Option Proto) (f : PcapFilters L) (s : T.texts.Carrier) (name : String)
      → proto_of name ≡ r
      → (add_proto T proto_of add (f, s) name).0
        ≡ elim r [ none ↦ f | some p ↦ elim p.number [ none ↦ f | some m ↦ add f m ] ]
  unfolding add_proto
  filters-add_proto none f s name e = rw (add_proto, e) refl
  filters-add_proto (some p) f s name e = rw (add_proto, e) refl

  add_proto-number :
      (f : PcapFilters L) (s : T.texts.Carrier) (name : String) (n : ℕ)
      → L.sets.contains_one (protos (add_proto T proto_of add (f, s) name).0) n
        ≡ (names_number proto_of n name || L.sets.contains_one (protos f) n)
  add_proto-number f s name n =
      ap (λ g. L.sets.contains_one (protos g) n) (filters-add_proto (proto_of name) f s name refl)
      ∙ number-step (proto_of name) f n

  fold-number :
      (names : List String) (s : PcapFilters L × T.texts.Carrier) (n : ℕ)
      → L.sets.contains_one (protos (fold (add_proto T proto_of add) s names).0) n
        ≡ (any (names_number proto_of n) names || L.sets.contains_one (protos s.0) n)
  fold-number [] s n = refl
  fold-number (name ∷ names) (f, s) n =
      fold-number names (add_proto T proto_of add (f, s) name) n
      ∙ ground (arith, add_proto-number f s name n)

  protos_get-number :
      (default_filter raw : String) (f : PcapFilters L) (n : ℕ)
      → is_blank (split raw) ≡ false
      → L.sets.contains_one (protos (protos_get T default_filter proto_of add raw f).0) n
        ≡ (any (names_number proto_of n) (split raw) || L.sets.contains_one (protos f) n)
  unfolding protos_get protos_text
  protos_get-number default_filter raw f n b = rw b (
      ap (λ g. L.sets.contains_one (protos g) n) (filters-protos_text T default_filter _)
      ∙ fold-number (split raw) (f, T.texts.empty) n)

module _ {L : FilterLibs} (T : TextLibs) where
  -- For a text with names that is not one of the defaults, exactly the protocol numbers that its
  -- names stand for are added to the layer 3 filters.
  pub l3_proto_get-numbers :
      (raw : String) (f : PcapFilters L) (n : ℕ)
      → (raw == "" || is_any T raw || T.equal_fold raw l3_proto_default_filter) ≡ false
      → is_blank (split raw) ≡ false
      → L.sets.contains_one (l3_proto_get T raw f).0.l3.protos n
        ≡ (any (names_number l3_proto n) (split raw) || L.sets.contains_one f.l3.protos n)
  unfolding l3_proto_get add_l3_proto
  l3_proto_get-numbers raw f n d b = rw d (
      protos_get-number T l3_proto add_l3_proto (λ g. g.l3.protos) (λ g m. refl)
        l3_proto_default_filter raw f n b)

  -- For a text with names that is not one of the defaults, exactly the protocol numbers that its
  -- names stand for are added to the layer 4 filters.
  pub l4_proto_get-numbers :
      (raw : String) (f : PcapFilters L) (n : ℕ)
      → (raw == ""
          || raw == "23"
          || raw == "0x17"
          || is_any T raw
          || T.equal_fold raw l4_proto_default_filter)
        ≡ false
      → is_blank (split raw) ≡ false
      → L.sets.contains_one (l4_proto_get T raw f).0.l4.protos n
        ≡ (any (names_number l4_proto n) (split raw) || L.sets.contains_one f.l4.protos n)
  unfolding l4_proto_get add_l4_proto
  l4_proto_get-numbers raw f n d b = rw d (
      protos_get-number T l4_proto add_l4_proto (λ g. g.l4.protos) (λ g m. refl)
        l4_proto_default_filter raw f n b)
