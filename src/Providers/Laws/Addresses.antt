-- ===== src/Providers/Laws/Addresses.antt =====
-- The addresses of the configuration and the in-process filters.
use pcap_sidecar.Common.{
  ◌≡◌, ◌≢◌, refl, sym, ap, ◌∙◌, String, true, false, ◌&&◌, List, [], ◌∷◌, ◌++◌, arith, nat_eq,
  string_eq, ◌==◌, fold, Bool-cases, Option-cases, inl, inr,
}
use pcap_sidecar.Filters.Libs.{FilterLibs}
use pcap_sidecar.Filters.Config.{PcapFilters}
use pcap_sidecar.Providers.Texts.{TextLibs, set_of, split}
use Prim.Native.String.{◌++◌ as concat}
use pcap_sidecar.Providers.Addresses.{
  Found, add_net, add_ip_or_net, get_ips_and_nets, hosts_to_ips, drop_ips, ip_get, append_ips,
}

append-cons : (xs : List String) (y : String) (ys : List String) → xs ++ y ∷ ys ≢ []
append-cons [] y ys e = cc
append-cons (x ∷ xs) y ys e = cc

module _ {L : FilterLibs} (T : TextLibs) where
  add_ip_or_net-no_nets :
      (s : Found L) (e : String)
      → (add_ip_or_net T s e).nets ≡ []
      → (s.nets ≡ []) × ((add_ip_or_net T s e).filters ≡ s.filters)
  unfolding add_ip_or_net add_net
  add_ip_or_net-no_nets s e h = elim (Option-cases (L.parse_prefix e)) [
    | inl n ↦ ground (arith, h, n, append-cons s.nets "0.0.0.0/0" ("::/0" ∷ []))
    | inr (p, n) ↦ ground (
      arith,
      h,
      n,
      append-cons s.nets "0.0.0.0/0" ("::/0" ∷ []),
      append-cons s.nets (T.prefix_string p) [],
    )
  ]

  fold-no_nets :
      (entries : List String) (s : Found L)
      → (fold (add_ip_or_net T) s entries).nets ≡ []
      → (s.nets ≡ []) × ((fold (add_ip_or_net T) s entries).filters ≡ s.filters)
  fold-no_nets [] s h = (h, refl)
  fold-no_nets (e ∷ entries) s h =
      let rest = fold-no_nets entries (add_ip_or_net T s e) h in
      let here = add_ip_or_net-no_nets s e rest.0 in (here.0, rest.1 ∙ here.1)

  unfoldable found_none : PcapFilters L → Found L
  found_none f = record { filters = f; ips = []; nets = [] }

  get_ips_and_nets-given :
      (raw4 raw6 : String) (f : PcapFilters L)
      → (raw4 == "" && raw6 == "") ≡ false
      → get_ips_and_nets T raw4 raw6 f
        ≡ fold (add_ip_or_net T) (found_none f) (split (concat raw4 (concat "," raw6)))
  unfolding get_ips_and_nets found_none
  get_ips_and_nets-given raw4 raw6 f e = rw e refl

  get_ips_and_nets-unset :
      (raw4 raw6 : String) (f : PcapFilters L)
      → (raw4 == "" && raw6 == "") ≡ true
      → get_ips_and_nets T raw4 raw6 f ≡ found_none f
  unfolding get_ips_and_nets found_none
  get_ips_and_nets-unset raw4 raw6 f e = rw e refl

  filters-found_none : (f : PcapFilters L) → (found_none f).filters ≡ f
  unfolding found_none
  filters-found_none f = refl

  get_ips_and_nets-no_nets :
      (raw4 raw6 : String) (f : PcapFilters L)
      → (get_ips_and_nets T raw4 raw6 f).nets ≡ []
      → (get_ips_and_nets T raw4 raw6 f).filters ≡ f
  get_ips_and_nets-no_nets raw4 raw6 f h = elim (Bool-cases (raw4 == "" && raw6 == "")) [
    | inl e ↦
        ap (λ (s : Found L). s.filters) (get_ips_and_nets-unset raw4 raw6 f e)
        ∙ filters-found_none f
    | inr e ↦
        let given = get_ips_and_nets-given raw4 raw6 f e in
        ap (λ (s : Found L). s.filters) given
        ∙ (fold-no_nets (split (concat raw4 (concat "," raw6))) (found_none f)
            (sym (ap (λ (s : Found L). s.nets) given) ∙ h)).1
        ∙ filters-found_none f
  ]

  abbrev start_ips : String → String → String → PcapFilters L → PcapFilters L × T.texts.Carrier
  start_ips raw4 raw6 dns f =
      let found = get_ips_and_nets T raw4 raw6 f in
      let (f', hosts) = hosts_to_ips T dns found.filters in
      (f', append_ips T (set_of T found.ips) hosts)

  ip_get-filters :
      (raw4 raw6 dns : String) (f : PcapFilters L)
      → (raw4 == "" && raw6 == "" && dns == "") ≡ false
      → (ip_get T raw4 raw6 dns f).0
        ≡ (drop_ips T (get_ips_and_nets T raw4 raw6 f).nets (start_ips raw4 raw6 dns f)).0
  unfolding ip_get
  ip_get-filters raw4 raw6 dns f e = rw e refl

  filters-ip_get_unset :
      (raw4 raw6 dns : String) (f : PcapFilters L)
      → (raw4 == "" && raw6 == "" && dns == "") ≡ true
      → (ip_get T raw4 raw6 dns f).0 ≡ f
  unfolding ip_get
  filters-ip_get_unset raw4 raw6 dns f e = rw e refl

  drop_ips-nil : (s : PcapFilters L × T.texts.Carrier) → drop_ips T [] s ≡ s
  unfolding drop_ips
  drop_ips-nil s = refl

  hosts_to_ips-nil : (f : PcapFilters L) → (hosts_to_ips T "" f).0 ≡ f
  unfolding hosts_to_ips
  hosts_to_ips-nil f = refl

  -- Without a network and without host names, the provider of addresses leaves the in-process filters
  -- as they are, whatever addresses the configuration names.
  pub ip_get-no_nets :
      (raw4 raw6 : String) (f : PcapFilters L)
      → (get_ips_and_nets T raw4 raw6 f).nets ≡ []
      → (ip_get T raw4 raw6 "" f).0 ≡ f
  ip_get-no_nets raw4 raw6 f h = elim (Bool-cases (raw4 == "" && raw6 == "" && true)) [
    | inl e ↦ filters-ip_get_unset raw4 raw6 "" f e
    | inr e ↦
        ip_get-filters raw4 raw6 "" f e
        ∙ ap (λ ns. (drop_ips T ns (start_ips raw4 raw6 "" f)).0) h
        ∙ ap (λ (s : PcapFilters L × T.texts.Carrier). s.0) (drop_ips-nil _)
        ∙ hosts_to_ips-nil _
        ∙ get_ips_and_nets-no_nets raw4 raw6 f h
  ]
