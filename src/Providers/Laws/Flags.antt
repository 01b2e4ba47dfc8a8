-- ===== src/Providers/Laws/Flags.antt =====
-- The entries that stay in the expression of the TCP flags.
use pcap_sidecar.Common.{
  ◌≡◌, refl, ◌∙◌, String, false, List, [], ◌∷◌, arith, nat_eq, string_eq, ◌==◌, fold,
}
use pcap_sidecar.Common.Members.{is_member, contains_one-set_of}
use pcap_sidecar.Filters.Libs.{FilterLibs}
use pcap_sidecar.Filters.Config.{PcapFilters}
use pcap_sidecar.Providers.Texts.{TextLibs, set_of}
use pcap_sidecar.Providers.Ports.{FlagsState, flag_each, flags_each}

module _ {L : FilterLibs} (T : TextLibs) (x : String)
    (no_upper : (y : String) → (x == T.to_upper y) ≡ false) where
  flag_each-kept :
      (s : FlagsState L T) (e : String)
      → T.texts.contains_one (flag_each T s e).flags_set x ≡ T.texts.contains_one s.flags_set x
  unfolding flag_each
  flag_each-kept s e =
      ground (arith, T.texts.contains_one-del s.flags_set (T.to_upper e) x, no_upper e)

  fold-kept :
      (entries : List String) (s : FlagsState L T)
      → T.texts.contains_one (fold (flag_each T) s entries).flags_set x
        ≡ T.texts.contains_one s.flags_set x
  fold-kept [] s = refl
  fold-kept (e ∷ entries) s = fold-kept entries (flag_each T s e) ∙ flag_each-kept s e

  -- An entry that is the upper case of no text stays in the expression, whether it names a flag or
  -- not, since the names that are no flags are removed in upper case only.
  pub flags_each-kept :
      (flags : List String) (f : PcapFilters L)
      → T.texts.contains_one (flags_each T flags f).flags_set x ≡ is_member x flags
  unfolding flags_each
  flags_each-kept flags f =
      fold-kept (T.texts.to_slice (set_of T flags)) _ ∙ contains_one-set_of T.texts flags x
