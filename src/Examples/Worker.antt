-- ===== src/Examples/Worker.antt =====
-- The worker on a packet of two layers, with translations as sums.
use pcap_sidecar.Common.{
  ℕ, ◌+◌, ◌*◌, ◌≡◌, refl, true, false, Option, none, some, [], ◌∷◌, nat_eq, ◌==◌, if◌then◌else◌,
}
use pcap_sidecar.Filters.Config.{PcapFilters}
use pcap_sidecar.Filters.Worker.{Packet, is_translated}
use pcap_sidecar.Samples.Libs.{sample_libs}
use pcap_sidecar.Transformer.Worker.{TranslatorLibs, made, translate_layer, merge_layers, run}

abbrev sums : TranslatorLibs
sums = record {
  T = ℕ;
  next = some 1;
  merge = λ a b. a + b;
  finalize = λ t. some (t * 2);
  translators = λ layer. if layer == 4 then some (made 10) else none;
  unavailable_error = λ layer. 100;
  panic_error = λ layer. 200;
  unimplemented_error = λ layer. 300;
}

abbrev no_filters : Option (PcapFilters sample_libs)
no_filters = none

abbrev packet : Packet
packet = record { ipv4 = none; ipv6 = none; tcp = none; udp = none }

-- Type 4 has a function, 5 is skipped, and 6 is neither.
test_run :
    (run sums no_filters packet false false (5 ∷ []) (4 ∷ 5 ∷ 6 ∷ []) ≡ some 622)
    × (run sums no_filters packet false true (5 ∷ []) (4 ∷ []) ≡ some 11)
    × (run sums no_filters packet true true (5 ∷ []) (4 ∷ []) ≡ none)
unfolding run merge_layers translate_layer is_translated
test_run = (refl, refl, refl)
