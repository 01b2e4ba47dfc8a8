-- ===== src/Engines/Starts.antt =====
-- What `Start` of the engine on libpcap captures, and when the engine cannot be started again.
use pcap_sidecar.Common.{
  ℕ, ◌+◌, ◌%◌, ◌^◌, ◌≡◌, refl, ap, String, Bool, true, false, not, ◌&&◌, ◌||◌, Option, some, List,
  [], ◌∷◌, ◌++◌, map, arith, string_eq, nat_eq, ◌==◌, Bool-cases, inl, inr,
}
use pcap_sidecar.Providers.Apply.{Provider}
use pcap_sidecar.Engines.Gopacket.{
  Calls, StartError, already_started, no_handle, bpf_filter_error, invalid_format, stopped,
  Received, ctx_done, next_packet, new_pcap, capture, with_first, Pcap, bpf_filter, start,
}

module _ {Packet : Type 0} where
  -- The packets with the serial numbers from `n` on.
  abbrev pub numbered : ℕ → List Packet → List (ℕ × Packet)
  numbered n [] = []
  numbered n (packet ∷ packets) = (n % 2 ^ 64, packet) ∷ numbered (n + 1) packets

  capture-numbered :
      (n : ℕ) (packets : List Packet) (rest : List (Received Packet))
      → capture (n % 2 ^ 64) (map next_packet packets ++ ctx_done ∷ rest)
        ≡ some (numbered (n + 1) packets)
  unfolding capture
  capture-numbered n [] rest = refl
  capture-numbered n (packet ∷ packets) rest =
      let next : (n % 2 ^ 64 + 1) % 2 ^ 64 ≡ (n + 1) % 2 ^ 64 = omega arith in
      rw (next, capture-numbered (n + 1) packets rest)
        (ap (λ serial. some ((serial, packet) ∷ numbered (n + 1 + 1) packets)) next)

module _ {F : Type 0} (equal_fold : String → String → Bool)
    (providers : List (Option (Provider F))) where
  -- Whether libpcap accepts the BPF expression, if there is one.
  abbrev pub accepts_filter : Calls → Bool → Pcap F → Bool
  accepts_filter calls done p =
      let filter = (bpf_filter equal_fold providers done p.config p.filters).1 in
      filter == "" || calls.set_bpf_filter filter

module _ {F Packet : Type 0} (equal_fold : String → String → Bool)
    (providers : List (Option (Provider F))) where
  -- The capture of an engine that is not active, when all the calls succeed, and packets arrive until
  -- the context is done: `Start` returns, it has applied the transformer to every packet in order, the
  -- one before the loop with the serial number 0 and those of the loop with the numbers from 1 on
  -- (modulo 2 ^ 64), and the engine is not active after it.
  pub start-numbered :
      (calls : Calls) (done : Bool) (first : Option Packet) (packets : List Packet)
      (rest : List (Received Packet)) (p : Pcap F)
      → p.is_active ≡ false
      → new_pcap p.config calls ≡ true
      → calls.activate ≡ true
      → accepts_filter equal_fold providers calls done p ≡ true
      → calls.new_transformer ≡ true
      → (p' : Pcap F) × (start equal_fold providers calls done first
            (map next_packet packets ++ ctx_done ∷ rest)
            p
          ≡ some (stopped, with_first first (numbered 1 packets), p'))
        × (p'.is_active ≡ false)
  unfolding start
  start-numbered calls done first packets rest p a n h f t =
      let filter = (bpf_filter equal_fold providers done p.config p.filters).1 in
      let kept : (not (filter == "") && not (calls.set_bpf_filter filter)) ≡ false =
        ground (arith, f) in
      (
        record p {
          is_active = false;
          filters = (bpf_filter equal_fold providers done p.config p.filters).0;
        },
        rw (start, a, n, h, kept, t, capture-numbered 0 packets rest) refl,
        refl,
      )

  -- An engine that is not active, and whose `Start` gets no handle, or gets an active one but is
  -- refused its BPF expression or its transformer: that `Start` returns an error and applies the
  -- transformer to no packet, and each later one returns that the engine is already started.
  pub start-stuck :
      (calls : Calls) (done : Bool) (first : Option Packet) (events : List (Received Packet))
      (p : Pcap F)
      → p.is_active ≡ false
      → (new_pcap p.config calls
          && (not calls.activate
              || (accepts_filter equal_fold providers calls done p && calls.new_transformer)))
        ≡ false
      → (error : StartError) × (p' : Pcap F) × (start equal_fold providers calls done first events p
          ≡ some (error, [], p'))
        × ((calls' : Calls) (done' : Bool) (first' : Option Packet)
              (events' : List (Received Packet))
            → start equal_fold providers calls' done' first' events' p'
              ≡ some (already_started, [], p'))
  unfolding start
  start-stuck calls done first events p a r =
      let filter = (bpf_filter equal_fold providers done p.config p.filters).1 in
      let filters = (bpf_filter equal_fold providers done p.config p.filters).0 in
      let stuck : (p' : Pcap F)
          → p'.is_active ≡ true
          → (calls' : Calls) (done' : Bool) (first' : Option Packet)
            (events' : List (Received Packet))
          → start equal_fold providers calls' done' first' events' p'
            ≡ some (already_started, [], p') =
        λ p' h calls' done' first' events'. rw (start, h) refl in
      elim (Bool-cases (new_pcap p.config calls)) [
        | inr n ↦ (no_handle, record p { is_active = true }, rw (start, a, n) refl, stuck _ refl)
        | inl n ↦
            let h : calls.activate ≡ true = ground (arith, r, n) in
            elim (Bool-cases (not (filter == "") && not (calls.set_bpf_filter filter))) [
              | inl f ↦ (
                bpf_filter_error,
                record p { is_active = true; filters = filters },
                rw (start, a, n, h, f) refl,
                stuck _ refl,
              )
              | inr f ↦
                  let t : calls.new_transformer ≡ false = ground (arith, r, n, h, f) in
                  (
                    invalid_format,
                    record p { is_active = true; filters = filters },
                    rw (start, a, n, h, f, t) refl,
                    stuck _ refl,
                  )
            ]
      ]
