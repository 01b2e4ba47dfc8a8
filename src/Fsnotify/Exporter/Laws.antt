-- ===== src/Fsnotify/Exporter/Laws.antt =====
-- When a source file is removed, and what the target holds after retries.
use mathlib.Core.List.{append_assoc, append-nil}
use pcap_sidecar.Common.{
  ℕ, ◌≡◌, refl, sym, ap, ◌∙◌, Bool, true, false, none, some, List, [], ◌∷◌, ◌++◌, length, take,
  arith, if◌then◌else◌,
}
use pcap_sidecar.Fsnotify.Exporter.{
  Files, Attempt, Outcome, exported, failed, encode, arrived, remove_source, copy_source, export,
  export_retrying, fuse_export, library_export, unless_exported, bytes_of,
}

-- The attempt fails on a source that is there.
abbrev pub fails : Attempt → Bool
fails a = if a.open_fails then true else elim a.copy_stops_at [ some n ↦ true | none ↦ false ]

abbrev pub AllFail : List Attempt → Type 0
AllFail [] = Unit {0}
AllFail (a ∷ rest) = (fails a ≡ true) × AllFail rest

abbrev pub with_source : List ℕ → List ℕ → Files
with_source bytes target = record { source = some bytes; target = target }

module _ (gzip : List ℕ → List ℕ) (compress delete : Bool) where
  -- The source is gone only if its removal was asked for and all of its bytes went into the writer,
  -- and then the export reports their number, and the target has got what arrives of the writer's
  -- output: all of it where the deferred end of the writer and the upload lose nothing.
  pub export_removes :
      (a : Attempt) (s : Files) (bytes : List ℕ)
      → s.source ≡ some bytes
      → (export gzip compress delete a s).1.source ≡ none
      → ((export gzip compress delete a s).0 ≡ exported (length bytes))
        × ((export gzip compress delete a s).1.target
            ≡ s.target ++ arrived a (encode gzip compress bytes))
        × (delete ≡ true)
  unfolding export copy_source
  export_removes a s bytes here gone = (ground arith, ground arith, ground arith)

-- What a failing attempt adds to the target, and the bytes that it counts.
module _ (gzip : List ℕ → List ℕ) (compress : Bool) (bytes : List ℕ) where
  abbrev pub partial : Attempt → List ℕ
  partial a = if a.open_fails then [] else elim a.copy_stops_at [
    | some n ↦ arrived a (encode gzip compress (take n bytes))
    | none ↦ []
  ]

  abbrev pub partials : List Attempt → List ℕ
  partials [] = []
  partials (a ∷ rest) = partial a ++ partials rest

  abbrev counted : Attempt → ℕ
  counted a =
      if a.open_fails then 0 else elim a.copy_stops_at [ some n ↦ length (take n bytes) | none ↦ 0 ]

module _ (gzip : List ℕ → List ℕ) (compress delete : Bool) (bytes : List ℕ) where
  export_failing :
      (a : Attempt) (target : List ℕ)
      → fails a ≡ true
      → export gzip compress delete a (with_source bytes target) ≡ (
        failed (counted gzip compress bytes a),
        with_source bytes (target ++ partial gzip compress bytes a),
      )
  unfolding export copy_source
  export_failing a target f = ground (arith, append-nil target)

  retrying_failing :
      (attempts rest : List Attempt) (target : List ℕ)
      → AllFail attempts
      → export_retrying gzip compress delete (attempts ++ rest) (with_source bytes target)
        ≡ export_retrying gzip compress delete rest
            (with_source bytes (target ++ partials gzip compress bytes attempts))
  unfolding export_retrying
  retrying_failing [] rest target f = rw append-nil
  retrying_failing (a ∷ attempts) rest target f =
      ap (λ r. unless_exported r (export_retrying gzip compress delete (attempts ++ rest)))
        (export_failing a target f.0)
      ∙ retrying_failing attempts rest (target ++ partial gzip compress bytes a) f.1
      ∙ ap (λ t. export_retrying gzip compress delete rest (with_source bytes t))
          (append_assoc target _ _)

  export_succeeding :
      (a : Attempt) (target : List ℕ)
      → fails a ≡ false
      → export gzip compress delete a (with_source bytes target) ≡ (
        exported (length bytes),
        record (remove_source gzip delete a (with_source bytes target)) {
          target =
              (remove_source gzip delete a (with_source bytes target)).target
              ++ arrived a (encode gzip compress bytes);
        },
      )
  unfolding export copy_source
  export_succeeding a target ok = ground arith

  target-remove_source :
      (a : Attempt) (s : Files) → (remove_source gzip delete a s).target ≡ s.target
  unfolding remove_source
  target-remove_source a s = ground arith

  -- The attempt that succeeds adds what arrives of the whole file's output, all of it where no write
  -- is lost, behind what arrived of the failed ones: the target starts with every partial copy.
  pub fuse_export_retried :
      (attempts rest : List Attempt) (a : Attempt) (target : List ℕ)
      → AllFail attempts
      → fails a ≡ false
      → (fuse_export gzip false compress delete
          (attempts ++ a ∷ rest)
          (with_source bytes target)).1.target
        ≡ (target ++ partials gzip compress bytes attempts)
          ++ arrived a (encode gzip compress bytes)
  unfolding fuse_export export_retrying
  fuse_export_retried attempts rest a target f ok =
      ap (λ (r : Outcome × Files). r.1.target) (retrying_failing attempts (a ∷ rest) target f)
      ∙ ap
          (λ (r : Outcome × Files).
            (unless_exported r (export_retrying gzip compress delete rest)).1.target)
          (export_succeeding a (target ++ partials gzip compress bytes attempts) ok)
      ∙ ap (λ t. t ++ arrived a (encode gzip compress bytes))
          (target-remove_source a
            (with_source bytes (target ++ partials gzip compress bytes attempts)))

  -- When every attempt fails, the source stays and no error is returned all the same.
  pub fuse_export_gives_up :
      (attempts : List Attempt) (target : List ℕ)
      → AllFail attempts
      → fuse_export gzip false compress delete attempts (with_source bytes target)
        ≡ ((0, false), with_source bytes (target ++ partials gzip compress bytes attempts))
  unfolding fuse_export export_retrying
  fuse_export_gives_up attempts target f =
      ap (λ (r : Outcome × Files). ((bytes_of r.0, false), r.1))
        (ap (λ l. export_retrying gzip compress delete l (with_source bytes target))
            (sym (append-nil attempts))
          ∙ retrying_failing attempts [] target f)

  -- An upload whose last step fails returns its error, and by then the source file is removed.
  pub library_export_loses :
      (a : Attempt) (target : List ℕ)
      → fails a ≡ false
      → a.remove_fails ≡ false
      → delete ≡ true
      → ((library_export gzip true compress delete a (with_source bytes target)).0.1 ≡ true)
        × ((library_export gzip true compress delete a (with_source bytes target)).1.source ≡ none)
  unfolding library_export export copy_source
  library_export_loses a target ok removed asked = (refl, ground arith)

  -- An upload whose copy fails and whose last step does not returns no error, with the source kept.
  pub library_export_hides :
      (a : Attempt) (target : List ℕ)
      → fails a ≡ true
      → ((library_export gzip false compress delete a (with_source bytes target)).0.1 ≡ false)
        × ((library_export gzip false compress delete a (with_source bytes target)).1.source
            ≡ some bytes)
  unfolding library_export
  library_export_hides a target f = (refl, rw (export_failing a target f))
