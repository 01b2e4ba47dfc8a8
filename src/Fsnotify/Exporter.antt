-- ===== src/Fsnotify/Exporter.antt =====
-- One export of a capture file: pcap-fsnotify/internal/gcs. The disk, the bucket and the network are
-- the environment; what they answer is an argument.
pub mod Laws
use Prim.Native.String.{◌++◌ as concat}
use pcap_sidecar.Common.{
  ℕ, String, Bool, true, false, Option, none, some, List, [], ◌∷◌, ◌++◌, length, take,
  if◌then◌else◌,
}

-- The source file, if it is there, and what was written to the target.
pub record Files : Type 0 where
  pub source : Option (List ℕ)
  pub target : List ℕ

-- What the environment does in one call of `export`: the open may fail; the copy may stop with an
-- error after some bytes; the removal may fail; and of what the writer makes only the first bytes may
-- arrive in the target, with no error to see: those of `Flush` and `Close` of the compressing writer,
-- which are deferred, are dropped, and `Write` of the bucket may return nil all the same.
pub record Attempt : Type 0 where
  pub open_fails : Bool
  pub copy_stops_at : Option ℕ
  pub remove_fails : Bool
  pub arrives : Option ℕ

pub data Outcome : Type 0 where
  exported : (bytes : ℕ) → Outcome
  failed : (bytes : ℕ) → Outcome

-- The path of the target: `toTargetPcapFile`, over `filepath.Join`.
unfoldable pub to_target_pcap_file : (String → String → String) → String → String → Bool → String
to_target_pcap_file join directory src_pcap_file compress =
    let tgt_pcap_file = join directory src_pcap_file in
    if compress then concat tgt_pcap_file ".gz" else tgt_pcap_file

-- What arrives in the target.
abbrev pub arrived : Attempt → List ℕ → List ℕ
arrived a output = elim a.arrives [ none ↦ output | some n ↦ take n output ]

abbrev pub bytes_of : Outcome → ℕ
bytes_of (exported n) = n
bytes_of (failed n) = n

abbrev pub unless_exported : Outcome × Files → (Files → Outcome × Files) → Outcome × Files
unless_exported (exported n, s) again = (exported n, s)
unless_exported (failed n, s) again = again s

-- The code that a compressing writer makes of the bytes that go through it; `compress/gzip`.
module _ (gzip : List ℕ → List ℕ) where
  abbrev pub encode : Bool → List ℕ → List ℕ
  encode compress bytes = if compress then gzip bytes else bytes

  -- The end of `export`: the source is removed if that was asked for and works; a failure to remove
  -- it is logged only.
  unfoldable pub remove_source : Bool → Attempt → Files → Files
  remove_source delete a s =
      if delete then (if a.remove_fails then s else record s { source = none }) else s

  -- `io.Copy` into the writer, the removal of the source, and then the deferred end of the writer.
  unfoldable pub copy_source : Bool → Bool → Attempt → List ℕ → Files → Outcome × Files
  unfolding remove_source
  copy_source compress delete a bytes s = elim a.copy_stops_at [
    | some n ↦ (
      failed (length (take n bytes)),
      record s { target = s.target ++ arrived a (encode compress (take n bytes)) },
    )
    | none ↦
        let removed = remove_source delete a s in
        (
          exported (length bytes),
          record removed { target = removed.target ++ arrived a (encode compress bytes) },
        )
  ]

  -- `export`
  unfoldable pub export : Bool → Bool → Attempt → Files → Outcome × Files
  export compress delete a s = elim s.source [
    | none ↦ (failed 0, s)
    | some bytes ↦ if a.open_fails then (failed 0, s) else copy_source compress delete a bytes s
  ]

  -- `retry.DoWithData`: `export` is called again until it succeeds or the library gives up, which
  -- the environment decides by the list of the attempts that are made. Giving up returns 0 bytes.
  unfoldable pub export_retrying : Bool → Bool → List Attempt → Files → Outcome × Files
  export_retrying compress delete [] s = (failed 0, s)
  export_retrying compress delete (a ∷ attempts) s =
      unless_exported (export compress delete a s) (export_retrying compress delete attempts)

  -- `fuseExporter.Export`: the bytes, and whether an error is returned. The error of the retries is
  -- assigned and not returned, as in the source.
  unfoldable pub fuse_export : Bool → Bool → Bool → List Attempt → Files → (ℕ × Bool) × Files
  fuse_export create_fails compress delete attempts s =
      let (outcome, s') = export_retrying compress delete attempts s in
      if create_fails then ((0, true), s) else ((bytes_of outcome, false), s')

  -- `libraryExporter.Export`: the error of `Close` takes the place of that of `export`.
  unfoldable pub library_export : Bool → Bool → Bool → Attempt → Files → (ℕ × Bool) × Files
  library_export close_fails compress delete a s =
      let (outcome, s') = export compress delete a s in ((bytes_of outcome, close_fails), s')

  -- `nilExporter.Export` touches nothing and returns its error.
  unfoldable pub nil_export : Files → (ℕ × Bool) × Files
  nil_export s = ((0, true), s)
