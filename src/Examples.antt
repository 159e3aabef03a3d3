-- ===== src/Examples.antt =====
-- The theorems on concrete inputs, and runs of the definitions.
use air_vpn_wg_healthcheck.Journal.Versions.{IsRecord}
use air_vpn_wg_healthcheck.Journal.Records.{parse_journal-IsRecord}
use air_vpn_wg_healthcheck.Text.Decimal.{int_text, is_canonical, value}
use air_vpn_wg_healthcheck.Text.Split.{split, split_once}
use air_vpn_wg_healthcheck.Journal.Size.{length-render_journal}
use air_vpn_wg_healthcheck.System.{HealthProofStart, is_same_file}
use air_vpn_wg_healthcheck.Prelude.{
  Option, [], arith, false, length, none, refl, some, true, ℕ, ◌<◌, ◌↔◌, ◌∷◌, ◌≡◌, ◌≤◌,
}
use air_vpn_wg_healthcheck.Result.{err, ok}
use air_vpn_wg_healthcheck.Effect.{World, broken, fail, go, returned, short}
use air_vpn_wg_healthcheck.Effect.Hoare.{Ensures}
use air_vpn_wg_healthcheck.Text.{Text, but_last, codes, count, ends_with, mem_text, text_eq}
use air_vpn_wg_healthcheck.Disk.{Disk, FilePath, Inode, at, directory, health_config, regular}
use air_vpn_wg_healthcheck.Store.Create.{atomic_write, write_all}
use air_vpn_wg_healthcheck.Store.AtomicWrite.{
  IsOldOrNew, IsReplaced, IsWellFormed, atomic_write-IsReplaced,
}
use air_vpn_wg_healthcheck.Store.WriteAll.{file, write_all-returns}
use air_vpn_wg_healthcheck.Journal.{
  SetupJournal, field_order, invalid_record, is_journal_text, journal_of, max_journal_bytes,
  parse_journal, read_bit, read_field, read_fields, read_lines, read_uint, render_journal,
  validate_semantics,
}
use air_vpn_wg_healthcheck.Journal.RoundTrip.{journal_text, read-render}
use air_vpn_wg_healthcheck.Application.{journal_health_proof, rolled_back, verifying_journal}
use air_vpn_wg_healthcheck.Application.Journals.{
  IsProof, rolled_back-renders, verifying_journal-renders,
}

-- A disk with a health configuration, and one write that is cut and one that fails.
abbrev pub sample_file : Inode
sample_file = record {
  kind = regular;
  mode = 0o600;
  uid = 0;
  gid = 0;
  nlink = 1;
  mtime = 0;
  content = codes "A=1\n";
}

abbrev sample_names : FilePath → Option ℕ
sample_names (at health_config) = some 0
sample_names _ = none

abbrev pub sample_disk : Disk
sample_disk = record {
  names = sample_names;
  inodes = λ i. sample_file;
  next_inode = 1;
  directories = λ dir. some (record { kind = directory; mode = 0o700; uid = 0 });
  device = 7;
  euid = 0;
}

sample-IsWellFormed : IsWellFormed sample_disk
sample-IsWellFormed = record { named_below = named }
  where
    named : (p : FilePath) (i : ℕ) → sample_names p ≡ some i → i < 1
    named (at health_config) i h = ground arith
    named _ i h = cc

-- The call that fails is the first write.
abbrev failing_world : World
failing_world = record {
  disk = sample_disk;
  events = go ∷ go ∷ go ∷ go ∷ go ∷ go ∷ go ∷ short 2 ∷ fail broken ∷ [];
}

abbrev pub sample_payload : Text
sample_payload = codes "A=2\n"

atomic_write-IsReplaced_example :
    Ensures
      (λ _. IsReplaced sample_disk health_config 0 sample_payload)
      (IsOldOrNew sample_disk health_config sample_payload)
      (atomic_write health_config sample_payload 0 failing_world)
atomic_write-IsReplaced_example =
    atomic_write-IsReplaced health_config sample_payload 0 failing_world sample-IsWellFormed

abbrev slow_world : World
slow_world = record { disk = sample_disk; events = short 1 ∷ go ∷ [] }

write_all-returns_example :
    (next : World) × (write_all 4 0 sample_payload slow_world ≡ (returned tt, next))
    × (file next 0 ≡ codes "A=1\nA=2\n")
write_all-returns_example = write_all-returns 0 sample_payload slow_world refl

abbrev pub sample_journal : SetupJournal
sample_journal = record {
  operation = codes "api-update";
  phase = codes "verifying";
  had_key = true;
  had_pre_managed = false;
  key_changed = true;
  verify_started = 1_700_000_000;
  status_before_dev = 26;
  status_before_ino = 4242;
}

sample_journal_renders : render_journal sample_journal ≡ ok (journal_text sample_journal)
unfolding render_journal validate_semantics mem_text text_eq
sample_journal_renders = refl

sample_journal_read : parse_journal (journal_text sample_journal) ≡ ok sample_journal
sample_journal_read = read-render sample_journal sample_journal_renders

read-render_example : parse_journal (journal_text sample_journal) ≡ ok sample_journal
read-render_example = read-render sample_journal sample_journal_renders

rolled_back-renders_example :
    (render_journal (rolled_back sample_journal) ≡ ok (journal_text (rolled_back sample_journal)))
    × (parse_journal (journal_text (rolled_back sample_journal)) ≡ ok (rolled_back sample_journal))
rolled_back-renders_example = rolled_back-renders (journal_text sample_journal) sample_journal_read

abbrev sample_proof : HealthProofStart
sample_proof = record { before = some (26, 4242, 5, 90); started = 1_700_000_100 }

sample_proof-IsProof : IsProof sample_proof
sample_proof-IsProof = record {
  started_positive = omega arith;
  started_bounded = omega arith;
  device_bounded = omega arith;
  inode_bounded = omega arith;
  present_positive = λ b e. ground arith;
}

verifying_journal-renders_example :
    (parse_journal (journal_text (verifying_journal sample_journal sample_proof))
      ≡ ok (verifying_journal sample_journal sample_proof))
    × (render_journal (verifying_journal sample_journal sample_proof)
        ≡ ok (journal_text (verifying_journal sample_journal sample_proof)))
    × ((journal_health_proof (verifying_journal sample_journal sample_proof)).started
        ≡ 1_700_000_100)
    × ((after : ℕ × ℕ × ℕ × ℕ)
        → is_same_file
            (journal_health_proof (verifying_journal sample_journal sample_proof)).before
            after
          ≡ is_same_file sample_proof.before after)
verifying_journal-renders_example =
    verifying_journal-renders (journal_text sample_journal) sample_proof sample_journal_read
      sample_proof-IsProof

length-render_journal_example : length (journal_text sample_journal) ≤ max_journal_bytes
length-render_journal_example = length-render_journal sample_journal sample_journal_renders

abbrev legacy_payload : Text
legacy_payload = codes "version=1\noperation=static\nphase=prepared\nhad_key=0\nhad_pre_managed=1\n"

-- A record of version 1 says nothing of the key, which counts as changed; a static operation never
-- changes it, so that the reader refuses the record.
legacy_static_refused : parse_journal legacy_payload ≡ err invalid_record
unfolding parse_journal is_journal_text read_lines field_order read_fields read_field read_bit
    read_uint journal_of validate_semantics split split_once but_last ends_with text_eq mem_text
    count is_canonical int_text value
legacy_static_refused = refl

abbrev legacy_api_payload : Text
legacy_api_payload =
    codes "version=1\noperation=adopt\nphase=prepared\nhad_key=0\nhad_pre_managed=1\n"

abbrev legacy_api_journal : SetupJournal
legacy_api_journal = record {
  operation = codes "adopt";
  phase = codes "prepared";
  had_key = false;
  had_pre_managed = true;
  key_changed = true;
  verify_started = 0;
  status_before_dev = 0;
  status_before_ino = 0;
}

legacy_api_read : parse_journal legacy_api_payload ≡ ok legacy_api_journal
unfolding parse_journal is_journal_text read_lines field_order read_fields read_field read_bit
    read_uint journal_of validate_semantics split split_once but_last ends_with text_eq mem_text
    count is_canonical int_text value
legacy_api_read = refl

parse_journal-IsRecord_example :
    (parse_journal legacy_api_payload ≡ ok legacy_api_journal)
    ↔ IsRecord legacy_api_payload legacy_api_journal
parse_journal-IsRecord_example = parse_journal-IsRecord legacy_api_payload legacy_api_journal
