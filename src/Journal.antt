-- ===== src/Journal.antt =====
-- The setup journal: libexec/wg_healthcheck_setup/apply_journal.py. The record, its validation
-- (`_validate_semantics`), its canonical text (`render_journal`) and the strict reader
-- (`read_journal`, behind `secure_read`, which hands it the file's bytes). The proofs are in the
-- modules below.
pub mod Render
pub mod RoundTrip
pub mod Accepted
pub mod Values
pub mod Lines
pub mod Versions
pub mod Records
pub mod Size
use air_vpn_wg_healthcheck.Prelude.{
  Bool, List, Option, String, [], any, bool_ne, false, if◌then◌else◌, leb, length, ltb, none, not,
  some, true, ℕ, ◌&&◌, ◌++◌, ◌-◌, ◌==◌, ◌^◌, ◌||◌, ◌∷◌,
}
use air_vpn_wg_healthcheck.Result.{Result, err, ok, raise_if, ◌>>=◌, ◌>>◌}
use air_vpn_wg_healthcheck.Text.{Text, but_last, codes, count, ends_with, mem_text, text_eq, within}
use air_vpn_wg_healthcheck.Text.Split.{split, split_once, unlines}
use air_vpn_wg_healthcheck.Text.Decimal.{int_text, is_canonical, str_int, value}

-- `SetupJournal`. The `isinstance` tests of the source hold by the types here; its integers are
-- never negative.
pub record SetupJournal : Type 0 where
  pub operation : Text
  pub phase : Text
  pub had_key : Bool
  pub had_pre_managed : Bool
  pub key_changed : Bool
  pub verify_started : ℕ
  pub status_before_dev : ℕ
  pub status_before_ino : ℕ

abbrev pub max_journal_bytes : ℕ
max_journal_bytes = 512

abbrev pub max_canonical_uint : ℕ
max_canonical_uint = 10 ^ 20 - 1

abbrev pub invalid_record : String
invalid_record = "the previous setup transaction record is invalid"

abbrev pub operations : List Text
operations =
    codes "provision"
    ∷ codes "adopt"
    ∷ codes "api-update"
    ∷ codes "static"
    ∷ codes "static-restore"
    ∷ []

-- `_LEGACY_PHASES`
abbrev pub legacy_phases : List Text
legacy_phases =
    codes "prepared"
    ∷ codes "config"
    ∷ codes "credential"
    ∷ codes "activating"
    ∷ codes "activated"
    ∷ codes "verified"
    ∷ []

abbrev pub phases : List Text
phases = legacy_phases ++ codes "verifying" ∷ codes "rolled-back" ∷ []

abbrev api_phases : List Text
api_phases =
    codes "prepared"
    ∷ codes "config"
    ∷ codes "credential"
    ∷ codes "activated"
    ∷ codes "verifying"
    ∷ codes "verified"
    ∷ codes "rolled-back"
    ∷ []

abbrev static_phases : List Text
static_phases =
    codes "prepared"
    ∷ codes "activated"
    ∷ codes "verifying"
    ∷ codes "verified"
    ∷ codes "rolled-back"
    ∷ []

abbrev static_restore_phases : List Text
static_restore_phases =
    codes "prepared"
    ∷ codes "activating"
    ∷ codes "activated"
    ∷ codes "verifying"
    ∷ codes "verified"
    ∷ codes "rolled-back"
    ∷ []

abbrev pub is_api_operation : Text → Bool
is_api_operation op = mem_text op (codes "provision" ∷ codes "adopt" ∷ codes "api-update" ∷ [])

abbrev pub is_static_operation : Text → Bool
is_static_operation op = mem_text op (codes "static" ∷ codes "static-restore" ∷ [])

-- `_OPERATION_PHASES[operation]`; an unknown operation is refused before the lookup.
abbrev pub operation_phases : Text → List Text
operation_phases op =
    if is_api_operation op
    then api_phases
    else if text_eq op (codes "static")
    then static_phases
    else if text_eq op (codes "static-restore")
    then static_restore_phases
    else []

abbrev pub version_phases : Text → List Text
version_phases version = if text_eq version (codes "3") then phases else legacy_phases

-- the version-3 phases that carry a health proof
abbrev pub is_proof_phase : Text → Text → Bool
is_proof_phase version phase =
    text_eq version (codes "3") && mem_text phase (codes "verifying" ∷ codes "verified" ∷ [])

-- `_validate_semantics`
unfoldable pub validate_semantics : Text → SetupJournal → Result (Unit {0})
validate_semantics version journal = do
  raise_if
      (not (mem_text journal.operation operations)
        || not (mem_text journal.phase (version_phases version))
        || not (mem_text journal.phase (operation_phases journal.operation))
        || (is_static_operation journal.operation && journal.key_changed)
        || (is_api_operation journal.operation && not journal.had_key && not journal.key_changed))
      invalid_record
  raise_if (bool_ne (journal.status_before_dev == 0) (journal.status_before_ino == 0))
      invalid_record
  let proof_phase = is_proof_phase version journal.phase
  raise_if (bool_ne proof_phase (ltb 0 journal.verify_started)) invalid_record
  raise_if
      (not proof_phase
        && (not (journal.status_before_dev == 0) || not (journal.status_before_ino == 0)))
      invalid_record

-- f"{key}={value}"
abbrev pub field_line : Text → Text → Text
field_line key value = key ++ b'=' ∷ value

-- str(int(b))
abbrev pub bit_text : Bool → Text
bit_text true = codes "1"
bit_text false = codes "0"

-- the keys of version 3, in the order of `_FIELD_ORDER`
abbrev pub version_1_order : List Text
version_1_order =
    codes "version"
    ∷ codes "operation"
    ∷ codes "phase"
    ∷ codes "had_key"
    ∷ codes "had_pre_managed"
    ∷ []

abbrev pub version_2_order : List Text
version_2_order = version_1_order ++ codes "key_changed" ∷ []

abbrev pub version_3_order : List Text
version_3_order =
    version_2_order
    ++ codes "verify_started" ∷ codes "status_before_dev" ∷ codes "status_before_ino" ∷ []

-- the values that `render_journal` writes, in the same order
abbrev pub field_values : SetupJournal → List Text
field_values j =
    codes "3"
    ∷ j.operation
    ∷ j.phase
    ∷ bit_text j.had_key
    ∷ bit_text j.had_pre_managed
    ∷ bit_text j.key_changed
    ∷ str_int j.verify_started
    ∷ str_int j.status_before_dev
    ∷ str_int j.status_before_ino
    ∷ []

abbrev pub field_lines : List Text → List Text → List Text
field_lines [] _ = []
field_lines (k ∷ ks) [] = []
field_lines (k ∷ ks) (v ∷ vs) = field_line k v ∷ field_lines ks vs

-- any(value > MAX_CANONICAL_UINT for value in …)
abbrev pub exceeds_uint : SetupJournal → Bool
exceeds_uint journal =
    ltb max_canonical_uint journal.verify_started
    || ltb max_canonical_uint journal.status_before_dev
    || ltb max_canonical_uint journal.status_before_ino

-- `render_journal`
unfoldable pub render_journal : SetupJournal → Result Text
render_journal journal = do
  validate_semantics (codes "3") journal
  raise_if (exceeds_uint journal) "the setup transaction record is invalid"
  ok (unlines b'\n' (field_lines version_3_order (field_values journal)))

-- The tests on the whole payload, before it is cut into lines.
unfoldable pub is_journal_text : Text → Bool
is_journal_text payload =
    ends_with b'\n' payload
    && not (text_eq payload (codes "\n"))
    && not (any (λ c. not (c == b'\n') && not (within 0x20 0x7e c)) payload)

-- `lines[0]` names the version, and the version the keys.
unfoldable pub field_order : Text → Option (Text × List Text)
field_order line =
    if text_eq line (codes "version=1")
    then some (codes "1", version_1_order)
    else if text_eq line (codes "version=2")
    then some (codes "2", version_2_order)
    else if text_eq line (codes "version=3")
    then some (codes "3", version_3_order)
    else none

-- One round of the loop: the value behind the expected key.
unfoldable pub read_field : Text → Text → Result Text
read_field expected_key line =
    if count b'=' line == 1
    then elim (split_once b'=' line) [
      | none ↦ err invalid_record
      | some (key, value) ↦ if text_eq key expected_key then ok value else err invalid_record
    ]
    else err invalid_record

-- `for expected_key, line in zip(order, lines, strict=True)`. The dictionary `fields` is filled in
-- the order of the keys, so it is the list of the values.
unfoldable pub read_fields : List Text → List Text → Result (List Text)
read_fields [] [] = ok []
read_fields (key ∷ keys) (line ∷ lines) = do
  value ← read_field key line
  values ← read_fields keys lines
  ok (value ∷ values)
read_fields _ _ = err invalid_record

-- `value not in {"0", "1"}` raises; otherwise `value == "1"`
unfoldable pub read_bit : Text → Result Bool
read_bit value =
    if text_eq value (codes "0")
    then ok false
    else if text_eq value (codes "1")
    then ok true
    else err invalid_record

-- the pattern 0|[1-9][0-9]{0,19}, and `int`
unfoldable pub read_uint : Text → Result ℕ
read_uint value =
    if is_canonical value && leb (length value) 20 then ok (int_text value) else err invalid_record

-- The keys of older versions, with the defaults of `fields.get`.
abbrev pub with_defaults : List Text → Option (List Text)
with_defaults (v ∷ op ∷ ph ∷ hk ∷ hp ∷ []) =
    some (op ∷ ph ∷ hk ∷ hp ∷ codes "1" ∷ codes "0" ∷ codes "0" ∷ codes "0" ∷ [])
with_defaults (v ∷ op ∷ ph ∷ hk ∷ hp ∷ kc ∷ []) =
    some (op ∷ ph ∷ hk ∷ hp ∷ kc ∷ codes "0" ∷ codes "0" ∷ codes "0" ∷ [])
with_defaults (v ∷ op ∷ ph ∷ hk ∷ hp ∷ kc ∷ vs ∷ sd ∷ si ∷ []) =
    some (op ∷ ph ∷ hk ∷ hp ∷ kc ∷ vs ∷ sd ∷ si ∷ [])
with_defaults _ = none

-- The values of the fields, read and validated.
unfoldable pub journal_of : Text → Option (List Text) → Result SetupJournal
journal_of version (some (op ∷ ph ∷ hk ∷ hp ∷ kc ∷ vs ∷ sd ∷ si ∷ [])) = do
  had_key ← read_bit hk
  had_pre_managed ← read_bit hp
  key_changed ← read_bit kc
  verify_started ← read_uint vs
  status_before_dev ← read_uint sd
  status_before_ino ← read_uint si
  let journal : SetupJournal = record {
    operation = op;
    phase = ph;
    had_key = had_key;
    had_pre_managed = had_pre_managed;
    key_changed = key_changed;
    verify_started = verify_started;
    status_before_dev = status_before_dev;
    status_before_ino = status_before_ino;
  }
  validate_semantics version journal
  ok journal
journal_of version _ = err invalid_record

-- The lines of the payload, and the version that the first one names.
unfoldable pub read_lines : List Text → Result SetupJournal
read_lines [] = err invalid_record
read_lines (first ∷ rest) = elim (field_order first) [
  | none ↦ err invalid_record
  | some (version, order) ↦
      if length (first ∷ rest) == length order
      then (do values ← read_fields order (first ∷ rest); journal_of version (with_defaults values))
      else err invalid_record
]

-- `read_journal`, from the bytes that `secure_read` returned
unfoldable pub parse_journal : Text → Result SetupJournal
parse_journal payload = do
  raise_if (not (is_journal_text payload)) invalid_record
  read_lines (split b'\n' (but_last payload))
