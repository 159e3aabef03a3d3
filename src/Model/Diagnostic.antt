-- ===== src/Model/Diagnostic.antt =====
-- `_parse_runtime_failure_diagnostic`, `parse_runtime_failure_phase` and
-- `runtime_validation_failure_message` of libexec/wg_healthcheck_setup/model.py.
use air_vpn_wg_healthcheck.Prelude.{
  List, Option, [], any, drop, if◌then◌else◌, leb, length, none, not, some, ◌&&◌, ◌++◌, ◌==◌, ◌||◌,
  ◌∷◌,
}
use air_vpn_wg_healthcheck.Text.{
  Text, but_last, codes, count, ends_with, mem_text, starts_with, text_eq,
}
use air_vpn_wg_healthcheck.Text.Split.{split}

abbrev pub diagnostic_phases : List Text
diagnostic_phases = codes "transport" ∷ codes "response" ∷ codes "profile" ∷ codes "internal" ∷ []

abbrev pub diagnostic_reasons : List Text
diagnostic_reasons =
    codes "status"
    ∷ codes "encoding"
    ∷ codes "media_missing"
    ∷ codes "media_multiple"
    ∷ codes "media_invalid"
    ∷ codes "media_type"
    ∷ codes "media_parameter"
    ∷ codes "read"
    ∷ codes "size"
    ∷ codes "json"
    ∷ codes "protocol"
    ∷ []

-- the canonical line of a phase and, for a response, a reason
abbrev pub diagnostic_text : Text → Option Text → Text
diagnostic_text phase none = codes "failure\ttransient\tphase=" ++ (phase ++ b'\n' ∷ [])
diagnostic_text phase (some reason) =
    codes "failure\ttransient\tphase=" ++ (phase ++ (codes "\treason=" ++ (reason ++ b'\n' ∷ [])))

abbrev pub if_canonical : Text → Text → Option Text → Option (Text × Option Text)
if_canonical payload phase reason =
    if text_eq payload (diagnostic_text phase reason) then some (phase, reason) else none

unfoldable pub parse_diagnostic_fields : Text → List Text → Option (Text × Option Text)
parse_diagnostic_fields payload (tag ∷ kind ∷ third ∷ []) =
    let phase = drop (length (codes "phase=")) third in
    if text_eq tag (codes "failure")
      && text_eq kind (codes "transient")
      && starts_with (codes "phase=") third
      && mem_text phase diagnostic_phases
    then if_canonical payload phase none
    else none
parse_diagnostic_fields payload (tag ∷ kind ∷ third ∷ fourth ∷ []) =
    let phase = drop (length (codes "phase=")) third in
    let reason = drop (length (codes "reason=")) fourth in
    if text_eq tag (codes "failure")
      && text_eq kind (codes "transient")
      && starts_with (codes "phase=") third
      && mem_text phase diagnostic_phases
      && text_eq phase (codes "response")
      && starts_with (codes "reason=") fourth
      && mem_text reason diagnostic_reasons
    then if_canonical payload phase (some reason)
    else none
parse_diagnostic_fields payload _ = none

-- `_parse_runtime_failure_diagnostic`
unfoldable pub parse_runtime_failure_diagnostic : Text → Option (Text × Option Text)
parse_runtime_failure_diagnostic payload =
    if any (λ c. leb 128 c) payload
      || not (ends_with b'\n' payload)
      || not (count b'\n' payload == 1)
    then none
    else parse_diagnostic_fields payload (split b'\t' (but_last payload))

-- `parse_runtime_failure_phase`
unfoldable pub parse_runtime_failure_phase : Text → Option Text
parse_runtime_failure_phase payload = elim (parse_runtime_failure_diagnostic payload) [
  | none ↦ none
  | some (phase, reason) ↦ some phase
]

abbrev failure_message : Option (Text × Option Text) → Text
failure_message none = codes "authenticated runtime validation failed; no changes were made"
failure_message (some (phase, none)) =
    codes "authenticated runtime validation failed (phase="
    ++ (phase ++ codes "); no changes were made")
failure_message (some (phase, some reason)) =
    codes "authenticated runtime validation failed (phase="
    ++ (phase ++ (codes ", reason=" ++ (reason ++ codes "); no changes were made")))

-- `runtime_validation_failure_message`
unfoldable pub runtime_validation_failure_message : Text → Text
runtime_validation_failure_message payload =
    failure_message (parse_runtime_failure_diagnostic payload)
