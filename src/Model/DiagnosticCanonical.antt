-- ===== src/Model/DiagnosticCanonical.antt =====
-- The failure diagnostics that `_parse_runtime_failure_diagnostic`
-- (libexec/wg_healthcheck_setup/model.py) accepts.
use air_vpn_wg_healthcheck.Prelude.{
  All, List, Option, [], ap, arith, drop, none, some, subst, true, ◌↔◌, ◌∙◌, ◌∷◌, ◌≡◌,
}
use air_vpn_wg_healthcheck.Text.{
  All-mem_text, Text, but_last, codes, count, ends_with, mem_text, starts_with, text_eq, text_eq→eq,
}
use air_vpn_wg_healthcheck.Text.Split.{split}
use air_vpn_wg_healthcheck.Model.Diagnostic.{
  diagnostic_phases, diagnostic_reasons, diagnostic_text, if_canonical, parse_diagnostic_fields,
  parse_runtime_failure_diagnostic,
}

-- A phase with no reason, or the phase "response" with a reason.
abbrev pub IsListed : Text → Option Text → Type 0
IsListed phase none = mem_text phase diagnostic_phases ≡ true
IsListed phase (some reason) =
    (phase ≡ codes "response") × (mem_text reason diagnostic_reasons ≡ true)

pub record IsDiagnostic (payload phase : Text) (reason : Option Text) : Type 0 where
  pub listed : IsListed phase reason
  pub text : payload ≡ diagnostic_text phase reason

canonical-IsDiagnostic :
    (payload p : Text) (r : Option Text) {phase : Text} {reason : Option Text}
    → IsListed p r
    → if_canonical payload p r ≡ some (phase, reason)
    → IsDiagnostic payload phase reason
canonical-IsDiagnostic payload p r listed h =
    subst (λ (d : Text × Option Text). IsDiagnostic payload d.0 d.1) (ground arith)
      (record { listed = listed; text = text_eq→eq payload (diagnostic_text p r) (ground arith) })

without_reason :
    (payload tag kind third : Text) {phase : Text} {reason : Option Text}
    → parse_diagnostic_fields payload (tag ∷ kind ∷ third ∷ []) ≡ some (phase, reason)
    → IsDiagnostic payload phase reason
unfolding parse_diagnostic_fields
without_reason payload tag kind third {phase} {reason} h =
    canonical-IsDiagnostic payload (drop 6 third) none (ground arith) (ground arith)

with_reason :
    (payload tag kind third fourth : Text) {phase : Text} {reason : Option Text}
    → parse_diagnostic_fields payload (tag ∷ kind ∷ third ∷ fourth ∷ []) ≡ some (phase, reason)
    → IsDiagnostic payload phase reason
unfolding parse_diagnostic_fields
with_reason payload tag kind third fourth {phase} {reason} h =
    canonical-IsDiagnostic payload (drop 6 third) (some (drop 7 fourth))
      (text_eq→eq (drop 6 third) (codes "response") (ground arith), ground arith) (ground arith)

fields-IsDiagnostic :
    (payload : Text) (fields : List Text) {phase : Text} {reason : Option Text}
    → parse_diagnostic_fields payload fields ≡ some (phase, reason)
    → IsDiagnostic payload phase reason
unfolding parse_diagnostic_fields
fields-IsDiagnostic payload (tag ∷ kind ∷ third ∷ []) h = without_reason payload tag kind third h
fields-IsDiagnostic payload (tag ∷ kind ∷ third ∷ fourth ∷ []) h =
    with_reason payload tag kind third fourth h
fields-IsDiagnostic payload [] h = cc
fields-IsDiagnostic payload (_ ∷ []) h = cc
fields-IsDiagnostic payload (_ ∷ _ ∷ []) h = cc
fields-IsDiagnostic payload (_ ∷ _ ∷ _ ∷ _ ∷ _ ∷ _) h = cc

parsed-IsDiagnostic :
    (payload phase : Text) (reason : Option Text)
    → parse_runtime_failure_diagnostic payload ≡ some (phase, reason)
    → IsDiagnostic payload phase reason
unfolding parse_runtime_failure_diagnostic
parsed-IsDiagnostic payload phase reason h =
    fields-IsDiagnostic payload (split b'\t' (but_last payload)) (ground arith)

Accepted : Text → Option Text → Type 0
Accepted phase reason =
    parse_runtime_failure_diagnostic (diagnostic_text phase reason) ≡ some (phase, reason)

phases-Accepted : All (λ phase. Accepted phase none) diagnostic_phases
unfolding Accepted parse_runtime_failure_diagnostic parse_diagnostic_fields text_eq mem_text
    starts_with ends_with but_last count split
phases-Accepted = search tt depth 10

reasons-Accepted : All (λ reason. Accepted (codes "response") (some reason)) diagnostic_reasons
unfolding Accepted parse_runtime_failure_diagnostic parse_diagnostic_fields text_eq mem_text
    starts_with ends_with but_last count split
reasons-Accepted = search tt depth 30

listed-Accepted :
    (phase : Text) (reason : Option Text) → IsListed phase reason → Accepted phase reason
listed-Accepted phase none h =
    All-mem_text (λ p. Accepted p none) phase diagnostic_phases phases-Accepted h
listed-Accepted phase (some reason) (e, h) = rw e (
    All-mem_text (λ r. Accepted (codes "response") (some r)) reason diagnostic_reasons
      reasons-Accepted h)

-- `parse_runtime_failure_diagnostic` returns a phase and a reason exactly for the payload that is
-- their canonical line, where the phase is a listed one without a reason, or is "response" with a
-- listed reason.
pub parse-IsDiagnostic_iff :
    (payload phase : Text) (reason : Option Text)
    → (parse_runtime_failure_diagnostic payload ≡ some (phase, reason))
      ↔ IsDiagnostic payload phase reason
parse-IsDiagnostic_iff payload phase reason = (
  parsed-IsDiagnostic payload phase reason,
  λ d.
      ap parse_runtime_failure_diagnostic d.text
      ∙ unfold Accepted in listed-Accepted phase reason d.listed,
)
