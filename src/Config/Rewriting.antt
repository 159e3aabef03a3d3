-- ===== src/Config/Rewriting.antt =====
-- What `render_config` (libexec/wg_healthcheck_setup/apply_config.py) may change in a configuration.
use air_vpn_wg_healthcheck.Config.Updated.{
  Writes, Writes-append, missing_lines-Writes, rewrite_lines-Writes,
}
use air_vpn_wg_healthcheck.Prelude.{
  All, All-map, Bool-cases, List, Option-cases, [], any, arith, false, inl, inr, length, ltb, none,
  not, some, subst, sym, ◌++◌, ◌==◌, ◌||◌, ◌∷◌, ◌≡◌, ◌≤◌, ◌⊎◌,
}
use air_vpn_wg_healthcheck.Result.{
  >>=-eq_ok, Result-cases, ok, ok-injective, raise_if, raise_if_then,
}
use air_vpn_wg_healthcheck.Text.{Text, ends_with, mem_text}
use air_vpn_wg_healthcheck.Text.Split.{unlines}
use air_vpn_wg_healthcheck.Config.{
  Updates, assignment, byte_lines, config_line, max_config_bytes, missing_lines, render_config,
  rewrite_line, rewrite_lines, update_for,
}

-- A line that assigns no updated key is kept; one that assigns an updated key becomes the line of its
-- new value.
pub data LineRewritten (updates : Updates) (line written : Text) : Type 0 where
  line_kept :
      ((key raw : Text) → assignment line ≡ some (key, raw) → update_for key updates ≡ none)
      → written ≡ line
      → LineRewritten updates line written
  line_set :
      (key raw value : Text)
      → assignment line ≡ some (key, raw)
      → update_for key updates ≡ some value
      → config_line key value ≡ ok written
      → LineRewritten updates line written

-- Line by line.
abbrev pub LinesRewritten : Updates → List Text → List Text → Type 0
LinesRewritten updates [] [] = Unit
LinesRewritten updates (line ∷ lines) (written ∷ rest) =
    LineRewritten updates line written × LinesRewritten updates lines rest
LinesRewritten updates _ _ = ⊥

-- The line of a key and its value from the updates.
abbrev pub IsUpdateLine : Updates → Text → Type 0
IsUpdateLine [] line = ⊥
IsUpdateLine ((key, value) ∷ updates) line =
    (config_line key value ≡ ok line) ⊎ IsUpdateLine updates line

rewrite_line-LineRewritten :
    (updates : Updates) (seen : List Text) (line : Text) {written : Text} {seen' : List Text}
    → rewrite_line updates seen line (assignment line) ≡ ok (written, seen')
    → LineRewritten updates line written
unfolding rewrite_line
rewrite_line-LineRewritten updates seen line {written} h = elim (Option-cases (assignment line)) [
  | inl e ↦ line_kept (λ key raw a. absurd (ground arith)) (ground arith)
  | inr ((key, raw), e) ↦ elim (Option-cases (update_for key updates)) [
    | inl n ↦ line_kept (λ k r a. ground arith) (ground arith)
    | inr (value, n) ↦ elim (Result-cases (config_line key value)) [
      | inl (message, c) ↦ ground arith
      | inr (text, c) ↦ line_set key raw value e n (ground arith)
    ]
  ]
]

rewrite_lines-LinesRewritten :
    (updates : Updates) (seen lines : List Text) {written seen' : List Text}
    → rewrite_lines updates seen lines ≡ ok (written, seen')
    → LinesRewritten updates lines written
unfolding rewrite_lines
rewrite_lines-LinesRewritten updates seen [] {written} h =
    subst (λ w. LinesRewritten updates [] w) {x = []} (ground arith) tt
rewrite_lines-LinesRewritten updates seen (line ∷ lines) {written} {seen'} h =
    let ((w, s), first, h1) = >>=-eq_ok (rewrite_line updates seen line (assignment line)) _ h in
    let ((ws, s'), more, last) = >>=-eq_ok (rewrite_lines updates s lines) _ h1 in
    subst (LinesRewritten updates (line ∷ lines)) {x = w ∷ ws} (ground arith) (
      rewrite_line-LineRewritten updates seen line first,
      rewrite_lines-LinesRewritten updates s lines more,
    )

All-later :
    (update : Text × Text) (updates : Updates) (lines : List Text)
    → All (IsUpdateLine updates) lines
    → All (IsUpdateLine (update ∷ updates)) lines
All-later update updates lines h = All-map (λ line u. inr u) lines h

missing_lines-IsUpdateLine :
    (seen : List Text) (updates : Updates) {lines : List Text}
    → missing_lines seen updates ≡ ok lines
    → All (IsUpdateLine updates) lines
unfolding missing_lines
missing_lines-IsUpdateLine seen [] {lines} h =
    subst (All (IsUpdateLine [])) {x = []} (ground arith) tt
missing_lines-IsUpdateLine seen ((key, value) ∷ updates) {lines} h =
    let (rest, more, last) = >>=-eq_ok (missing_lines seen updates) _ h in
    let known =
      All-later (key, value) updates rest (missing_lines-IsUpdateLine seen updates more) in
    elim (Bool-cases (mem_text key seen)) [
      | inl e ↦ subst (All (IsUpdateLine ((key, value) ∷ updates))) {x = rest} (ground arith) known
      | inr e ↦ elim (Result-cases (config_line key value)) [
        | inl (message, c) ↦ absurd (ground arith)
        | inr (text, c) ↦
            subst (All (IsUpdateLine ((key, value) ∷ updates))) {x = text ∷ rest} (ground arith)
              (inl c, known)
      ]
    ]

every_update :
    (updates : Updates) (lines : List Text) (key value : Text) {written seen appended : List Text}
    → update_for key updates ≡ some value
    → rewrite_lines updates [] lines ≡ ok (written, seen)
    → missing_lines seen updates ≡ ok appended
    → Writes key value (written ++ appended)
unfolding mem_text
every_update updates lines key value {written} {seen} {appended} u first second =
    Writes-append key value written appended (elim (Bool-cases (mem_text key seen)) [
      | inr new ↦ inr (missing_lines-Writes seen updates key value u second new)
      | inl old ↦ elim (rewrite_lines-Writes updates [] lines key value u first old) [
        | inl impossible ↦ absurd (ground arith)
        | inr w ↦ inl w
      ]
    ])

-- The result of a rewriting: the lines of the payload and, behind them, new ones.
pub record IsRewritten (payload : Text) (updates : Updates) (result : Text) : Type 0 where
  pub written : List Text
  pub appended : List Text
  pub text : result ≡ unlines b'\n' (written ++ appended)
  pub bounded : length result ≤ max_config_bytes
  pub rewritten : LinesRewritten updates (byte_lines payload) written
  pub added : All (IsUpdateLine updates) appended
  pub complete :
      (key value : Text)
      → update_for key updates ≡ some value
      → Writes key value (written ++ appended)

-- What `render_config` returns is a configuration of lines, each with its newline, and of at most 65536
-- bytes: first the lines of the payload in their order, each kept if it assigns no updated
-- key and else replaced by the quoted assignment of its key's new value, then only such assignments of
-- updates. Every key of the updates has a line that assigns its value.
pub render_config-IsRewritten :
    (payload : Text) (updates : Updates) {result : Text}
    → render_config payload updates ≡ ok result
    → IsRewritten payload updates result
unfolding render_config
render_config-IsRewritten payload updates {result} h =
    let (_, _, h1) =
      >>=-eq_ok
        (raise_if
          (not (ends_with b'\n' payload)
            || any (λ c. c == 0) payload
            || ltb max_config_bytes (length payload))
          "the installed health configuration is not canonical text")
        _ h in
    let ((written, seen), first, h2) =
      >>=-eq_ok (rewrite_lines updates [] (byte_lines payload)) _ h1 in
    let (appended, second, h3) = >>=-eq_ok (missing_lines seen updates) _ h2 in
    let (fits, last) =
      raise_if_then (ltb max_config_bytes (length (unlines b'\n' (written ++ appended))))
        "the updated health configuration exceeds its size limit"
        (ok (unlines b'\n' (written ++ appended))) h3 in
    let same = sym (ok-injective last) in
    record {
      written = written;
      appended = appended;
      text = same;
      bounded = at_most result (unlines b'\n' (written ++ appended)) same fits;
      rewritten = rewrite_lines-LinesRewritten updates [] (byte_lines payload) first;
      added = missing_lines-IsUpdateLine seen updates second;
      complete = λ key value u. every_update updates (byte_lines payload) key value u first second;
    }
  where
    at_most :
        (s t : Text) → s ≡ t → ltb max_config_bytes (length t) ≡ false → length s ≤ max_config_bytes
    at_most s t e f = rw e (ground arith)
