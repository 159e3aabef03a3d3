-- ===== src/Journal/Render.antt =====
-- What `render_journal` writes: clean lines, each a key and a value that holds no equals sign.
use air_vpn_wg_healthcheck.Prelude.{
  &&_intro, &&_parts, ==_iff, All, Bool, List, [], all, all-append, any, any-append_false, ap,
  arith, false, length, not, refl, suc, true, ℕ, ◌&&◌, ◌==◌, ◌∙◌, ◌∷◌, ◌≡◌,
}
use air_vpn_wg_healthcheck.Result.{ok}
use air_vpn_wg_healthcheck.Text.{
  Text, codes, count, ends_with, ends_with-append, is_digit, text_eq, text_eq_refl, within,
}
use air_vpn_wg_healthcheck.Text.Split.{
  Lacks, count-append, count_cons, count-Lacks, join, split_once_lem, unlines, unlines-join,
}
use air_vpn_wg_healthcheck.Text.Decimal.{canonical_digits, str_int, str_int-is_canonical}
use air_vpn_wg_healthcheck.Journal.{
  bit_text, field_line, field_lines, is_journal_text, read_field, read_fields,
}

-- Printable ASCII without the equals sign.
abbrev pub is_plain : Text → Bool
is_plain = all (λ c. within 0x20 0x7e c && not (c == b'='))

abbrev pub IsPlain : Text → Type 0
IsPlain s = is_plain s ≡ true

-- Printable ASCII.
abbrev pub IsClean : Text → Type 0
IsClean s = all (within 0x20 0x7e) s ≡ true

pub IsPlain-IsClean : (s : Text) → IsPlain s → IsClean s
IsPlain-IsClean [] h = refl
IsPlain-IsClean (c ∷ s) h =
    let (hc, hs) = &&_parts (within 0x20 0x7e c && not (c == b'=')) (is_plain s) h in
    ground (arith, IsPlain-IsClean s hs)

pub IsPlain-Lacks : (s : Text) → IsPlain s → Lacks b'=' s
IsPlain-Lacks [] h = tt
IsPlain-Lacks (c ∷ s) h =
    let (hc, hs) = &&_parts (within 0x20 0x7e c && not (c == b'=')) (is_plain s) h in
    (ground arith, IsPlain-Lacks s hs)

pub IsClean-Lacks : (s : Text) → IsClean s → Lacks b'\n' s
IsClean-Lacks [] h = tt
IsClean-Lacks (c ∷ s) h =
    let (hc, hs) = &&_parts (within 0x20 0x7e c) (all (within 0x20 0x7e) s) h in
    (ground arith, IsClean-Lacks s hs)

pub digits-IsPlain : (s : Text) → all is_digit s ≡ true → IsPlain s
digits-IsPlain [] h = refl
digits-IsPlain (c ∷ s) h =
    let (hc, hs) = &&_parts (is_digit c) (all is_digit s) h in ground (arith, digits-IsPlain s hs)

pub str_int-IsPlain : (n : ℕ) → IsPlain (str_int n)
str_int-IsPlain n =
    digits-IsPlain (str_int n) (canonical_digits (str_int n) (str_int-is_canonical n))

pub bit_text-IsPlain : (b : Bool) → IsPlain (bit_text b)
bit_text-IsPlain true = refl
bit_text-IsPlain false = refl

pub field_line-IsClean : (k v : Text) → IsPlain k → IsPlain v → IsClean (field_line k v)
field_line-IsClean k v hk hv =
    all-append (within 0x20 0x7e) k (b'=' ∷ v)
    ∙ &&_intro _ _ (IsPlain-IsClean k hk) (IsPlain-IsClean v hv)

pub field_lines-IsClean :
    (ks vs : List Text) → All IsPlain ks → All IsPlain vs → All IsClean (field_lines ks vs)
field_lines-IsClean [] vs hk hv = tt
field_lines-IsClean (k ∷ ks) [] hk hv = tt
field_lines-IsClean (k ∷ ks) (v ∷ vs) (hk, hks) (hv, hvs) =
    (field_line-IsClean k v hk hv, field_lines-IsClean ks vs hks hvs)

-- A line that was written is read back.
pub read_field_lem : (k v : Text) → IsPlain k → IsPlain v → read_field k (field_line k v) ≡ ok v
unfolding read_field
read_field_lem k v hk hv =
    rw (one_sign, split_once_lem b'=' k v (IsPlain-Lacks k hk), text_eq_refl k)
  where
    one_sign : (count b'=' (field_line k v) == 1) ≡ true
    one_sign = (==_iff _ _).1 (
        omega (
          arith,
          count-append b'=' k (b'=' ∷ v),
          count_cons b'=' v,
          count-Lacks b'=' k (IsPlain-Lacks k hk),
          count-Lacks b'=' v (IsPlain-Lacks v hv),
        ))

pub read_fields_lem :
    (ks vs : List Text)
    → length ks ≡ length vs
    → All IsPlain ks
    → All IsPlain vs
    → read_fields ks (field_lines ks vs) ≡ ok vs
unfolding read_fields
read_fields_lem [] [] e hk hv = refl
read_fields_lem [] (v ∷ vs) e hk hv = absurd (omega arith)
read_fields_lem (k ∷ ks) [] e hk hv = absurd (omega arith)
read_fields_lem (k ∷ ks) (v ∷ vs) e (hk, hks) (hv, hvs) =
    rw (read_field_lem k v hk hv, read_fields_lem ks vs (omega arith) hks hvs)

pub length-field_lines :
    (ks vs : List Text) → length ks ≡ length vs → length (field_lines ks vs) ≡ length ks
length-field_lines [] vs e = refl
length-field_lines (k ∷ ks) [] e = absurd (omega arith)
length-field_lines (k ∷ ks) (v ∷ vs) e = ap suc (length-field_lines ks vs (omega arith))

-- The reader's tests on the whole payload pass for clean, nonempty lines.
any-clean_false :
    (s : Text) → IsClean s → any (λ c. not (c == b'\n') && not (within 0x20 0x7e c)) s ≡ false
any-clean_false [] h = refl
any-clean_false (c ∷ s) h =
    let (hc, hs) = &&_parts (within 0x20 0x7e c) (all (within 0x20 0x7e) s) h in
    ground (arith, any-clean_false s hs)

any-unlines-false :
    (ws : List Text)
    → All IsClean ws
    → any (λ c. not (c == b'\n') && not (within 0x20 0x7e c)) (unlines b'\n' ws) ≡ false
unfolding unlines
any-unlines-false [] h = refl
any-unlines-false (w ∷ ws) (hw, h) =
    any-append_false _ w (b'\n' ∷ unlines b'\n' ws) (any-clean_false w hw) (any-unlines-false ws h)

pub unlines-is_journal_text :
    (c : ℕ) (w : Text) (ws : List Text)
    → All IsClean ((c ∷ w) ∷ ws)
    → is_journal_text (unlines b'\n' ((c ∷ w) ∷ ws)) ≡ true
unfolding is_journal_text
unlines-is_journal_text c w ws h =
    &&_intro _ _ (&&_intro _ _ ends longer) (ap not (any-unlines-false ((c ∷ w) ∷ ws) h))
  where
    ends : ends_with b'\n' (unlines b'\n' ((c ∷ w) ∷ ws)) ≡ true
    ends = rw unlines-join (ends_with-append b'\n' (join (b'\n' ∷ []) ((c ∷ w) ∷ ws)))

    longer : not (text_eq (unlines b'\n' ((c ∷ w) ∷ ws)) (codes "\n")) ≡ true
    longer = unfold unlines text_eq in ground (arith, h.0)
