-- ===== src/Journal/Values.antt =====
-- The values of a record (libexec/wg_healthcheck_setup/apply_journal.py), read backwards: each is the text
-- that `render_journal` writes for what `read_journal` took it for.
use native.Mathlib.Nat.{mul-le-mul_right, mul_assoc, mul_comm, pow-le-pow_right, pow-suc}
use air_vpn_wg_healthcheck.Journal.{
  SetupJournal, bit_text, journal_of, max_canonical_uint, read_bit, read_uint, validate_semantics,
}
use air_vpn_wg_healthcheck.Text.Decimal.{
  canonical_digits, int_text, is_canonical, str_int, str_int-int_text, value,
}
use air_vpn_wg_healthcheck.Text.{Text, codes, is_digit, text_eq→eq}
use air_vpn_wg_healthcheck.Result.{>>=-eq_ok, ok, ok-injective}
use air_vpn_wg_healthcheck.Prelude.{
  &&_parts, Bool, [], all, ap, arith, false, length, refl, some, subst, suc, sym, true, ℕ, ◌*◌, ◌+◌,
  ◌-◌, ◌<◌, ◌^◌, ◌∙◌, ◌∷◌, ◌≡◌, ◌≤◌,
}

read_bit-text : (v : Text) {b : Bool} → read_bit v ≡ ok b → v ≡ bit_text b
unfolding read_bit
read_bit-text v {b = true} h = text_eq→eq v (codes "1") (ground arith)
read_bit-text v {b = false} h = text_eq→eq v (codes "0") (ground arith)

value_below : (s : Text) (acc : ℕ) → all is_digit s ≡ true → value acc s < (acc + 1) * 10 ^ length s
unfolding value
value_below [] acc h = omega arith
value_below (c ∷ s) acc h =
    let (digit, rest) = &&_parts (is_digit c) (all is_digit s) h in
    let small : acc * 10 + (c - b'0') + 1 ≤ (acc + 1) * 10 = ground arith in
    omega (
      arith,
      value_below s (acc * 10 + (c - b'0')) rest,
      mul-le-mul_right (10 ^ length s) small,
      power,
    )
  where
    power : (acc + 1) * 10 ^ suc (length s) ≡ (acc + 1) * 10 * 10 ^ length s
    power =
        ap (λ r. (acc + 1) * r) (pow-suc 10 (length s) ∙ mul_comm (10 ^ length s) 10)
        ∙ sym (mul_assoc (acc + 1) 10 (10 ^ length s))

-- The texts that `read_uint` takes for numbers.
pub record IsUint (v : Text) (n : ℕ) : Type 0 where
  pub text : v ≡ str_int n
  pub bound : n ≤ max_canonical_uint

read_uint-IsUint : (v : Text) {n : ℕ} → read_uint v ≡ ok n → IsUint v n
unfolding read_uint int_text
read_uint-IsUint v {n} h =
    let canonical : is_canonical v ≡ true = ground arith in
    let same : int_text v ≡ n = ground arith in
    let short : length v ≤ 20 = ground arith in
    record {
      text = sym (str_int-int_text v canonical) ∙ ap str_int same;
      bound = omega (
        arith,
        same,
        value_below v 0 (canonical_digits v canonical),
        pow-le-pow_right {n = 10} (omega arith) short,
      );
    }

-- The texts and the journal that they are read as.
pub record IsReading (version op ph hk hp kc vs sd si : Text) (j : SetupJournal) : Type 0 where
  pub operation : op ≡ j.operation
  pub phase : ph ≡ j.phase
  pub had_key : hk ≡ bit_text j.had_key
  pub had_pre_managed : hp ≡ bit_text j.had_pre_managed
  pub key_changed : kc ≡ bit_text j.key_changed
  pub started : IsUint vs j.verify_started
  pub dev : IsUint sd j.status_before_dev
  pub ino : IsUint si j.status_before_ino
  pub valid : validate_semantics version j ≡ ok tt

pub journal_of-IsReading :
    (version op ph hk hp kc vs sd si : Text) {j : SetupJournal}
    → journal_of version (some (op ∷ ph ∷ hk ∷ hp ∷ kc ∷ vs ∷ sd ∷ si ∷ [])) ≡ ok j
    → IsReading version op ph hk hp kc vs sd si j
unfolding journal_of
journal_of-IsReading version op ph hk hp kc vs sd si h =
    let (a, ha, h1) = >>=-eq_ok (read_bit hk) _ h in
    let (b, hb, h2) = >>=-eq_ok (read_bit hp) _ h1 in
    let (c, hc, h3) = >>=-eq_ok (read_bit kc) _ h2 in
    let (d, hd, h4) = >>=-eq_ok (read_uint vs) _ h3 in
    let (e, he, h5) = >>=-eq_ok (read_uint sd) _ h4 in
    let (f, hf, h6) = >>=-eq_ok (read_uint si) _ h5 in
    let read : SetupJournal = record {
      operation = op;
      phase = ph;
      had_key = a;
      had_pre_managed = b;
      key_changed = c;
      verify_started = d;
      status_before_dev = e;
      status_before_ino = f;
    } in
    let (_, valid, last) = >>=-eq_ok (validate_semantics version read) _ h6 in
    subst (IsReading version op ph hk hp kc vs sd si) (ok-injective last) (record {
      operation = refl;
      phase = refl;
      had_key = read_bit-text hk ha;
      had_pre_managed = read_bit-text hp hb;
      key_changed = read_bit-text kc hc;
      started = read_uint-IsUint vs hd;
      dev = read_uint-IsUint sd he;
      ino = read_uint-IsUint si hf;
      valid = valid;
    })
