-- ===== src/Cli/Resolved.antt =====
-- The requests that `resolve_request` (libexec/wg_healthcheck_setup/cli.py) lets through.
use air_vpn_wg_healthcheck.Prelude.{
  Bool-cases, List, Option, String, ap, arith, false, inl, inr, map, none, not, not-false, refl,
  some, subst, sym, true, ◌&&◌, ◌↔◌, ◌∙◌, ◌≡◌,
}
use air_vpn_wg_healthcheck.Text.{Text, codes, text_eq, text_eq→eq}
use air_vpn_wg_healthcheck.Model.{Mode, SetupRequest, api_mode, enables, is_interface, static_mode}
use air_vpn_wg_healthcheck.Result.{>>=-eq_ok, err, ok, ok-injective, raise_if_ok, raise_if_then}
use air_vpn_wg_healthcheck.Cli.{Arguments}
use air_vpn_wg_healthcheck.Cli.Resolve.{
  check_api, check_complete, check_countries, check_decisions, check_flags, check_mode, check_reset,
  check_static, request_of, resolve_request, valid_device, validate_noninteractive_country_text,
}
use air_vpn_wg_healthcheck.Credential.{is_some}
use air_vpn_wg_healthcheck.Cli.Countries.{AreCountries, tokens_complete, tokens_sound}

-- The mode that the text names.
abbrev pub Names : Option Text → Option Mode → Type 0
Names text none = text ≡ none
Names text (some api_mode) = text ≡ some (codes "api")
Names text (some static_mode) = text ≡ some (codes "static")

module _ (upper : Text → Text) (words : Text → List Text) (args : Arguments) where
  -- What a run without questions has to say in API mode.
  pub record IsComplete : Type 0 where
    pub has_device : is_some args.device ≡ true
    pub countries_text : Text
    pub has_countries : args.countries ≡ some countries_text
    pub are_countries : AreCountries (map upper (words countries_text))
    pub has_file : args.replace_credential ≡ true → is_some args.credential_file ≡ true

  -- What each mode allows.
  abbrev pub Allows : Option Mode → Type 0
  Allows none =
      (args.replace_credential ≡ false)
      × (args.remove_credential ≡ false)
      × (args.restore_pre_managed ≡ false)
  Allows (some static_mode) =
      (args.device ≡ none)
      × (args.countries ≡ none)
      × (args.credential_file ≡ none)
      × (args.replace_credential ≡ false)
  Allows (some api_mode) =
      (valid_device args.device ≡ true)
      × (args.remove_credential ≡ false)
      × (args.restore_pre_managed ≡ false)
      × (args.non_interactive ≡ true → IsComplete)

  pub record IsAccepted (mode : Option Mode) : Type 0 where
    pub named : Names args.mode mode
    pub valid_interface : is_interface args.iface ≡ true
    pub decided :
        args.non_interactive ≡ true
        → (is_some args.mode ≡ true) × (is_some args.action ≡ true) × (is_some args.timer ≡ true)
    pub reset_flagged :
        args.reset_api_state ≡ true → (is_some args.action ≡ true) × (enables args.timer ≡ false)
    pub allowed : Allows mode

  check_decisions_sound :
      check_decisions args ≡ ok tt
      → args.non_interactive ≡ true
      → (is_some args.mode ≡ true) × (is_some args.action ≡ true) × (is_some args.timer ≡ true)
  unfolding check_decisions
  check_decisions_sound h n = ground arith

  check_decisions_complete :
      (args.non_interactive ≡ true
        → (is_some args.mode ≡ true) × (is_some args.action ≡ true) × (is_some args.timer ≡ true))
      → check_decisions args ≡ ok tt
  unfolding check_decisions
  check_decisions_complete h = ground arith

  check_reset_sound :
      check_reset args ≡ ok tt
      → args.reset_api_state ≡ true
      → (is_some args.action ≡ true) × (enables args.timer ≡ false)
  unfolding check_reset
  check_reset_sound h n = ground arith

  check_reset_complete :
      (args.reset_api_state ≡ true → (is_some args.action ≡ true) × (enables args.timer ≡ false))
      → check_reset args ≡ ok tt
  unfolding check_reset
  check_reset_complete h = ground arith

  check_static_sound : check_static args ≡ ok tt → Allows (some static_mode)
  unfolding check_static
  check_static_sound h = ground arith

  check_static_complete : Allows (some static_mode) → check_static args ≡ ok tt
  unfolding check_static
  check_static_complete h = ground arith

  check_flags-none : check_flags args none ≡ ok tt → Allows none
  unfolding check_flags
  check_flags-none h = ground arith

  check_flags_complete : (mode : Option Mode) → Allows mode → check_flags args mode ≡ ok tt
  unfolding check_flags
  check_flags_complete none (a, b, c) = ground arith
  check_flags_complete (some static_mode) (a, b, c, e) = ground arith
  check_flags_complete (some api_mode) (a, b, c, e) = ground arith

  check_countries_sound :
      (value : Option Text)
      → check_countries upper words value ≡ ok tt
      → (text : Text) × (value ≡ some text) × AreCountries (map upper (words text))
  unfolding check_countries validate_noninteractive_country_text
  check_countries_sound none h = cc
  check_countries_sound (some text) h = (text, refl, tokens_sound (map upper (words text)) h)

  check_countries_complete :
      (text : Text)
      → AreCountries (map upper (words text))
      → check_countries upper words (some text) ≡ ok tt
  unfolding check_countries validate_noninteractive_country_text
  check_countries_complete text h = tokens_complete (map upper (words text)) h

  with_file :
      (args.replace_credential && not (is_some args.credential_file)) ≡ false
      → args.replace_credential ≡ true
      → is_some args.credential_file ≡ true
  with_file h r = ground arith

  without_file :
      (args.replace_credential ≡ true → is_some args.credential_file ≡ true)
      → (args.replace_credential && not (is_some args.credential_file)) ≡ false
  without_file h = ground arith

  check_complete_sound :
      check_complete upper words args ≡ ok tt → args.non_interactive ≡ true → IsComplete
  unfolding check_complete
  check_complete_sound h n =
      let (device, then_countries) = raise_if_then _ _ _ (rw n at h) in
      let (u, counted, then_file) = >>=-eq_ok _ _ then_countries in
      let (text, named, are) = check_countries_sound args.countries counted in
      record {
        has_device = not-false _ device;
        countries_text = text;
        has_countries = named;
        are_countries = are;
        has_file = λ r. with_file (raise_if_ok _ then_file) r;
      }

  check_complete_complete :
      (args.non_interactive ≡ true → IsComplete) → check_complete upper words args ≡ ok tt
  unfolding check_complete
  check_complete_complete h = elim (Bool-cases args.non_interactive) [
    | inl n ↦
        let c = h n in
        rw
          (
            n,
            c.has_device,
            c.has_countries,
            check_countries_complete c.countries_text c.are_countries,
            without_file c.has_file,
          )
          refl
    | inr n ↦ rw n refl
  ]

  check_api_sound : check_api upper words args ≡ ok tt → Allows (some api_mode)
  unfolding check_api
  check_api_sound h =
      let (device, then_complete) = raise_if_then _ _ _ h in
      let (u, complete, then_remove) = >>=-eq_ok _ _ then_complete in
      let (remove, then_restore) = raise_if_then _ _ _ then_remove in
      (not-false _ device, remove, raise_if_ok _ then_restore, check_complete_sound complete)

  check_api_complete : Allows (some api_mode) → check_api upper words args ≡ ok tt
  unfolding check_api
  check_api_complete (device, remove, restore, complete) =
      rw (device, check_complete_complete complete, remove, restore) refl

  check_mode_sound :
      (text : Option Text) (mode : Option Mode)
      → check_mode upper words args text ≡ ok mode
      → check_flags args mode ≡ ok tt
      → Names text mode × Allows mode
  unfolding check_mode
  check_mode_sound none mode h f =
      subst (λ (m : Option Mode). Names none m × Allows m) (ok-injective h)
        (
          refl,
          check_flags-none
              (subst (λ (m : Option Mode). check_flags args m ≡ ok tt) (sym (ok-injective h)) f),
        )
  check_mode_sound (some text) mode h f = elim (Bool-cases (text_eq text (codes "api"))) [
    | inl e ↦
        let (u, checked, same) = >>=-eq_ok _ _ (rw e at h) in
        subst (λ (m : Option Mode). Names (some text) m × Allows m) (ok-injective same)
          (ap some (text_eq→eq text (codes "api") e), check_api_sound checked)
    | inr n ↦ elim (Bool-cases (text_eq text (codes "static"))) [
      | inl e ↦
          let (u, checked, same) = >>=-eq_ok _ _ (rw (n, e) at h) in
          subst (λ (m : Option Mode). Names (some text) m × Allows m) (ok-injective same)
            (ap some (text_eq→eq text (codes "static") e), check_static_sound checked)
      | inr k ↦ no_mode (rw (n, k) at h)
    ]
  ]
    where
      no_mode : {P : Type 0} {message : String} → err message ≡ ok mode → P
      no_mode e = cc

  check_mode_complete :
      (text : Option Text) (mode : Option Mode)
      → Names text mode
      → Allows mode
      → check_mode upper words args text ≡ ok mode
  unfolding check_mode text_eq
  check_mode_complete text none e a = rw e refl
  check_mode_complete text (some api_mode) e a = rw (e, check_api_complete a) refl
  check_mode_complete text (some static_mode) e a = rw (e, check_static_complete a) refl

  resolve_sound :
      (request : SetupRequest)
      → resolve_request upper words args ≡ ok request
      → (mode : Option Mode) × (request ≡ request_of args mode) × IsAccepted mode
  unfolding resolve_request
  resolve_sound request h =
      let (interface, then_decided) = raise_if_then _ _ _ h in
      let (u, decided, then_reset) = >>=-eq_ok _ _ then_decided in
      let (v, reset, then_mode) = >>=-eq_ok _ _ then_reset in
      let (mode, moded, then_flags) = >>=-eq_ok _ _ then_mode in
      let (x, flags, same) = >>=-eq_ok _ _ then_flags in
      let (named, allowed) = check_mode_sound args.mode mode moded flags in
      (
        mode,
        sym (ok-injective same),
        record {
          named = named;
          valid_interface = not-false _ interface;
          decided = check_decisions_sound decided;
          reset_flagged = check_reset_sound reset;
          allowed = allowed;
        },
      )

  resolve_complete :
      (mode : Option Mode)
      → IsAccepted mode
      → resolve_request upper words args ≡ ok (request_of args mode)
  unfolding resolve_request
  resolve_complete mode a =
      rw
        (
          a.valid_interface,
          check_decisions_complete a.decided,
          check_reset_complete a.reset_flagged,
          check_mode_complete args.mode mode a.named a.allowed,
          check_flags_complete mode a.allowed,
        )
        refl

-- `resolve_request` accepts exactly what the options allow together: it returns a request if and only if
-- the arguments are accepted for a mode, and the request is then the arguments' own in that mode. Accepted
-- means: a valid interface; in a run without questions a mode, an action and a timer outcome; with a reset of
-- the API state an action, and not the timer; in API mode a valid device, none of the static options, and in
-- a run without questions a device, countries and, for a replacement, a credential file; in static mode none
-- of the API options; without a mode no option that needs one.
pub resolve_request-IsAccepted :
    (upper : Text → Text) (words : Text → List Text) (args : Arguments) (request : SetupRequest)
    → (resolve_request upper words args ≡ ok request)
      ↔ ((mode : Option Mode) × (request ≡ request_of args mode) × IsAccepted upper words args mode)
resolve_request-IsAccepted upper words args request = (
  resolve_sound upper words args request,
  λ (mode, same, accepted). resolve_complete upper words args mode accepted ∙ ap ok (sym same),
)
