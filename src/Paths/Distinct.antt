-- ===== src/Paths/Distinct.antt =====
-- When two files of an interface (`LiveApplyPaths.for_interface` of
-- libexec/wg_healthcheck_setup/apply_system.py) have the same path.
use air_vpn_wg_healthcheck.Text.Split.{Lacks, rsplit_once, rsplit_once_lem}
use air_vpn_wg_healthcheck.Model.{is_interface}
use mathlib.Core.List.{append_cancel_right}
use air_vpn_wg_healthcheck.Prelude.{
  ap, inl, inr, refl, some, subst, sym, true, ℕ, ◌++◌, ◌∙◌, ◌∷◌, ◌≡◌, ◌≢◌, ◌⊎◌,
}
use air_vpn_wg_healthcheck.Text.{Text, codes}
use air_vpn_wg_healthcheck.Disk.{
  Entry, Entry-discrete, api_state, backup, candidate, config_previous, credential,
  credential_previous, global_lock, health_config, interface_lock, journal, parent, pending,
  pre_managed, profile, runtime_dir, safety, setup_guard, status,
}
use air_vpn_wg_healthcheck.Paths.{directory_name, file_name, path_text}
use air_vpn_wg_healthcheck.Paths.Forms.{
  all-Lacks, all_append, d_k, directory_same, entries, entry_of, entry_of_lem, file_name-shown,
  found_same, hidden, interface_lacks, last_of, last_of-append, pair_same, s_k, shown_lacks,
  shown_same, suffix, suffix_lacks,
}

module _ (iface : Text) (valid : is_interface iface ≡ true) where
  file_name-Lacks : (e : Entry) → Dec (e ≡ global_lock) → Lacks b'/' (file_name iface e)
  unfolding file_name
  file_name-Lacks e (yes g) = rw g (all-Lacks (codes "airvpn-api.lock") refl)
  file_name-Lacks e (no n) = subst (Lacks b'/') (sym (file_name-shown iface e n)) (
      all-Lacks _ (
        shown_lacks (hidden e) _
          (all_append iface (suffix e) (interface_lacks iface valid) (suffix_lacks e))))

  parts_of_path :
      (e : Entry)
      → rsplit_once b'/' (path_text iface e) ≡ some (directory_name (parent e), file_name iface e)
  unfolding path_text
  parts_of_path e =
      rsplit_once_lem b'/' (directory_name (parent e)) (file_name iface e)
        (file_name-Lacks e (Entry-discrete e global_lock))

  same_parts :
      (a b : Entry)
      → path_text iface a ≡ path_text iface b
      → (parent a ≡ parent b) × (file_name iface a ≡ file_name iface b)
  same_parts a b e =
      let (same_directory, name) =
        pair_same (sym (parts_of_path a) ∙ ap (rsplit_once b'/') e ∙ parts_of_path b) in
      (directory_same (parent a) (parent b) same_directory, name)

  abbrev pub Clash : Entry → Entry → Type 0
  Clash a b = (iface ≡ codes "airvpn-api") × (a ≡ global_lock) × (b ≡ interface_lock)

  not_lock : (c : ℕ) (t : Text) → ¬ (last_of c t ≡ b'k') → codes "airvpn-api.lock" ≢ iface ++ c ∷ t
  not_lock c t n e = n (sym (last_of-append 0 iface c t) ∙ sym (ap (last_of 0) e))

  global_Clash :
      (b : Entry)
      → b ≢ global_lock
      → runtime_dir ≡ parent b
      → codes "airvpn-api.lock" ≡ file_name iface b
      → Clash global_lock b
  unfolding file_name
  global_Clash status n d e = absurd (not_lock b'.' (codes "status") s_k e)
  global_Clash setup_guard n d e = absurd (not_lock b'.' (codes "setup-guard") d_k e)
  global_Clash interface_lock n d e =
      (sym (append_cancel_right (codes "airvpn-api") iface (codes ".lock") e), refl, refl)
  global_Clash global_lock n d e = absurd (n refl)
  global_Clash health_config n d e = cc
  global_Clash credential n d e = cc
  global_Clash profile n d e = cc
  global_Clash pre_managed n d e = cc
  global_Clash backup n d e = cc
  global_Clash pending n d e = cc
  global_Clash safety n d e = cc
  global_Clash candidate n d e = cc
  global_Clash api_state n d e = cc
  global_Clash journal n d e = cc
  global_Clash config_previous n d e = cc
  global_Clash credential_previous n d e = cc

  own_same :
      (a b : Entry)
      → a ≢ global_lock
      → b ≢ global_lock
      → parent a ≡ parent b
      → file_name iface a ≡ file_name iface b
      → a ≡ b
  own_same a b n m d e =
      let (hide, end) =
        shown_same iface (hidden a) (hidden b) (suffix a) (suffix b) valid
          (sym (file_name-shown iface a n) ∙ e ∙ file_name-shown iface b m) in
      found_same (entry_of_lem a n) (entry_of_lem b m) (
        ap (λ x. entry_of entries x (hidden a) (suffix a)) d
        ∙ ap (λ h. entry_of entries (parent b) h (suffix a)) hide
        ∙ ap (λ t. entry_of entries (parent b) (hidden b) t) end)

  same_path :
      (a b : Entry)
      → Dec (a ≡ global_lock)
      → Dec (b ≡ global_lock)
      → parent a ≡ parent b
      → file_name iface a ≡ file_name iface b
      → (a ≡ b) ⊎ (Clash a b ⊎ Clash b a)
  unfolding file_name
  same_path a b (yes g) (yes k) d e = inl (g ∙ sym k)
  same_path a b (yes g) (no m) d e =
      let clash = global_Clash b m (sym (ap parent g) ∙ d) (sym (ap (file_name iface) g) ∙ e) in
      inr (inl (clash.0, g, clash.2))
  same_path a b (no n) (yes k) d e =
      let clash =
        global_Clash a n (sym (ap parent k) ∙ sym d) (sym (ap (file_name iface) k) ∙ sym e) in
      inr (inr (clash.0, k, clash.2))
  same_path a b (no n) (no m) d e = inl (own_same a b n m d e)

-- Two files of a valid interface that have the same path are the same file, with one exception: for the
-- interface named airvpn-api, which the pattern of interface names allows, the lock of the interface is the
-- lock that all interfaces share.
pub path_text-Clash :
    (iface : Text) (valid : is_interface iface ≡ true) (a b : Entry)
    → path_text iface a ≡ path_text iface b
    → (a ≡ b) ⊎ (Clash iface valid a b ⊎ Clash iface valid b a)
path_text-Clash iface valid a b e =
    let (d, name) = same_parts iface valid a b e in
    same_path iface valid a b (Entry-discrete a global_lock) (Entry-discrete b global_lock) d name
