-- ===== src/Store/Replacing.antt =====
-- The replacement of a private file by its staging file (the part that `atomic_write` and
-- `copy_descriptor_atomic` of libexec/wg_healthcheck_setup/store.py share), for every way to fill the
-- staging file.
use air_vpn_wg_healthcheck.Prelude.{
  Option, Option-cases, String, [], inl, inr, none, refl, some, subst, sym, ℕ, ◌-◌, ◌∙◌, ◌≡◌,
}
use air_vpn_wg_healthcheck.Effect.{
  Exception, M, blocked, done, end_of_input, exists, failed, interrupt, io, not_found, os_error,
  setup_error, system_call, try_except, wrap_os_error, ◌>>◌,
}
use air_vpn_wg_healthcheck.Effect.Hoare.{
  After, Triple, Triple-bind, Triple-call, Triple-consequence, Triple-finally, Triple-given,
  Triple-pure, Triple-raise, Triple-try, Triple-wrap,
}
use air_vpn_wg_healthcheck.Effect.Reads.{Triple-reads}
use air_vpn_wg_healthcheck.Text.{Text}
use air_vpn_wg_healthcheck.Disk.{Disk, Entry, FilePath, at, staging, update_inode, update_name}
use air_vpn_wg_healthcheck.Disk.Update.{
  at_staging, update_inode_field, update_name_other, update_name_same,
}
use air_vpn_wg_healthcheck.Store.Create.{
  drop_closed, drop_open, replace_target, sync_installed, temporary_message,
}
use air_vpn_wg_healthcheck.Os.{replace_call, unlink_call}
use air_vpn_wg_healthcheck.Store.Atomic.{
  Installed, IsCreated, IsPrivate, Kept, Staged, Triple-create,
}
use air_vpn_wg_healthcheck.Store.{remove_name_durably, unless_absent}
use air_vpn_wg_healthcheck.Store.Reading.{Reads-silent, Reads-sync_installed}

module _ (before : Disk) (target : Entry) (uid : ℕ) (payload : Text) where
  -- The staging file is complete and private.
  abbrev pub Ready : Disk → Type 0
  Ready d = Staged before target payload d × IsPrivate uid (d.inodes before.next_inode)

  -- Nothing but the staging name changed, or the replacement is complete.
  pub data Safe (d : Disk) : Type 0 where
    still : Kept before target d → Safe d
    replaced : Installed before target uid payload d → Safe d

  -- The names behind the replacement.
  abbrev replaced_names : Disk → FilePath → Option ℕ
  replaced_names d =
      update_name (update_name d.names (at target) (some before.next_inode)) (staging target) none

  Installed-replace :
      (d : Disk)
      → Ready d
      → Installed before target uid payload (record d { names = replaced_names d })
  Installed-replace d (s, p) = record {
    names_same = λ q n m.
        update_name_other (update_name d.names (at target) (some before.next_inode))
          (staging target) q none n
        ∙ update_name_other d.names (at target) q (some before.next_inode) m
        ∙ s.kept.names_same q n;
    contents_same = s.kept.contents_same;
    named =
        update_name_other (update_name d.names (at target) (some before.next_inode))
          (staging target) (at target) none (at_staging target target)
        ∙ update_name_same d.names (at target) (some before.next_inode);
    created = s.created;
    unstaged =
        update_name_same (update_name d.names (at target) (some before.next_inode)) (staging target)
          none;
    text = s.text;
    is_private = p;
  }

  replace_done :
      (limit : Option ℕ) (d : Disk)
      → d.names (staging target) ≡ some before.next_inode
      → replace_call (staging target) (at target) limit d
        ≡ (done tt, record d { names = replaced_names d })
  unfolding replace_call
  replace_done limit d e = rw (e, replace_call) refl

  pub Triple-replace :
      Triple Ready
        (system_call (replace_call (staging target) (at target)))
        (λ _. Installed before target uid payload)
        Safe
  Triple-replace =
      Triple-call _ (λ d r. still r.0.kept) (λ _ d i. replaced i)
        (λ limit d r.
          subst (After (λ _. Installed before target uid payload) Safe)
            (sym (replace_done limit d r.0.named)) (Installed-replace d r))

  -- Removing the staging name.
  Safe-unlink :
      (d : Disk) (i : ℕ)
      → Safe d
      → Safe (record d {
        names = update_name d.names (staging target) none;
        inodes = update_inode d.inodes i (record (d.inodes i) { nlink = (d.inodes i).nlink - 1 });
      })
  Safe-unlink d i (still k) = still (record {
    names_same = λ p n. update_name_other d.names (staging target) p none n ∙ k.names_same p n;
    contents_same =
        λ j h. update_inode_field (λ f. f.content) d.inodes i _ j refl ∙ k.contents_same j h;
  })
  Safe-unlink d i (replaced x) = replaced (record {
    names_same = λ p n m. update_name_other d.names (staging target) p none n ∙ x.names_same p n m;
    contents_same =
        λ j h. update_inode_field (λ f. f.content) d.inodes i _ j refl ∙ x.contents_same j h;
    named =
        update_name_other d.names (staging target) (at target) none (at_staging target target)
        ∙ x.named;
    created = x.created;
    unstaged = update_name_same d.names (staging target) none;
    text = update_inode_field (λ f. f.content) d.inodes i _ before.next_inode refl ∙ x.text;
    is_private = record {
      mode_private =
          update_inode_field (λ f. f.mode) d.inodes i _ before.next_inode refl
          ∙ x.is_private.mode_private;
      owned =
          update_inode_field (λ f. f.uid) d.inodes i _ before.next_inode refl ∙ x.is_private.owned;
    };
  })

  -- The disk behind the removal of a name of the inode.
  abbrev unlinked : Disk → ℕ → Disk
  unlinked d i = record d {
    names = update_name d.names (staging target) none;
    inodes = update_inode d.inodes i (record (d.inodes i) { nlink = (d.inodes i).nlink - 1 });
  }

  unlink_none :
      (limit : Option ℕ) (d : Disk)
      → d.names (staging target) ≡ none
      → unlink_call (staging target) limit d ≡ (failed not_found, d)
  unfolding unlink_call
  unlink_none limit d e = rw (e, unlink_call) refl

  unlink_some :
      (limit : Option ℕ) (d : Disk) (i : ℕ)
      → d.names (staging target) ≡ some i
      → unlink_call (staging target) limit d ≡ (done tt, unlinked d i)
  unfolding unlink_call
  unlink_some limit d i e = rw (e, unlink_call) refl

  unlink_After :
      (limit : Option ℕ) (d : Disk)
      → Safe d
      → After (λ _. Safe) Safe (unlink_call (staging target) limit d)
  unlink_After limit d s = elim (Option-cases (d.names (staging target))) [
    | inl e ↦ subst (After (λ _. Safe) Safe) (sym (unlink_none limit d e)) s
    | inr (i, e) ↦
        subst (After (λ _. Safe) Safe) (sym (unlink_some limit d i e)) (Safe-unlink d i s)
  ]

  Triple-unlink : Triple Safe (system_call (unlink_call (staging target))) (λ _. Safe) Safe
  Triple-unlink = Triple-call _ (λ d s. s) (λ _ d s. s) unlink_After

  unless_absent-Triple :
      (message : String) (e : Exception) → Triple Safe (unless_absent message e) (λ _. Safe) Safe
  unless_absent-Triple message (os_error not_found) = Triple-pure tt (λ d s. s)
  unless_absent-Triple message (os_error exists) = Triple-raise _ (λ d s. s)
  unless_absent-Triple message (os_error blocked) = Triple-raise _ (λ d s. s)
  unless_absent-Triple message (os_error io) = Triple-raise _ (λ d s. s)
  unless_absent-Triple message (setup_error x) = Triple-raise _ (λ d s. s)
  unless_absent-Triple message interrupt = Triple-raise _ (λ d s. s)
  unless_absent-Triple message end_of_input = Triple-raise _ (λ d s. s)

  Triple-remove :
      (message : String)
      → Triple Safe (remove_name_durably (staging target) message) (λ _. Safe) Safe
  unfolding remove_name_durably
  Triple-remove message =
      Triple-bind (λ _. Safe) (Triple-try Triple-unlink (λ d s. s) (unless_absent-Triple message))
        (λ _. Triple-wrap message (Triple-reads Reads-silent))

  Triple-drop_closed :
      {Q : Unit {0} → Disk → Type 0} (message : String) (e : Exception)
      → Triple Safe (drop_closed (staging target) message e) Q Safe
  unfolding drop_closed
  Triple-drop_closed message e =
      Triple-bind (λ _. Safe) (Triple-remove message) (λ _. Triple-raise e (λ d s. s))

  Triple-drop_open :
      {Q : Unit {0} → Disk → Type 0} (message : String) (e : Exception)
      → Triple Safe (drop_open (staging target) message e) Q Safe
  unfolding drop_open
  Triple-drop_open message e =
      Triple-bind (λ _. Safe)
        (Triple-finally (Triple-reads Reads-silent) (λ _. Triple-remove message)
          (Triple-remove message) (λ d s. s))
        (λ _. Triple-raise e (λ d s. s))

  pub Triple-replace_target :
      (message : String) (fill : ℕ → M (Unit {0}))
      → Triple (Staged before target []) (fill before.next_inode) (λ _. Ready) (Kept before target)
      → Triple
          (λ d. d ≡ before)
          (replace_target target message fill)
          (λ _. Installed before target uid payload)
          Safe
  unfolding replace_target
  Triple-replace_target message fill filled =
      Triple-bind (IsCreated before target)
        (Triple-consequence (Triple-wrap message (Triple-create before target)) (λ d e. e)
          (λ _ d s. s) (λ d k. still k))
        (λ fd. Triple-given λ same.
          subst
            (λ n.
              Triple (Staged before target []) (rest n) (λ _. Installed before target uid payload)
                Safe)
            (sym same) after_create)
    where
      install : Unit {0} → M (Unit {0})
      install _ = do
        try_except (wrap_os_error message (system_call (replace_call (staging target) (at target))))
            (drop_closed (staging target) temporary_message)
        wrap_os_error message (sync_installed target)

      rest : ℕ → M (Unit {0})
      rest n = do
        try_except (wrap_os_error message (fill n)) (drop_open (staging target) temporary_message)
        install tt

      installed : Triple Ready (install tt) (λ _. Installed before target uid payload) Safe
      installed =
          Triple-bind (λ _. Installed before target uid payload)
            (Triple-try (Triple-wrap message Triple-replace) (λ d s. s)
              (Triple-drop_closed temporary_message))
            (λ _.
              Triple-consequence (Triple-wrap message (Triple-reads (Reads-sync_installed target)))
                (λ d i. i) (λ _ d i. i) (λ d i. replaced i))

      after_create :
          Triple
            (Staged before target [])
            (rest before.next_inode)
            (λ _. Installed before target uid payload)
            Safe
      after_create =
          Triple-bind (λ _. Ready)
            (Triple-try
              (Triple-wrap message
                (Triple-consequence filled (λ d s. s) (λ _ d r. r) (λ d k. still k)))
              (λ d s. s) (Triple-drop_open temporary_message))
            (λ _. installed)
