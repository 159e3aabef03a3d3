-- ===== src/Store/Atomic.antt =====
-- The states that a private file goes through while it is replaced (`atomic_write` and
-- `copy_descriptor_atomic` of libexec/wg_healthcheck_setup/store.py), and what each system call does
-- to them.
use air_vpn_wg_healthcheck.Disk.Update.{update_name_other, update_name_same}
use air_vpn_wg_healthcheck.Effect.Reads.{Reads, Triple-reads}
use air_vpn_wg_healthcheck.Store.Create.{own, some_bytes, write_all}
use air_vpn_wg_healthcheck.Store.Reading.{Reads-geteuid}
use air_vpn_wg_healthcheck.Prelude.{
  ==_refl, Bool-cases, Option, Option-cases, [], ap, append-nil, append_assoc, ap₂, arith, drop,
  inl, inr, length, none, refl, some, subst, suc, sym, take, take-append-drop, take_all, zero, ℕ,
  ◌++◌, ◌+◌, ◌<◌, ◌==◌, ◌∙◌, ◌∷◌, ◌≡◌, ◌≢◌,
}
use air_vpn_wg_healthcheck.Effect.{M, done, exists, failed, system_call, when}
use air_vpn_wg_healthcheck.Effect.Hoare.{
  After, Triple, Triple-bind, Triple-call, Triple-consequence, Triple-pure, Triple-raise,
}
use air_vpn_wg_healthcheck.Text.{Text}
use air_vpn_wg_healthcheck.Disk.{
  Disk, Entry, FilePath, Inode, at, staging, update_inode, update_name,
}
use air_vpn_wg_healthcheck.Os.{create_call, fchmod_call, fchown_call, new_inode, up_to, write_call}

-- Compared with the disk at the start: nothing changed but the staging name, and inodes that are new.
pub record Kept (before : Disk) (target : Entry) (d : Disk) : Type 0 where
  pub names_same : (p : FilePath) → p ≢ staging target → d.names p ≡ before.names p
  pub contents_same :
      (i : ℕ) → i < before.next_inode → (d.inodes i).content ≡ (before.inodes i).content

-- The staging name is the new file, and so much of it is written.
pub record Staged (before : Disk) (target : Entry) (written : Text) (d : Disk) : Type 0 where
  pub kept : Kept before target d
  pub named : d.names (staging target) ≡ some before.next_inode
  pub created : before.next_inode < d.next_inode
  pub text : (d.inodes before.next_inode).content ≡ written

-- The mode and the owner that `atomic_write` tests before it installs the file.
pub record IsPrivate (uid : ℕ) (f : Inode) : Type 0 where
  pub mode_private : f.mode ≡ 0o600
  pub owned : f.uid ≡ uid

-- The target is the new file, and the staging name is gone.
pub record Installed (before : Disk) (target : Entry) (uid : ℕ) (payload : Text) (d : Disk)
    : Type 0 where
  pub names_same : (p : FilePath) → p ≢ staging target → p ≢ at target → d.names p ≡ before.names p
  pub contents_same :
      (i : ℕ) → i < before.next_inode → (d.inodes i).content ≡ (before.inodes i).content
  pub named : d.names (at target) ≡ some before.next_inode
  pub created : before.next_inode < d.next_inode
  pub unstaged : d.names (staging target) ≡ none
  pub text : (d.inodes before.next_inode).content ≡ payload
  pub is_private : IsPrivate uid (d.inodes before.next_inode)

pub take-take : (n : ℕ) (bytes : Text) → take (length (take n bytes)) bytes ≡ take n bytes
take-take zero bytes = refl
take-take (suc n) [] = refl
take-take (suc n) (c ∷ bytes) = ap (λ r. c ∷ r) (take-take n bytes)

pub take-up_to :
    (limit : Option ℕ) (bytes : Text) → take (length (up_to limit bytes)) bytes ≡ up_to limit bytes
take-up_to none bytes = take_all bytes
take-up_to (some n) bytes = take-take n bytes

module _ (before : Disk) (target : Entry) where
  pub Kept-start : (d : Disk) → d ≡ before → Kept before target d
  Kept-start d e = record {
    names_same = λ p n. ap (λ (x : Disk). x.names p) e;
    contents_same = λ i h. ap (λ (x : Disk). (x.inodes i).content) e;
  }

  update_inode_new :
      (d : Disk) (f : Inode) (i : ℕ)
      → i < before.next_inode
      → update_inode d.inodes before.next_inode f i ≡ d.inodes i
  update_inode_new d f i h = ground arith

  -- The new file changes.
  Staged-change :
      (written : Text) (d : Disk) (f : Inode)
      → Staged before target written d
      → Staged before target f.content
          (record d { inodes = update_inode d.inodes before.next_inode f })
  Staged-change written d f s = record {
    kept = record {
      names_same = s.kept.names_same;
      contents_same = λ i h.
          ap (λ (x : Inode). x.content) (update_inode_new d f i h) ∙ s.kept.contents_same i h;
    };
    named = s.named;
    created = s.created;
    text = rw (==_refl before.next_inode) refl;
  }

  Staged-change_eq :
      (written : Text) {text : Text} (d : Disk) (f : Inode)
      → f.content ≡ text
      → Staged before target written d
      → Staged before target text (record d { inodes = update_inode d.inodes before.next_inode f })
  Staged-change_eq written d f e s =
      subst
        (λ t.
          Staged before target t (record d { inodes = update_inode d.inodes before.next_inode f }))
        e (Staged-change written d f s)

  -- The new file, as it is created.
  Staged-new :
      (f : Inode)
      → f.content ≡ []
      → Staged before target [] (record before {
        names = update_name before.names (staging target) (some before.next_inode);
        inodes = update_inode before.inodes before.next_inode f;
        next_inode = before.next_inode + 1;
      })
  Staged-new f e = record {
    kept = record {
      names_same =
          λ p n. update_name_other before.names (staging target) p (some before.next_inode) n;
      contents_same = λ i h. ap (λ (x : Inode). x.content) (update_inode_new before f i h);
    };
    named = update_name_same before.names (staging target) (some before.next_inode);
    created = omega arith;
    text = rw (==_refl before.next_inode) e;
  }

  abbrev pub IsCreated : ℕ → Disk → Type 0
  IsCreated fd d = (fd ≡ before.next_inode) × Staged before target [] d

  create_none :
      (limit : Option ℕ)
      → before.names (staging target) ≡ none
      → (create_call (staging target) 0o600 limit before ≡ (
        done before.next_inode,
        record before {
          names = update_name before.names (staging target) (some before.next_inode);
          inodes = update_inode before.inodes before.next_inode (new_inode before 0o600);
          next_inode = before.next_inode + 1;
        },
      ))
  unfolding create_call
  create_none limit e = rw (e, create_call) refl

  create_some :
      (limit : Option ℕ) (i : ℕ)
      → before.names (staging target) ≡ some i
      → create_call (staging target) 0o600 limit before ≡ (failed exists, before)
  unfolding create_call
  create_some limit i e = rw (e, create_call) refl

  create_After :
      (limit : Option ℕ)
      → After IsCreated (Kept before target) (create_call (staging target) 0o600 limit before)
  create_After limit = elim (Option-cases (before.names (staging target))) [
    | inl e ↦
        subst (After IsCreated (Kept before target)) (sym (create_none limit e))
          (refl, Staged-new (new_inode before 0o600) refl)
    | inr (i, e) ↦
        subst (After IsCreated (Kept before target)) (sym (create_some limit i e))
          (Kept-start before refl)
  ]

  pub Triple-create :
      Triple
        (λ d. d ≡ before)
        (system_call (create_call (staging target) 0o600))
        IsCreated
        (Kept before target)
  Triple-create =
      Triple-call _ Kept-start (λ _ d s. s.1.kept)
        (λ limit d e.
          subst
            (λ x. After IsCreated (Kept before target) (create_call (staging target) 0o600 limit x))
            (sym e) (create_After limit))

  pub Triple-fchmod :
      (written : Text) (mode : ℕ)
      → Triple
          (Staged before target written)
          (system_call (fchmod_call before.next_inode mode))
          (λ _. Staged before target written)
          (Kept before target)
  unfolding fchmod_call
  Triple-fchmod written mode =
      Triple-call _ (λ d s. s.kept) (λ _ d s. s.kept)
        (λ limit d s.
          Staged-change_eq written d (record (d.inodes before.next_inode) { mode = mode }) s.text s)

  pub Triple-fchown :
      (written : Text) (uid gid : ℕ)
      → Triple
          (Staged before target written)
          (system_call (fchown_call before.next_inode uid gid))
          (λ _. Staged before target written)
          (Kept before target)
  unfolding fchown_call
  Triple-fchown written uid gid =
      Triple-call _ (λ d s. s.kept) (λ _ d s. s.kept)
        (λ limit d s.
          Staged-change_eq written d (record (d.inodes before.next_inode) { uid = uid; gid = gid })
            s.text s)

  -- A write adds the first bytes of those it was given, and says how many.
  pub Triple-write :
      (written bytes : Text)
      → Triple
          (Staged before target written)
          (system_call (write_call before.next_inode bytes))
          (λ sent. Staged before target (written ++ take sent bytes))
          (Kept before target)
  unfolding write_call
  Triple-write written bytes =
      Triple-call _ (λ d s. s.kept) (λ _ d s. s.kept)
        (λ limit d s.
          let f = d.inodes before.next_inode in
          Staged-change_eq written d
            (record f { content = f.content ++ up_to limit bytes; mtime = f.mtime + 1 })
            (ap₂ (λ a b. a ++ b) s.text (sym (take-up_to limit bytes))) s)

  -- A call that only reads, between two writes.
  pub Triple-Staged :
      {A : Type 0} (written : Text) {m : M A}
      → Reads m
      → Triple
          (Staged before target written)
          m
          (λ _. Staged before target written)
          (Kept before target)
  Triple-Staged written r =
      Triple-consequence (Triple-reads r) (λ d s. s) (λ _ d s. s) (λ d s. s.kept)

  pub Triple-own :
      (written : Text) (uid : ℕ)
      → Triple
          (Staged before target written)
          (own before.next_inode uid)
          (λ _. Staged before target written)
          (Kept before target)
  unfolding own
  Triple-own written uid =
      Triple-bind (λ _. Staged before target written) (Triple-fchmod written 0o600)
        λ _.
          Triple-bind (λ _. Staged before target written) (Triple-Staged written Reads-geteuid)
            (owned)
    where
      owned :
          (euid : ℕ)
          → Triple
              (Staged before target written)
              (when (euid == 0) (system_call (fchown_call before.next_inode uid 0)))
              (λ _. Staged before target written)
              (Kept before target)
      owned euid = elim (Bool-cases (euid == 0)) [
        | inl e ↦ rw e (Triple-fchown written uid 0)
        | inr e ↦ rw e (Triple-pure tt (λ d s. s))
      ]

  pub Triple-write_all :
      (fuel : ℕ) (written rest : Text)
      → Triple
          (Staged before target written)
          (write_all fuel before.next_inode rest)
          (λ _. Staged before target (written ++ rest))
          (Kept before target)
  unfolding write_all
  Triple-write_all fuel written [] = rw (append-nil written) (Triple-pure tt (λ d s. s))
  Triple-write_all zero written (c ∷ rest) = Triple-raise _ (λ d s. s.kept)
  Triple-write_all (suc fuel) written (c ∷ rest) =
      Triple-bind (λ sent. Staged before target (written ++ take sent (c ∷ rest)))
        (Triple-write written (c ∷ rest))
        (more
          (λ sent. Triple-write_all fuel (written ++ take sent (c ∷ rest)) (drop sent (c ∷ rest))))
    where
      Next : ℕ → Text → Type 0
      Next sent text =
          Triple (Staged before target (written ++ take sent (c ∷ rest)))
            (write_all fuel before.next_inode (drop sent (c ∷ rest)))
            (λ _. Staged before target text) (Kept before target)

      more :
          ((sent : ℕ) → Next sent ((written ++ take sent (c ∷ rest)) ++ drop sent (c ∷ rest)))
          → (sent : ℕ)
          → Triple
              (Staged before target (written ++ take sent (c ∷ rest)))
              (some_bytes (λ n. write_all fuel before.next_inode (drop n (c ∷ rest))) sent)
              (λ _. Staged before target (written ++ c ∷ rest))
              (Kept before target)
      more next zero = Triple-raise _ (λ d s. s.kept)
      more next (suc n) =
          subst (Next (suc n))
            (append_assoc written (take (suc n) (c ∷ rest)) (drop (suc n) (c ∷ rest))
              ∙ ap (λ r. written ++ r) (take-append-drop (suc n) (c ∷ rest)))
            (next (suc n))
