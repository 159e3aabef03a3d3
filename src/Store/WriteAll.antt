-- ===== src/Store/WriteAll.antt =====
-- Complete runs of `_write_all` (libexec/wg_healthcheck_setup/store.py).
use air_vpn_wg_healthcheck.Store.Atomic.{take-take}
use air_vpn_wg_healthcheck.Prelude.{
  &&_parts, ==_refl, Bool, List, [], all, ap, append-nil, append_assoc, arith, drop, false, leb,
  length, length-drop, refl, suc, sym, take, take-append-drop, take_all, true, zero, ℕ, ◌++◌, ◌+◌,
  ◌∙◌, ◌∷◌, ◌≡◌, ◌≤◌,
}
use air_vpn_wg_healthcheck.Effect.{
  Event, M, World, fail, go, interrupted, interrupted_late, kill, returned, short, system_call,
  ◌>>=◌,
}
use air_vpn_wg_healthcheck.Text.{Text}
use air_vpn_wg_healthcheck.Disk.{Disk, Inode, update_inode}
use air_vpn_wg_healthcheck.Os.{write_call}
use air_vpn_wg_healthcheck.Store.Create.{some_bytes, write_all}

-- The call goes through, in full or with at least one byte.
abbrev pub is_progress : Event → Bool
is_progress go = true
is_progress (short n) = leb 1 n
is_progress _ = false

abbrev world : Disk → List Event → World
world d es = record { disk = d; events = es }

abbrev pub file : World → ℕ → Text
file w fd = (w.disk.inodes fd).content

length-take : (n : ℕ) (s : Text) → length (take n s) ≤ length s
length-take zero s = omega arith
length-take (suc n) [] = omega arith
length-take (suc n) (c ∷ s) = omega (arith, length-take n s)

module _ (fd : ℕ) where
  -- The file behind a write of some bytes.
  appended : Disk → Text → Inode
  appended d bytes =
      let f = d.inodes fd in record f { content = f.content ++ bytes; mtime = f.mtime + 1 }

  file-appended :
      (d : Disk) (es : List Event) (bytes : Text)
      → file (world (record d { inodes = update_inode d.inodes fd (appended d bytes) }) es) fd
        ≡ file (world d es) fd ++ bytes
  unfolding appended
  file-appended d es bytes = rw (==_refl fd, file) refl

  -- One write put some bytes, and the writes that follow make progress too.
  record Step (bytes : Text) (w : World) : Type 0 where
    sent : ℕ
    next : World
    reply : system_call (write_call fd bytes) w ≡ (returned (suc sent), next)
    progress : all is_progress next.events ≡ true
    text : file next fd ≡ file w fd ++ take (suc sent) bytes

  write-Step :
      (c : ℕ) (rest : Text) (d : Disk) (es : List Event)
      → all is_progress es ≡ true
      → Step (c ∷ rest) (world d es)
  unfolding system_call write_call appended
  write-Step c rest d [] h = record {
    sent = length rest;
    next = _;
    reply = refl;
    progress = refl;
    text =
        file-appended d [] (c ∷ rest)
        ∙ ap (λ t. (d.inodes fd).content ++ c ∷ t) (sym (take_all rest));
  }
  write-Step c rest d (go ∷ es) h = record {
    sent = length rest;
    next = _;
    reply = refl;
    progress = h;
    text =
        file-appended d es (c ∷ rest)
        ∙ ap (λ t. (d.inodes fd).content ++ c ∷ t) (sym (take_all rest));
  }
  write-Step c rest d (short zero ∷ es) h = absurd (ground arith)
  write-Step c rest d (short (suc n) ∷ es) h = record {
    sent = length (take n rest);
    next = _;
    reply = refl;
    progress = (&&_parts (leb 1 (suc n)) (all is_progress es) h).1;
    text =
        file-appended d es (c ∷ take n rest)
        ∙ ap (λ t. (d.inodes fd).content ++ c ∷ t) (sym (take-take n rest));
  }
  write-Step c rest d (fail e ∷ es) h = cc
  write-Step c rest d (interrupted ∷ es) h = cc
  write-Step c rest d (interrupted_late ∷ es) h = cc
  write-Step c rest d (kill ∷ es) h = cc

  bind_reply :
      {A B : Type 0} (m : M A) (f : A → M B) (w : World) {a : A} {next : World}
      → m w ≡ (returned a, next)
      → (m >>= f) w ≡ f a next
  unfolding ◌>>=◌
  bind_reply m f w e = rw e refl

  IsWritten : ℕ → Text → World → Type 0
  IsWritten fuel bytes w =
      (next : World) × (write_all fuel fd bytes w ≡ (returned tt, next))
      × (file next fd ≡ file w fd ++ bytes)

  written :
      (fuel : ℕ) (bytes : Text) (w : World)
      → length bytes ≤ fuel
      → all is_progress w.events ≡ true
      → IsWritten fuel bytes w
  unfolding write_all IsWritten
  written fuel [] w h p = (w, refl, sym (append-nil (file w fd)))
  written zero (c ∷ rest) w h p = absurd (omega arith)
  written (suc fuel) (c ∷ rest) w h p =
      let step = write-Step c rest w.disk w.events p in
      let (end, run, text) =
        written fuel (drop (suc step.sent) (c ∷ rest)) step.next
          (omega (arith, length-drop step.sent rest)) step.progress in
      (
        end,
        bind_reply (system_call (write_call fd (c ∷ rest)))
              (some_bytes (λ n. write_all fuel fd (drop n (c ∷ rest)))) w step.reply
            ∙ run,
        text
            ∙ ap (λ t. t ++ drop (suc step.sent) (c ∷ rest)) step.text
            ∙ append_assoc (file w fd) (take (suc step.sent) (c ∷ rest))
                (drop (suc step.sent) (c ∷ rest))
            ∙ ap (λ t. file w fd ++ t) (take-append-drop (suc step.sent) (c ∷ rest)),
      )

-- If no write fails and each transfers at least one byte, however few, then `write_all` with as many
-- rounds as there are bytes returns, and the file is what it was followed by the whole payload.
pub write_all-returns :
    (fd : ℕ) (payload : Text) (w : World)
    → all is_progress w.events ≡ true
    → (next : World) × (write_all (length payload) fd payload w ≡ (returned tt, next))
      × (file next fd ≡ file w fd ++ payload)
unfolding IsWritten
write_all-returns fd payload w p = written fd (length payload) payload w (omega arith) p
