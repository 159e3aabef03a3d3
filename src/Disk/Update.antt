-- ===== src/Disk/Update.antt =====
-- Looking up names and inodes behind an update, and the staging paths, which are names of no file.
use mathlib.Core.Logic.{ite}
use air_vpn_wg_healthcheck.Prelude.{
  ==_iff, Bool-cases, Option, Option-cases, ap, inl, inr, refl, some, sym, ℕ, ◌==◌, ◌∙◌, ◌≡◌, ◌≢◌,
}
use air_vpn_wg_healthcheck.Disk.{
  Disk, Entry, FilePath, FilePath-discrete, Inode, at, bytes_at, staging, update_inode, update_name,
}

ite_yes : {P A : Type 0} (d : Dec P) (a b : A) → P → ite d a b ≡ a
ite_yes (yes p) a b q = refl
ite_yes (no n) a b q = absurd (n q)

ite_no : {P A : Type 0} (d : Dec P) (a b : A) → ¬ P → ite d a b ≡ b
ite_no (yes p) a b n = absurd (n p)
ite_no (no n') a b n = refl

pub update_name_same :
    (f : FilePath → Option ℕ) (p : FilePath) (v : Option ℕ) → update_name f p v p ≡ v
update_name_same f p v = ite_yes (FilePath-discrete p p) v (f p) refl

pub update_name_other :
    (f : FilePath → Option ℕ) (p q : FilePath) (v : Option ℕ) → q ≢ p → update_name f p v q ≡ f q
update_name_other f p q v n = ite_no (FilePath-discrete p q) v (f q) (λ e. n (sym e))

pub at_staging : (a b : Entry) → at a ≢ staging b
at_staging a b e = cc

pub update_inode_field :
    {B : Type 0} (g : Inode → B) (f : ℕ → Inode) (i : ℕ) (new : Inode) (j : ℕ)
    → g new ≡ g (f i)
    → g (update_inode f i new j) ≡ g (f j)
update_inode_field g f i new j e = elim (Bool-cases (i == j)) [
  | inl same ↦ rw same (e ∙ ap (λ k. g (f k)) ((==_iff i j).0 same))
  | inr different ↦ rw different refl
]

-- A path with the same name, among inodes with the same contents.
pub bytes_same :
    (before d : Disk) (p : FilePath)
    → ((i : ℕ) → (d.inodes i).content ≡ (before.inodes i).content)
    → d.names p ≡ before.names p
    → bytes_at d p ≡ bytes_at before p
bytes_same before d p same e = elim (Option-cases (before.names p)) [
  | inl n ↦ rw (e, n) refl
  | inr (i, n) ↦ rw (e, n) (ap some (same i))
]
