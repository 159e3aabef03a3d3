-- ===== src/Paths/Forms.antt =====
-- The directory and the form of name of each file of an interface (`LiveApplyPaths.for_interface` of
-- libexec/wg_healthcheck_setup/apply_system.py), and what they tell about it.
use air_vpn_wg_healthcheck.Text.Split.{Lacks}
use air_vpn_wg_healthcheck.Model.{is_alphanumeric, is_interface, is_interface_tail}
use mathlib.Core.Logic.{ite}
use mathlib.Core.List.{append_cancel_left}
use air_vpn_wg_healthcheck.Prelude.{
  &&_intro, &&_parts, Bool, List, Option, [], all, ap, arith, false, if◌then◌else◌, leb, length,
  none, not, refl, some, true, ℕ, ◌&&◌, ◌++◌, ◌==◌, ◌∷◌, ◌≡◌, ◌≢◌,
}
use air_vpn_wg_healthcheck.Text.{Text, codes, text_eq}
use air_vpn_wg_healthcheck.Disk.{
  Directory, Directory-discrete, Entry, api_state, backup, candidate, config_previous, credential,
  credential_previous, global_lock, health_config, health_dir, interface_lock, journal, parent,
  pending, pre_managed, profile, runtime_dir, safety, setup_guard, state_dir, status, wireguard_dir,
}
use air_vpn_wg_healthcheck.Paths.{directory_name, file_name}

-- What stands before and behind the interface in a name.
abbrev pub hidden : Entry → Bool
hidden candidate = true
hidden config_previous = true
hidden credential_previous = true
hidden _ = false

abbrev pub suffix : Entry → Text
suffix health_config = codes ".conf"
suffix credential = codes ".api-key"
suffix profile = codes ".conf"
suffix pre_managed = codes ".conf.pre-managed"
suffix backup = codes ".conf.bak-healthcheck"
suffix pending = codes ".conf.pending-healthcheck"
suffix safety = codes ".conf.safety-healthcheck"
suffix candidate = codes ".conf.managed-candidate"
suffix api_state = codes ".api-state"
suffix status = codes ".status"
suffix setup_guard = codes ".setup-guard"
suffix interface_lock = codes ".lock"
suffix global_lock = []
suffix journal = codes ".setup-transaction"
suffix config_previous = codes ".conf.setup-previous"
suffix credential_previous = codes ".api-key.setup-previous"

abbrev shown : Bool → Text → Text
shown true name = b'.' ∷ name
shown false name = name

abbrev pub entries : List Entry
entries =
    health_config ∷ credential ∷ profile ∷ pre_managed ∷ backup ∷ pending ∷ safety ∷ candidate
    ∷ api_state ∷ status ∷ setup_guard ∷ interface_lock ∷ journal ∷ config_previous
    ∷ credential_previous ∷ []

abbrev same_bool : Bool → Bool → Bool
same_bool a b = if a then b else not b

-- The entry with this directory and this form of name.
pub entry_of : List Entry → Directory → Bool → Text → Option Entry
entry_of [] d h s = none
entry_of (e ∷ es) d h s =
    let rest = entry_of es d h s in
    ite (Directory-discrete (parent e) d)
      (if same_bool (hidden e) h && text_eq (suffix e) s then some e else rest) rest

pub entry_of_lem :
    (e : Entry) → e ≢ global_lock → entry_of entries (parent e) (hidden e) (suffix e) ≡ some e
unfolding entry_of text_eq Directory-discrete
entry_of_lem health_config n = refl
entry_of_lem credential n = refl
entry_of_lem profile n = refl
entry_of_lem pre_managed n = refl
entry_of_lem backup n = refl
entry_of_lem pending n = refl
entry_of_lem safety n = refl
entry_of_lem candidate n = refl
entry_of_lem api_state n = refl
entry_of_lem status n = refl
entry_of_lem setup_guard n = refl
entry_of_lem interface_lock n = refl
entry_of_lem global_lock n = absurd (n refl)
entry_of_lem journal n = refl
entry_of_lem config_previous n = refl
entry_of_lem credential_previous n = refl

pub file_name-shown :
    (iface : Text) (e : Entry)
    → e ≢ global_lock
    → file_name iface e ≡ shown (hidden e) (iface ++ suffix e)
unfolding file_name
file_name-shown iface health_config n = refl
file_name-shown iface credential n = refl
file_name-shown iface profile n = refl
file_name-shown iface pre_managed n = refl
file_name-shown iface backup n = refl
file_name-shown iface pending n = refl
file_name-shown iface safety n = refl
file_name-shown iface candidate n = refl
file_name-shown iface api_state n = refl
file_name-shown iface status n = refl
file_name-shown iface setup_guard n = refl
file_name-shown iface interface_lock n = refl
file_name-shown iface global_lock n = absurd (n refl)
file_name-shown iface journal n = refl
file_name-shown iface config_previous n = refl
file_name-shown iface credential_previous n = refl

pub all-Lacks : (s : Text) → all (λ d. not (d == b'/')) s ≡ true → Lacks b'/' s
all-Lacks [] h = tt
all-Lacks (d ∷ s) h = (ground arith, all-Lacks s (ground arith))

pub all_append :
    (s t : Text)
    → all (λ d. not (d == b'/')) s ≡ true
    → all (λ d. not (d == b'/')) t ≡ true
    → all (λ d. not (d == b'/')) (s ++ t) ≡ true
all_append [] t h k = k
all_append (d ∷ s) t h k = ground (arith, all_append s t)

tail_lacks : (s : Text) → all is_interface_tail s ≡ true → all (λ d. not (d == b'/')) s ≡ true
tail_lacks [] h = refl
tail_lacks (d ∷ s) h =
    let (here, there) = &&_parts (is_interface_tail d) (all is_interface_tail s) h in
    &&_intro (not (d == b'/')) _ (ground arith) (tail_lacks s there)

pub suffix_lacks : (e : Entry) → all (λ d. not (d == b'/')) (suffix e) ≡ true
suffix_lacks health_config = refl
suffix_lacks credential = refl
suffix_lacks profile = refl
suffix_lacks pre_managed = refl
suffix_lacks backup = refl
suffix_lacks pending = refl
suffix_lacks safety = refl
suffix_lacks candidate = refl
suffix_lacks api_state = refl
suffix_lacks status = refl
suffix_lacks setup_guard = refl
suffix_lacks interface_lock = refl
suffix_lacks global_lock = refl
suffix_lacks journal = refl
suffix_lacks config_previous = refl
suffix_lacks credential_previous = refl

pub shown_lacks :
    (h : Bool) (name : Text)
    → all (λ d. not (d == b'/')) name ≡ true
    → all (λ d. not (d == b'/')) (shown h name) ≡ true
shown_lacks true name k = k
shown_lacks false name k = k

pub shown_same :
    (iface : Text) (h k : Bool) (s t : Text)
    → is_interface iface ≡ true
    → shown h (iface ++ s) ≡ shown k (iface ++ t)
    → (h ≡ k) × (s ≡ t)
unfolding is_interface
shown_same [] h k s t valid e = cc
shown_same (c ∷ iface) true true s t valid e = (refl, append_cancel_left (c ∷ iface) s t cc)
shown_same (c ∷ iface) false false s t valid e = (refl, append_cancel_left (c ∷ iface) s t e)
shown_same (c ∷ iface) true false s t valid e = let dot : b'.' ≡ c = cc in ground arith
shown_same (c ∷ iface) false true s t valid e = let dot : c ≡ b'.' = cc in ground arith

directories : List Directory
directories = health_dir ∷ wireguard_dir ∷ state_dir ∷ runtime_dir ∷ []

directory_of : List Directory → Text → Option Directory
directory_of [] name = none
directory_of (d ∷ ds) name =
    let rest = directory_of ds name in if text_eq (directory_name d) name then some d else rest

directory_of_lem : (d : Directory) → directory_of directories (directory_name d) ≡ some d
unfolding directories directory_of directory_name text_eq
directory_of_lem health_dir = refl
directory_of_lem wireguard_dir = refl
directory_of_lem state_dir = refl
directory_of_lem runtime_dir = refl

pub found_same :
    {A : Type 0} {a b : A} {found found' : Option A}
    → found ≡ some a
    → found' ≡ some b
    → found ≡ found'
    → a ≡ b
found_same e f same = cc

pub directory_same : (a b : Directory) → directory_name a ≡ directory_name b → a ≡ b
directory_same a b e =
    found_same (directory_of_lem a) (directory_of_lem b) (ap (directory_of directories) e)

pub pair_same :
    {a b c d : Text}
    → ◌≡◌ {A = Option (Text × Text)} (some (a, b)) (some (c, d))
    → (a ≡ c) × (b ≡ d)
pair_same e = (cc, cc)

pub interface_lacks :
    (iface : Text) → is_interface iface ≡ true → all (λ d. not (d == b'/')) iface ≡ true
unfolding is_interface
interface_lacks [] h = cc
interface_lacks (c ∷ s) h =
    let (start, fits) =
      &&_parts (is_alphanumeric c && all is_interface_tail s) (leb (length s) 14) h in
    let (first, tail) = &&_parts (is_alphanumeric c) (all is_interface_tail s) start in
    &&_intro (not (c == b'/')) _ (ground arith) (tail_lacks s tail)

pub s_k : ◌≢◌ {A = ℕ} b's' b'k'
s_k h = ground arith

pub d_k : ◌≢◌ {A = ℕ} b'd' b'k'
d_k h = ground arith

abbrev pub last_of : ℕ → Text → ℕ
last_of d [] = d
last_of d (c ∷ s) = last_of c s

pub last_of-append : (d : ℕ) (s : Text) (c : ℕ) (t : Text) → last_of d (s ++ c ∷ t) ≡ last_of c t
last_of-append d [] c t = refl
last_of-append d (e ∷ s) c t = last_of-append e s c t
