-- ===== src/Effect.antt =====
-- Python statements that touch the system, as actions: a state of the disk, exceptions that a
-- handler can catch, and a process that may be killed between two system calls. What the
-- environment does to each call is a list of events, so that a theorem about every list is a
-- theorem about every placement of failures, interrupts and crashes.
pub mod Hoare
pub mod Reads
pub mod Missing
pub mod Returning
use air_vpn_wg_healthcheck.Text.{Text}
use air_vpn_wg_healthcheck.Disk.{Disk}
use air_vpn_wg_healthcheck.Prelude.{Bool, List, Option, String, [], false, none, some, true, ℕ, ◌∷◌}

-- The subclasses of OSError that the program tells apart.
pub data Errno : Type 0 where
  not_found exists blocked io : Errno

-- A message of the source, or one that is computed from what a child process printed.
pub data Message : Type 0 where
  literal : String → Message
  computed : Text → Message

-- SetupError with its message, OSError, EOFError, and KeyboardInterrupt or SystemExit.
pub data Exception : Type 0 where
  setup_error : Message → Exception
  os_error : Errno → Exception
  end_of_input interrupt : Exception

-- `halted`: the process was killed; no handler runs.
pub data Outcome (A : Type 0) : Type 0 where
  returned : A → Outcome A
  raised : Exception → Outcome A
  halted : Outcome A

-- The errors that a call may meet whatever the disk holds. That a name is missing or exists is for
-- the disk to say.
pub data Fault : Type 0 where
  held broken : Fault

abbrev pub errno_of : Fault → Errno
errno_of held = blocked
errno_of broken = io

-- What meets a system call: nothing, an error in place of its effect, an interrupt before or after
-- its effect, the end of the process, or a transfer that stops after some bytes.
pub data Event : Type 0 where
  go : Event
  fail : Fault → Event
  interrupted interrupted_late : Event
  kill : Event
  short : ℕ → Event

pub record World : Type 0 where
  pub disk : Disk
  pub events : List Event

abbrev pub M : Type 0 → Type 0
M A = World → Outcome A × World

abbrev pub pure : {A : Type 0} → A → M A
pure a w = (returned a, w)

-- the process was killed
abbrev pub stop : {A : Type 0} → M A
stop w = (halted, w)

abbrev pub raise : {A : Type 0} → Exception → M A
raise e w = (raised e, w)

abbrev pub setup : String → Exception
setup message = setup_error (literal message)

-- raise SetupError(message)
abbrev pub raise_setup : {A : Type 0} → String → M A
raise_setup message = raise (setup message)

abbrev pub continue : {A B : Type 0} → Outcome A → (A → M B) → M B
continue (returned a) f w = f a w
continue (raised e) f w = (raised e, w)
continue halted f w = (halted, w)

infixl 10 ◌>>=◌ ◌>>◌
unfoldable pub ◌>>=◌ : {A B : Type 0} → M A → (A → M B) → M B
◌>>=◌ m f w = let (r, w') = m w in continue r f w'

abbrev pub ◌>>◌ : {A B : Type 0} → M A → M B → M B
m >> k = m >>= λ _. k

abbrev pub handle : {A : Type 0} → Outcome A → (Exception → M A) → M A
handle (returned a) h w = (returned a, w)
handle (raised e) h w = h e w
handle halted h w = (halted, w)

-- try: m; except … : the handler raises again what it does not catch
unfoldable pub try_except : {A : Type 0} → M A → (Exception → M A) → M A
try_except m h w = let (r, w') = m w in handle r h w'

-- except OSError as error: raise SetupError(message)
abbrev pub os_error_as : {A : Type 0} → String → Exception → M A
os_error_as message (os_error e) = raise_setup message
os_error_as message e = raise e

abbrev pub wrap_os_error : {A : Type 0} → String → M A → M A
wrap_os_error message m = try_except m (os_error_as message)

-- The cleanup runs also on the way of an exception, and its own exception takes over.
abbrev pub cleanup_after : {A : Type 0} → Outcome A → M (Unit {0}) → M A
cleanup_after (returned a) c = c >> pure a
cleanup_after (raised e) c = c >> raise e
cleanup_after halted c = stop

-- try: m; finally: c
unfoldable pub try_finally : {A : Type 0} → M A → M (Unit {0}) → M A
try_finally m c w = let (r, w') = m w in cleanup_after r c w'

abbrev pub raise_if : Bool → Exception → M (Unit {0})
raise_if true e = raise e
raise_if false e = pure tt

abbrev pub when : Bool → M (Unit {0}) → M (Unit {0})
when true m = m
when false m = pure tt

-- The result of a system call, and its effect on the disk. The first argument is the number of
-- bytes after which a transfer stops.
pub data Reply (A : Type 0) : Type 0 where
  done : A → Reply A
  failed : Errno → Reply A

abbrev pub Call : Type 0 → Type 0
Call A = Option ℕ → Disk → Reply A × Disk

abbrev pub of_reply : {A : Type 0} → Reply A × Disk → List Event → Outcome A × World
of_reply (done a, d) es = (returned a, record { disk = d; events = es })
of_reply (failed e, d) es = (raised (os_error e), record { disk = d; events = es })

unfoldable pub meet : {A : Type 0} → Event → Call A → Disk → List Event → Outcome A × World
meet go call d es = of_reply (call none d) es
meet (fail e) call d es = (raised (os_error (errno_of e)), record { disk = d; events = es })
meet interrupted call d es = (raised interrupt, record { disk = d; events = es })
meet interrupted_late call d es = (raised interrupt, record { disk = (call none d).1; events = es })
meet kill call d es = (halted, record { disk = d; events = es })
meet (short n) call d es = of_reply (call (some n) d) es

abbrev pub meet_first : {A : Type 0} → List Event → Call A → Disk → Outcome A × World
meet_first [] call d = meet go call d []
meet_first (e ∷ es) call d = meet e call d es

unfoldable pub system_call : {A : Type 0} → Call A → M A
unfolding meet
system_call call w = meet_first w.events call w.disk
