-- ===== src/Lib.antt =====
-- The setup package of AirVPN-WG-Healthcheck: libexec/wg_healthcheck_setup/*.py.
--
-- The command line (cli.py) resolves its arguments, or the answers to its questions, to a request.
-- The program configures one WireGuard interface. A request (model.py) is previewed or applied as a
-- transaction (application.py) under an exclusive lease (apply_system.py): snapshots of the health
-- configuration and of the credential are taken, a journal (apply_journal.py) is persisted before each
-- step, the files are replaced durably (store.py), the runtime is called as a child process, and the
-- new setup counts only once a fresh status file proves it healthy. An interrupted transaction is
-- finished or undone by the next start, from its journal.
--
-- Files, with the functions of the source that they model:
--   Text, Text/*                the methods of str and bytes, decimal numbers and IPv4 addresses
--   Result                      SetupError as a value
--   Journal                     SetupJournal, _validate_semantics, render_journal, read_journal;
--                               its theorems in Journal/*
--   Model, Model/*              the records, the patterns and the parsers of model.py
--   Config                      apply_config.py; Settings: settings_from_values of private_io.py
--   Disk, Os, Effect            the file system, the os calls, and Python's exceptions
--   Store, Store/Create         store.py; its theorems in the other files of Store
--   System, Lease               apply_system.py, with _run_fixed of clients.py
--   Paths                       the file names of LiveApplyPaths and extra_path
--   Credential                  credential_state.py, with the credential format of private_io.py
--   Application, Application/*  application.py
--   Clients                     fetch_public_countries and run_runtime_validation of clients.py
--   PrivateInput                the hidden prompt and the credential file of private_io.py
--   Cli, Cli/*                  cli.py
--   Examples and the modules    the theorems on concrete inputs
--   whose names end so
--
-- A function of the source that only computes is a function into Result; one that touches the system
-- is an action: a function from a world (a disk and the events that meet the system calls) to an
-- outcome and a world. An event makes a call fail (as broken or as held by another process; that a
-- name is missing or exists is for the disk to say), interrupts the process before or after the effect
-- of the call, kills the process, or cuts a transfer short; a theorem about every world is a theorem
-- about every placement of these. try, except and finally are combinators with Python's meaning.
--
-- Parameters: what subprocess.run does (Run), the clock, the terminal, what argparse makes of the
-- arguments, the calls for the directories of a credential file, str.upper, str.lower, str.strip,
-- str.split and the printable test of Unicode characters. The lines that a user types are a list.
--
-- Fuel: write_all and copy_exact take the number of rounds, and their callers give the number of bytes.
--
-- Not modelled: a power loss (fsync has no visible effect), other processes that change the disk
-- between two calls, ctime, and descriptor numbers (a descriptor is the inode that it is open on).
-- os.replace is modelled for two different inodes. The assertion that a required read returns a payload
-- is an error that no call reaches. The exit of argparse behind --help, the environment of a child,
-- __init__.py, which only passes names on, libexec/airvpn-api and the shell programs are left out.
pub mod Prelude
pub mod Result
pub mod Text
pub mod Journal
pub mod Disk
pub mod Effect
pub mod Model
pub mod Config
pub mod Os
pub mod Store
pub mod Settings
pub mod System
pub mod Lease
pub mod Credential
pub mod Application
pub mod Paths
pub mod Clients
pub mod PrivateInput
pub mod Cli
pub mod Examples
pub mod RecoveryExamples
pub mod CliExamples
pub mod ModelExamples
