-- ===== src/CliExamples.antt =====
-- The theorems on the command line and the paths, on concrete inputs.
use air_vpn_wg_healthcheck.Cli.Refused.{main-IsRefusal}
use air_vpn_wg_healthcheck.Cli.Typed.{SaysMode, complete_interactive_request-Answers, left_out}
use air_vpn_wg_healthcheck.PrivateInput.Typed.{read_hidden_credential-IsCredentialFile}
use air_vpn_wg_healthcheck.Paths.{file_name, path_text}
use air_vpn_wg_healthcheck.Cli.Execute.{CredentialSource, Surroundings, execute_request, main}
use air_vpn_wg_healthcheck.Cli.Prompts.{complete_interactive_request}
use air_vpn_wg_healthcheck.Cli.Resolve.{request_of, resolve_request}
use air_vpn_wg_healthcheck.Disk.{Inode, directory, global_lock, interface_lock}
use air_vpn_wg_healthcheck.Model.{Mode, dry_run, enable, is_interface, static_mode}
use air_vpn_wg_healthcheck.Result.{ok}
use air_vpn_wg_healthcheck.Text.Split.{split}
use air_vpn_wg_healthcheck.Prelude.{
  List, Option, [], false, if◌then◌else◌, inl, inr, none, refl, some, true, ℕ, ◌==◌, ◌↔◌, ◌∷◌, ◌≡◌,
  ◌⊎◌,
}
use air_vpn_wg_healthcheck.Text.{Text, codes, mem_text, text_eq}
use air_vpn_wg_healthcheck.Effect.{M, World, go, pure, returned, stop}
use air_vpn_wg_healthcheck.Effect.Hoare.{Ensures}
use air_vpn_wg_healthcheck.Cli.{Arguments}
use air_vpn_wg_healthcheck.Cli.Resolved.{IsAccepted, resolve_request-IsAccepted}
use air_vpn_wg_healthcheck.Cli.Answered.{Says-some}
use air_vpn_wg_healthcheck.Cli.Decided.{IsDecided, complete_interactive_request-IsDecided}
use air_vpn_wg_healthcheck.Cli.Exits.{
  HasSecret, execute_request-source, in_argument, main-HasSecret,
}
use air_vpn_wg_healthcheck.PrivateInput.{Outside, open_credential_file, read_hidden_credential}
use air_vpn_wg_healthcheck.PrivateInput.Opened.{
  IsCredentialFile, open_credential_file-IsCredentialFile,
}
use air_vpn_wg_healthcheck.Paths.Distinct.{Clash, path_text-Clash}
use air_vpn_wg_healthcheck.Examples.{sample_disk, sample_file}

abbrev setup_args : Arguments
setup_args = record {
  iface = codes "wg0";
  mode = some (codes "static");
  action = some dry_run;
  timer = none;
  device = none;
  countries = none;
  credential_file = none;
  non_interactive = false;
  restore_pre_managed = false;
  replace_credential = false;
  remove_credential = true;
  reset_api_state = true;
}

abbrev setup_world : World
setup_world = record { disk = sample_disk; events = go ∷ [] }

-- Python's methods, on text that they leave as it is.
abbrev plain : Text → Text
plain s = s

abbrev plain_words : Text → List Text
plain_words = split b' '

abbrev quiet : Text → M (Unit {0})
quiet message = pure tt

resolve_request-IsAccepted_example :
    (resolve_request plain plain_words setup_args ≡ ok (request_of setup_args (some static_mode)))
    ↔ ((mode : Option Mode) × (request_of setup_args (some static_mode)
          ≡ request_of setup_args mode)
        × IsAccepted plain plain_words setup_args mode)
resolve_request-IsAccepted_example =
    resolve_request-IsAccepted plain plain_words setup_args
      (request_of setup_args (some static_mode))

abbrev open_args : Arguments
open_args = record setup_args { mode = none; action = none; reset_api_state = false }

abbrev typed_lines : List Text
typed_lines = codes "3" ∷ codes "api" ∷ codes "dry" ∷ codes "enable" ∷ [] ∷ codes "more" ∷ []

three_means_nothing : (mode : Text) → ¬ SaysMode (codes "3") mode
unfolding mem_text text_eq
three_means_nothing mode h = nothing (
    Says-some (codes "1" ∷ codes "static" ∷ []) (codes "static") (codes "2" ∷ codes "api" ∷ [])
      (codes "api") (refl, (refl, tt)) (codes "3") mode h)
  where
    nothing : none ≡ some mode → ⊥
    nothing e = cc

complete_interactive_request-Answers_example :
    complete_interactive_request quiet quiet plain plain open_args typed_lines setup_world ≡ (
      returned (
        record open_args {
          mode = some (codes "api");
          action = some dry_run;
          timer = some enable;
          device = some (codes "default");
        },
        codes "more" ∷ [],
      ),
      setup_world,
    )
complete_interactive_request-Answers_example =
    complete_interactive_request-Answers quiet quiet plain plain (λ m w. refl) (λ m w. refl)
      open_args typed_lines (codes "dry" ∷ codes "enable" ∷ [] ∷ codes "more" ∷ [])
      (codes "enable" ∷ [] ∷ codes "more" ∷ []) ([] ∷ codes "more" ∷ []) (codes "more" ∷ [])
      (codes "api") dry_run enable (some (codes "default")) setup_world refl refl refl refl refl
      (record {
        skipped = codes "3" ∷ [];
        line = codes "api";
        cut = refl;
        no_answers = (three_means_nothing, tt);
        is_answer = inr (inr (inl refl), refl);
      })
      (record {
        skipped = [];
        line = codes "dry";
        cut = refl;
        no_answers = tt;
        is_answer = inl (inr (inr (inl refl)), refl);
      })
      (record {
        skipped = [];
        line = codes "enable";
        cut = refl;
        no_answers = tt;
        is_answer = inr (inr (inl refl), refl);
      })
      (left_out [] refl refl refl refl refl)

complete_interactive_request-IsDecided_example :
    Ensures
      (λ r _. IsDecided setup_args r.0)
      (λ _. Unit {0})
      (complete_interactive_request quiet quiet plain plain setup_args [] setup_world)
complete_interactive_request-IsDecided_example =
    complete_interactive_request-IsDecided quiet quiet plain plain setup_args [] setup_world refl

abbrev around : Surroundings
around = record {
  run = λ argv fds. pure (record { returncode = 0; stdout = []; stderr = [] });
  now = pure 1_700_000_000;
  ask = quiet;
  write = quiet;
  is_printable = λ c. true;
  upper = plain;
  lower = plain;
  strip = plain;
  words = plain_words;
}

abbrev no_source : CredentialSource
no_source = record { open_file = λ path. stop; read_hidden = stop }

abbrev some_source : CredentialSource
some_source = record { open_file = λ path. pure 5; read_hidden = pure 5 }

abbrev parse : List Text → M Arguments
parse argv = pure setup_args

abbrev secret_argv : List Text
secret_argv = codes "wg0" ∷ codes "--token=abc" ∷ []

secret_argv-HasSecret : HasSecret false secret_argv
unfolding mem_text text_eq
secret_argv-HasSecret =
    in_argument (codes "wg0" ∷ []) [] (codes "--token=abc") refl
      (record { option = codes "--token"; is_secret = refl; form = inr (codes "abc", refl) })

main-HasSecret_example :
    main around no_source (pure tt) parse (λ message. pure tt) false secret_argv [] setup_world
    ≡ (returned 64, setup_world)
main-HasSecret_example =
    main-HasSecret around no_source (pure tt) parse (λ message. pure tt) false secret_argv []
      setup_world (λ w. refl) (λ message w. refl) secret_argv-HasSecret

-- A reset that is to enable the timer.
abbrev refused_args : Arguments
refused_args = record setup_args { non_interactive = true; timer = some enable }

refused_args-refused : (mode : Option Mode) → ¬ IsAccepted plain plain_words refused_args mode
refused_args-refused mode h = apart ((h.reset_flagged refl).1)
  where
    apart : true ≡ false → ⊥
    apart e = cc

main-IsRefusal_example :
    Ensures
      (λ code d. ((code ≡ 64) ⊎ (code ≡ 130)) × (d ≡ setup_world.disk))
      (λ d. d ≡ setup_world.disk)
      (main around some_source
        (pure tt)
        (λ argv. pure refused_args)
        (λ message. pure tt)
        false
        (codes "wg0" ∷ [])
        []
        setup_world)
main-IsRefusal_example =
    main-IsRefusal around some_source (pure tt) (λ argv. pure refused_args) (λ message. pure tt)
      false (codes "wg0" ∷ []) [] refused_args setup_world (λ w. refl) (λ message w. refl)
      (λ w. refl) refl refused_args-refused

execute_request-source_example :
    execute_request around no_source (request_of setup_args (some static_mode)) []
    ≡ execute_request around some_source (request_of setup_args (some static_mode)) []
unfolding request_of
execute_request-source_example =
    execute_request-source around no_source some_source (request_of setup_args (some static_mode))
      [] (λ e. cc)

abbrev outside : Outside
outside = record {
  limit_core = pure tt;
  open_tty = pure 5;
  is_terminal = λ fd. pure true;
  getpass =
      λ prompt. pure (codes "0123456789abcdef0123456789abcdef0123456789abcdef0123456789abcdef");
  normpath = plain;
  parts = λ path. codes "/" ∷ codes "key" ∷ [];
  open_root = pure 1;
  open_directory_in = λ fd name. pure 1;
  open_file_in = λ fd name. pure 0;
}

-- The directory is inode 1, and the credential in it is inode 0.
abbrev credential_inodes : ℕ → Inode
credential_inodes i =
    if i == 1
    then record sample_file { kind = directory; mode = 0o755; content = [] }
    else record sample_file {
      content = codes "0123456789abcdef0123456789abcdef0123456789abcdef0123456789abcdef\n";
    }

abbrev credential_world : World
credential_world = record { disk = record sample_disk { inodes = credential_inodes }; events = [] }

open_credential_file-IsCredentialFile_example :
    Ensures
      (λ fd d. IsCredentialFile (d.inodes fd))
      (λ _. Unit {0})
      (open_credential_file outside (codes "/key") credential_world)
open_credential_file-IsCredentialFile_example =
    open_credential_file-IsCredentialFile outside (codes "/key") credential_world

airvpn_api_valid : is_interface (codes "airvpn-api") ≡ true
unfolding is_interface
airvpn_api_valid = refl

path_text-Clash_example :
    (interface_lock ≡ global_lock)
    ⊎ (Clash (codes "airvpn-api") airvpn_api_valid interface_lock global_lock
        ⊎ Clash (codes "airvpn-api") airvpn_api_valid global_lock interface_lock)
unfolding path_text file_name
path_text-Clash_example =
    path_text-Clash (codes "airvpn-api") airvpn_api_valid interface_lock global_lock refl

read_hidden_credential-IsCredentialFile_example :
    Ensures
      (λ fd d. IsCredentialFile (d.inodes fd))
      (λ _. Unit {0})
      (read_hidden_credential outside setup_world)
read_hidden_credential-IsCredentialFile_example =
    read_hidden_credential-IsCredentialFile outside setup_world
