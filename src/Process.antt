-- ===== src/Process.antt =====
-- The process: `main`, `real_main` and `install_parent_death_signal` (on Linux) of
-- tools/transport_bridge/src/main.rs.
use muxly.Base.{ℕ, List, Text, ◌==◌, if◌then◌else◌}
use muxly.Outcome.{Result, ok, err, parent_died}
use muxly.Host.{Io, pure, fail, lift, ◌>>=◌, ◌>>◌}
use muxly.Args.{Command, parse_args_from}

-- `libc::prctl(PR_SET_PDEATHSIG, SIGTERM)` and `libc::getppid`.
pub record Os (World : Type 0) : Type 0 where
  pub prctl : Io World (Unit {0})
  pub getppid : Io World ℕ

module _ {World : Type 0} (os : Os World) where
  open os use {prctl, getppid}

  -- The exit where the parent has died is the error `parent_died`.
  unfoldable pub install_parent_death_signal : Io World (Unit {0})
  install_parent_death_signal = do
    prctl
    parent ← getppid
    if parent == 1 then fail parent_died else pure tt

  -- `run` is the function of the command: `run_http_client` and so on.
  unfoldable pub real_main : (run : Command → Io World (Unit {0})) → List Text → Io World (Unit {0})
  real_main run args = do
    install_parent_death_signal
    command ← lift (parse_args_from args)
    run command

-- The exit code of `main`.
unfoldable pub exit_code : Result (Unit {0}) → ℕ
exit_code (ok _) = 0
exit_code (err e) = 1
