-- ===== src/Main.antt =====
-- src/main.c. `getopt` and `Accept` are given by lists of what their calls do; a call for which a
-- list has no entry does not return. The buffer of the descriptor, which is allocated for each call of
-- `Accept` and freed in `terminate`, is left out; `Signal`, `Open_listenfd` and `Pthread_create` are
-- taken to succeed.
pub mod Port
pub mod Shutdown
use concurrent_server.Common.{
  ℕ, Bool, true, false, Option, none, some, List, [], ◌∷◌, ltb, leb, if◌then◌else◌,
}
use concurrent_server.Machine.{Machine, Run, ok, fault, blocked, out_of_fuel, Cmd, ◌>>◌}
use concurrent_server.Text.{minus_one, number, undefined, string_to_int}
use concurrent_server.Transaction.{trans_init, trans_fini}
use concurrent_server.Store.{store_init, store_fini}
use concurrent_server.Registry.{
  ClientRegistry, creg_init, creg_fini, creg_wait_for_empty, creg_shutdown_all,
}

abbrev pub max_port : ℕ
max_port = 65535

-- What a call of `getopt` returns: -1, `'p'` with `optarg`, `'?'`, or another character.
pub data Getopt : Type 0 where
  no_option : Getopt
  port_option : (optarg : List ℕ) → Getopt
  question : Getopt
  other_option : Getopt

-- How the processing ends: with the port, where there was one, with an exit for failure, with
-- signed overflow, or not at all.
pub data Options : Type 0 where
  listening : (port : Option (List ℕ)) → Options
  exit_failure overflow endless : Options

-- `string_to_int(optarg)` and the test of the port; `next` goes on with the loop.
unfoldable pub check_port : (optarg : List ℕ) → (next : Options) → Options
check_port optarg next = elim (string_to_int optarg) [
  | minus_one ↦ exit_failure
  | number n ↦ if leb n max_port then next else exit_failure
  | undefined ↦ overflow
]

-- `while (optind < argc)`; each call of `getopt` stands with the `optind` that it leaves.
unfoldable pub option_loop :
    (argc optind : ℕ) (port : Option (List ℕ)) (calls : List (Getopt × ℕ)) → Options
option_loop argc optind port [] = if ltb optind argc then endless else listening port
option_loop argc optind port ((no_option, i) ∷ calls) =
    let rest = option_loop argc i port calls in if ltb optind argc then rest else listening port
option_loop argc optind port ((port_option arg, i) ∷ calls) =
    let rest = option_loop argc i (some arg) calls in
    if ltb optind argc then check_port arg rest else listening port
option_loop argc optind port ((question, i) ∷ calls) =
    if ltb optind argc then exit_failure else listening port
option_loop argc optind port ((other_option, i) ∷ calls) =
    let rest = option_loop argc i port calls in if ltb optind argc then rest else listening port

-- The test of `argv[1]` and the loop, which starts with `optind` at 1.
unfoldable pub process_options : (argc : ℕ) (calls : List (Getopt × ℕ)) → Options
process_options argc calls =
    let rest = option_loop argc 1 none calls in if leb argc 1 then exit_failure else rest

unfoldable pub start : Cmd (Unit {0})
start = do trans_init; store_init

-- `Accept` gives a descriptor, or `none` for -1, for which this code has a branch although the
-- `Accept` of src/csapp.c exits instead. The result is the descriptors for which a service
-- thread is started, and whether the loop was left.
unfoldable pub accept_loop : List (Option ℕ) → List ℕ × Bool
accept_loop [] = ([], false)
accept_loop (none ∷ calls) = ([], true)
accept_loop (some connfd ∷ calls) = let rest = accept_loop calls in (connfd ∷ rest.0, rest.1)

-- The registry, which is `none` before `creg_init` and once it is freed, and the store.
pub record Process : Type 0 where
  pub registry : Option ClientRegistry
  pub machine : Machine

-- How the process ends: it exits with a status, having shut down some descriptors; with undefined
-- behaviour; or not at all.
pub data Ending : Type 0 where
  exited : (status : ℕ) (shut_down : List ℕ) → Process → Ending
  faulted stuck : Ending

abbrev pub ended :
    (status : ℕ) (shut_down : List ℕ) → Option ClientRegistry → Run (Unit {0}) → Ending
ended status fds registry (ok _ m) = exited status fds (record { registry = registry; machine = m })
ended status fds registry fault = faulted
ended status fds registry blocked = stuck
ended status fds registry out_of_fuel = stuck

-- What follows `creg_wait_for_empty`, by its result.
abbrev pub finalize : (status : ℕ) (shut_down : List ℕ) → Option ClientRegistry → Machine → Ending
finalize status fds none m = stuck
finalize status fds (some cr) m = ended status fds (creg_fini cr) ((do trans_fini; store_fini) m)

abbrev pub terminate_with : (status : ℕ) → Option ClientRegistry → Machine → Ending
terminate_with status none m = faulted
terminate_with status (some cr) m =
    let alerted = creg_shutdown_all cr in
    finalize status alerted.0 (creg_wait_for_empty alerted.1) m

unfoldable pub terminate : (status : ℕ) → Process → Ending
terminate status p = terminate_with status p.registry p.machine

unfoldable pub sighup_handler : Process → Ending
sighup_handler = terminate 0

-- `threads` is what the service threads for some descriptors have done to the process when `Accept`
-- returns -1.
module _ (threads : List ℕ → Process → Process) where
  abbrev pub accept_all : (accepts : List (Option ℕ)) → Run (Unit {0}) → Ending
  accept_all accepts (ok _ m) =
      let (fds, left) = accept_loop accepts in
      if left
      then terminate 1 (threads fds (record { registry = some creg_init; machine = m }))
      else stuck
  accept_all accepts fault = faulted
  accept_all accepts blocked = stuck
  accept_all accepts out_of_fuel = stuck

  -- What follows the options. A port that was never assigned is read.
  abbrev pub listen : (accepts : List (Option ℕ)) → Options → Process → Ending
  listen accepts (listening none) p = faulted
  listen accepts (listening (some port)) p = accept_all accepts (start p.machine)
  listen accepts exit_failure p = exited 1 [] p
  listen accepts overflow p = faulted
  listen accepts endless p = stuck

  unfoldable pub main :
      (argc : ℕ) (calls : List (Getopt × ℕ)) (accepts : List (Option ℕ)) → Process → Ending
  main argc calls accepts p = listen accepts (process_options argc calls) p
