-- ===== src/Tests/Runtime.antt =====
-- Runs of the server over a backend whose every sandbox exists, and in which every command prints
-- the same line.
use hyperbox.Prelude.{
  ℕ, zero, ◌+◌, true, false, none, some, List, [], ◌∷◌, Text, codes, pos, ◌≡◌, refl, trim, insert,
  lookup, values,
}
use hyperbox.Server.Runtime.Table.{Held, claim-IsTable, fewer-IsTable, empty-IsTable}
use hyperbox.Core.Error.{Result, ok, HyperboxError}
use hyperbox.Core.Config.{SandboxInfo, ready, ExecOutcome}
use hyperbox.Core.Process.{
  ProcessInfo, running, succeeded, is_terminal, created_new, ProcessInfo-discrete,
}
use hyperbox.Server.Monad.{◌>>=◌}
use hyperbox.Server.Environment.{Environment, Backend}
use hyperbox.Server.Store.{
  empty_store, get_process, upsert_process, list_processes, list_active_sandboxes,
}
use hyperbox.Server.Probe.{parse_process_probe}
use hyperbox.Server.Scripts.{process_expiry_at}
use hyperbox.Server.Probe.Settled.{IsSettled}
use hyperbox.Server.Runtime.{
  World, new_with_snapshots, on_backend, on_store, set_hydrated, now, new_uuid, exec_in,
}
use hyperbox.Server.Runtime.Processes.{
  cleanup_each, cleanup_expired_processes, active_among, active_process_for_sandbox,
  refresh_process, apply_probe, store_if_changed,
}
use hyperbox.Server.Runtime.Sandboxes.{ensure_hydrated, hydrate, hydrate_all}
use hyperbox.Server.Runtime.Runs.{
  start_process, start_unless, launch_process, confirm_launch, new_process,
}
use hyperbox.Server.Runtime.Consistency.{IsConsistent}
use hyperbox.Server.Runtime.Consistency.Reachable.{
  new, after, Call, starting_process, perform, Reachable-entry, Reachable-exclusive,
}
use hyperbox.Server.Runtime.Exclusive.{active_process_for_sandbox-none}
use hyperbox.Server.Runtime.Exclusive.Launch.{start_process-running, start_process-alone}

abbrev pub info : SandboxInfo
info = record { id = 1; template = codes "python:3.12"; state = ready; created_at = 0 }

abbrev pub printing : Text → ExecOutcome
printing line = record { exit_code = pos zero; stdout = line; stderr = []; duration_ms = 1 }

abbrev pub backend : Text → Backend Unit
backend line = record {
  validate_config = λ s c. ok tt;
  create = λ s c. (ok (record { id = 1; info = info }), s);
  exec = λ s id r. (ok (printing line), s);
  read_file = λ s id path. (ok (record { path = path; bytes = [] }), s);
  write_file = λ s id p. (ok tt, s);
  destroy = λ s id. (ok tt, s);
  inspect = λ s id. (ok info, s);
  create_snapshot = λ s id i path. (ok tt, s);
  restore_snapshot = λ s i path c. (ok (record { id = 1; info = info }), s);
}

-- The clock ticks with each reading; the identifiers count up from 100.
abbrev pub printing_env : Text → Environment Unit
printing_env line = record {
  backend = backend line;
  clock = λ n. 1000 + n;
  instant = λ n. n;
  uuid = λ n. 100 + n;
  show_uuid = λ n. codes "id";
  process_ttl_days = none;
  artifact_path = λ i. ok (codes "artifact");
  exists = λ s path. true;
}

abbrev pub env : Environment Unit
env = printing_env (codes "succeeded:0")

abbrev pub start : World Unit
start = new_with_snapshots tt empty_store

start-IsConsistent : IsConsistent [] start
start-IsConsistent = record { table = empty-IsTable }

abbrev pub command : List Text
command = codes "ls" ∷ []

abbrev run : Result HyperboxError ProcessInfo × World Unit
run = start_process env 7 command none created_new false start

abbrev started : ProcessInfo
started = record (new_process env 100 1001 7 command none created_new false) { status = running }

run_ends : run ≡ (ok started, run.1)
unfolding start_process ensure_hydrated hydrate hydrate_all list_active_sandboxes set_hydrated
    cleanup_expired_processes cleanup_each list_processes active_process_for_sandbox active_among
    start_unless new_uuid now launch_process on_store exec_in on_backend confirm_launch
    upsert_process insert values ◌>>=◌ new_process
run_ends = refl

run_stored : get_process run.1.store 100 ≡ some started
unfolding start_process ensure_hydrated hydrate hydrate_all list_active_sandboxes set_hydrated
    cleanup_expired_processes cleanup_each list_processes active_process_for_sandbox active_among
    start_unless new_uuid now launch_process on_store exec_in on_backend confirm_launch
    upsert_process insert values ◌>>=◌ new_process get_process lookup
run_stored = refl

start_process-alone_example : started ≡ started
unfolding new_process
start_process-alone_example =
    start_process-alone env 7 command none created_new false started start run.1 100 started
      start-IsConsistent run_ends run_stored refl refl

start_process-running_example :
    (started.status ≡ running)
    × (started.sandbox_id ≡ 7)
    × (get_process run.1.store started.id ≡ some started)
start_process-running_example =
    start_process-running env 7 command none created_new false started start run.1
      start-IsConsistent run_ends

abbrev call : Call
call = starting_process 7 command none created_new false

call_stored : get_process (perform env call start).1.store 100 ≡ some started
unfolding perform start_process ensure_hydrated hydrate hydrate_all list_active_sandboxes
    set_hydrated cleanup_expired_processes cleanup_each list_processes active_process_for_sandbox
    active_among start_unless new_uuid now launch_process on_store exec_in on_backend confirm_launch
    upsert_process insert values ◌>>=◌ new_process get_process lookup
call_stored = refl

Reachable-entry_example : (started.id ≡ 100) × IsSettled started
Reachable-entry_example =
    Reachable-entry env (perform env call start).1 100 started (after start call (new tt))
      call_stored

abbrev key : ℕ
key = 100

Reachable-exclusive_example : key ≡ key
Reachable-exclusive_example =
    Reachable-exclusive env (perform env call start).1 key key started started
      (after start call (new tt)) call_stored call_stored refl refl refl

-- A server that knows of a running process, which has ended since.
abbrev live : ProcessInfo
live = record {
  id = 100;
  sandbox_id = 7;
  requested_sandbox_id = none;
  disposition = created_new;
  destroy_sandbox_on_expiry = false;
  command = command;
  status = running;
  stdout_path = [];
  stderr_path = [];
  backend_pid = none;
  exit_code = none;
  started_at = 5;
  finished_at = none;
  expires_at = none;
}

abbrev busy : World Unit
busy = record start { store = record empty_store { processes = (100, live) ∷ [] } }

busy-IsConsistent : IsConsistent [] busy
unfolding insert lookup
busy-IsConsistent = record {
  table =
      fewer-IsTable (live ∷ []) [] ((100, live) ∷ []) (λ p i. absurd i)
        (claim-IsTable [] live (record { finished = refl; expiring = refl })
          (λ r h s. absurd (not_held r h)) empty-IsTable);
}
  where
    not_held : (r : ProcessInfo) → Held [] r → ⊥
    not_held r (k, h) = cc

abbrev over : ProcessInfo
over = record live {
  status = succeeded;
  exit_code = some (pos zero);
  finished_at = some 1000;
  expires_at = some (process_expiry_at env 1000);
}

abbrev searched : World Unit
searched = record busy { store = record empty_store { processes = (100, over) ∷ [] }; readings = 1 }

search_none : active_process_for_sandbox env 7 busy ≡ (ok none, searched)
unfolding list_processes active_process_for_sandbox active_among now on_store exec_in on_backend
    upsert_process insert values ◌>>=◌ refresh_process apply_probe store_if_changed
    ProcessInfo-discrete parse_process_probe trim native.Mathlib.Decide.ℕ_discrete
search_none = refl

searched_over : get_process searched.store 100 ≡ some over
unfolding get_process lookup
searched_over = refl

active_process_for_sandbox-none_example : is_terminal over.status ≡ true
active_process_for_sandbox-none_example =
    active_process_for_sandbox-none env 7 busy searched 100 over busy-IsConsistent search_none
      searched_over refl
