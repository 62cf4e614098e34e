-- ===== src/Server/Runtime/Watch.antt =====
-- Listing, waiting for, cancelling and reading managed processes in
-- crates/hyperbox-server/src/runtime.rs. A polling loop runs on fuel; its result is `none` where the
-- fuel is used up. A sleep changes nothing but the clock.
use hyperbox.Prelude.{
  ℕ, zero, suc, ◌+◌, ◌*◌, ◌^◌, Bool, true, false, Option, none, some, List, [], ◌∷◌, ◌++◌, Text,
  codes, is_empty, trim, leb, ltb, if◌then◌else◌, length, print, parse_unsigned,
}
use hyperbox.Core.Error.{Result, ok, err, ok_or, HyperboxError, execution_failed}
use hyperbox.Core.Config.{SandboxId}
use hyperbox.Core.Process.{
  ProcessInfo, ProcessId, ProcessLogRead, StreamName, stdout, stderr, is_terminal,
}
use hyperbox.Server.Monad.{M, ◌>>=◌, ◌>>◌, pure, throw, lift, gets, attempt}
use hyperbox.Server.Environment.{Environment}
use hyperbox.Server.Scripts.{sh_request, cancel_script, process_cancel_path}
use hyperbox.Server.Shell.{shell_escape}
use hyperbox.Server.Naming.{utf8}
use hyperbox.Server.Store
use hyperbox.Server.Runtime.{World, on_backend, instant_now, exec_in}
use hyperbox.Server.Runtime.Processes.{refresh_process, cleanup_expired_processes}
use hyperbox.Server.Runtime.Sandboxes.{ensure_hydrated}
use hyperbox.Server.Runtime.Runs.{get_process_of, fetch_process}

-- The stable sort by descending start.
unfoldable pub insert_newest : ProcessInfo → List ProcessInfo → List ProcessInfo
insert_newest p [] = p ∷ []
insert_newest p (q ∷ l) =
    let rest = insert_newest p l in if leb q.started_at p.started_at then p ∷ q ∷ l else q ∷ rest

unfoldable pub sort_newest : List ProcessInfo → List ProcessInfo
sort_newest [] = []
sort_newest (p ∷ l) = insert_newest p (sort_newest l)

abbrev pub push_ok : Result HyperboxError ProcessInfo → List ProcessInfo → List ProcessInfo
push_ok (ok p) l = p ∷ l
push_ok (err e) l = l

unfoldable pub max : ℕ → ℕ → ℕ
max a b = if leb a b then b else a

-- The seconds and milliseconds of the source in nanoseconds.
abbrev pub seconds : ℕ → ℕ
seconds n = n * 1000000000

module _ {S : Type 0} (env : Environment S) where
  unfoldable pub refresh_each : List ProcessInfo → M (World S) (List ProcessInfo)
  refresh_each [] = pure []
  refresh_each (process ∷ rest) = do
    refreshed ← attempt (refresh_process env process)
    others ← refresh_each rest
    pure (push_ok refreshed others)

  unfoldable pub list_processes : M (World S) (List ProcessInfo)
  list_processes = do
    ensure_hydrated env
    cleanup_expired_processes env
    processes ← gets (λ w. Store.list_processes w.store)
    refreshed ← refresh_each processes
    pure (sort_newest refreshed)

  unfoldable pub timed_out : Text → ProcessId → HyperboxError
  timed_out doing id =
      execution_failed (codes "timed out " ++ (doing ++ (codes " process " ++ env.show_uuid id)))

  -- The loop of `wait_process` and of `cancel_process`, which differ in how they pause and in what
  -- they say when the deadline is past.
  unfoldable pub poll :
      M (World S) (Unit {0}) → Text → ProcessId → ℕ → ℕ → M (World S) (Option ProcessInfo)
  poll pause doing id deadline zero = pure none
  poll pause doing id deadline (suc fuel) = do
    process ← fetch_process env id
    if is_terminal process.status then pure (some process) else (do
      instant ← instant_now env
      if leb deadline instant
          then throw (timed_out doing id)
          else (do pause; poll pause doing id deadline fuel))

  -- `sleep(process_wait_poll_interval(started.elapsed()))`: the clock is read, the state stays.
  unfoldable pub pause_by_elapsed : M (World S) (Unit {0})
  pause_by_elapsed = instant_now env >> pure tt

  -- `sleep(Duration::from_millis(100))`
  unfoldable pub pause_fixed : M (World S) (Unit {0})
  pause_fixed = pure tt

  -- The deadline is exact: that the addition panics where it leaves the range of `Instant` is left
  -- out.
  unfoldable pub wait_process : ℕ → ProcessId → ℕ → M (World S) (Option ProcessInfo)
  wait_process fuel id timeout_secs = do
    ensure_hydrated env
    started ← instant_now env
    poll pause_by_elapsed (codes "waiting for") id (started + seconds (max timeout_secs 1)) fuel

  unfoldable pub cancel_running : ℕ → ProcessInfo → M (World S) (Option ProcessInfo)
  cancel_running fuel process = do
    on_backend (λ s.
        env.backend.write_file s process.sandbox_id
          (record { path = process_cancel_path env process.id; bytes = [] }))
    exec_in env process.sandbox_id (sh_request (cancel_script env process) 5)
    instant ← instant_now env
    poll pause_fixed (codes "cancelling") process.id (instant + seconds 5) fuel

  unfoldable pub cancel_process : ℕ → ProcessId → M (World S) (Option ProcessInfo)
  cancel_process fuel id = do
    ensure_hydrated env
    process ← fetch_process env id
    if is_terminal process.status then pure (some process) else cancel_running fuel process

  pub log_size_script : Text → Text
  log_size_script path =
      codes "path="
      ++ (shell_escape path
          ++ codes "; if [ ! -f \"$path\" ]; then printf 0; else wc -c < \"$path\" | tr -d ' '; fi")

  -- The message ends in the error of `parse::<u64>`, which the model leaves out.
  pub invalid_log_size : Text → HyperboxError
  invalid_log_size path = execution_failed (codes "invalid log size for " ++ path)

  unfoldable pub log_size_of : Text → Text → Result HyperboxError ℕ
  log_size_of path total =
      if is_empty total then ok 0 else ok_or (parse_unsigned (2 ^ 64) total) (invalid_log_size path)

  unfoldable pub read_log_size : SandboxId → Text → M (World S) ℕ
  read_log_size id path = do
    outcome ← exec_in env id (sh_request (log_size_script path) 5)
    lift (log_size_of path (trim outcome.stdout))

  pub chunk_script : Text → ℕ → ℕ → Text
  chunk_script path offset limit =
      codes "path="
      ++ (shell_escape path
          ++ (codes "; if [ ! -f \"$path\" ]; then exit 0; fi; tail -c +"
              ++ (print (offset + 1) ++ (codes " \"$path\" | head -c " ++ print (max limit 1)))))

  unfoldable pub read_chunk : SandboxId → Text → StreamName → ℕ → ℕ → ℕ → M (World S) ProcessLogRead
  read_chunk id path stream offset limit total = do
    outcome ← exec_in env id (sh_request (chunk_script path offset limit) 5)
    let next_offset = offset + length (utf8 outcome.stdout)
    pure (record {
      stream = stream;
      offset = offset;
      next_offset = next_offset;
      eof = leb total next_offset;
      contents = outcome.stdout;
    })

  abbrev pub nothing_read : StreamName → ℕ → Bool → ProcessLogRead
  nothing_read stream offset eof = record {
    stream = stream;
    offset = offset;
    next_offset = offset;
    eof = eof;
    contents = [];
  }

  -- From where the offset is at or past the end: a live process is given another chance.
  unfoldable pub read_past_end :
      ProcessInfo → Text → StreamName → ℕ → ℕ → M (World S) ProcessLogRead
  read_past_end process path stream offset limit = do
    refreshed ← refresh_process env process
    if is_terminal refreshed.status then pure (nothing_read stream offset true) else (do
      retried_total ← read_log_size process.sandbox_id path
      if ltb offset retried_total
          then read_chunk process.sandbox_id path stream offset limit retried_total
          else pure (nothing_read stream offset false))

  abbrev pub path_of : StreamName → ProcessInfo → Text
  path_of stdout process = process.stdout_path
  path_of stderr process = process.stderr_path

  unfoldable pub read_process_log : ProcessId → StreamName → ℕ → ℕ → M (World S) ProcessLogRead
  read_process_log id stream offset limit = do
    ensure_hydrated env
    process ← get_process_of env id
    total ← read_log_size process.sandbox_id (path_of stream process)
    if leb total offset
        then read_past_end process (path_of stream process) stream offset limit
        else read_chunk process.sandbox_id (path_of stream process) stream offset limit total
