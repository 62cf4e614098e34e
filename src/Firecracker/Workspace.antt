-- ===== src/Firecracker/Workspace.antt =====
-- The agent's directories of sandboxes and the connection to the agent, in
-- crates/hyperbox-firecracker/src/backend.rs.
use hyperbox.Prelude.{
  ℕ, zero, suc, Bool, true, false, not, Option, none, some, ◌++◌, Text, codes, starts_with,
  strip_prefix, if◌then◌else◌,
}
use hyperbox.Core.Error.{Result, ok, err, HyperboxError, invalid_config, execution_failed}
use hyperbox.Core.Config.{SandboxConfig, SandboxId}
use hyperbox.Server.Monad.{M, ◌>>=◌, ◌>>◌, pure, throw, lift, gets}
use hyperbox.Firecracker.{
  Host, Firecracker, FirecrackerBackendConfig, AgentWorkspaceBinding, FileType, symlink, regular,
  directory, other, IoError, on_host, or_fail, with_err, io_error, failed, pause,
}

abbrev or_else : Option Text → Text → Text
or_else none s = s
or_else (some t) s = t

abbrev or_other : Option Text → Option Text → Option Text
or_other none o = o
or_other (some t) o = some t

module _ {F : Type 0} (host : Host F) where
  -- A call of the file system with `?`
  abbrev pub on_files : {A : Type 0} → (F → Result IoError A × F) → M (Firecracker F) A
  on_files call = or_fail io_error (on_host call)

  -- Its answers with a `map_err`
  abbrev pub on_files_or : {A : Type 0} → Text → (F → Result IoError A × F) → M (Firecracker F) A
  on_files_or doing call = or_fail (λ (e : IoError). failed doing e.message) (on_host call)

  unfoldable pub remove_found : Text → FileType → M (Firecracker F) (Unit {0})
  remove_found path symlink = on_files (host.remove_file path)
  remove_found path regular = on_files (host.remove_file path)
  remove_found path directory = on_files (host.remove_dir_all path)
  remove_found path other = pure tt

  abbrev unless_missing : Text → IoError → M (Firecracker F) (Unit {0})
  unless_missing doing e = if e.is_not_found then pure tt else throw (failed doing e.message)

  unfoldable pub remove_by : Text → Result IoError FileType → M (Firecracker F) (Unit {0})
  remove_by path (ok found) = remove_found path found
  remove_by path (err e) = unless_missing (codes "inspect path `" ++ (path ++ codes "`")) e

  unfoldable pub remove_existing_path : Text → M (Firecracker F) (Unit {0})
  remove_existing_path path = do
    metadata ← gets (λ w. host.symlink_metadata w.files path)
    remove_by path metadata

  unfoldable pub resolve_from_here : Text → M (Firecracker F) Text
  resolve_from_here candidate = if starts_with (codes "/") candidate then pure candidate else (do
    here ← on_files_or (codes "resolve current dir") (λ f. (host.current_dir f, f))
    pure (host.join here candidate))

  abbrev or_false : Result IoError Bool → Bool
  or_false (ok b) = b
  or_false (err e) = false

  unfoldable pub resolve_workspace_dir : Text → M (Firecracker F) Text
  resolve_workspace_dir raw = do
    resolved ← resolve_from_here raw
    on_files (host.create_dir_all resolved)
    canonical ←
        on_files_or (codes "canonicalize workspace `" ++ (resolved ++ codes "`"))
          (λ f. (host.canonicalize f resolved, f))
    is_directory ← gets (λ w. or_false (host.is_dir w.files canonical))
    if is_directory
        then pure canonical
        else throw (execution_failed (codes "workspace_dir must be a directory: " ++ canonical))

  unfoldable pub bind_workspace : Text → Option Text → M (Firecracker F) AgentWorkspaceBinding
  bind_workspace sandbox_path (some workspace_dir) = do
    workspace ← resolve_workspace_dir workspace_dir
    on_files_or
        (codes "link agent sandbox path `"
          ++ (sandbox_path ++ (codes "` -> `" ++ (workspace ++ codes "`"))))
        (host.symlink workspace sandbox_path)
    pure (record { path = sandbox_path; managed = false; linked_workspace = true })
  bind_workspace sandbox_path none = do
    on_files (host.create_dir_all sandbox_path)
    pure (record { path = sandbox_path; managed = true; linked_workspace = false })

  unfoldable pub remove_binding : Text → Result IoError (Unit {0}) → M (Firecracker F) (Unit {0})
  remove_binding doing (ok u) = pure tt
  remove_binding doing (err e) = unless_missing doing e

  unfoldable pub cleanup_agent_workspace : AgentWorkspaceBinding → M (Firecracker F) (Unit {0})
  cleanup_agent_workspace binding =
      if binding.linked_workspace
      then (do
        removed ← on_host (λ f. let (r, g) = host.remove_file binding.path f in (ok r, g))
        remove_binding (codes "remove agent workspace link `" ++ (binding.path ++ codes "`"))
            removed)
      else (if binding.managed
          then (do
            removed ← on_host (λ f. let (r, g) = host.remove_dir_all binding.path f in (ok r, g))
            remove_binding (codes "remove managed agent workspace `" ++ (binding.path ++ codes "`"))
                removed)
          else pure tt)

  module _ (config : FirecrackerBackendConfig) where
    unfoldable pub prepare_agent_workspace :
        SandboxId → SandboxConfig → M (Firecracker F) AgentWorkspaceBinding
    prepare_agent_workspace id sandbox_config = do
      on_files (host.create_dir_all config.agent_root)
      remove_existing_path (host.join config.agent_root (host.show_uuid id))
      bind_workspace (host.join config.agent_root (host.show_uuid id)) sandbox_config.workspace_dir

    unfoldable pub parse_agent_socket_addr : Text → Result HyperboxError Text
    parse_agent_socket_addr endpoint =
        let without_scheme =
          or_else
            (or_other (strip_prefix (codes "http://") endpoint)
              (strip_prefix (codes "https://") endpoint))
            endpoint in
        with_err
          (λ e. invalid_config (
            codes "invalid HYPERBOX_AGENT_ENDPOINT `"
            ++ (endpoint ++ (codes "`: expected host:port (" ++ (e ++ codes ")")))))
          (host.parse_socket_addr without_scheme)

    unfoldable pub spawn_agent : Text → M (Firecracker F) (Unit {0})
    spawn_agent addr w = (
      ok tt,
      record w { agent_started = true; files = host.serve_agent addr config.agent_root w.files },
    )

    unfoldable pub ensure_agent_running : M (Firecracker F) (Unit {0})
    ensure_agent_running =
        if not config.auto_start_agent
        then throw (
            execution_failed (
              codes "connect agent: endpoint "
              ++ (config.agent_endpoint ++ codes " is unavailable and auto-start is disabled")))
        else (do
          addr ← lift (parse_agent_socket_addr config.agent_endpoint)
          started ← gets (λ w. w.agent_started)
          if started then pure tt else spawn_agent addr)

    -- `state.started = false`
    unfoldable pub stopped : M (Firecracker F) (Unit {0})
    stopped w = (ok tt, record w { agent_started = false })

    abbrev try_connect : M (Firecracker F) (Result Text (Unit {0}))
    try_connect = on_host (λ f. let (r, g) = host.connect config.agent_endpoint f in (ok r, g))

    abbrev pub connect_next :
        Result Text (Unit {0})
        → (Text → M (Firecracker F) (Unit {0}))
        → M (Firecracker F) (Unit {0})
    connect_next (ok u) rest = pure tt
    connect_next (err e) rest = rest e

    -- The loop of the retries, and what follows it.
    unfoldable pub connect_turns : ℕ → Text → M (Firecracker F) (Unit {0})
    connect_turns zero last_error = do
      stopped
      throw (
          execution_failed (
            codes "connect agent at "
            ++ (config.agent_endpoint ++ (codes " after auto-start: " ++ last_error))))
    connect_turns (suc turns) last_error = do
      pause host 100
      connected ← try_connect
      connect_next connected (connect_turns turns)

    unfoldable pub connect_by : Result Text (Unit {0}) → M (Firecracker F) (Unit {0})
    connect_by (ok u) = pure tt
    connect_by (err e) = do ensure_agent_running; connect_turns 20 e

    unfoldable pub connect_agent : M (Firecracker F) (Unit {0})
    connect_agent = do connected ← try_connect; connect_by connected
