-- ===== src/Firecracker/Table.antt =====
-- Which calls of crates/hyperbox-firecracker/src/backend.rs leave the table of sandboxes as it is.
use hyperbox.Prelude.{ℕ, zero, suc, Option, none, some, List, [], ◌∷◌, Text, Assoc, ltb}
use hyperbox.Core.Error.{Result, ok, err, HyperboxError}
use hyperbox.Core.Config.{SandboxConfig, SandboxId}
use hyperbox.Core.Allowlist.{AllowlistEntry}
use hyperbox.Server.Monad.{
  Action, M, ◌>>=◌, ◌>>◌, Preserves, preserves_rules, Preserves-bind, Preserves-if,
}
use hyperbox.Firecracker.{
  Host, Firecracker, FirecrackerBackendConfig, FirecrackerSandbox, FirecrackerVmConfig, FileType,
  symlink, regular, directory, other, IoError, Fields, RunningVm, AgentWorkspaceBinding, on_host,
  or_fail, pause,
}
use hyperbox.Firecracker.Api.{
  send, put_json, ensure_success, put, set_machine_config, set_boot_source, set_rootfs, set_vsock,
  attach_network, start_instance,
}
use hyperbox.Firecracker.Vm.{
  make_dir, wait_turn, wait_turns, wait_for_socket, attach, start_vm, terminate,
}
use hyperbox.Firecracker.Workspace.{
  remove_found, remove_by, remove_existing_path, resolve_from_here, resolve_workspace_dir,
  bind_workspace, remove_binding, cleanup_agent_workspace, prepare_agent_workspace, spawn_agent,
  ensure_agent_running, stopped, connect_turns, connect_by, connect_next, connect_agent,
}
use hyperbox.Firecracker.Allowlist.{
  resolve_each, resolve_allowlist_ips, populate_allowlist_set, refresh, refresh_turn,
}

module _ {F : Type 0} (T : Assoc SandboxId FirecrackerSandbox → Type 0) where
  abbrev pub Keeps : {E A : Type 0} → Action E (Firecracker F) A → Type 0
  Keeps m = Preserves (λ w. T w.sandboxes) m

  pub on_host-Keeps : {E A : Type 0} (call : F → Result E A × F) → Keeps (on_host call)
  unfolding on_host
  on_host-Keeps call = record { holds_at = λ w h. h }

  pub or_fail-Keeps :
      {E A : Type 0} (f : E → HyperboxError) (m : Action E (Firecracker F) A)
      → Keeps m
      → Keeps (or_fail f m)
  unfolding or_fail
  or_fail-Keeps f m k = record { holds_at = λ w h. k.holds_at w h }

  pub pause-Keeps : {E : Type 0} (host : Host F) (ms : ℕ) → Keeps (pause {E = E} host ms)
  unfolding pause
  pause-Keeps host ms = record { holds_at = λ w h. h }

  pub ruleset keeps_rules = (preserves_rules, on_host-Keeps, or_fail-Keeps, pause-Keeps)

  module _ (host : Host F) where
    put-Keeps : (socket path : Text) (fields : Fields) → Keeps (put host socket path fields)
    unfolding put put_json send ensure_success
    put-Keeps socket path fields = search keeps_rules

    wait_turn-Keeps :
        (path : Text) (rest : Action Text (Firecracker F) (Unit {0}))
        → Keeps rest
        → Keeps (wait_turn host path rest)
    unfolding wait_turn
    wait_turn-Keeps path rest k = search keeps_rules

    wait_turns-Keeps : (path : Text) (end turns : ℕ) → Keeps (wait_turns host path end turns)
    unfolding wait_turns
    wait_turns-Keeps path end zero = search keeps_rules
    wait_turns-Keeps path end (suc turns) =
        let more = wait_turns-Keeps path end turns in
        Preserves-bind _ _ (search keeps_rules) λ i.
          Preserves-if (ltb i end) _ _ (λ _. wait_turn-Keeps path _ more) (λ _. search keeps_rules)

    make_dir-Keeps : (dir : Option Text) → Keeps (make_dir host dir)
    unfolding make_dir
    make_dir-Keeps none = search keeps_rules
    make_dir-Keeps (some dir) = search keeps_rules

    attach-Keeps : (socket : Text) (tap : Option Text) → Keeps (attach host socket tap)
    unfolding attach attach_network
    attach-Keeps socket none = search keeps_rules
    attach-Keeps socket (some tap) = search put-Keeps

    pub start_vm-Keeps :
        (path : Text) (config : FirecrackerVmConfig) → Keeps (start_vm host path config)
    unfolding start_vm wait_for_socket set_machine_config set_boot_source set_rootfs set_vsock
        start_instance
    start_vm-Keeps path config =
        search (keeps_rules, put-Keeps, wait_turns-Keeps, make_dir-Keeps, attach-Keeps) depth 16

    pub terminate-Keeps : (vm : RunningVm) → Keeps (terminate host vm)
    unfolding terminate
    terminate-Keeps vm = search keeps_rules

    remove_by-Keeps :
        (path : Text) (found : Result IoError FileType) → Keeps (remove_by host path found)
    unfolding remove_by remove_found
    remove_by-Keeps path (ok symlink) = search keeps_rules
    remove_by-Keeps path (ok regular) = search keeps_rules
    remove_by-Keeps path (ok directory) = search keeps_rules
    remove_by-Keeps path (ok other) = search keeps_rules
    remove_by-Keeps path (err e) = search keeps_rules

    resolve_workspace_dir-Keeps : (raw : Text) → Keeps (resolve_workspace_dir host raw)
    unfolding resolve_workspace_dir resolve_from_here
    resolve_workspace_dir-Keeps raw = search keeps_rules depth 10

    bind_workspace-Keeps : (path : Text) (dir : Option Text) → Keeps (bind_workspace host path dir)
    unfolding bind_workspace
    bind_workspace-Keeps path none = search keeps_rules
    bind_workspace-Keeps path (some dir) = search (keeps_rules, resolve_workspace_dir-Keeps)

    remove_binding-Keeps :
        (doing : Text) (r : Result IoError (Unit {0})) → Keeps (remove_binding host doing r)
    unfolding remove_binding
    remove_binding-Keeps doing (ok u) = search keeps_rules
    remove_binding-Keeps doing (err e) = search keeps_rules

    pub cleanup_agent_workspace-Keeps :
        (b : AgentWorkspaceBinding) → Keeps (cleanup_agent_workspace host b)
    unfolding cleanup_agent_workspace
    cleanup_agent_workspace-Keeps b = search (keeps_rules, remove_binding-Keeps)

    module _ (config : FirecrackerBackendConfig) where
      pub prepare_agent_workspace-Keeps :
          (id : SandboxId) (c : SandboxConfig) → Keeps (prepare_agent_workspace host config id c)
      unfolding prepare_agent_workspace remove_existing_path
      prepare_agent_workspace-Keeps id c =
          search (keeps_rules, remove_by-Keeps, bind_workspace-Keeps)

      spawn_agent-Keeps : (addr : Text) → Keeps (spawn_agent host config addr)
      unfolding spawn_agent
      spawn_agent-Keeps addr = record { holds_at = λ w h. h }

      ensure_agent_running-Keeps : Keeps (ensure_agent_running host config)
      unfolding ensure_agent_running
      ensure_agent_running-Keeps = search (keeps_rules, spawn_agent-Keeps)

      stopped-Keeps : Keeps (stopped host config)
      unfolding stopped
      stopped-Keeps = record { holds_at = λ w h. h }

      connect_next-Keeps :
          (r : Result Text (Unit {0})) (rest : Text → M (Firecracker F) (Unit {0}))
          → ((e : Text) → Keeps (rest e))
          → Keeps (connect_next host config r rest)
      connect_next-Keeps (ok u) rest k = search keeps_rules
      connect_next-Keeps (err e) rest k = k e

      connect_turns-Keeps : (turns : ℕ) (e : Text) → Keeps (connect_turns host config turns e)
      unfolding connect_turns
      connect_turns-Keeps zero e = search (keeps_rules, stopped-Keeps)
      connect_turns-Keeps (suc turns) e =
          search (keeps_rules, connect_next-Keeps, connect_turns-Keeps turns)

      connect_by-Keeps : (r : Result Text (Unit {0})) → Keeps (connect_by host config r)
      unfolding connect_by
      connect_by-Keeps (ok u) = search keeps_rules
      connect_by-Keeps (err e) =
          search (keeps_rules, ensure_agent_running-Keeps, connect_turns-Keeps)

      pub connect_agent-Keeps : Keeps (connect_agent host config)
      unfolding connect_agent
      connect_agent-Keeps = search (keeps_rules, connect_by-Keeps)

    resolve_each-Keeps :
        (entries : List AllowlistEntry) (ips : List Text) → Keeps (resolve_each host entries ips)
    unfolding resolve_each
    resolve_each-Keeps [] ips = search keeps_rules
    resolve_each-Keeps (entry ∷ entries) ips = search (keeps_rules, resolve_each-Keeps entries)

    pub resolve_allowlist_ips-Keeps :
        (entries : List AllowlistEntry) → Keeps (resolve_allowlist_ips host entries)
    unfolding resolve_allowlist_ips
    resolve_allowlist_ips-Keeps entries = search (keeps_rules, resolve_each-Keeps)

    pub populate_allowlist_set-Keeps :
        (id : Text) (ips : List Text) → Keeps (populate_allowlist_set host id ips)
    unfolding populate_allowlist_set
    populate_allowlist_set-Keeps id ips = search keeps_rules

    pub refresh_turn-Keeps :
        (id : Text) (entries : List AllowlistEntry) → Keeps (refresh_turn host id entries)
    unfolding refresh_turn refresh
    refresh_turn-Keeps id entries =
        search (keeps_rules, resolve_allowlist_ips-Keeps, populate_allowlist_set-Keeps)
