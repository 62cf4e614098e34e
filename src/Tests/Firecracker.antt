-- ===== src/Tests/Firecracker.antt =====
-- Runs of the backend of crates/hyperbox-firecracker.
use hyperbox.Prelude.{
  is_whitespace, split_once, split_whitespace, first_line, parse_unsigned, ℕ, ◌+◌, true, false,
  none, some, [], ◌∷◌, ◌++◌, codes, lookup, insert, nat_eq, ◌≡◌, refl, arith,
}
use hyperbox.Core.Error.{ok, err}
use hyperbox.Core.Config.{SandboxConfig, default_config, full_mode, ready}
use hyperbox.Network.Firewall.{apply, run_plan, build_apply_plan}
use hyperbox.Server.Monad.{◌>>=◌}
use hyperbox.Firecracker.{
  Host, Firecracker, FirecrackerBackendConfig, FirecrackerSandbox, directory, RunningVm,
  new_backend, on_host, or_fail,
}
use hyperbox.Firecracker.Api.{
  send, put_json, parse_http_response, ensure_success, put, set_machine_config, set_boot_source,
  set_rootfs, set_vsock, attach_network, start_instance,
}
use hyperbox.Firecracker.Vm.{make_dir, wait_turn, wait_turns, wait_for_socket, attach, start_vm}
use hyperbox.Firecracker.Workspace.{
  remove_found, remove_by, remove_existing_path, bind_workspace, prepare_agent_workspace,
}
use hyperbox.Firecracker.Setup.{
  vm_paths, validate_config, resolve_rootfs, tap_name_of, vm_config_of, spec_of, apply_firewall,
  fill_allowlist, set_up_network,
}
use hyperbox.Firecracker.Backend.{
  prepare, enlist, draw_id, make_parent, put_sandbox, boot, info_of, create,
}
use hyperbox.Firecracker.Enforcement.{IsEnforced}
use hyperbox.Firecracker.Calls.{new, created}
use hyperbox.Firecracker.Enforcement.Reachable.{Reachable-IsEnforced}
use hyperbox.Firecracker.Waiting.{wait_for_socket-enough}

-- A host on which every call succeeds, with the milliseconds of its clock.
abbrev host : Host ℕ
host = record {
  create_dir_all = λ path f. (ok tt, f);
  remove_dir_all = λ path f. (ok tt, f);
  remove_file = λ path f. (ok tt, f);
  symlink_metadata = λ f path. ok directory;
  symlink = λ source target f. (ok tt, f);
  canonicalize = λ f path. ok path;
  is_dir = λ f path. ok true;
  exists = λ f path. true;
  current_dir = λ f. ok (codes "/srv");
  join = λ dir path. dir ++ (b'/' ∷ path);
  parent = λ path. none;
  spawn = λ program args f. (ok 7, f);
  kill = λ child f. (ok tt, f);
  exchange =
      λ socket request f. (ok (codes "HTTP/1.1 204 No Content" ++ (13 ∷ 10 ∷ 13 ∷ 10 ∷ [])), f);
  utf8_lossy = λ bytes. bytes;
  json_text = λ body. [];
  now = λ f. f;
  sleep = λ ms f. f + ms;
  run = λ command f. (ok tt, f);
  lookup_host = λ name f. (ok [], f);
  ip_ltb = λ a b. false;
  connect = λ endpoint f. (ok tt, f);
  parse_socket_addr = λ text. ok text;
  serve_agent = λ addr root f. f;
  agent_exec = λ id command seconds f. (err (codes "no command"), f);
  agent_read_file = λ id path f. (ok [], f);
  agent_write_file = λ id path bytes f. (ok tt, f);
  archive_workspace = λ source path f. (ok tt, f);
  unpack_workspace = λ path target f. (ok tt, f);
  uuid = λ n. n + 100;
  show_uuid = λ id. codes "0123456789";
  clock = λ n. n;
}

abbrev config : FirecrackerBackendConfig
config = record {
  work_dir = codes "/tmp/vms";
  firecracker_path = codes "firecracker";
  kernel_image = codes "/var/lib/hyperbox/vmlinux";
  agent_endpoint = codes "http://127.0.0.1:60061";
  agent_root = codes "/tmp/agent";
  auto_start_agent = true;
  rootfs_by_template = (codes "python:3.12", codes "templates/python/rootfs.ext4") ∷ [];
  host_iface = codes "eth0";
  network_dry_run = false;
}

abbrev online : SandboxConfig
online = record default_config { network = full_mode }

abbrev started : Firecracker ℕ
started = (create host config online (new_backend 5)).1

abbrev vm : RunningVm
vm = record {
  config = vm_config_of host config 100 online (codes "templates/python/rootfs.ext4");
  child = 7;
}

abbrev sandbox : FirecrackerSandbox
sandbox = record {
  config = online;
  info = record { id = 100; template = codes "python:3.12"; state = ready; created_at = 1 };
  vm = vm;
  network_spec = some (spec_of host config 100 vm);
  allowlist_sync_task = none;
  agent_workspace = record {
    path = codes "/tmp/agent/0123456789";
    managed = true;
    linked_workspace = false;
  };
}

-- The response of the source's own test.
response_test :
    parse_http_response (
      codes "HTTP/1.1 204 No Content"
      ++ (13 ∷ 10 ∷ (codes "Connection: close" ++ (13 ∷ 10 ∷ 13 ∷ 10 ∷ []))))
    ≡ ok (record { status_code = 204; body = [] })
unfolding parse_http_response split_once split_whitespace parse_unsigned first_line is_whitespace
response_test = refl

-- The run reaches the table.
sandbox_found : lookup 100 started.sandboxes ≡ some sandbox
unfolding create prepare enlist ◌>>=◌ validate_config on_host or_fail draw_id make_parent
    vm_config_of vm_paths boot resolve_rootfs start_vm make_dir wait_for_socket wait_turns wait_turn
    set_machine_config set_boot_source set_rootfs set_vsock attach attach_network start_instance put
    ensure_success tap_name_of set_up_network apply_firewall apply run_plan build_apply_plan
    fill_allowlist info_of prepare_agent_workspace remove_existing_path remove_by remove_found
    bind_workspace put_sandbox spec_of lookup insert put_json send parse_http_response split_once
    split_whitespace parse_unsigned first_line is_whitespace
sandbox_found = refl

Reachable-IsEnforced_example : IsEnforced host config 100 sandbox
Reachable-IsEnforced_example =
    Reachable-IsEnforced host config started 100 sandbox (created (new_backend 5) online (new 5))
      sandbox_found

wait_for_socket-enough_example :
    wait_turns host (codes "s") 3005 200 (new_backend 5)
    ≡ wait_for_socket host (codes "s") (new_backend 5)
wait_for_socket-enough_example =
    wait_for_socket-enough host (codes "s") (λ ms f. omega arith) 200 (new_backend 5) (omega arith)
