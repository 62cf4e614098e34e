-- ===== src/Server/BackendFactory/Selection.antt =====
-- `resolve_backend` of crates/hyperbox-server/src/backend_factory.rs.
use hyperbox.Prelude.{◌++◌, codes, text_eq, ◌==◌, if◌then◌else◌}
use hyperbox.Server.BackendFactory.{
  BackendKind, auto, local, firecracker, apple, unavailable, supports_firecracker, Surroundings,
  local_backend, unavailable_backend, BackendSelection, build_firecracker_backend, plain,
}
use hyperbox.Server.BackendFactory.Apple.{choose_apple}

module _ (host : Surroundings) where
  unfoldable pub auto_linux : BackendSelection
  auto_linux =
      if supports_firecracker host.linux
      then plain auto firecracker
          (codes "auto selected firecracker: linux host supports KVM/firecracker")
          (build_firecracker_backend host)
      else (let reason =
            codes
              "auto backend requires VM isolation but linux host does not satisfy firecracker capability checks" in
          plain auto unavailable
            (reason ++ codes "; set HYPERBOX_BACKEND=local only for non-isolated dev mode")
            (unavailable_backend reason))

  unfoldable pub auto_other : BackendSelection
  auto_other =
      let reason =
        codes "auto backend requires VM isolation but host OS `"
        ++ (host.os ++ codes "` is unsupported") in
      plain auto unavailable
        (reason ++ codes "; set HYPERBOX_BACKEND=local only for non-isolated dev mode")
        (unavailable_backend reason)

  unfoldable pub auto_backend_selection : BackendSelection
  auto_backend_selection =
      if host.os == codes "linux"
      then auto_linux
      else if host.os == codes "macos"
      then choose_apple host auto
          (codes "auto selected apple: host capabilities and helper support are available")
          (codes
            "auto backend requires VM isolation but macOS host lacks virtualization framework support")
          (codes "auto backend requires VM isolation but no Apple helper command was discovered")
          (codes
            "auto backend requires VM isolation but discovered Apple helper/runtime is not supported on this host")
      else auto_other

  unfoldable pub resolve_backend : BackendKind → BackendSelection
  resolve_backend local =
      plain local local (codes "selected via HYPERBOX_BACKEND=local") local_backend
  resolve_backend firecracker =
      plain firecracker firecracker (codes "selected via HYPERBOX_BACKEND=firecracker")
        (build_firecracker_backend host)
  resolve_backend apple =
      choose_apple host apple (codes "selected via HYPERBOX_BACKEND=apple")
        (codes "requested apple backend but host lacks virtualization framework support")
        (codes "requested apple backend but no helper command was discovered")
        (codes "requested apple backend but helper/runtime is not supported on this host")
  resolve_backend auto = auto_backend_selection
  resolve_backend unavailable =
      plain unavailable unavailable (codes "backend marked unavailable")
        (unavailable_backend (codes "backend unavailable"))
