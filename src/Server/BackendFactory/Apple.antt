-- ===== src/Server/BackendFactory/Apple.antt =====
-- The helper and the runtime of the Apple backend, and its choice, in
-- crates/hyperbox-server/src/backend_factory.rs.
use hyperbox.Prelude.{
  split_whitespace, Bool, true, false, not, ◌&&◌, Option, none, some, List, [], ◌∷◌, ◌++◌, Text,
  codes, text_eq, ◌==◌, is_empty, to_ascii_lowercase, trim, if◌then◌else◌,
}
use hyperbox.Server.BackendFactory.{
  BackendKind, apple, unavailable, AppleRuntimeKind, containerization, virtualization,
  MacOsCapabilities, Surroundings, Built, apple_backend, unavailable_backend, BackendSelection,
  or_default,
}

unfoldable pub is_builtin_apple_helper : List Text → Bool
is_builtin_apple_helper [] = false
is_builtin_apple_helper (program ∷ []) = false
is_builtin_apple_helper (program ∷ argument ∷ args) = argument == codes "apple-helper"

unfoldable pub apple_runtime_is_implemented_for_host :
    MacOsCapabilities → List Text → AppleRuntimeKind → Bool
apple_runtime_is_implemented_for_host caps command containerization =
    if is_builtin_apple_helper command then caps.supports_containerization_framework else true
apple_runtime_is_implemented_for_host caps command virtualization =
    if is_builtin_apple_helper command then false else true

-- `is_some_and`
abbrev pub is_some_and {ℓ} : {A : Type ℓ} → (A → Bool) → Option A → Bool
is_some_and f none = false
is_some_and f (some a) = f a

module _ (host : Surroundings) where
  unfoldable pub helper_command_supports_help : List Text → Bool
  helper_command_supports_help command =
      if is_empty command then false else host.succeeds (command ++ (codes "--help" ∷ []))

  abbrev from_path : Option (List Text)
  from_path =
      let path_command = codes "hyperbox" ∷ codes "apple-helper" ∷ [] in
      if helper_command_supports_help path_command then some path_command else none

  abbrev from_exe : Option Text → Option (List Text)
  from_exe none = from_path
  from_exe (some exe) =
      let command = exe ∷ codes "apple-helper" ∷ [] in
      if helper_command_supports_help command then some command else from_path

  unfoldable pub resolve_apple_helper_command : Option (List Text)
  resolve_apple_helper_command =
      let raw = trim (or_default (host.variable (codes "HYPERBOX_APPLE_HELPER")) []) in
      if is_empty raw then from_exe host.current_exe else some (split_whitespace [] raw)

  unfoldable pub resolve_apple_runtime : MacOsCapabilities → Option (List Text) → AppleRuntimeKind
  resolve_apple_runtime caps launch_command =
      let v = to_ascii_lowercase (or_default (host.variable (codes "HYPERBOX_APPLE_RUNTIME")) []) in
      if v == codes "containerization"
      then containerization
      else if v == codes "virtualization"
      then virtualization
      else if caps.supports_containerization_framework
      then containerization
      else if is_some_and is_builtin_apple_helper launch_command
      then containerization
      else virtualization

  unfoldable pub build_apple_backend : Option (List Text) → AppleRuntimeKind → Built
  build_apple_backend launch_command runtime_kind =
      apple_backend
        (or_default (host.variable (codes "HYPERBOX_APPLE_WORKDIR"))
          (host.join host.temp_dir (codes "hyperbox-apple")))
        (or_default (host.variable (codes "HYPERBOX_AGENT_ENDPOINT"))
          (codes "http://127.0.0.1:60061"))
        launch_command runtime_kind

  -- `caps.supports_virtualization_framework && launch_command.is_some_and(..)`
  unfoldable pub apple_supported : Option (List Text) → AppleRuntimeKind → Bool
  apple_supported command runtime =
      host.macos.supports_virtualization_framework
      && is_some_and (λ cmd. apple_runtime_is_implemented_for_host host.macos cmd runtime) command

  -- Why the Apple backend is not chosen, of three texts.
  unfoldable pub apple_refusal : Option (List Text) → Text → Text → Text → Text
  apple_refusal command no_framework no_helper no_runtime =
      if not host.macos.supports_virtualization_framework
      then no_framework
      else if not (is_some_and (λ cmd. true) command)
      then no_helper
      else no_runtime

  -- The branches that the requested and the automatic choice of the Apple backend share.
  unfoldable pub choose_apple : BackendKind → Text → Text → Text → Text → BackendSelection
  choose_apple kind chosen no_framework no_helper no_runtime =
      let command = resolve_apple_helper_command in
      let runtime = resolve_apple_runtime host.macos command in
      let reason = apple_refusal command no_framework no_helper no_runtime in
      if apple_supported command runtime
      then record {
        requested = kind;
        selected = apple;
        reason = chosen;
        apple_runtime = some runtime;
        apple_helper_command = command;
        backend = build_apple_backend command runtime;
      }
      else record {
        requested = kind;
        selected = unavailable;
        reason = reason ++ codes "; run `hyperbox setup` to install runtime prerequisites";
        apple_runtime = some runtime;
        apple_helper_command = command;
        backend = unavailable_backend reason;
      }
