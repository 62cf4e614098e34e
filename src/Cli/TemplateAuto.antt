-- ===== src/Cli/TemplateAuto.antt =====
-- crates/hyperbox-cli/src/template_auto.rs: the template of a run that asks for `auto`. Whether the
-- workspace has a file of a given name is a parameter.
use hyperbox.Prelude.{
  Bool, Option, none, some, List, [], ◌∷◌, any, Text, codes, contains_text, is_empty,
  to_ascii_lowercase, text_eq, ◌==◌, if◌then◌else◌, Bool-cases, inl, inr, ◌≡◌, refl,
}
use hyperbox.Core.Error.{ok}
use hyperbox.Core.Template.{with_defaults, ensure_exists}

pub data TemplateReason : Type 0 where
  explicit command_hint_rust command_hint_go command_hint_node command_hint_python : TemplateReason
  workspace_cargo_toml workspace_go_mod workspace_node_manifest : TemplateReason
  workspace_python_manifest fallback : TemplateReason

unfoldable pub as_str : TemplateReason → Text
as_str explicit = codes "explicit"
as_str command_hint_rust = codes "command_hint_rust"
as_str command_hint_go = codes "command_hint_go"
as_str command_hint_node = codes "command_hint_node"
as_str command_hint_python = codes "command_hint_python"
as_str workspace_cargo_toml = codes "workspace_cargo_toml"
as_str workspace_go_mod = codes "workspace_go_mod"
as_str workspace_node_manifest = codes "workspace_node_manifest"
as_str workspace_python_manifest = codes "workspace_python_manifest"
as_str fallback = codes "fallback"

pub record TemplateResolution : Type 0 where
  pub template : Text
  pub reason : TemplateReason

-- `CommandRule` and `WorkspaceRule`: what is looked for, and what is resolved where it is found.
pub record Rule : Type 0 where
  pub sought : List Text
  pub resolved : TemplateResolution

unfoldable pub resolved : Text → TemplateReason → TemplateResolution
resolved template reason = record { template = template; reason = reason }

-- `COMMAND_RULES`
abbrev pub command_rules : List Rule
command_rules =
    record {
      sought =
          codes "cargo " ∷ codes "cargo\n" ∷ codes "cargo\t" ∷ codes "cargo-" ∷ codes "rustc" ∷ [];
      resolved = record { template = codes "rust:1.75"; reason = command_hint_rust };
    }
    ∷ record {
      sought =
          codes "go "
          ∷ codes "go\n"
          ∷ codes "go\t"
          ∷ codes "go test"
          ∷ codes "go build"
          ∷ codes "go run"
          ∷ [];
      resolved = record { template = codes "golang:1.22"; reason = command_hint_go };
    }
    ∷ record {
      sought =
          codes "npm "
          ∷ codes "node "
          ∷ codes "pnpm "
          ∷ codes "yarn "
          ∷ codes "npx "
          ∷ codes "bun "
          ∷ codes "tsx "
          ∷ [];
      resolved = record { template = codes "node:20"; reason = command_hint_node };
    }
    ∷ record {
      sought =
          codes "python"
          ∷ codes "pip "
          ∷ codes "pytest"
          ∷ codes "uv "
          ∷ codes "poetry "
          ∷ codes "ipython"
          ∷ [];
      resolved = record { template = codes "python:3.12"; reason = command_hint_python };
    }
    ∷ []

-- `WORKSPACE_RULES`
abbrev pub workspace_rules : List Rule
workspace_rules =
    record {
      sought = codes "Cargo.toml" ∷ [];
      resolved = record { template = codes "rust:1.75"; reason = workspace_cargo_toml };
    }
    ∷ record {
      sought = codes "go.mod" ∷ [];
      resolved = record { template = codes "golang:1.22"; reason = workspace_go_mod };
    }
    ∷ record {
      sought =
          codes "package.json"
          ∷ codes "pnpm-lock.yaml"
          ∷ codes "yarn.lock"
          ∷ codes "package-lock.json"
          ∷ codes "bun.lockb"
          ∷ [];
      resolved = record { template = codes "node:20"; reason = workspace_node_manifest };
    }
    ∷ record {
      sought =
          codes "pyproject.toml"
          ∷ codes "requirements.txt"
          ∷ codes "requirements-dev.txt"
          ∷ codes "setup.py"
          ∷ codes "Pipfile"
          ∷ codes "poetry.lock"
          ∷ [];
      resolved = record { template = codes "python:3.12"; reason = workspace_python_manifest };
    }
    ∷ []

-- The first rule of which something is found, as both loops look for it.
unfoldable pub first_found : (Text → Bool) → List Rule → Option TemplateResolution
first_found found [] = none
first_found found (rule ∷ rules) =
    let rest = first_found found rules in if any found rule.sought then some rule.resolved else rest

unfoldable pub detect_from_command_hint : Text → Option TemplateResolution
detect_from_command_hint command_hint =
    if is_empty command_hint
    then none
    else first_found (λ needle. contains_text needle (to_ascii_lowercase command_hint))
        command_rules

unfoldable pub detect_from_workspace : (Text → Bool) → Option TemplateResolution
detect_from_workspace exists = first_found exists workspace_rules

abbrev pub or_else {ℓ} : {A : Type ℓ} → Option A → A → A
or_else none a = a
or_else (some b) a = b

unfoldable pub resolve_template : Text → (Text → Bool) → Text → TemplateResolution
resolve_template template_arg exists command_hint =
    if to_ascii_lowercase template_arg == codes "auto"
    then or_else (detect_from_command_hint command_hint)
        (or_else (detect_from_workspace exists) (resolved (codes "python:3.12") fallback))
    else resolved template_arg explicit

-- A resolution that names a built-in template.
abbrev IsBuiltIn : TemplateResolution → Type 0
IsBuiltIn r = ensure_exists with_defaults r.template ≡ ok tt

abbrev AllBuiltIn : List Rule → Type 0
AllBuiltIn [] = Unit
AllBuiltIn (rule ∷ rules) = IsBuiltIn rule.resolved × AllBuiltIn rules

or_else-IsBuiltIn :
    (found : Text → Bool) (rules : List Rule) (r : TemplateResolution)
    → AllBuiltIn rules
    → IsBuiltIn r
    → IsBuiltIn (or_else (first_found found rules) r)
unfolding first_found
or_else-IsBuiltIn found [] r all last = last
or_else-IsBuiltIn found (rule ∷ rules) r all last = elim (Bool-cases (any found rule.sought)) [
  | inl t ↦ rw t all.0
  | inr f ↦ rw f (or_else-IsBuiltIn found rules r all.1 last)
]

workspace-IsBuiltIn :
    (exists : Text → Bool)
    → IsBuiltIn (or_else (detect_from_workspace exists) (resolved (codes "python:3.12") fallback))
unfolding detect_from_workspace ensure_exists with_defaults resolved
workspace-IsBuiltIn exists =
    or_else-IsBuiltIn exists workspace_rules _ (refl, (refl, (refl, (refl, tt)))) refl

command_rules-AllBuiltIn : AllBuiltIn command_rules
unfolding ensure_exists with_defaults
command_rules-AllBuiltIn = (refl, (refl, (refl, (refl, tt))))

-- A template that is chosen automatically is one that the registry of built-in templates has,
-- whatever the command and the workspace are.
pub resolve_template-ensure_exists :
    (template_arg : Text) (exists : Text → Bool) (command_hint : Text)
    → to_ascii_lowercase template_arg ≡ codes "auto"
    → ensure_exists with_defaults (resolve_template template_arg exists command_hint).template
      ≡ ok tt
unfolding resolve_template detect_from_command_hint
resolve_template-ensure_exists template_arg exists command_hint auto =
    rw auto (elim (Bool-cases (is_empty command_hint)) [
      | inl t ↦ rw t (workspace-IsBuiltIn exists)
      | inr f ↦ rw f (
          or_else-IsBuiltIn _ command_rules _ command_rules-AllBuiltIn (workspace-IsBuiltIn exists))
    ])
