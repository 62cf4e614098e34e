-- ===== src/Tests/Cli.antt =====
-- Runs of crates/hyperbox-cli.
use hyperbox.Prelude.{false, codes, text_eq, ◌==◌, to_ascii_lowercase, ◌≡◌, refl}
use hyperbox.Core.Error.{ok}
use hyperbox.Core.Template.{with_defaults, ensure_exists}
use hyperbox.Cli.TemplateAuto.{
  as_str, resolve_template, resolve_template-ensure_exists, first_found, detect_from_command_hint,
  detect_from_workspace,
}

-- A workspace with a file `go.mod`, and a command that is no hint.
resolve_template_test :
    as_str (resolve_template (codes "Auto") (λ name. name == codes "go.mod") (codes "make")).reason
    ≡ codes "workspace_go_mod"
unfolding as_str resolve_template first_found detect_from_command_hint detect_from_workspace
    to_ascii_lowercase
resolve_template_test = refl

-- A word that ends in `go` is taken for a hint of Go.
django_test :
    (resolve_template (codes "auto") (λ name. false) (codes "pip install django gunicorn")).template
    ≡ codes "golang:1.22"
unfolding resolve_template first_found detect_from_command_hint to_ascii_lowercase
django_test = refl

resolve_template-ensure_exists_example :
    ensure_exists with_defaults
      (resolve_template
        (codes "AUTO")
        (λ name. name == codes "go.mod")
        (codes "cargo test")).template
    ≡ ok tt
unfolding to_ascii_lowercase
resolve_template-ensure_exists_example =
    resolve_template-ensure_exists (codes "AUTO") (λ name. name == codes "go.mod")
      (codes "cargo test") refl
