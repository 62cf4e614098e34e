-- ===== src/Server/Runtime/Destroy.antt =====
-- Destroying and listing sandboxes in crates/hyperbox-server/src/runtime.rs.
use hyperbox.Prelude.{
  ℕ, Option, List, [], ◌∷◌, Text, leb, keep, nat_beq, if◌then◌else◌, Assoc, length,
}
use hyperbox.Core.Error.{Result, ok, err, HyperboxError}
use hyperbox.Core.Config.{SandboxConfig, SandboxId, SandboxInfo}
use hyperbox.Core.Process.{ProcessInfo, is_terminal}
use hyperbox.Server.Monad.{M, ◌>>=◌, ◌>>◌, pure, gets, attempt}
use hyperbox.Server.Environment.{Environment}
use hyperbox.Server.Metrics.{inc_destroy}
use hyperbox.Server.Store
use hyperbox.Server.Runtime.{World, on_backend, on_metrics, inspect_in}
use hyperbox.Server.Runtime.Processes.{refresh_process, purge_process, forget_sandbox}
use hyperbox.Server.Runtime.Sandboxes.{ensure_hydrated}
use hyperbox.Server.Runtime.Watch.{cancel_process}

pub record ActiveSandboxInfo : Type 0 where
  pub info : SandboxInfo
  pub affinity_name : Option Text

-- The stable sort by ascending creation.
unfoldable pub insert_oldest : ActiveSandboxInfo → List ActiveSandboxInfo → List ActiveSandboxInfo
insert_oldest r [] = r ∷ []
insert_oldest r (q ∷ l) =
    let rest = insert_oldest r l in
    if leb r.info.created_at q.info.created_at then r ∷ q ∷ l else q ∷ rest

unfoldable pub sort_oldest : List ActiveSandboxInfo → List ActiveSandboxInfo
sort_oldest [] = []
sort_oldest (r ∷ l) = insert_oldest r (sort_oldest l)

abbrev pub push_row :
    Option Text → Result HyperboxError SandboxInfo → List ActiveSandboxInfo → List ActiveSandboxInfo
push_row affinity_name (ok info) rows = record { info = info; affinity_name = affinity_name } ∷ rows
push_row affinity_name (err e) rows = rows

module _ {S : Type 0} (env : Environment S) where
  -- The body of the loop over the sandbox's processes; `fuel` is for the cancellation.
  unfoldable pub end_process : ℕ → ProcessInfo → M (World S) (Unit {0})
  end_process fuel process = do
    refreshed ← refresh_process env process
    if is_terminal refreshed.status
        then pure tt
        else (attempt (cancel_process env fuel refreshed.id) >> pure tt)
    purge_process env refreshed

  unfoldable pub end_each : ℕ → List ProcessInfo → M (World S) (Unit {0})
  end_each fuel [] = pure tt
  end_each fuel (process ∷ rest) = do end_process fuel process; end_each fuel rest

  unfoldable pub destroy_sandbox : ℕ → SandboxId → M (World S) (Unit {0})
  destroy_sandbox fuel id = do
    ensure_hydrated env
    processes ←
        gets
          (λ w. keep (λ (p : ProcessInfo). nat_beq p.sandbox_id id) (Store.list_processes w.store))
    end_each fuel processes
    on_backend (λ s. env.backend.destroy s id)
    forget_sandbox env id
    on_metrics inc_destroy

  unfoldable pub inspect_each : Assoc SandboxId SandboxConfig → M (World S) (List ActiveSandboxInfo)
  inspect_each [] = pure []
  inspect_each ((id, config) ∷ rest) = do
    seen ← attempt (inspect_in env id)
    rows ← inspect_each rest
    pure (push_row config.affinity_name seen rows)

  -- The list is returned, not a result: a hydration that fails is passed over.
  unfoldable pub list_sandboxes : M (World S) (List ActiveSandboxInfo)
  list_sandboxes = do
    attempt (ensure_hydrated env)
    entries ← gets (λ w. w.sandboxes)
    rows ← inspect_each entries
    pure (sort_oldest rows)

  unfoldable pub active_count : M (World S) ℕ
  active_count = gets (λ w. length w.sandboxes)
