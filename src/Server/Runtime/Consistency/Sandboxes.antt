-- ===== src/Server/Runtime/Consistency/Sandboxes.antt =====
-- The process table under the methods for the life of sandboxes and snapshots.
use hyperbox.Prelude.{Bool, Option, none, some, List, [], ◌∷◌, Text}
use hyperbox.Core.Process.{ProcessInfo}
use hyperbox.Core.Error.{Result, ok, err, HyperboxError, sandbox_not_found}
use hyperbox.Core.Config.{SandboxConfig, SandboxId, SandboxInfo, SandboxLease}
use hyperbox.Core.Snapshot.{SnapshotId, AffinityRecord, ActiveSandboxRecord}
use hyperbox.Server.Monad.{Preserves}
use hyperbox.Server.Environment.{Environment}
use hyperbox.Server.Runtime.Sandboxes.{
  hydrate_one, hydrate_all, hydrate, ensure_hydrated, bind_affinity, register, validate,
  create_sandbox, inspect, config_of, sandbox_config, find_snapshot, restore_snapshot,
  find_affinity, restore_affinity, reuse_bound, resolve_record, resolve_affinity,
}
use hyperbox.Server.Runtime.Consistency.{IsConsistent}
use hyperbox.Server.Runtime.Consistency.Processes.{process_rules}

module _ {S : Type 0} (env : Environment S) {held : List ProcessInfo} where
  hydrate_one-IsConsistent :
      (r : ActiveSandboxRecord) (retry : Bool) (o : Result HyperboxError SandboxInfo)
      → Preserves (IsConsistent held) (hydrate_one env r retry o)
  unfolding hydrate_one
  hydrate_one-IsConsistent r retry (ok info) = search process_rules
  hydrate_one-IsConsistent r retry (err (sandbox_not_found m)) = search process_rules
  hydrate_one-IsConsistent r retry (err e) = search process_rules

  hydrate_all-IsConsistent :
      (l : List ActiveSandboxRecord) (retry : Bool)
      → Preserves (IsConsistent held) (hydrate_all env l retry)
  unfolding hydrate_all
  hydrate_all-IsConsistent [] retry = search process_rules
  hydrate_all-IsConsistent (r ∷ l) retry =
      let rest = hydrate_all-IsConsistent l in
      search (process_rules, hydrate_one-IsConsistent, rest)

  hydrate-IsConsistent : Preserves (IsConsistent held) (hydrate env)
  unfolding hydrate
  hydrate-IsConsistent = search (process_rules, hydrate_all-IsConsistent)

  pub ensure_hydrated-IsConsistent : Preserves (IsConsistent held) (ensure_hydrated env)
  unfolding ensure_hydrated
  ensure_hydrated-IsConsistent = search (process_rules, hydrate-IsConsistent)

  bind_affinity-IsConsistent :
      (o : Option Text) (id : SandboxId) → Preserves (IsConsistent held) (bind_affinity env o id)
  unfolding bind_affinity
  bind_affinity-IsConsistent none id = search process_rules
  bind_affinity-IsConsistent (some name) id = search process_rules

  register-IsConsistent :
      (c : SandboxConfig) (l : SandboxLease) → Preserves (IsConsistent held) (register env c l)
  unfolding register
  register-IsConsistent c l = search (process_rules, bind_affinity-IsConsistent)

  validate-IsConsistent : (c : SandboxConfig) → Preserves (IsConsistent held) (validate env c)
  unfolding validate
  validate-IsConsistent c = search process_rules

  pub create_sandbox-IsConsistent :
      (c : SandboxConfig) → Preserves (IsConsistent held) (create_sandbox env c)
  unfolding create_sandbox
  create_sandbox-IsConsistent c =
      search
        (process_rules, ensure_hydrated-IsConsistent, validate-IsConsistent, register-IsConsistent)

  pub inspect-IsConsistent : (id : SandboxId) → Preserves (IsConsistent held) (inspect env id)
  unfolding inspect
  inspect-IsConsistent id = search (process_rules, ensure_hydrated-IsConsistent)

  config_of-IsConsistent : (id : SandboxId) → Preserves (IsConsistent held) (config_of env id)
  unfolding config_of
  config_of-IsConsistent id = record { holds_at = λ w h. h }

  pub sandbox_config-IsConsistent :
      (id : SandboxId) → Preserves (IsConsistent held) (sandbox_config env id)
  unfolding sandbox_config
  sandbox_config-IsConsistent id =
      search (process_rules, ensure_hydrated-IsConsistent, config_of-IsConsistent)

  find_snapshot-IsConsistent :
      (id : SnapshotId) → Preserves (IsConsistent held) (find_snapshot env id)
  unfolding find_snapshot
  find_snapshot-IsConsistent id = record { holds_at = λ w h. h }

  pub restore_snapshot-IsConsistent :
      (id : SnapshotId) → Preserves (IsConsistent held) (restore_snapshot env id)
  unfolding restore_snapshot
  restore_snapshot-IsConsistent id =
      search
        (
          process_rules, ensure_hydrated-IsConsistent, find_snapshot-IsConsistent,
          register-IsConsistent,
        )
        depth 9

  find_affinity-IsConsistent :
      (name : Text) → Preserves (IsConsistent held) (find_affinity env name)
  unfolding find_affinity
  find_affinity-IsConsistent name = record { holds_at = λ w h. h }

  module _ (name : Text) (r : AffinityRecord) (restore : Bool) where
    restore_affinity-IsConsistent :
        Preserves (IsConsistent held) (restore_affinity env name r restore)
    unfolding restore_affinity
    restore_affinity-IsConsistent = search (process_rules, restore_snapshot-IsConsistent)

    reuse_bound-IsConsistent :
        (id : SandboxId) (o : Result HyperboxError SandboxInfo)
        → Preserves (IsConsistent held) (reuse_bound env name r restore id o)
    unfolding reuse_bound
    reuse_bound-IsConsistent id (ok info) = search process_rules
    reuse_bound-IsConsistent id (err e) = search (process_rules, restore_affinity-IsConsistent)

    resolve_record-IsConsistent :
        (o : Option SandboxId) → Preserves (IsConsistent held) (resolve_record env name r restore o)
    unfolding resolve_record
    resolve_record-IsConsistent none = search (process_rules, restore_affinity-IsConsistent)
    resolve_record-IsConsistent (some id) =
        search (process_rules, inspect-IsConsistent, reuse_bound-IsConsistent)

  pub resolve_affinity-IsConsistent :
      (name : Text) (restore : Bool)
      → Preserves (IsConsistent held) (resolve_affinity env name restore)
  unfolding resolve_affinity
  resolve_affinity-IsConsistent name restore = search (
    process_rules, ensure_hydrated-IsConsistent, find_affinity-IsConsistent,
    resolve_record-IsConsistent,
  )

pub ruleset sandbox_rules = (
  process_rules, ensure_hydrated-IsConsistent, create_sandbox-IsConsistent, inspect-IsConsistent,
  sandbox_config-IsConsistent, restore_snapshot-IsConsistent, resolve_affinity-IsConsistent,
)
