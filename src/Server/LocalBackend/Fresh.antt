-- ===== src/Server/LocalBackend/Fresh.antt =====
-- The identifiers that the local backend of crates/hyperbox-server/src/local_backend.rs issues, as the
-- warm pool relies on them.
use hyperbox.Prelude.{
  ◌+◌, ◌⊎◌, inl, inr, Bool-cases, nat_beq_to, ℕ, zero, suc, ◌≤◌, Bool, true, false, ◌||◌, nat_beq,
  ◌≡◌, refl, sym, ap, ◌∙◌, arith, Text, Option, none, some,
}
use hyperbox.Core.Error.{Result, ok, err, HyperboxError}
use hyperbox.Core.Config.{SandboxConfig, SandboxId, SandboxInfo, SandboxLease}
use hyperbox.Server.Monad.{
  lift, bind-Returned, pure-Returned, Preserves-lift, Preserves-to, Preserves, preserves_rules,
}
use hyperbox.Server.LocalBackend.{
  Host, Local, SandboxRecord, local_backend, create, draw_info, prepare_dir, resolve_workspace,
  put_record, on_host, validate_config,
}
use hyperbox.Server.Pool.Partition.{Issues, Reachable, count, Reachable-once}
use hyperbox.Server.Pool.{Pool}

module _ {F : Type 0} (host : Host F) (root_dir : Text) where
  -- The generator repeats nothing.
  abbrev pub IsInjective : Type 0
  IsInjective = (i j : ℕ) → host.uuid i ≡ host.uuid j → i ≡ j

  -- The identifiers of the first `n` draws.
  unfoldable pub issued_below : ℕ → SandboxId → Bool
  issued_below zero id = false
  issued_below (suc n) id = nat_beq (host.uuid n) id || issued_below n id

  or_true : (a : Bool) {b : Bool} → b ≡ true → (a || b) ≡ true
  or_true true h = refl
  or_true false h = h

  or_false : (a : Bool) {b : Bool} → a ≡ false → b ≡ false → (a || b) ≡ false
  or_false true e h = e
  or_false false e h = h

  issued_below-fresh : IsInjective → (n k : ℕ) → n ≤ k → issued_below n (host.uuid k) ≡ false
  unfolding issued_below
  issued_below-fresh inj zero k h = refl
  issued_below-fresh inj (suc n) k h =
      let rest = issued_below-fresh inj n k (omega arith) in
      let other : nat_beq (host.uuid n) (host.uuid k) ≡ false =
        apart (Bool-cases (nat_beq (host.uuid n) (host.uuid k))) in
      or_false (nat_beq (host.uuid n) (host.uuid k)) other rest
    where
      apart :
          (nat_beq (host.uuid n) (host.uuid k) ≡ true)
            ⊎ (nat_beq (host.uuid n) (host.uuid k) ≡ false)
          → nat_beq (host.uuid n) (host.uuid k) ≡ false
      apart (inl e) =
          let same : n ≡ k = inj n k (nat_beq_to (host.uuid n) (host.uuid k) e) in ground arith
      apart (inr e) = e

  module _ {n : ℕ} where
    on_host-draws :
        {A : Type 0} (call : F → Result HyperboxError A × F)
        → Preserves (λ w. w.draws ≡ n) (on_host host root_dir call)
    unfolding on_host
    on_host-draws call = record { holds_at = λ w h. h }

    put_record-draws :
        (id : SandboxId) (r : SandboxRecord)
        → Preserves (λ w. w.draws ≡ n) (put_record host root_dir id r)
    unfolding put_record
    put_record-draws id r = record { holds_at = λ w h. h }

    resolve_workspace-draws :
        (path : Text) → Preserves (λ w. w.draws ≡ n) (resolve_workspace host root_dir path)
    unfolding resolve_workspace
    resolve_workspace-draws path = search (preserves_rules, on_host-draws)

    prepare_dir-draws :
        (o : Option Text) (id : SandboxId)
        → Preserves (λ w. w.draws ≡ n) (prepare_dir host root_dir o id)
    unfolding prepare_dir
    prepare_dir-draws none id = search (preserves_rules, on_host-draws)
    prepare_dir-draws (some path) id =
        search (preserves_rules, on_host-draws, resolve_workspace-draws)

  issued_below-last : (n : ℕ) → issued_below (suc n) (host.uuid n) ≡ true
  unfolding issued_below
  issued_below-last n = ground arith

  abbrev id_of : Result HyperboxError SandboxInfo → SandboxId
  id_of (ok info) = info.id
  id_of (err e) = 0

  create-draws :
      (config : SandboxConfig) (w v : Local F) (lease : SandboxLease)
      → create host root_dir config w ≡ (ok lease, v)
      → (lease.id ≡ host.uuid w.draws) × (v.draws ≡ suc w.draws)
  unfolding create draw_info
  create-draws config w v lease h =
      let checked = bind-Returned (lift (validate_config host root_dir config)) _ w v lease h in
      let rooted =
        bind-Returned (on_host host root_dir (host.create_dir_all root_dir)) _ checked.state v lease
          checked.rest in
      let drawn =
        bind-Returned (draw_info host root_dir config.template) _ rooted.state v lease
          rooted.rest in
      let prepared =
        bind-Returned (prepare_dir host root_dir config.workspace_dir drawn.value.id) _ drawn.state
          v lease drawn.rest in
      let stored =
        bind-Returned (put_record host root_dir drawn.value.id _) _ prepared.state v lease
          prepared.rest in
      let done = pure-Returned _ lease stored.state v stored.rest in
      let at_check : checked.state.draws ≡ w.draws =
        Preserves-to {P = λ (u : Local F). u.draws ≡ w.draws}
          (Preserves-lift (validate_config host root_dir config)) refl checked.first in
      let at_root : rooted.state.draws ≡ w.draws =
        Preserves-to (on_host-draws (host.create_dir_all root_dir)) at_check rooted.first in
      let at_draw : drawn.state.draws ≡ suc rooted.state.draws =
        sym (ap (λ (x : Result HyperboxError SandboxInfo × Local F). x.1.draws) drawn.first) in
      let at_dir : prepared.state.draws ≡ drawn.state.draws =
        Preserves-to (prepare_dir-draws config.workspace_dir drawn.value.id) refl prepared.first in
      let at_store : stored.state.draws ≡ prepared.state.draws =
        Preserves-to (put_record-draws drawn.value.id _) refl stored.first in
      let id : lease.id ≡ drawn.value.id = sym (ap (λ (l : SandboxLease). l.id) done.0) in
      let drawn_id : drawn.value.id ≡ host.uuid rooted.state.draws =
        sym (ap (λ (x : Result HyperboxError SandboxInfo × Local F). id_of x.0) drawn.first) in
      let last : stored.state.draws ≡ v.draws = ap (λ (u : Local F). u.draws) done.1 in (cc, cc)

  module _ (id : SandboxId) where
    on_host-issued :
        {A : Type 0} (call : F → Result HyperboxError A × F)
        → Preserves (λ w. issued_below w.draws id ≡ true) (on_host host root_dir call)
    unfolding on_host
    on_host-issued call = record { holds_at = λ w h. h }

    put_record-issued :
        (i : SandboxId) (r : SandboxRecord)
        → Preserves (λ w. issued_below w.draws id ≡ true) (put_record host root_dir i r)
    unfolding put_record
    put_record-issued i r = record { holds_at = λ w h. h }

    draw_info-issued :
        (template : Text)
        → Preserves (λ w. issued_below w.draws id ≡ true) (draw_info host root_dir template)
    unfolding draw_info issued_below
    draw_info-issued template = record {
      holds_at = λ w h. or_true (nat_beq (host.uuid w.draws) id) h;
    }

    resolve_workspace-issued :
        (path : Text)
        → Preserves (λ w. issued_below w.draws id ≡ true) (resolve_workspace host root_dir path)
    unfolding resolve_workspace
    resolve_workspace-issued path = search (preserves_rules, on_host-issued)

    prepare_dir-issued :
        (o : Option Text) (i : SandboxId)
        → Preserves (λ w. issued_below w.draws id ≡ true) (prepare_dir host root_dir o i)
    unfolding prepare_dir
    prepare_dir-issued none i = search (preserves_rules, on_host-issued)
    prepare_dir-issued (some path) i =
        search (preserves_rules, on_host-issued, resolve_workspace-issued)

    create-issued :
        (config : SandboxConfig)
        → Preserves (λ w. issued_below w.draws id ≡ true) (create host root_dir config)
    unfolding create
    create-issued config =
        search
          (preserves_rules, on_host-issued, draw_info-issued, prepare_dir-issued, put_record-issued)
          depth 16

  -- The identifiers of the draws so far are what the local backend has issued.
  pub local_backend-Issues :
      IsInjective → (config : SandboxConfig) → Issues (local_backend host root_dir) config
  unfolding local_backend
  local_backend-Issues inj config = record {
    issued = λ w. issued_below w.draws;
    fresh = λ s t lease h.
        let (id, draws) = create-draws config s t lease h in
        (
          ap (issued_below s.draws) id ∙ issued_below-fresh inj s.draws s.draws (omega arith),
          ap (λ n. issued_below n lease.id) draws
              ∙ ap (issued_below (suc s.draws)) id
              ∙ issued_below-last s.draws,
        );
    stays = λ s t r id h k. Preserves-to (create-issued id config) k h;
  }

  -- In a warm pool over the local backend, with a generator of identifiers that repeats none, every
  -- sandbox stands once at most in the queue and the set together, in whatever order fills, checkouts
  -- and releases lead to the pool from a new one.
  pub local_pool-once :
      (config : SandboxConfig) (target_size : ℕ) (p : Pool (Local F)) (id : SandboxId)
      → (inj : IsInjective)
      → Reachable
          (local_backend host root_dir)
          config
          (local_backend-Issues inj config)
          target_size
          p
      → count id p.available + count id p.in_use ≤ 1
  local_pool-once config n p id inj r =
      Reachable-once (local_backend host root_dir) config (local_backend-Issues inj config) n p id r
