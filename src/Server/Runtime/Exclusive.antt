-- ===== src/Server/Runtime/Exclusive.antt =====
-- One managed process at a time in a sandbox: what the search for an active process finds out.
pub mod Launch
use hyperbox.Prelude.{
  ℕ, suc, Bool, true, false, Option, none, some, List, [], ◌∷◌, All, ◌≡◌, ◌≢◌, refl, sym, ap, ◌∙◌,
  arith, ◌⊎◌, inl, inr, if◌then◌else◌, nat_eq, ◌==◌, nat_beq, Bool-cases, Assoc, lookup, insert,
  values, lookup-insert, AllEntries-lookup, trim, ℤ, beq_refl, eq_of_beq,
}
use mathlib.Core.Logic.{ite}
use mathlib.Core.Path.{subst}
use hyperbox.Server.Runtime.Table.{IsEntry, InList, InList-left}
use hyperbox.Core.Error.{Result, ok, err, HyperboxError, Result-cases}
use hyperbox.Core.Config.{SandboxId, SandboxInfo, ExecOutcome, Time}
use hyperbox.Core.Process.{ProcessInfo, ProcessId, is_terminal, ProcessInfo-discrete}
use hyperbox.Server.Monad.{M, ◌>>=◌, ◌>>◌, pure, gets, Preserves, continue}
use hyperbox.Server.Environment.{Environment}
use hyperbox.Server.Scripts.{process_expiry_at, sh_request, inspect_script}
use hyperbox.Server.Probe.{parse_process_probe}
use hyperbox.Server.Probe.Settled.{IsSettled, parse_process_probe_ids}
use hyperbox.Server.Store.{SnapshotStore, list_processes, upsert_process, get_process}
use hyperbox.Server.Runtime.{World, on_backend, on_store, now, exec_in}
use hyperbox.Server.Runtime.Processes.{
  is_zero, store_if_changed, apply_probe, refresh_process, active_among, active_process_for_sandbox,
}
use hyperbox.Server.Runtime.Consistency.{IsConsistent}
use hyperbox.Server.Runtime.Consistency.Processes.{
  refresh_process-IsConsistent, listed-IsConsistent,
}

-- What a refresh can come to: an error; the same record over the same table; or a new record of the
-- same process, written under its identifier.
data Refreshed {S : Type 0} (p : ProcessInfo) (w : World S)
    (r : Result HyperboxError ProcessInfo × World S) : Type 0 where
  failed_with : (e : HyperboxError) → r.0 ≡ err e → Refreshed p w r
  kept : r.0 ≡ ok p → r.1.store.processes ≡ w.store.processes → Refreshed p w r
  written :
      (q : ProcessInfo)
      → r.0 ≡ ok q
      → q.id ≡ p.id
      → r.1.store.processes ≡ insert q.id q w.store.processes
      → Refreshed p w r

-- A refresh over a state with the same table.
transfer :
    {S : Type 0} (p : ProcessInfo) (v w : World S) (r : Result HyperboxError ProcessInfo × World S)
    → v.store.processes ≡ w.store.processes
    → Refreshed p v r
    → Refreshed p w r
transfer p v w r e (failed_with x h) = failed_with x h
transfer p v w r e (kept h k) = kept h (k ∙ e)
transfer p v w r e (written q h i k) = written q h i (k ∙ ap (insert q.id q) e)

store_if_changed-Refreshed :
    {S : Type 0} (p q : ProcessInfo) (w : World S)
    → q.id ≡ p.id
    → Refreshed p w (store_if_changed p q w)
unfolding store_if_changed on_store ◌>>=◌ upsert_process
store_if_changed-Refreshed p q w e =
    elim (ProcessInfo-discrete q p)
      as (λ d. Refreshed p w (ite d (pure q) (on_store (λ s. upsert_process s q) >> pure q) w)) [
        | yes same ↦ kept (ap ok same) refl
        | no differ ↦ written q refl e refl
      ]

module _ {S : Type 0} (env : Environment S) where
  apply_probe-Refreshed :
      (p : ProcessInfo) (o : ExecOutcome) (w : World S) → Refreshed p w (apply_probe env p o w)
  unfolding apply_probe now ◌>>=◌
  apply_probe-Refreshed p o w = elim (Bool-cases (is_zero o.exit_code)) [
    | inl z ↦
        let time = env.clock w.readings in
        let q = parse_process_probe (process_expiry_at env) time p (trim o.stdout) in
        let v : World S = record w { readings = suc w.readings } in
        rw z (
          transfer p v w _ refl (
            store_if_changed-Refreshed p q v
              (parse_process_probe_ids (process_expiry_at env) time p (trim o.stdout)).0))
    | inr n ↦ rw n (kept refl refl)
  ]

  refresh_process-Refreshed :
      (p : ProcessInfo) (w : World S) → Refreshed p w (refresh_process env p w)
  unfolding refresh_process ◌>>=◌ exec_in on_backend
  refresh_process-Refreshed p w = elim (Bool-cases (is_terminal p.status)) [
    | inl t ↦ rw t (kept refl refl)
    | inr f ↦ rw f (
        after_exec
          (env.backend.exec w.backend_state p.sandbox_id (sh_request (inspect_script env p) 5)))
  ]
    where
      after_exec :
          (r : Result HyperboxError ExecOutcome × S)
          → Refreshed p w (continue r.0 (apply_probe env p) (record w { backend_state = r.1 }))
      after_exec (ok o, s) =
          transfer p (record w { backend_state = s }) w _ refl (apply_probe-Refreshed p o _)
      after_exec (err e, s) = failed_with e refl

-- Every process that the table holds for the sandbox has ended, or is still to be looked at.
abbrev Covered : SandboxId → Assoc ProcessId ProcessInfo → List ProcessInfo → Type 0
Covered id m l =
    (k : ProcessId) (p : ProcessInfo)
    → lookup k m ≡ some p
    → p.sandbox_id ≡ id
    → (is_terminal p.status ≡ true) ⊎ InList p l

-- The sandbox has no process that is alive.
pub record IsIdle {S : Type 0} (id : SandboxId) (w : World S) : Type 0 where
  pub ended :
      (k : ProcessId) (p : ProcessInfo)
      → lookup k w.store.processes ≡ some p
      → p.sandbox_id ≡ id
      → is_terminal p.status ≡ true

lookup-InList :
    (k : ProcessId) (m : Assoc ProcessId ProcessInfo) {p : ProcessInfo}
    → lookup k m ≡ some p
    → InList p (values m)
unfolding lookup values
lookup-InList k [] h = cc
lookup-InList k ((j, q) ∷ m) {p} h = elim (Bool-cases (nat_beq j k)) [
  | inl t ↦ inl (ground arith)
  | inr f ↦ inr (lookup-InList k m (ground arith))
]

Covered-skip :
    (id : SandboxId) (m : Assoc ProcessId ProcessInfo) (p : ProcessInfo) (l : List ProcessInfo)
    → (p.sandbox_id ≡ id → is_terminal p.status ≡ true)
    → Covered id m (p ∷ l)
    → Covered id m l
Covered-skip id m p l over c k q h s = elim (c k q h s) [
  | inl t ↦ inl t
  | inr (inl e) ↦ inl (rw e (over (rw e at s)))
  | inr (inr i) ↦ inr i
]

-- A new record that has ended takes the place of its old one.
Covered-insert :
    (id : SandboxId) (m : Assoc ProcessId ProcessInfo) (p q : ProcessInfo) (l : List ProcessInfo)
    → ((k : ProcessId) (r : ProcessInfo) → lookup k m ≡ some r → r.id ≡ k)
    → q.id ≡ p.id
    → is_terminal q.status ≡ true
    → Covered id m (p ∷ l)
    → Covered id (insert q.id q m) l
Covered-insert id m p q l keyed same over c k r h s = elim (Bool-cases (nat_beq q.id k)) [
  | inl t ↦ let e : q ≡ r = ground (arith, lookup-insert q.id k q m) in inl (rw (← e) over)
  | inr f ↦
      let g : lookup k m ≡ some r = ground (arith, lookup-insert q.id k q m) in
      elim (c k r g s) [
        | inl t ↦ inl t
        | inr (inl e) ↦
            let i : q.id ≡ k = same ∙ sym (ap (λ (x : ProcessInfo). x.id) e) ∙ keyed k r g in
            absurd (ground arith)
        | inr (inr i) ↦ inr i
      ]
]

module _ {S : Type 0} (env : Environment S) where
  active_among-other :
      (id : SandboxId) (p : ProcessInfo) (l : List ProcessInfo)
      → nat_beq p.sandbox_id id ≡ false
      → active_among env id (p ∷ l) ≡ active_among env id l
  unfolding active_among
  active_among-other id p l f = rw f

  abbrev found_or_next :
      SandboxId → List ProcessInfo → ProcessInfo → M (World S) (Option ProcessInfo)
  found_or_next id l q = if is_terminal q.status then active_among env id l else pure (some q)

  active_among-same :
      (id : SandboxId) (p : ProcessInfo) (l : List ProcessInfo) (w : World S)
      → nat_beq p.sandbox_id id ≡ true
      → active_among env id (p ∷ l) w
        ≡ continue (refresh_process env p w).0 (found_or_next id l) (refresh_process env p w).1
  unfolding active_among ◌>>=◌
  active_among-same id p l w t = rw t

  active_among-nil : (id : SandboxId) (w : World S) → active_among env id [] w ≡ (ok none, w)
  unfolding active_among ◌>>=◌
  active_among-nil id w = refl

  nil-IsIdle :
      (id : SandboxId) (w v : World S) → Covered id w.store.processes [] → w ≡ v → IsIdle id v
  nil-IsIdle id w v cov e =
      subst (IsIdle id) e
        (record { ended = λ k p h s. elim (cov k p h s) [ inl t ↦ t | inr i ↦ absurd i ] })

module _ {S : Type 0} (env : Environment S) {held : List ProcessInfo} where
  keyed :
      (w : World S)
      → IsConsistent held w
      → (k : ProcessId) (r : ProcessInfo) → lookup k w.store.processes ≡ some r
      → r.id ≡ k
  keyed w c k r h = (AllEntries-lookup IsEntry k r w.store.processes c.table.entries h).0

  Covered-refresh :
      (id : SandboxId) (p q : ProcessInfo) (l : List ProcessInfo) (w v : World S)
      → IsConsistent held w
      → refresh_process env p w ≡ (ok q, v)
      → is_terminal q.status ≡ true
      → Covered id w.store.processes (p ∷ l)
      → Covered id v.store.processes l
  Covered-refresh id p q l w v c h over cov = by_outcome (refresh_process-Refreshed env p w)
    where
      by_outcome : Refreshed p w (refresh_process env p w) → Covered id v.store.processes l
      by_outcome (failed_with e x) = cc
      by_outcome (kept x y) =
          let e : p ≡ q = ground arith in
          let m : v.store.processes ≡ w.store.processes = rw h at y in
          rw m (Covered-skip id w.store.processes p l (λ _. rw e over) cov)
      by_outcome (written r x i y) =
          let e : r ≡ q = ground arith in
          let m : v.store.processes ≡ insert r.id r w.store.processes = rw h at y in
          rw m (Covered-insert id w.store.processes p r l (keyed w c) i (rw e over) cov)

  -- The head of the list, looked at; `next` is the rest of the search.
  after_refresh-IsIdle :
      (id : SandboxId) (p : ProcessInfo) (l : List ProcessInfo) (w v : World S)
      → InList p held
      → IsConsistent held w
      → Covered id w.store.processes (p ∷ l)
      → ((u : World S)
          → IsConsistent held u
          → Covered id u.store.processes l
          → active_among env id l u ≡ (ok none, v)
          → IsIdle id v)
      → (r : Result HyperboxError ProcessInfo × World S) → refresh_process env p w ≡ r
      → continue r.0 (found_or_next env id l) r.1 ≡ (ok none, v)
      → IsIdle id v
  after_refresh-IsIdle id p l w v a c cov next (err e, u) g k = absurd (ground arith)
  after_refresh-IsIdle id p l w v a c cov next (ok q, u) g k =
      elim (Bool-cases (is_terminal q.status)) [
        | inl over ↦
            next u
              (subst (λ (r : Result HyperboxError ProcessInfo × World S). IsConsistent held r.1) g
                ((refresh_process-IsConsistent env p a).holds_at w c))
              (Covered-refresh id p q l w u c g over cov) (rw over at k)
        | inr alive ↦ absurd (unfold ◌>>=◌ in ground arith)
      ]

  active_among-IsIdle :
      (id : SandboxId) (l : List ProcessInfo) (w v : World S)
      → ((p : ProcessInfo) → InList p l → InList p held)
      → IsConsistent held w
      → Covered id w.store.processes l
      → active_among env id l w ≡ (ok none, v)
      → IsIdle id v
  active_among-IsIdle id [] w v a c cov h = nil-IsIdle env id w v cov (
      ap (λ (r : Result HyperboxError (Option ProcessInfo) × World S). r.1)
        (sym (active_among-nil env id w) ∙ h))
  active_among-IsIdle id (p ∷ l) w v a c cov h = elim (Bool-cases (nat_beq p.sandbox_id id)) [
    | inr f ↦
        active_among-IsIdle id l w v (λ q i. a q (inr i)) c
          (Covered-skip id w.store.processes p l (λ e. absurd (ground arith)) cov)
          (rw (active_among-other env id p l f) at h)
    | inl t ↦
        after_refresh-IsIdle id p l w v (a p (inl refl)) c cov
          (λ u cu covu hu. active_among-IsIdle id l u v (λ q i. a q (inr i)) cu covu hu)
          (refresh_process env p w) refl (rw (active_among-same env id p l w t) at h)
  ]

module _ {S : Type 0} (env : Environment S) where
  pub active_process_for_sandbox-IsIdle :
      (id : SandboxId) (w v : World S)
      → IsConsistent [] w
      → active_process_for_sandbox env id w ≡ (ok none, v)
      → IsIdle id v
  unfolding active_process_for_sandbox ◌>>=◌ list_processes
  active_process_for_sandbox-IsIdle id w v c h =
      active_among-IsIdle env id (list_processes w.store) w v
        (λ p i. InList-left p (list_processes w.store) [] i)
        (listed-IsConsistent [] (list_processes w.store) w (λ p i. i) c)
        (λ k p l s. inr (lookup-InList k w.store.processes l)) h

  -- When the search for an active process of a sandbox, begun with a consistent process table,
  -- returns none, every process that the table it leaves holds for the sandbox has ended.
  pub active_process_for_sandbox-none :
      (id : SandboxId) (w v : World S) (k : ProcessId) (p : ProcessInfo)
      → IsConsistent [] w
      → active_process_for_sandbox env id w ≡ (ok none, v)
      → get_process v.store k ≡ some p
      → p.sandbox_id ≡ id
      → is_terminal p.status ≡ true
  unfolding get_process
  active_process_for_sandbox-none id w v k p c h g s =
      (active_process_for_sandbox-IsIdle id w v c h).ended k p g s
