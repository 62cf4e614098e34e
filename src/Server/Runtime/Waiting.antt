-- ===== src/Server/Runtime/Waiting.antt =====
-- How the polling loops of crates/hyperbox-server/src/runtime.rs come to their ends.
mod Readings
use hyperbox.Prelude.{
  ℕ, zero, suc, ◌+◌, ◌≤◌, ◌<◌, Bool, true, false, Option, none, some, List, [], ◌∷◌, Text, codes,
  leb, Bool-cases, inl, inr, if◌then◌else◌, ◌≡◌, ◌≢◌, refl, sym, ap, ◌∙◌, arith,
}
use hyperbox.Core.Error.{Result, ok, err, HyperboxError}
use hyperbox.Core.Process.{ProcessInfo, ProcessId, is_terminal}
use hyperbox.Server.Monad.{
  Preserves, Preserves-to, bind-elim, continue, M, ◌>>=◌, ◌>>◌, pure, throw,
}
use hyperbox.Server.Environment.{Environment}
use hyperbox.Server.Runtime.{World, instant_now}
use hyperbox.Server.Runtime.Waiting.Readings.{
  HasRead, fetch_process-HasRead, pause_by_elapsed-HasRead, pause_fixed-HasRead,
}
use hyperbox.Server.Runtime.Runs.{fetch_process}
use hyperbox.Server.Runtime.Sandboxes.{ensure_hydrated}
use hyperbox.Server.Runtime.Watch.{
  pause_fixed, cancel_running, cancel_process, poll, pause_by_elapsed, wait_process, timed_out,
  seconds, max,
}

-- A loop's result once it has not run out of fuel: an error, or a process that has ended.
pub data Ended : Result HyperboxError (Option ProcessInfo) → Type 0 where
  failed : (e : HyperboxError) → Ended (err e)
  ended : (p : ProcessInfo) → is_terminal p.status ≡ true → Ended (ok (some p))

module _ {S : Type 0} (env : Environment S) where
  -- The clock passes every instant: after so many readings it is there and stays there.
  abbrev pub Advances : Type 0
  Advances = (instant : ℕ) → (n : ℕ) × ((m : ℕ) → n ≤ m → instant ≤ env.instant m)

  instant_now-reads :
      (u v : World S) (i : ℕ)
      → instant_now env u ≡ (ok i, v)
      → (i ≡ env.instant u.readings) × (v.readings ≡ suc u.readings)
  unfolding instant_now
  instant_now-reads u v i h = (cc, cc)

  -- A round in which the clock is past the deadline is the last, and a round before that reads the
  -- clock.
  poll-Ended :
      (pause : M (World S) (Unit {0})) (doing : Text) (id : ProcessId) (deadline n fuel : ℕ)
      (w : World S)
      → ((m : ℕ) → n ≤ m → deadline ≤ env.instant m)
      → ((k : ℕ) → Preserves (HasRead k) pause)
      → 0 < fuel
      → n < fuel + w.readings
      → Ended (poll env pause doing id deadline fuel w).0
  unfolding poll ◌>>=◌
  poll-Ended pause doing id deadline n zero w late keep some_fuel h = absurd (omega arith)
  poll-Ended pause doing id deadline n (suc fuel) w late keep some_fuel h =
      bind-elim Ended (fetch_process env id) _ w failed λ p u fetched.
        let read : HasRead w.readings u =
          Preserves-to (fetch_process-HasRead env id) (record { read = omega arith }) fetched in
        elim (Bool-cases (is_terminal p.status)) [
          | inl t ↦ rw t (ended p t)
          | inr f ↦ rw f (
              bind-elim Ended (instant_now env) _ u failed λ i v seen.
                let (now_is, next) = instant_now-reads u v i seen in
                elim (Bool-cases (leb deadline i)) [
                  | inl past ↦ rw past (failed (timed_out env doing id))
                  | inr early ↦
                      let before : u.readings < n = not_late u i early now_is in
                      rw early (
                        bind-elim Ended pause _ v failed λ t x paused.
                          let after : HasRead v.readings x =
                            Preserves-to (keep v.readings) (record { read = omega arith }) paused in
                          poll-Ended pause doing id deadline n fuel x late keep
                            (omega (arith, read.read)) (omega (arith, read.read, after.read)))
                ])
        ]
    where
      not_late :
          (u : World S) (i : ℕ)
          → leb deadline i ≡ false
          → i ≡ env.instant u.readings
          → u.readings < n
      not_late u i early e = ground (arith, late u.readings)

  -- A method on fuel that, from a state, ends with every amount of fuel beyond some.
  abbrev pub Ends : (ℕ → M (World S) (Option ProcessInfo)) → World S → Type 0
  Ends m w = (n : ℕ) × ((fuel : ℕ) → n < fuel → Ended (m fuel w).0)

  bind-Ends :
      {A : Type 0} (m : M (World S) A) (f : ℕ → A → M (World S) (Option ProcessInfo)) (w : World S)
      → ((a : A) (u : World S) → m w ≡ (ok a, u) → Ends (λ fuel. f fuel a) u)
      → Ends (λ fuel. m >>= f fuel) w
  unfolding ◌>>=◌
  bind-Ends {A} m f w rest = by_result (m w) refl
    where
      by_result :
          (o : Result HyperboxError A × World S)
          → m w ≡ o
          → (n : ℕ) × ((fuel : ℕ) → n < fuel → Ended (continue o.0 (f fuel) o.1).0)
      by_result (ok a, u) e = rest a u e
      by_result (err x, u) e = (0, λ fuel more. failed x)

  module _ (advances : Advances) where
    poll-Ends :
        (pause : M (World S) (Unit {0})) (doing : Text) (id : ProcessId) (deadline : ℕ)
        (w : World S)
        → ((k : ℕ) → Preserves (HasRead k) pause)
        → Ends (poll env pause doing id deadline) w
    poll-Ends pause doing id deadline w keep =
        let (n, late) = advances deadline in
        (
          n,
          λ fuel more.
              poll-Ended pause doing id deadline n fuel w late keep (omega (arith, more))
                (omega (arith, more)),
        )

    wait_process-Ends :
        (id : ProcessId) (timeout_secs : ℕ) (w : World S)
        → Ends (λ fuel. wait_process env fuel id timeout_secs) w
    unfolding wait_process
    wait_process-Ends id t w = bind-Ends (ensure_hydrated env) _ w λ _ u _.
        bind-Ends (instant_now env) _ u λ i v _.
          poll-Ends (pause_by_elapsed env) (codes "waiting for") id (i + seconds (max t 1)) v
            (λ k. pause_by_elapsed-HasRead env)

    cancel_running-Ends :
        (p : ProcessInfo) (w : World S) → Ends (λ fuel. cancel_running env fuel p) w
    unfolding cancel_running
    cancel_running-Ends p w = bind-Ends _ _ w λ _ u _. bind-Ends _ _ u λ _ v _.
        bind-Ends (instant_now env) _ v λ i x _.
          poll-Ends (pause_fixed env) (codes "cancelling") p.id (i + seconds 5) x
            (λ k. pause_fixed-HasRead env)

    cancel_process-Ends :
        (id : ProcessId) (w : World S) → Ends (λ fuel. cancel_process env fuel id) w
    unfolding cancel_process ◌>>=◌
    cancel_process-Ends id w = bind-Ends (ensure_hydrated env) _ w λ _ u _.
        bind-Ends (fetch_process env id) _ u λ p v _. elim (Bool-cases (is_terminal p.status)) [
          | inl t ↦ rw t (0, λ fuel more. ended p t)
          | inr f ↦ rw f (cancel_running-Ends p v)
        ]

    -- Waiting and cancelling end: if the clock passes every instant, then from any state there is
    -- an amount of fuel with which, as with any more, the loop does not run out of it: the call
    -- returns an error, or a process that has ended.
    pub wait_process-cancel_process-Ended :
        (id : ProcessId) (timeout_secs : ℕ) (w : World S)
        → Ends (λ fuel. wait_process env fuel id timeout_secs) w
          × Ends (λ fuel. cancel_process env fuel id) w
    wait_process-cancel_process-Ended id t w = (wait_process-Ends id t w, cancel_process-Ends id w)
