-- ===== src/Server/Probe/Settled.antt =====
-- A record of a process is settled when its end and its expiry are set exactly if it has ended.
use hyperbox.Prelude.{
  ℕ, true, false, Option, none, some, Text, codes, is_some, strip_prefix, starts_with, text_beq,
  ◌≡◌, refl, arith, inl, inr, Bool-cases, ℤ, parse_i32, parse_unsigned, ◌^◌, ltb, ◌+◌,
}
use hyperbox.Core.Config.{Time}
use hyperbox.Core.Process.{
  ProcessInfo, is_terminal, ProcessStatus, starting, running, succeeded, failed, cancelled, lost,
}
use hyperbox.Server.Scripts.{process_lost_grace}
use hyperbox.Server.Probe.{
  parse_process_probe, probe_running, probe_succeeded, probe_failed, probe_other, probe_lost, alive,
  ended, after_colon, cancelled_code,
}

pub record IsSettled (p : ProcessInfo) : Type 0 where
  pub finished : is_some p.finished_at ≡ is_terminal p.status
  pub expiring : is_some p.expires_at ≡ is_terminal p.status

module _ (expiry : Time → Time) (now : Time) (p : ProcessInfo) where
  -- A probe either finds the process alive, or ends it, or leaves the record as it is.
  module _ {ℓ} (P : ProcessInfo → Type ℓ)
      (lives : (status : ProcessStatus) (pid : Option ℕ)
        → is_terminal status ≡ false
        → P (alive expiry now p status pid))
      (ends : (status : ProcessStatus) (code : Option ℤ)
        → is_terminal status ≡ true
        → P (ended expiry now p status code))
      (same : P p) (probe : Text) where
    lost_cases : P (probe_lost expiry now p)
    unfolding probe_lost
    lost_cases = elim (Bool-cases (ltb now (p.started_at + process_lost_grace))) [
      | inl c ↦ rw c (lives starting p.backend_pid refl)
      | inr n ↦ rw n (ends lost p.exit_code refl)
    ]

    other_cases : P (probe_other expiry now p probe)
    unfolding probe_other
    other_cases = elim (Bool-cases (starts_with (codes "cancelled:") probe)) [
      | inl c ↦ rw c (ends cancelled (cancelled_code (after_colon probe)) refl)
      | inr n ↦ rw n (elim (Bool-cases (text_beq probe (codes "lost"))) [
        | inl l ↦ rw l lost_cases
        | inr m ↦ rw m same
      ])
    ]

    failed_cases : (o : Option Text) → P (probe_failed expiry now p probe o)
    unfolding probe_failed
    failed_cases (some code) = ends failed (parse_i32 code) refl
    failed_cases none = other_cases

    succeeded_cases : (o : Option Text) → P (probe_succeeded expiry now p probe o)
    unfolding probe_succeeded
    succeeded_cases (some code) = ends succeeded (parse_i32 code) refl
    succeeded_cases none = failed_cases (strip_prefix (codes "failed:") probe)

    running_cases : (o : Option Text) → P (probe_running expiry now p probe o)
    unfolding probe_running
    running_cases (some pid) = lives running (parse_unsigned (2 ^ 32) pid) refl
    running_cases none = succeeded_cases (strip_prefix (codes "succeeded:") probe)

    pub probe_cases : P (parse_process_probe expiry now p probe)
    probe_cases =
        unfold parse_process_probe in running_cases (strip_prefix (codes "running:") probe)

  -- Whatever the inspect script prints, a settled record is read into a settled record.
  pub parse_process_probe-IsSettled :
      (probe : Text) → IsSettled p → IsSettled (parse_process_probe expiry now p probe)
  parse_process_probe-IsSettled probe settled =
      probe_cases IsSettled (λ status pid h. ground arith) (λ status code h. ground arith) settled
        probe

  -- A probe changes neither the identifier nor the sandbox of a process.
  pub parse_process_probe_ids :
      (probe : Text)
      → ((parse_process_probe expiry now p probe).id ≡ p.id)
        × ((parse_process_probe expiry now p probe).sandbox_id ≡ p.sandbox_id)
  parse_process_probe_ids probe =
      probe_cases (λ q. (q.id ≡ p.id) × (q.sandbox_id ≡ p.sandbox_id))
        (λ status pid h. (refl, refl)) (λ status code h. (refl, refl)) (refl, refl) probe
