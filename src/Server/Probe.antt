-- ===== src/Server/Probe.antt =====
-- `parse_process_probe` of crates/hyperbox-server/src/runtime.rs: the line that the inspect script
-- prints, read into the record of a process. `now` is the reading of `Utc::now()`, and `expiry` is
-- `process_expiry_at`.
pub mod Settled
use hyperbox.Prelude.{
  ℕ, ◌+◌, ◌^◌, Bool, true, false, Option, none, some, List, [], ◌∷◌, ◌++◌, Text, codes, ltb,
  is_empty, if◌then◌else◌, ℤ, parse_i32, parse_signed, parse_unsigned, strip_prefix, starts_with,
  text_eq, ◌==◌, nat_beq,
}
use hyperbox.Core.Config.{Time}
use hyperbox.Core.Process.{
  ProcessInfo, ProcessStatus, starting, running, succeeded, failed, cancelled, lost,
}
use hyperbox.Server.Scripts.{process_lost_grace}

-- `Option::get_or_insert`
abbrev pub get_or_insert {ℓ} : {A : Type ℓ} → Option A → A → Option A
get_or_insert none a = some a
get_or_insert (some b) a = some b

-- What follows the first colon, as `split_once(':')`.
after_colon : Text → Option Text
after_colon [] = none
after_colon (c ∷ s) = let rest = after_colon s in if nat_beq c b':' then some s else rest

-- The exit code behind `cancelled:`, if there is one.
cancelled_code : Option Text → Option ℤ
cancelled_code none = none
cancelled_code (some value) = if is_empty value then none else parse_i32 value

module _ (expiry : Time → Time) (now : Time) where
  -- A process that has ended keeps the end and the expiry that were recorded first.
  abbrev pub ended : ProcessInfo → ProcessStatus → Option ℤ → ProcessInfo
  ended p status code = record p {
    status = status;
    exit_code = code;
    finished_at = get_or_insert p.finished_at now;
    expires_at = get_or_insert p.expires_at (expiry now);
  }

  abbrev pub alive : ProcessInfo → ProcessStatus → Option ℕ → ProcessInfo
  alive p status pid = record p {
    status = status;
    backend_pid = pid;
    exit_code = none;
    finished_at = none;
    expires_at = none;
  }

  -- Within the grace period a lost process counts as starting; its process id stays.
  probe_lost : ProcessInfo → ProcessInfo
  probe_lost p =
      if ltb now (p.started_at + process_lost_grace)
      then alive p starting p.backend_pid
      else ended p lost p.exit_code

  probe_other : ProcessInfo → Text → ProcessInfo
  probe_other p probe =
      if starts_with (codes "cancelled:") probe
      then ended p cancelled (cancelled_code (after_colon probe))
      else if probe == codes "lost"
      then probe_lost p
      else p

  -- The chain of `if let Some(…) = probe.strip_prefix(…)`, each test with what it found.
  probe_failed : ProcessInfo → Text → Option Text → ProcessInfo
  probe_failed p probe (some code) = ended p failed (parse_i32 code)
  probe_failed p probe none = probe_other p probe

  probe_succeeded : ProcessInfo → Text → Option Text → ProcessInfo
  probe_succeeded p probe (some code) = ended p succeeded (parse_i32 code)
  probe_succeeded p probe none = probe_failed p probe (strip_prefix (codes "failed:") probe)

  probe_running : ProcessInfo → Text → Option Text → ProcessInfo
  probe_running p probe (some pid) = alive p running (parse_unsigned (2 ^ 32) pid)
  probe_running p probe none = probe_succeeded p probe (strip_prefix (codes "succeeded:") probe)

  unfoldable pub parse_process_probe : ProcessInfo → Text → ProcessInfo
  unfolding probe_running probe_succeeded probe_failed probe_other probe_lost after_colon
      cancelled_code parse_unsigned parse_signed
  parse_process_probe p probe = probe_running p probe (strip_prefix (codes "running:") probe)
