-- ===== src/Server/Scripts.antt =====
-- The paths and the shell scripts of managed processes, and the lifetime of their records, in
-- crates/hyperbox-server/src/runtime.rs.
use hyperbox.Prelude.{
  ℕ, suc, zero, ◌+◌, ◌*◌, ◌^◌, Option, none, some, [], ◌∷◌, ◌++◌, Text, codes, pos, negsuc,
  parse_signed,
}
use hyperbox.Core.Error.{HyperboxError, execution_failed}
use hyperbox.Core.Config.{Time, ExecRequest}
use hyperbox.Core.Process.{ProcessId, ProcessInfo}
use hyperbox.Server.Environment.{Environment}
use hyperbox.Server.Shell.{shell_escape, shell_join}

-- `/bin/sh -lc script`
unfoldable pub sh_request : Text → ℕ → ExecRequest
sh_request script timeout_secs = record {
  command = codes "/bin/sh" ∷ codes "-lc" ∷ script ∷ [];
  timeout_secs = timeout_secs;
}

module _ {S : Type 0} (env : Environment S) where
  -- `process not found: {id}`
  pub process_not_found : ProcessId → HyperboxError
  process_not_found id = execution_failed (codes "process not found: " ++ env.show_uuid id)

  pub process_dir : ProcessId → Text
  process_dir id = codes ".hyperbox/processes/" ++ env.show_uuid id

  pub process_stdout_path : ProcessId → Text
  process_stdout_path id = process_dir id ++ codes "/stdout.log"

  pub process_stderr_path : ProcessId → Text
  process_stderr_path id = process_dir id ++ codes "/stderr.log"

  pub process_pid_path : ProcessId → Text
  process_pid_path id = process_dir id ++ codes "/pid"

  pub process_exit_code_path : ProcessId → Text
  process_exit_code_path id = process_dir id ++ codes "/exit_code"

  pub process_cancel_path : ProcessId → Text
  process_cancel_path id = process_dir id ++ codes "/cancelled"

  pub process_launch_command : ProcessInfo → Text
  unfolding process_dir process_exit_code_path
  process_launch_command process =
      let base = process_dir process.id in
      let command = shell_join process.command in
      let wrapped = shell_escape (
        codes "export PYTHONUNBUFFERED=1; "
        ++ (command
            ++ (codes "; code=$?; printf '%s' \"$code\" > "
                ++ (shell_escape (process_exit_code_path process.id)
                    ++ codes "; exit \"$code\"")))) in
      codes "set -eu; base="
      ++ (shell_escape base
          ++ (codes
                "; mkdir -p \"$base\"; : > \"$base/stdout.log\"; : > \"$base/stderr.log\"; rm -f \"$base/exit_code\" \"$base/pid\" \"$base/cancelled\"; nohup /bin/sh -lc "
              ++ (wrapped
                  ++ codes
                      " >> \"$base/stdout.log\" 2>> \"$base/stderr.log\" </dev/null & pid=$!; printf \"%s\" \"$pid\" > \"$base/pid\"")))

  pub inspect_script : ProcessInfo → Text
  unfolding process_dir
  inspect_script process =
      codes "base="
      ++ (shell_escape (process_dir process.id)
          ++ codes
              "; if [ -f \"$base/exit_code\" ]; then code=''; IFS= read -r code < \"$base/exit_code\" || [ -n \"$code\" ]; if [ -f \"$base/cancelled\" ]; then printf 'cancelled:%s' \"$code\"; elif [ \"$code\" = '0' ]; then printf 'succeeded:%s' \"$code\"; else printf 'failed:%s' \"$code\"; fi; elif [ -f \"$base/pid\" ]; then pid=''; IFS= read -r pid < \"$base/pid\" || [ -n \"$pid\" ]; if [ -n \"$pid\" ] && kill -0 \"$pid\" 2>/dev/null; then printf 'running:%s' \"$pid\"; elif [ -f \"$base/cancelled\" ]; then printf 'cancelled:'; else printf 'lost'; fi; else printf 'starting'; fi")

  pub cancel_script : ProcessInfo → Text
  unfolding process_pid_path
  cancel_script process =
      codes "pid_file="
      ++ (shell_escape (process_pid_path process.id)
          ++ codes
              "; if [ ! -f \"$pid_file\" ]; then exit 0; fi; pid=''; IFS= read -r pid < \"$pid_file\" || [ -n \"$pid\" ] || exit 0; kill_descendants() { target=\"$1\"; if command -v pgrep >/dev/null 2>&1; then for child in $(pgrep -P \"$target\" 2>/dev/null || true); do kill_descendants \"$child\"; done; fi; kill -TERM \"$target\" 2>/dev/null || true; }; kill_descendants_kill() { target=\"$1\"; if command -v pgrep >/dev/null 2>&1; then for child in $(pgrep -P \"$target\" 2>/dev/null || true); do kill_descendants_kill \"$child\"; done; fi; kill -KILL \"$target\" 2>/dev/null || true; }; kill_descendants \"$pid\"; sleep 1; if kill -0 \"$pid\" 2>/dev/null; then kill_descendants_kill \"$pid\"; fi")

  -- The script with which `purge_process` removes a process's files.
  pub remove_dir_script : ProcessId → Text
  unfolding process_dir
  remove_dir_script id = codes "rm -rf " ++ shell_escape (process_dir id)

  -- `parse::<i64>().ok().filter(|days| *days > 0).unwrap_or(7)`
  pub ttl_days : Option Text → ℕ
  ttl_days none = 7
  ttl_days (some raw) = elim (parse_signed (2 ^ 63) raw) [
    | some (pos (suc days)) ↦ suc days
    | some (pos zero) ↦ 7
    | some (negsuc n) ↦ 7
    | none ↦ 7
  ]

  -- A number of days for which `chrono` overflows panics in the source; here the sum is exact.
  pub process_expiry_at : Time → Time
  unfolding ttl_days
  process_expiry_at now = now + ttl_days env.process_ttl_days * 86400000

-- `process_lost_grace()`, in milliseconds
abbrev pub process_lost_grace : ℕ
process_lost_grace = 5000
