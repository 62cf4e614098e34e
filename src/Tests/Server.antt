-- ===== src/Tests/Server.antt =====
-- Runs of the parts of crates/hyperbox-server that stand alone.
use hyperbox.Prelude.{
  true, all, ℕ, ◌-◌, ◌*◌, ◌≤◌, ◌<◌, none, some, false, List, [], ◌∷◌, Text, codes, length, ◌≡◌,
  refl, arith, text_beq, if◌then◌else◌,
}
use hyperbox.Core.Process.{ProcessInfo, running, created_new}
use hyperbox.Core.Config.{none_mode}
use hyperbox.Server.Naming.{
  derive_auto_run_affinity_name, sanitize_affinity_component, hex16, fnv1a64, utf8,
}
use hyperbox.Server.Naming.Shape.{name_char, derive_auto_run_affinity_name-Fits}
use hyperbox.Server.Shell.{shell_join}
use hyperbox.Server.Shell.Words.{gap, read_words, read_words-shell_join}
use hyperbox.Server.Metrics.{sort, percentile}
use hyperbox.Server.Metrics.Percentile.{count_le, count_ge, percentile-nearest_rank}
use hyperbox.Server.Probe.{parse_process_probe}
use hyperbox.Server.Probe.Settled.{IsSettled, parse_process_probe-IsSettled}
use hyperbox.Server.Store.{
  SnapshotStore, empty_store, bind_sandbox, set_affinity_snapshot, clear_sandbox_binding, holds,
}
use hyperbox.Server.Store.Laws.{
  bound_sandbox, bound_snapshot, bind_sandbox_lem, set_affinity_snapshot_lem,
  clear_sandbox_binding_lem,
}

abbrev words : List Text
words = codes "printf" ∷ codes "it's $HOME" ∷ [] ∷ []

read_words-shell_join_example : read_words gap [] (shell_join words) ≡ some words
read_words-shell_join_example = read_words-shell_join words

abbrev sample : List ℕ
sample = 50 ∷ 100 ∷ 5 ∷ []

percentile-nearest_rank_example :
    (v : ℕ) × (percentile (sort sample) 95 ≡ some v)
    × (length sample * 95 ≤ count_le v sample * 100)
    × ((length sample - count_ge v sample) * 100 < length sample * 95)
percentile-nearest_rank_example =
    percentile-nearest_rank sample 95 (omega arith) (omega arith) (omega arith)

abbrev pub process : ProcessInfo
process = record {
  id = 100;
  sandbox_id = 7;
  requested_sandbox_id = none;
  disposition = created_new;
  destroy_sandbox_on_expiry = false;
  command = words;
  status = running;
  stdout_path = [];
  stderr_path = [];
  backend_pid = none;
  exit_code = none;
  started_at = 5;
  finished_at = none;
  expires_at = none;
}

abbrev probe : Text
probe = codes "failed:3"

process-IsSettled : IsSettled process
process-IsSettled = record { finished = refl; expiring = refl }

parse_process_probe-IsSettled_example : IsSettled (parse_process_probe (λ t. t) 9 process probe)
parse_process_probe-IsSettled_example =
    parse_process_probe-IsSettled (λ t. t) 9 process probe process-IsSettled

abbrev store : SnapshotStore
store = bind_sandbox empty_store 5 (codes "a") 1

bind_sandbox_example :
    (bound_sandbox (bind_sandbox store 6 (codes "b") 2) (codes "a")
      ≡ (if text_beq (codes "b") (codes "a") then some 2 else bound_sandbox store (codes "a")))
    × (bound_snapshot (bind_sandbox store 6 (codes "b") 2) (codes "a")
        ≡ bound_snapshot store (codes "a"))
bind_sandbox_example = bind_sandbox_lem store 6 (codes "b") (codes "a") 2

set_affinity_snapshot_example :
    (bound_snapshot (set_affinity_snapshot store 6 (codes "a") 3) (codes "a")
      ≡ (if text_beq (codes "a") (codes "a") then some 3 else bound_snapshot store (codes "a")))
    × (bound_sandbox (set_affinity_snapshot store 6 (codes "a") 3) (codes "a")
        ≡ bound_sandbox store (codes "a"))
set_affinity_snapshot_example = set_affinity_snapshot_lem store 6 (codes "a") (codes "a") 3

clear_sandbox_binding_example :
    (bound_sandbox (clear_sandbox_binding store 6 1) (codes "a") ≡ (
      if holds 1 (bound_sandbox store (codes "a")) then none else bound_sandbox store (codes "a")))
    × (bound_snapshot (clear_sandbox_binding store 6 1) (codes "a")
        ≡ bound_snapshot store (codes "a"))
clear_sandbox_binding_example = clear_sandbox_binding_lem store 6 (codes "a") 1

derive_auto_run_affinity_name-Fits_example :
    (length (derive_auto_run_affinity_name (codes "Python:3.12") none none_mode) ≤ 40)
    × (all name_char (derive_auto_run_affinity_name (codes "Python:3.12") none none_mode) ≡ true)
derive_auto_run_affinity_name-Fits_example =
    derive_auto_run_affinity_name-Fits (codes "Python:3.12") none none_mode

shell_join_test : shell_join (codes "echo" ∷ codes "it's" ∷ []) ≡ codes "'echo' 'it'\"'\"'s'"
unfolding shell_join
shell_join_test = refl

percentile_test :
    (percentile (sort (50 ∷ 100 ∷ 5 ∷ [])) 50 ≡ some 50)
    × (percentile (sort (50 ∷ 100 ∷ 5 ∷ [])) 95 ≡ some 100)
unfolding sort percentile
percentile_test = (refl, refl)

fnv_test :
    (hex16 (fnv1a64 (utf8 (codes "a"))) ≡ codes "af63dc4c8601ec8c")
    × (utf8 (codes "é") ≡ 195 ∷ 169 ∷ [])
unfolding hex16 fnv1a64 utf8
fnv_test = (refl, refl)

sanitize_test : sanitize_affinity_component (codes "--Python:3.12") 18 ≡ codes "python-3-12"
unfolding sanitize_affinity_component
sanitize_test = refl
