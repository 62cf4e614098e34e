-- ===== src/Server/Metrics.antt =====
-- crates/hyperbox-server/src/metrics.rs. The counters are `AtomicU64`, whose `fetch_add` wraps.
pub mod Percentile
use hyperbox.Prelude.{
  ℕ, zero, suc, ◌+◌, ◌-◌, ◌*◌, ◌/◌, ◌%◌, ◌^◌, List, [], ◌∷◌, ◌++◌, Option, none, some, length,
  get_elem?, leb, if◌then◌else◌, ◌≡◌, refl,
}

pub record MetricsCollector : Type 0 where
  pub creates : ℕ
  pub destroys : ℕ
  pub execs : ℕ
  pub exec_failures : ℕ
  pub exec_latency_ms : List ℕ

abbrev pub new_metrics : MetricsCollector
new_metrics = record {
  creates = 0;
  destroys = 0;
  execs = 0;
  exec_failures = 0;
  exec_latency_ms = [];
}

-- `fetch_add(1)` on a `u64`
abbrev pub fetch_inc : ℕ → ℕ
fetch_inc n = (n + 1) % 2 ^ 64

unfoldable pub inc_create : MetricsCollector → MetricsCollector
inc_create m = record m { creates = fetch_inc m.creates }

unfoldable pub inc_destroy : MetricsCollector → MetricsCollector
inc_destroy m = record m { destroys = fetch_inc m.destroys }

unfoldable pub inc_exec : MetricsCollector → MetricsCollector
inc_exec m = record m { execs = fetch_inc m.execs }

unfoldable pub inc_exec_failure : MetricsCollector → MetricsCollector
inc_exec_failure m = record m { exec_failures = fetch_inc m.exec_failures }

unfoldable pub record_exec_latency : MetricsCollector → ℕ → MetricsCollector
record_exec_latency m ms = record m { exec_latency_ms = m.exec_latency_ms ++ ms ∷ [] }

pub record MetricsSnapshot : Type 0 where
  pub creates : ℕ
  pub destroys : ℕ
  pub execs : ℕ
  pub exec_failures : ℕ
  pub p50_exec_ms : ℕ
  pub p95_exec_ms : ℕ

-- `sort_unstable` on numbers: equal numbers cannot be told apart, so any sort is the same sort.
insert_sorted : ℕ → List ℕ → List ℕ
insert_sorted x [] = x ∷ []
insert_sorted x (y ∷ ys) = let rest = insert_sorted x ys in if leb x y then x ∷ y ∷ ys else y ∷ rest

unfoldable pub sort : List ℕ → List ℕ
unfolding insert_sorted
sort [] = []
sort (x ∷ xs) = insert_sorted x (sort xs)

-- `values[rank]`; `none` is the panic of an index out of bounds.
unfoldable pub percentile : List ℕ → ℕ → Option ℕ
percentile [] p = some 0
percentile (v ∷ vs) p = get_elem? (v ∷ vs) ((length (v ∷ vs) * p + 99) / 100 - 1)

abbrev both : MetricsCollector → Option ℕ → Option ℕ → Option MetricsSnapshot
both m (some p50) (some p95) = some (record {
  creates = m.creates;
  destroys = m.destroys;
  execs = m.execs;
  exec_failures = m.exec_failures;
  p50_exec_ms = p50;
  p95_exec_ms = p95;
})
both m _ _ = none

unfoldable pub snapshot : MetricsCollector → Option MetricsSnapshot
unfolding sort percentile
snapshot m =
    let latency = sort m.exec_latency_ms in both m (percentile latency 50) (percentile latency 95)
