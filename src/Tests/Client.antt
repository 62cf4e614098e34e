-- ===== src/Tests/Client.antt =====
-- Runs of the client of crates/hyperbox-server over its service, with a unary code of numbers.
use mathlib.Core.List.{Pairwise, Mem, eq-or-mem_of_mem-cons, not-mem-nil, reverse_perm}
use mathlib.Core.Logic.Or
use hyperbox.Prelude.{
  ◌∙◌, ℕ, zero, suc, true, false, none, some, [], Option, text_beq, reverse, ◌≢◌, ◌∷◌, Text, codes,
  length, ◌≡◌, refl, ap, arith,
}
use hyperbox.Core.Error.{Result, ok, err}
use hyperbox.Core.Config.{SandboxConfig, default_config}
use hyperbox.Core.Process.{created_new}
use hyperbox.Server.Monad.{◌>>=◌, pure}
use hyperbox.Server.Runtime.Runs
use hyperbox.Server.Runtime.Runs.{StartRunRequest}
use hyperbox.Server.Runtime.StartRun
use hyperbox.Server.Runtime.Sandboxes
use hyperbox.Server.Wire.{Codec}
use hyperbox.Server.Grpc.{control_service}
use hyperbox.Server.Client.RoundTrip.{IsCodec}
use hyperbox.Server.Client.Configs.{
  IsSayable, IsFilled, KeepsEntries, IsReordered, IsReorderedOption,
}
use hyperbox.Server.Client.Calls.{start_process, start_run, create_sandbox}
use hyperbox.Server.Client.Service.{through, start_process-through}
use hyperbox.Server.Client.Methods.{start_run-through, create_sandbox-through, read_run}
use hyperbox.Tests.Runtime.{env, start, command}

abbrev ones : ℕ → Text
ones zero = []
ones (suc n) = b'1' ∷ ones n

abbrev pub show : ℕ → Text
show n = b'n' ∷ ones n

abbrev pub parse : Text → Result Text ℕ
parse [] = err (codes "no number")
parse (c ∷ s) = ok (length s)

abbrev codec : Codec
codec = record {
  show_uuid = show;
  parse_uuid = parse;
  to_rfc3339 = show;
  parse_rfc3339 = parse;
  entries = reverse;
}

pub length-ones : (n : ℕ) → length (ones n) ≡ n
length-ones zero = refl
length-ones (suc n) = ap suc (length-ones n)

codec-IsCodec : IsCodec codec
codec-IsCodec = record {
  uuid_back = λ n. ap ok (length-ones n);
  uuid_some = λ n. refl;
  time_back = λ n. ap ok (length-ones n);
  time_some = λ n. refl;
}

start_process-through_example :
    start_process codec (control_service env codec) 7 command none created_new false start
    ≡ through (Runs.start_process env 7 command none created_new false) start
start_process-through_example =
    start_process-through env codec codec-IsCodec 7 command none created_new false start

codec-KeepsEntries : KeepsEntries codec
codec-KeepsEntries = record { same_entries = λ m h. reverse_perm m }

-- The default configuration with two variables.
abbrev config : SandboxConfig
config = record default_config { env = (codes "A", codes "1") ∷ (codes "B", codes "2") ∷ [] }

config-IsSayable : IsSayable config
config-IsSayable = record {
  named = λ e. cc;
  placed = λ e. cc;
  parsed = tt;
  narrow = omega arith;
  distinct = Pairwise.cons not_same (Pairwise.cons (λ a m. absurd (not-mem-nil m)) Pairwise.nil);
}
  where
    other : codes "A" ≢ codes "B"
    other e = let no : true ≡ false = ap (λ s. text_beq (codes "A") s) e in cc

    not_same : (a : Text) → Mem a (codes "B" ∷ []) → codes "A" ≢ a
    not_same a m e =
        Or.elim (λ x y. absurd x) (eq-or-mem_of_mem-cons m) (λ same. other (e ∙ same))
          (λ none_. not-mem-nil none_)

config-IsFilled : IsFilled config
config-IsFilled = record {
  template = refl;
  memory = omega arith;
  processors = omega arith;
  timeout = omega arith;
}

create_sandbox-through_example :
    (c : SandboxConfig) × IsReordered c config
    × (create_sandbox codec (control_service env codec) config start
        ≡ through (Sandboxes.create_sandbox env c) start)
create_sandbox-through_example =
    create_sandbox-through env codec codec-IsCodec codec-KeepsEntries config start config-IsSayable
      config-IsFilled

abbrev request : StartRunRequest
request = record {
  sandbox_id = none;
  affinity_name = some (codes "dev");
  create_config = some config;
  reuse_auto_session = false;
  ensure_commands = [];
  writes = [];
  command = codes "ls";
  destroy_sandbox_on_expiry = true;
}

start_run-through_example :
    (c : Option SandboxConfig) × IsReorderedOption c request.create_config
    × (start_run codec (control_service env codec) request start
        ≡ through
            (StartRun.start_run env (record request { create_config = c }) >>= λ started.
              pure (read_run started))
            start)
start_run-through_example =
    start_run-through env codec codec-IsCodec codec-KeepsEntries request start (λ e. cc)
      (config-IsSayable, config-IsFilled)
