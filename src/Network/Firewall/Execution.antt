-- ===== src/Network/Firewall/Execution.antt =====
-- What the firewall manager of crates/hyperbox-network/src/firewall.rs executes.
use mathlib.Core.List.{append_assoc, append-nil}
use hyperbox.Prelude.{Option, none, some, List, [], ◌∷◌, ◌++◌, ◌≡◌, refl, sym, ◌∙◌}
use hyperbox.Core.Error.{Result, ok, err}
use hyperbox.Core.Config.{NetworkMode}
use hyperbox.Network.Firewall.{
  VmNetworkSpec, CommandSpec, build_apply_plan, run_plan, run_next, apply,
}

module _ {F : Type 0} where
  abbrev pub outcome : Option F → Result F (Unit {0})
  outcome none = ok tt
  outcome (some f) = err f

  -- What stands before the first failure, the failing element included.
  abbrev up_to : Option F → CommandSpec → List CommandSpec → List CommandSpec
  up_to none cmd rest = cmd ∷ rest
  up_to (some f) cmd rest = cmd ∷ []

  abbrev first_of : Option F → Option F → Option F
  first_of none o = o
  first_of (some f) o = some f

module _ {F : Type 0} (fails : CommandSpec → Option F) where
  -- An executor that notes each command that it is given, and fails on those that `fails` picks.
  abbrev pub observe : CommandSpec → List CommandSpec → Result F (Unit {0}) × List CommandSpec
  observe cmd log = (outcome (fails cmd), log ++ (cmd ∷ []))

  abbrev pub until_failure : List CommandSpec → List CommandSpec
  until_failure [] = []
  until_failure (cmd ∷ plan) = up_to (fails cmd) cmd (until_failure plan)

  abbrev pub first_failure : List CommandSpec → Option F
  first_failure [] = none
  first_failure (cmd ∷ plan) = first_of (fails cmd) (first_failure plan)

  run_plan-observe :
      (plan log : List CommandSpec)
      → ((run_plan observe plan log).0 ≡ outcome (first_failure plan))
        × ((run_plan observe plan log).1 ≡ log ++ until_failure plan)
  unfolding run_plan
  run_plan-observe [] log = (refl, sym (append-nil log))
  run_plan-observe (cmd ∷ plan) log =
      by_outcome (fails cmd) (run_plan-observe plan (log ++ (cmd ∷ [])))
    where
      by_outcome :
          (o : Option F)
          → ((run_plan observe plan (log ++ (cmd ∷ []))).0 ≡ outcome (first_failure plan))
            × ((run_plan observe plan (log ++ (cmd ∷ []))).1
                ≡ (log ++ (cmd ∷ [])) ++ until_failure plan)
          → ((run_next observe (outcome o) (run_plan observe plan) (log ++ (cmd ∷ []))).0
              ≡ outcome (first_of o (first_failure plan)))
            × ((run_next observe (outcome o) (run_plan observe plan) (log ++ (cmd ∷ []))).1
                ≡ log ++ up_to o cmd (until_failure plan))
      by_outcome none h = (h.0, h.1 ∙ append_assoc log (cmd ∷ []) (until_failure plan))
      by_outcome (some f) h = (refl, refl)

  -- Applying a mode runs the commands of its plan in order, up to the first that fails and with it,
  -- and returns that failure, or success if there is none.
  pub apply-observe :
      (spec : VmNetworkSpec) (mode : NetworkMode) (log : List CommandSpec)
      → ((apply observe spec mode log).0 ≡ outcome (first_failure (build_apply_plan spec mode)))
        × ((apply observe spec mode log).1 ≡ log ++ until_failure (build_apply_plan spec mode))
  unfolding apply
  apply-observe spec mode log = run_plan-observe (build_apply_plan spec mode) log
