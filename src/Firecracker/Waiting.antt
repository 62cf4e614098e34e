-- ===== src/Firecracker/Waiting.antt =====
-- The turns of the loop of `wait_for_socket` in crates/hyperbox-firecracker/src/vm.rs.
use hyperbox.Prelude.{
  ℕ, zero, suc, ◌+◌, ◌*◌, ◌≤◌, false, Text, Bool-cases, inl, inr, ltb, ◌≡◌, refl, arith,
}
use hyperbox.Server.Monad.{Action, ◌>>=◌, throw}
use hyperbox.Firecracker.{Host, Firecracker, pause}
use hyperbox.Firecracker.Vm.{wait_turn, wait_turns, wait_for_socket, timed_out}

module _ {F : Type 0} (host : Host F) (path : Text) where
  wait_turn-same :
      (rest more : Action Text (Firecracker F) (Unit {0})) (w : Firecracker F)
      → more (record w { files = host.sleep 30 w.files })
        ≡ rest (record w { files = host.sleep 30 w.files })
      → wait_turn host path more w ≡ wait_turn host path rest w
  unfolding wait_turn ◌>>=◌ pause
  wait_turn-same rest more w h = elim (Bool-cases (host.exists w.files path)) [
    | inl t ↦ rw t refl
    | inr f ↦ rw f h
  ]

  wait_turns-late :
      (end turns : ℕ) (w : Firecracker F)
      → end ≤ host.now w.files
      → wait_turns host path end turns w ≡ throw (timed_out host path) w
  unfolding wait_turns ◌>>=◌
  wait_turns-late end zero w h = refl
  wait_turns-late end (suc turns) w h =
      let late : ltb (host.now w.files) end ≡ false = ground arith in rw late refl

  module _ (sleeps : (ms : ℕ) (f : F) → host.now f + ms ≤ host.now (host.sleep ms f)) where
    wait_turns-enough :
        (end turns more : ℕ) (w : Firecracker F)
        → turns ≤ more
        → end + 30 ≤ host.now w.files + 30 * turns
        → wait_turns host path end more w ≡ wait_turns host path end turns w
    unfolding wait_turns ◌>>=◌
    wait_turns-enough end zero more w le h = wait_turns-late end more w (omega (arith, h))
    wait_turns-enough end (suc turns) zero w le h = absurd (omega (arith, le))
    wait_turns-enough end (suc turns) (suc more) w le h =
        elim (Bool-cases (ltb (host.now w.files) end)) [
          | inl t ↦ rw t (
              wait_turn-same _ _ w (
                wait_turns-enough end turns more (record w { files = host.sleep 30 w.files })
                  (omega (arith, le)) (omega (arith, h, sleeps 30 w.files))))
          | inr f ↦ rw f refl
        ]

    -- If a sleep takes as long as it is asked to, the loop is left within its 101 turns: with any
    -- more, the wait does the same.
    pub wait_for_socket-enough :
        (turns : ℕ) (w : Firecracker F)
        → 101 ≤ turns
        → wait_turns host path (host.now w.files + 3000) turns w ≡ wait_for_socket host path w
    unfolding wait_for_socket ◌>>=◌
    wait_for_socket-enough turns w le =
        wait_turns-enough (host.now w.files + 3000) 101 turns w le (omega arith)
