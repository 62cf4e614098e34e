-- ===== src/Server/BackendFactory/Justified.antt =====
-- Why crates/hyperbox-server/src/backend_factory.rs builds the backend that it builds.
use hyperbox.Prelude.{
  true, Option, none, some, Text, codes, text_eq, ◌==◌, eq_of_beq, Bool-cases, ◌⊎◌, inl, inr, ◌≡◌,
  refl, ap, arith,
}
use hyperbox.Server.BackendFactory.{
  BackendKind, auto, local, firecracker, apple, unavailable, Surroundings, supports_firecracker,
  Built, local_backend, firecracker_backend, apple_backend, unavailable_backend, or_default,
  kind_of, from_env, build_firecracker_backend,
}
use hyperbox.Server.BackendFactory.Apple.{
  apple_runtime_is_implemented_for_host, is_some_and, apple_supported, choose_apple,
  build_apple_backend, resolve_apple_helper_command, resolve_apple_runtime,
}
use hyperbox.Server.BackendFactory.Selection.{
  auto_linux, auto_other, auto_backend_selection, resolve_backend,
}

-- What the variable says where a kind is requested by it.
abbrev AskedBy : Option Text → BackendKind → Type 0
AskedBy o local = o ≡ some (codes "local")
AskedBy o firecracker = o ≡ some (codes "firecracker")
AskedBy o apple = o ≡ some (codes "apple")
AskedBy o auto = Unit
AskedBy o unavailable = Unit

kind_of-AskedBy : (o : Option Text) → AskedBy o (kind_of (or_default o (codes "auto")))
unfolding kind_of
kind_of-AskedBy none = tt
kind_of-AskedBy (some v) = elim (Bool-cases (v == codes "local")) [
  | inl t ↦ rw t (ap some (eq_of_beq v _ t))
  | inr f ↦ elim (Bool-cases (v == codes "firecracker")) [
    | inl t ↦ rw (f, t) (ap some (eq_of_beq v _ t))
    | inr g ↦ elim (Bool-cases (v == codes "apple")) [
      | inl t ↦ rw (f, g, t) (ap some (eq_of_beq v _ t))
      | inr h ↦ rw (f, g, h) tt
    ]
  ]
]

-- The kind that a backend is of.
unfoldable pub built_kind : Built → BackendKind
built_kind local_backend = local
built_kind (firecracker_backend config) = firecracker
built_kind (apple_backend dir endpoint command runtime) = apple
built_kind (unavailable_backend reason) = unavailable

module _ (host : Surroundings) where
  -- The reason for a backend, in the variable and the probes.
  abbrev pub Justified : Option Text → Built → Type 0
  Justified o local_backend = o ≡ some (codes "local")
  Justified o (firecracker_backend config) =
      (o ≡ some (codes "firecracker"))
      ⊎ ((host.os ≡ codes "linux") × (supports_firecracker host.linux ≡ true))
  Justified o (apple_backend dir endpoint command runtime) =
      ((o ≡ some (codes "apple")) ⊎ (host.os ≡ codes "macos"))
      × ((host.macos.supports_virtualization_framework ≡ true)
          × (is_some_and (λ cmd. apple_runtime_is_implemented_for_host host.macos cmd runtime)
                command
              ≡ true))
  Justified o (unavailable_backend reason) = Unit

  choose_apple-Justified :
      (o : Option Text) (kind : BackendKind) (chosen a b c : Text)
      → (o ≡ some (codes "apple")) ⊎ (host.os ≡ codes "macos")
      → Justified o (choose_apple host kind chosen a b c).backend
        × (built_kind (choose_apple host kind chosen a b c).backend
            ≡ (choose_apple host kind chosen a b c).selected)
  unfolding choose_apple build_apple_backend built_kind apple_supported
  choose_apple-Justified o kind chosen a b c asked =
      let command = resolve_apple_helper_command host in
      let runtime = resolve_apple_runtime host host.macos command in
      elim (Bool-cases (apple_supported host command runtime)) [
        | inl t ↦ rw t ((asked, (ground (arith, t), ground (arith, t))), refl)
        | inr f ↦ rw f (tt, refl)
      ]

  auto-Justified :
      (o : Option Text)
      → Justified o (auto_backend_selection host).backend
        × (built_kind (auto_backend_selection host).backend
            ≡ (auto_backend_selection host).selected)
  unfolding auto_backend_selection auto_linux auto_other built_kind build_firecracker_backend
  auto-Justified o = elim (Bool-cases (host.os == codes "linux")) [
    | inl t ↦ elim (Bool-cases (supports_firecracker host.linux)) [
      | inl s ↦ rw (t, s) (inr (eq_of_beq _ _ t, s), refl)
      | inr n ↦ rw (t, n) (tt, refl)
    ]
    | inr f ↦ elim (Bool-cases (host.os == codes "macos")) [
      | inl t ↦ rw (f, t) (choose_apple-Justified o auto _ _ _ _ (inr (eq_of_beq _ _ t)))
      | inr g ↦ rw (f, g) (tt, refl)
    ]
  ]

  resolve_backend-Justified :
      (o : Option Text) (kind : BackendKind)
      → AskedBy o kind
      → Justified o (resolve_backend host kind).backend
        × (built_kind (resolve_backend host kind).backend ≡ (resolve_backend host kind).selected)
  unfolding resolve_backend built_kind build_firecracker_backend
  resolve_backend-Justified o local asked = (asked, refl)
  resolve_backend-Justified o firecracker asked = (inl asked, refl)
  resolve_backend-Justified o apple asked = choose_apple-Justified o apple _ _ _ _ (inl asked)
  resolve_backend-Justified o auto asked = auto-Justified o
  resolve_backend-Justified o unavailable asked = (tt, refl)

  -- The backend that the environment leads to is of the kind that the selection reports. It is the
  -- local one only where `HYPERBOX_BACKEND` is `local`; Firecracker, only where that is
  -- `firecracker` or the host is a Linux with what Firecracker needs; and Apple's, only where that is
  -- `apple` or the host is a macOS, with its virtualization framework and a helper that has the
  -- runtime.
  pub from_env-Justified :
      Justified
        (host.variable (codes "HYPERBOX_BACKEND"))
        (resolve_backend host (from_env host)).backend
      × (built_kind (resolve_backend host (from_env host)).backend
          ≡ (resolve_backend host (from_env host)).selected)
  unfolding from_env
  from_env-Justified =
      resolve_backend-Justified (host.variable (codes "HYPERBOX_BACKEND")) _
        (kind_of-AskedBy (host.variable (codes "HYPERBOX_BACKEND")))
