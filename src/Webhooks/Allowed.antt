-- ===== src/Webhooks/Allowed.antt =====
-- The URLs that src/modules/webhooks lets a delivery go to.
use hexagonal.Base.{◌≡◌, String, false, ◌==◌, [], ◌∷◌, any}
use hexagonal.Webhooks.Target.{ends_with}

-- The names of the machine itself, of the local network and of the container's host.
abbrev pub IsOutside : (hostname : String) → Type 0
IsOutside hostname =
    (any (λ name. hostname == name)
        ("localhost" ∷ "host.docker.internal" ∷ "gateway.docker.internal"
          ∷ "kubernetes.docker.internal" ∷ [])
      ≡ false)
    × (ends_with ".localhost" hostname ≡ false)
    × (ends_with ".local" hostname ≡ false)
