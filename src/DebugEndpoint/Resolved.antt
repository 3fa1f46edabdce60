-- ===== src/DebugEndpoint/Resolved.antt =====
-- Which endpoint is resolved.
use launch_code.Prelude.{ℕ, ◌≡◌, refl, true, false, ◌⊎◌, inl, inr, Result, ok, err, arith}
use launch_code.Error.{IoError}
use launch_code.Model.{DebugConfig}
use launch_code.DebugEndpoint.{
  Network, ResolvedDebugConfig, as_requested, with_fallback, take_port, after_fallback, after_bind,
  resolve_debug_config,
}

module _ (network : Network) (input : DebugConfig) where
  open network use {Os, Listener, bind, local_port}

  -- The requested port was free, or it was not and another one of the same host was.
  abbrev pub Bound : Os → ResolvedDebugConfig → Type 0
  Bound os r =
      ((listener : Listener) × (os₁ : Os) × (bind input.host input.port os ≡ (ok listener, os₁))
        × (r.config ≡ input)
        × (r.requested_port ≡ input.port)
        × (r.fallback_applied ≡ false))
      ⊎ ((e : IoError) × (os₁ : Os) × (fallback : Listener) × (os₂ : Os) × (port : ℕ) × (os₃ : Os)
          × (bind input.host input.port os ≡ (err e, os₁))
          × (bind input.host 0 os₁ ≡ (ok fallback, os₂))
          × (local_port fallback os₂ ≡ (ok port, os₃))
          × (r.config ≡ record input { port = port })
          × (r.requested_port ≡ input.port)
          × (r.fallback_applied ≡ true))

  take_port-Bound :
      (os os₁ os₂ : Os) (e : IoError) (fallback : Listener) (out : Result IoError ℕ × Os)
      {r : ResolvedDebugConfig} {os' : Os}
      → bind input.host input.port os ≡ (err e, os₁)
      → bind input.host 0 os₁ ≡ (ok fallback, os₂)
      → local_port fallback os₂ ≡ out
      → take_port network input fallback out ≡ (ok r, os')
      → Bound os r
  unfolding take_port with_fallback
  take_port-Bound os os₁ os₂ e fallback (ok port, os₃) p q l h =
      inr (e, os₁, fallback, os₂, port, os₃, p, q, l, ground arith, ground arith, ground arith)
  take_port-Bound os os₁ os₂ e fallback (err s, os₃) p q l h = ground arith

  after_fallback-Bound :
      (os os₁ : Os) (e : IoError) (out : Result IoError Listener × Os) {r : ResolvedDebugConfig}
      {os' : Os}
      → bind input.host input.port os ≡ (err e, os₁)
      → bind input.host 0 os₁ ≡ out
      → after_fallback network input e out ≡ (ok r, os')
      → Bound os r
  unfolding after_fallback
  after_fallback-Bound os os₁ e (ok fallback, os₂) p q h =
      take_port-Bound os os₁ os₂ e fallback (local_port fallback os₂) p q refl h
  after_fallback-Bound os os₁ e (err s, os₂) p q h = ground arith

  after_bind-Bound :
      (os : Os) (out : Result IoError Listener × Os) {r : ResolvedDebugConfig} {os' : Os}
      → bind input.host input.port os ≡ out
      → after_bind network input out ≡ (ok r, os')
      → Bound os r
  unfolding after_bind as_requested
  after_bind-Bound os (ok listener, os₁) p h =
      inl (listener, os₁, p, ground arith, ground arith, ground arith)
  after_bind-Bound os (err e, os₁) p h =
      after_fallback-Bound os os₁ e (bind input.host 0 os₁) p refl h

  -- A configuration that is resolved is the requested one if its port could be bound, and else the
  -- same with a port that the system gave for the host; the flag and the requested port say which.
  pub resolve_debug_config-Bound :
      (os : Os) {r : ResolvedDebugConfig} {os' : Os}
      → resolve_debug_config network input os ≡ (ok r, os')
      → Bound os r
  unfolding resolve_debug_config
  resolve_debug_config-Bound os h = after_bind-Bound os (bind input.host input.port os) refl h
