-- ===== src/Connector/Worker/Rounds.antt =====
-- How long the worker of connectors/mysql waits before a batch that failed is tried again.
use glare9_provenance.Prelude.{
  ℕ, zero, suc, if◌then◌else◌, ltb, ltb→lt, Bool-cases, inl, inr, ◌+◌, ◌-◌, ◌*◌, ◌^◌, ◌≤◌, min, ◌≡◌,
  refl, ap, ◌∙◌, arith,
}
use native.Mathlib.Nat.{pow-suc}
use glare9_provenance.Connector.Worker.{retry_delay}

-- The delay before a retry is never above its limit. For the first attempt it is the base, and with
-- each further attempt it doubles, both within the limit, up to the twenty-first; from there on it
-- stays.
pub retry_delay-backoff :
    (base limit attempts : ℕ)
    → 1 ≤ attempts
    → (retry_delay base limit attempts ≤ limit)
      × (retry_delay base limit 1 ≡ min limit base)
      × (retry_delay base limit (attempts + 1) ≡ (
          if ltb attempts 21
          then min limit (2 * retry_delay base limit attempts)
          else retry_delay base limit attempts))
unfolding retry_delay
retry_delay-backoff base limit zero h = absurd (omega arith)
retry_delay-backoff base limit (suc n) h = (
  omega arith,
  omega arith,
  elim (Bool-cases (ltb (suc n) 21)) [
    | inl more ↦
        (let n_le : n ≤ 19 = omega (arith, ltb→lt (suc n) 21 more) in
          let next : min 20 (suc n + 1 - 1) ≡ suc n = omega arith in
          let now : min 20 (suc n - 1) ≡ n = omega arith in
          let doubled : base * 2 ^ suc n ≡ 2 * (base * 2 ^ n) =
            ap (λ x. base * x) (pow-suc 2 n) ∙ omega arith in
          rw (more, next, now) (omega (arith, doubled)))
    | inr done ↦
        (let next : min 20 (suc n + 1 - 1) ≡ min 20 (suc n - 1) = ground arith in
          rw (done, next) refl)
  ],
)
