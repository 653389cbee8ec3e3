-- ===== src/Net/Alpn.antt =====
-- The test for HTTP/2 that src/ makes on a connection.
use text.Mathlib.Text.{◌==◌ as str_eq}
use text.Mathlib.TextEquality.{eq_iff}
use pro_sa_hyper.Common.{◌≡◌, ◌↔◌, inl, inr, some, true, arith, Option-cases}
use pro_sa_hyper.Net.{Net, h2}

module _ (net : Net) where
  -- The test of the protocol, read through what was chosen.
  pub alpn_iff :
      (stream : net.Stream)
      → (net.selected_alpn_check (λ p. str_eq p h2) stream ≡ true)
        ↔ (net.selected_alpn stream ≡ some h2)
  alpn_iff stream = elim (Option-cases (net.selected_alpn stream)) [
    | inl e ↦ (
      λ h. absurd (ground (arith, net.selected_alpn_check_none (λ p. str_eq p h2) stream e)),
      λ h. cc,
    )
    | inr (p, e) ↦ (
      λ h. ground (arith, net.selected_alpn_check_some (λ p. str_eq p h2) stream p e, eq_iff p h2),
      λ h. ground (arith, net.selected_alpn_check_some (λ p. str_eq p h2) stream p e, eq_iff p h2),
    )
  ]
