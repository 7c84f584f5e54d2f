-- ===== src/Prelude/Numbers.antt =====
-- Quotients and remainders that more than one part needs.
use native.Mathlib.Nat.{mod-eq-sub-mul-div, mul-add-div, div-eq_of_lt}
use Prim.Native.Nat.{ℕ, ◌+◌, ◌-◌, ◌*◌, ◌/◌, ◌%◌, ◌<◌}
use mathlib.Core.Path.{◌≡◌, ap, ◌∙◌}
use native.Mathlib.Omega.{arith}

pub divmod_of_split : (m q s : ℕ) → s < m → ((m * q + s) / m ≡ q) × ((m * q + s) % m ≡ s)
divmod_of_split m q s lt =
    let quotient : (m * q + s) / m ≡ q =
      mul-add-div {m = m} (omega arith) q s ∙ omega (arith, div-eq_of_lt {n = s} {m = m} lt) in
    (
      quotient,
      mod-eq-sub-mul-div (m * q + s) m ∙ ap (λ (x : ℕ). m * q + s - m * x) quotient ∙ omega arith,
    )
