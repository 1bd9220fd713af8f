-- ===== src/Common/Texts.antt =====
-- Equality tests on texts, read from equations.
use Prim.Native.String.{String}
use text.Mathlib.Text.{◌==◌}
use text.Mathlib.TextEquality.{eq_iff}
use mathlib.Core.Path.{◌≡◌}
use mathlib.Core.Logic.{◌≢◌}
use mathlib.Core.Bool.{false}
use native.Mathlib.Omega.{arith}
use tip_olg_nats_agent_core.Common.Tests.{Bool-cases}
use mathlib.Core.Logic.{inl, inr}

pub eq-false_of_ne : {s t : String} → s ≢ t → (s == t) ≡ false
eq-false_of_ne {s} {t} h = elim (Bool-cases (s == t)) [
  | inl e ↦ absurd (h ((eq_iff s t).0 e))
  | inr e ↦ e
]

pub ne_of_eq-false : {s t : String} → (s == t) ≡ false → s ≢ t
ne_of_eq-false {s} {t} h e = ground (arith, (eq_iff s t).1 e)
