-- ===== src/Shared/Decide.antt =====
-- Decided equality, for the derived `==` and `!=` of the source.
use mathlib.Core.Path.{◌≡◌, refl}
use mathlib.Core.Option.{Option}
use mathlib.Core.Bool.{Bool, true, false}
use Prim.Native.String.{String}
use native.Mathlib.Decide.{ℕ_discrete}
use text.Mathlib.TextEquality.{eq_iff}
use fusions.Shared.Tests.{◌==◌}
use fusions.Shared.Int.{ℤ}

decide_by : (s t : String) (b : Bool) → ((s == t) ≡ b) → Dec (s ≡ t)
decide_by s t true e = yes ((eq_iff s t).0 e)
decide_by s t false e = no (λ p. cc (e, (eq_iff s t).1 p))

unfoldable pub String-discrete : Discrete String
unfolding decide_by
String-discrete s t = decide_by s t (s == t) refl

unfoldable pub ℤ-discrete : Discrete ℤ
ℤ-discrete = hlevel ℕ_discrete

unfoldable pub Option-String-discrete : Discrete (Option String)
Option-String-discrete = hlevel String-discrete
