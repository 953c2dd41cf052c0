-- ===== src/Config/Reports.antt =====
-- When the reports of config.go's validation are empty.
use l7_proxy.Prelude.{◌≡◌, ◌↔◌, refl, List, [], ◌∷◌, ◌++◌, Option, none, some, Bool, false, arith}
use l7_proxy.Config.{ConfigError, Fault, report_if}
use l7_proxy.Config.Rules.{report}

-- Reports joined are empty exactly if both are.
pub append_nil : (xs ys : List ConfigError) → (xs ++ ys ≡ []) ↔ ((xs ≡ []) × (ys ≡ []))
append_nil [] ys = (λ h. (refl, h), λ h. h.1)
append_nil (x ∷ xs) ys = (λ h. cc, λ h. cc)

pub report_if_nil : (b : Bool) (e : ConfigError) → (report_if b e ≡ []) ↔ (b ≡ false)
report_if_nil b e = ground arith

pub report_nil : (o : Option Fault) (e : Fault → ConfigError) → (report o e ≡ []) ↔ (o ≡ none)
report_nil none e = (λ _. refl, λ _. refl)
report_nil (some f) e = (λ h. cc, λ h. cc)

pub cons-ne-nil : (e : ConfigError) (es : List ConfigError) → e ∷ es ≡ [] → ⊥
cons-ne-nil e es h = cc
