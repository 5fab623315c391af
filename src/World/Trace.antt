-- ===== src/World/Trace.antt =====
-- The trace of calls only grows, and what is counted in it adds up.
use mathlib.Core.List.{append_assoc}
use k8s_health_ai.Prelude.{◌≡◌, refl, sym, ap, ◌∙◌, List, [], ◌∷◌, ◌++◌}
use k8s_health_ai.World.{Call}

-- `after` is `before` with newer calls in front.
abbrev pub Extends : List Call → List Call → Type 0
Extends before after = (new : List Call) × (after ≡ new ++ before)

pub Extends-refl : (a : List Call) → Extends a a
Extends-refl a = ([], refl)

pub Extends-cons : (c : Call) {a b : List Call} → Extends a b → Extends a (c ∷ b)
Extends-cons c (new, e) = (c ∷ new, ap (λ l. c ∷ l) e)

pub Extends-note : {a b : List Call} (c : Call) → b ≡ c ∷ a → Extends a b
Extends-note c e = (c ∷ [], e)

pub Extends-trans : {a b c : List Call} → Extends a b → Extends b c → Extends a c
Extends-trans {a} (new, e) (newer, e') =
    (newer ++ new, e' ∙ ap (λ l. newer ++ l) e ∙ sym (append_assoc newer new a))
