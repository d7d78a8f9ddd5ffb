-- ===== src/Common/Reach.antt =====
-- What a step relation reaches in finitely many steps, and what each step keeps.
use mathlib.Core.Path.{◌≡◌, refl, ◌∙◌}

pub data Reach {ℓ κ} {A : Type ℓ} (Step : A → A → Type κ) (a : A) : A → Type (ℓ ⊔ κ) where
  here : Reach Step a a
  next : {b c : A} → Reach Step a b → Step b c → Reach Step a c

module _ {ℓ κ} {A : Type ℓ} {Step : A → A → Type κ} where
  -- A predicate that every step keeps holds all the way.
  pub reach_keeps {μ} :
      (P : A → Type μ) → ((b c : A) → Step b c → P b → P c) → {a b : A} → Reach Step a b → P a → P b
  reach_keeps P keeps here p = p
  reach_keeps P keeps (next r s) p = keeps _ _ s (reach_keeps P keeps r p)

  -- What no step changes is as it was.
  pub reach_same {μ} :
      {B : Type μ} (f : A → B)
      → ((b c : A) → Step b c → f c ≡ f b)
      → {a b : A} → Reach Step a b
      → f b ≡ f a
  reach_same f same {a} r = reach_keeps (λ b. f b ≡ f a) (λ b c s e. same b c s ∙ e) r refl

  -- A step in front.
  pub reach_before : {a b c : A} → Step a b → Reach Step b c → Reach Step a c
  reach_before s here = next here s
  reach_before s (next r t) = next (reach_before s r) t
