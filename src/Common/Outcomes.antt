-- ===== src/Common/Outcomes.antt =====
-- Properties of the value of code that may throw.
use mathlib.Core.Path.{◌≡◌, subst}
use mathlib.Core.Bool.{Bool, true, false}
use ll_dlep.Common.Tests.{if◌then◌else◌}
use ll_dlep.Common.Results.{Result, ok, ◌>>=◌, >>=-elim, ok-injective}

-- If there is a value, it has the property.
abbrev pub WhenOk {ℓ κ} : {A : Type ℓ} → (A → Type κ) → Result A → Type (ℓ ⊔ κ)
WhenOk {A = A} P r = (a : A) → r ≡ ok a → P a

module _ {ℓ κ} {A : Type ℓ} (P : A → Type κ) where
  pub value : (a : A) → P a → WhenOk P (ok a)
  value a p b e = subst P (ok-injective e) p

  -- After a step of which nothing is known.
  pub after {μ} :
      {B : Type μ} (m : Result B) (f : B → Result A)
      → ((b : B) → m ≡ ok b → WhenOk P (f b))
      → WhenOk P (m >>= f)
  after m f h a e = >>=-elim m f e λ b e1 e2. h b e1 a e2

  -- After a step whose value has a property.
  pub after_with {μ ν} :
      {B : Type μ} (Q : B → Type ν) (m : Result B) (f : B → Result A)
      → WhenOk Q m
      → ((b : B) → Q b → WhenOk P (f b))
      → WhenOk P (m >>= f)
  after_with Q m f hm h a e = >>=-elim m f e λ b e1 e2. h b (hm b e1) a e2

  pub either_way :
      (b : Bool) (x y : Result A) → WhenOk P x → WhenOk P y → WhenOk P (if b then x else y)
  either_way true x y hx hy = hx
  either_way false x y hx hy = hy
