-- ===== src/Codegen/Result.antt =====
-- What a Python call gives: its value, or the exception that it raises.
use mathlib.Core.Path.{◌≡◌, refl, subst}
use memcache_router.Prelude.Text.{Text}
use memcache_router.Prelude.{List, Bool, true, false, if◌then◌else◌}

pub data Exception : Type 0 where
  index_error key_error value_error type_error attribute_error assertion_error : Exception
  not_implemented_error stop_iteration : Exception
  not_supported_error code_generation_error type_configuration_error skip_wrapper : Exception
  type_lookup_error : List Text → Exception

pub data Result {ℓ} (A : Type ℓ) : Type ℓ where
  ok : A → Result A
  raised : Exception → Result A

infixl 5 ◌>>=◌
abbrev pub ◌>>=◌ {ℓ κ} : {A : Type ℓ} {B : Type κ} → Result A → (A → Result B) → Result B
ok a >>= f = f a
raised e >>= f = raised e

module _ {ℓ κ μ} {A : Type ℓ} {B : Type κ} {C : Type μ} where
  pub bind_assoc :
      (r : Result A) (f : A → Result B) (g : B → Result C)
      → (r >>= λ a. f a >>= g) ≡ ((r >>= f) >>= g)
  bind_assoc (ok a) f g = refl
  bind_assoc (raised e) f g = refl

module _ {ℓ κ} {A : Type ℓ} {B : Type κ} where
  pub bind_congr :
      (r : Result A) (f g : A → Result B) → ((a : A) → f a ≡ g a) → (r >>= f) ≡ (r >>= g)
  bind_congr (ok a) f g h = h a
  bind_congr (raised e) f g h = refl

  -- Inversion of a bind that succeeds.
  pub >>=-eq-ok :
      (r : Result A) (f : A → Result B) {b : B}
      → (r >>= f) ≡ ok b
      → (a : A) × (r ≡ ok a) × (f a ≡ ok b)
  >>=-eq-ok (ok a) f h = (a, refl, h)
  >>=-eq-ok (raised e) f h = cc

pub ok-injective {ℓ} : {A : Type ℓ} {a b : A} → ok a ≡ ok b → a ≡ b
ok-injective e = cc

-- `P` holds of the result, if the call does not raise.
pub data Post {ℓ κ} {A : Type ℓ} (P : A → Type κ) : Result A → Type (ℓ ⊔ κ) where
  returns : {a : A} → P a → Post P (ok a)
  raises : {e : Exception} → Post P (raised e)

module _ {ℓ κ} {A : Type ℓ} {P : A → Type κ} where
  pub Post-result : {r : Result A} {a : A} → Post P r → r ≡ ok a → P a
  Post-result (returns p) e = subst P (ok-injective e) p
  Post-result raises e = cc

  pub Post-if : (b : Bool) (r s : Result A) → Post P r → Post P s → Post P (if b then r else s)
  Post-if true r s p q = p
  Post-if false r s p q = q

module _ {ℓ κ μ ν} {A : Type ℓ} {B : Type κ} {P : A → Type μ} {Q : B → Type ν} where
  pub Post-bind :
      (r : Result A) (f : A → Result B)
      → Post P r
      → ((a : A) → P a → Post Q (f a))
      → Post Q (r >>= f)
  Post-bind (ok a) f (returns p) k = k a p
  Post-bind (raised e) f p k = raises

module _ {ℓ κ ν} {A : Type ℓ} {B : Type κ} {Q : B → Type ν} where
  -- Where nothing is asked of the first result.
  pub Post-bind_any :
      (r : Result A) (f : A → Result B) → ((a : A) → Post Q (f a)) → Post Q (r >>= f)
  Post-bind_any (ok a) f k = k a
  Post-bind_any (raised e) f k = raises

module _ {ℓ κ μ} {A : Type ℓ} {P : A → Type κ} {Q : A → Type μ} where
  pub Post-weaken : {r : Result A} → ((a : A) → P a → Q a) → Post P r → Post Q r
  Post-weaken k (returns p) = returns (k _ p)
  Post-weaken k raises = raises
