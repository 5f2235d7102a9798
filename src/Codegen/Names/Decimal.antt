-- ===== src/Codegen/Names/Decimal.antt =====
-- `"%i" % n` for a number that is not negative, and its uniqueness.
use memcache_router.Prelude.{
  ℕ, zero, suc, ◌+◌, ◌-◌, ◌*◌, ◌/◌, ◌%◌, ◌<◌, Bool, true, ◌&&◌, [], ◌∷◌, ◌++◌, ◌≡◌, ◌≢◌, refl, sym,
  ap, ◌∙◌, arith, ltb, leb, if◌then◌else◌, All, All-append, Bool-cases, inl, inr,
}
use memcache_router.Prelude.Text.{Text}

-- The digits of `n`, most significant first; `n + 1` rounds are enough.
unfoldable pub decimal_fuel : ℕ → ℕ → Text
decimal_fuel zero n = []
decimal_fuel (suc f) n =
    let rest = decimal_fuel f (n / 10) ++ (48 + n % 10) ∷ [] in
    if ltb n 10 then (48 + n) ∷ [] else rest

unfoldable pub decimal : ℕ → Text
unfolding decimal_fuel
decimal n = decimal_fuel (suc n) n

unfoldable pub is_digit : ℕ → Bool
is_digit c = leb 48 c && leb c 57

abbrev pub IsDigits : Text → Type 0
IsDigits = All (λ c. is_digit c ≡ true)

value_from : ℕ → Text → ℕ
value_from acc [] = acc
value_from acc (c ∷ s) = value_from (acc * 10 + (c - 48)) s

value_from-append :
    (acc : ℕ) (s : Text) (c : ℕ) → value_from acc (s ++ c ∷ []) ≡ value_from acc s * 10 + (c - 48)
unfolding value_from
value_from-append acc [] c = refl
value_from-append acc (d ∷ s) c = value_from-append (acc * 10 + (d - 48)) s c

value-decimal_fuel : (f n : ℕ) → n < f → value_from 0 (decimal_fuel f n) ≡ n
unfolding decimal_fuel
value-decimal_fuel zero n h = elim h [ ]
value-decimal_fuel (suc f) n h = elim (Bool-cases (ltb n 10)) [
  | inl e ↦ rw e (unfold value_from in omega arith)
  | inr e ↦ rw (e, value_from-append) (last (value-decimal_fuel f (n / 10) (ground arith)))
]
  where
    last : {v : ℕ} → v ≡ n / 10 → v * 10 + (48 + n % 10 - 48) ≡ n
    last p = omega arith

IsDigits-decimal_fuel : (f n : ℕ) → IsDigits (decimal_fuel f n)
unfolding decimal_fuel
IsDigits-decimal_fuel zero n = tt
IsDigits-decimal_fuel (suc f) n = elim (Bool-cases (ltb n 10)) [
  | inl e ↦ rw e (unfold is_digit in ground arith, tt)
  | inr e ↦ rw e (
      All-append (λ c. is_digit c ≡ true) _ _ (IsDigits-decimal_fuel f (n / 10))
        (unfold is_digit in ground arith, tt))
]

snoc-ne-nil : (s : Text) (c : ℕ) → s ++ c ∷ [] ≢ []
snoc-ne-nil [] c e = cc
snoc-ne-nil (d ∷ s) c e = cc

pub decimal-ne-nil : (n : ℕ) → decimal n ≢ []
unfolding decimal
decimal-ne-nil n = elim (Bool-cases (ltb n 10)) [
  | inl e ↦ rw e (λ p. cc)
  | inr e ↦ rw e (snoc-ne-nil _ _)
]

pub IsDigits-decimal : (n : ℕ) → IsDigits (decimal n)
IsDigits-decimal n = unfold decimal in IsDigits-decimal_fuel (suc n) n

-- Different numbers have different digits.
pub decimal-injective : (m n : ℕ) → decimal m ≡ decimal n → m ≡ n
unfolding decimal
decimal-injective m n e =
    sym (value-decimal_fuel (suc m) m (omega arith))
    ∙ (ap (value_from 0) e ∙ value-decimal_fuel (suc n) n (omega arith))
