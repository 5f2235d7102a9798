-- ===== src/Protocol/Bytes.antt =====
-- Numbers of k bytes with the most significant byte first.
use memcache_router.Prelude.{
  subst, ℕ, zero, suc, ◌+◌, ◌*◌, ◌/◌, ◌%◌, ◌^◌, ◌<◌, [], ◌∷◌, ◌++◌, ◌≡◌, refl, ap, ◌∙◌, arith,
  length, length-append,
}
use memcache_router.Prelude.Text.{Text}

unfoldable pub be : ℕ → ℕ → Text
be zero x = []
be (suc k) x = be k (x / 256) ++ (x % 256) ∷ []

unfoldable pub from_be : ℕ → Text → ℕ
from_be acc [] = acc
from_be acc (b ∷ t) = from_be (acc * 256 + b) t

unfoldable pub take : ℕ → Text → Text
take zero t = []
take (suc k) [] = []
take (suc k) (b ∷ t) = b ∷ take k t

unfoldable pub drop : ℕ → Text → Text
drop zero t = t
drop (suc k) [] = []
drop (suc k) (b ∷ t) = drop k t

-- The number in the next k bytes, and the bytes behind it.
unfoldable pub read : ℕ → Text → ℕ × Text
unfolding from_be take drop
read k t = (from_be 0 (take k t), drop k t)

pub take-append : (s t : Text) → take (length s) (s ++ t) ≡ s
unfolding take
take-append [] t = refl
take-append (b ∷ s) t = ap (λ (l : Text). b ∷ l) (take-append s t)

pub drop-append : (s t : Text) → drop (length s) (s ++ t) ≡ t
unfolding drop
drop-append [] t = refl
drop-append (b ∷ s) t = drop-append s t

pub length-be : (k x : ℕ) → length (be k x) ≡ k
unfolding be
length-be zero x = refl
length-be (suc k) x =
    length-append (be k (x / 256)) ((x % 256) ∷ []) ∙ omega (arith, length-be k (x / 256))

from_be-append : (acc : ℕ) (s : Text) (b : ℕ) → from_be acc (s ++ b ∷ []) ≡ from_be acc s * 256 + b
unfolding from_be
from_be-append acc [] b = refl
from_be-append acc (c ∷ s) b = from_be-append (acc * 256 + c) s b

from_be-be : (k x : ℕ) → x < 256 ^ k → from_be 0 (be k x) ≡ x
unfolding be
from_be-be zero x h = unfold from_be in omega (arith, h)
from_be-be (suc k) x h =
    from_be-append 0 (be k (x / 256)) (x % 256)
    ∙ omega (arith, from_be-be k (x / 256) (omega (arith, h)))

read-append : (s t : Text) → read (length s) (s ++ t) ≡ (from_be 0 s, t)
unfolding read
read-append s t = rw (take-append s t, drop-append s t)

-- A number that k bytes hold is read back.
pub read-be : (k x : ℕ) (t : Text) → x < 256 ^ k → read k (be k x ++ t) ≡ (x, t)
read-be k x t h =
    subst (λ (n : ℕ). read n (be k x ++ t) ≡ (x, t)) (length-be k x)
      (read-append (be k x) t ∙ ap (λ (n : ℕ). (n, t)) (from_be-be k x h))
