-- ===== src/Prelude/Text.antt =====
-- Python's byte strings as lists of character codes: `split` and `join` at one character, `rstrip`,
-- `' ' * n`.
use Prim.Native.Nat.{ℕ, zero, suc}
use Prim.Native.Char.{code}
use Prim.Native.String.{String}
use mathlib.Core.Path.{◌≡◌, refl}
use mathlib.Core.Logic.{◌≢◌, ◌↔◌, inl, inr}
use mathlib.Core.Bool.{Bool, true, false, ◌&&◌, ◌||◌}
use mathlib.Core.List.{List, [], ◌∷◌, ◌++◌}
use native.Mathlib.Omega.{arith}
use memcache_router.Prelude.Tests.{◌==◌, if◌then◌else◌, leb, Bool-cases}
use memcache_router.Prelude.Lists.{replicate, All, All-append}

abbrev pub Text : Type 0
Text = List ℕ

-- The characters of a literal. Shut, so that a literal stays one word in a goal.
unfoldable pub text : String → Text
text String.[] = []
text (String.◌∷◌ c s) = code c ∷ text s

-- `==` of two strings.
unfoldable pub text_eq : Text → Text → Bool
text_eq [] [] = true
text_eq [] (d ∷ t) = false
text_eq (c ∷ s) [] = false
text_eq (c ∷ s) (d ∷ t) = (c == d) && text_eq s t

pub eq_of_text_eq : (s t : Text) → text_eq s t ≡ true → s ≡ t
unfolding text_eq
eq_of_text_eq [] [] h = refl
eq_of_text_eq [] (d ∷ t) h = ground arith
eq_of_text_eq (c ∷ s) [] h = ground arith
eq_of_text_eq (c ∷ s) (d ∷ t) h = ground (arith, eq_of_text_eq s t)

pub text_eq_refl : (s : Text) → text_eq s s ≡ true
unfolding text_eq
text_eq_refl [] = refl
text_eq_refl (c ∷ s) = ground (arith, text_eq_refl s)

pub text_eq_iff : (s t : Text) → (text_eq s t ≡ true) ↔ (s ≡ t)
text_eq_iff s t = (eq_of_text_eq s t, λ e. rw e (text_eq_refl t))

pub text_eq_of_ne : (s t : Text) → s ≢ t → text_eq s t ≡ false
text_eq_of_ne s t h = elim (Bool-cases (text_eq s t)) [
  | inl e ↦ absurd (h (eq_of_text_eq s t e))
  | inr e ↦ e
]

-- `s.split(c)` for one character: the parts, at least one.
unfoldable pub push_front : ℕ → List Text → List Text
push_front c [] = (c ∷ []) ∷ []
push_front c (p ∷ ps) = (c ∷ p) ∷ ps

unfoldable pub split : ℕ → Text → List Text
unfolding push_front
split sep [] = [] ∷ []
split sep (c ∷ s) = let rest = split sep s in if c == sep then [] ∷ rest else push_front c rest

-- `sep.join(parts)`.
unfoldable pub join : Text → List Text → Text
join sep [] = []
join sep (p ∷ []) = p
join sep (p ∷ q ∷ ps) = p ++ (sep ++ join sep (q ∷ ps))

-- `' ' * n`.
unfoldable pub spaces : ℕ → Text
spaces n = replicate n b' '

-- `c.isspace()` for one byte.
unfoldable pub is_space : ℕ → Bool
is_space c = c == 32 || (leb 9 c && leb c 13)

is_empty : Text → Bool
is_empty [] = true
is_empty (c ∷ s) = false

-- `s.rstrip()`.
unfoldable pub rstrip : Text → Text
unfolding is_space is_empty
rstrip [] = []
rstrip (c ∷ s) = let r = rstrip s in if is_space c && is_empty r then [] else c ∷ r

abbrev pub Lacks : ℕ → Text → Type 0
Lacks b = All (λ c. c ≢ b)

push_front-ne-nil : (c : ℕ) (ps : List Text) → push_front c ps ≢ []
unfolding push_front
push_front-ne-nil c [] p = cc
push_front-ne-nil c (q ∷ ps) p = cc

pub split-ne-nil : (sep : ℕ) (s : Text) → split sep s ≢ []
unfolding split
split-ne-nil sep [] = ground arith
split-ne-nil sep (c ∷ s) = elim (Bool-cases (c == sep)) [
  | inl e ↦ rw e (λ p. cc)
  | inr e ↦ rw e (push_front-ne-nil c (split sep s))
]

All-Lacks-push_front :
    (b c : ℕ) (ps : List Text) → c ≢ b → All (Lacks b) ps → All (Lacks b) (push_front c ps)
unfolding push_front
All-Lacks-push_front b c [] n h = ((n, tt), tt)
All-Lacks-push_front b c (p ∷ ps) n (hp, hs) = ((n, hp), hs)

-- Every part of a split lacks the separator.
pub All-Lacks-split : (sep : ℕ) (s : Text) → All (Lacks sep) (split sep s)
unfolding split
All-Lacks-split sep [] = (tt, tt)
All-Lacks-split sep (c ∷ s) = elim (Bool-cases (c == sep)) [
  | inl e ↦ rw e (tt, All-Lacks-split sep s)
  | inr e ↦ rw e (All-Lacks-push_front sep c _ (ground arith) (All-Lacks-split sep s))
]

-- A text that lacks the separator is its own only part.
pub split_of_Lacks : (sep : ℕ) (s : Text) → Lacks sep s → split sep s ≡ s ∷ []
unfolding split
split_of_Lacks sep [] h = refl
split_of_Lacks sep (c ∷ s) (h, hs) = ground (arith, split_of_Lacks sep s hs)

join-nil : (sep : Text) (ps : List Text) → ps ≢ [] → join sep ([] ∷ ps) ≡ sep ++ join sep ps
unfolding join
join-nil sep [] h = absurd (h refl)
join-nil sep (p ∷ ps) h = refl

join-push_front :
    (sep : Text) (c : ℕ) (ps : List Text) → join sep (push_front c ps) ≡ c ∷ join sep ps
unfolding join push_front
join-push_front sep c [] = refl
join-push_front sep c (p ∷ []) = refl
join-push_front sep c (p ∷ q ∷ ps) = refl

-- Joining the parts of a split gives the text back.
pub join-split : (sep : ℕ) (s : Text) → join (sep ∷ []) (split sep s) ≡ s
unfolding split
join-split sep [] = unfold join in refl
join-split sep (c ∷ s) = elim (Bool-cases (c == sep)) [
  | inl e ↦ rw (e, join-nil (sep ∷ []) _ (split-ne-nil sep s), join-split sep s) (ground arith)
  | inr e ↦ rw (e, join-push_front, join-split sep s)
]

pub Lacks-append : (b : ℕ) (s t : Text) → Lacks b s → Lacks b t → Lacks b (s ++ t)
Lacks-append b = All-append (λ c. c ≢ b)

pub Lacks-spaces : (n : ℕ) → Lacks 10 (spaces n)
unfolding spaces
Lacks-spaces zero = tt
Lacks-spaces (suc n) = (omega arith, Lacks-spaces n)

pub Lacks-rstrip : (b : ℕ) (s : Text) → Lacks b s → Lacks b (rstrip s)
unfolding rstrip
Lacks-rstrip b [] h = tt
Lacks-rstrip b (c ∷ s) (h, hs) = elim (Bool-cases (is_space c && is_empty (rstrip s))) [
  | inl e ↦ rw e tt
  | inr e ↦ rw e (h, Lacks-rstrip b s hs)
]
