-- ===== src/Epoll/Watch.antt =====
-- What the calls of epoll.py ask of the kernel's epoll object, as epoll(7) documents it: the descriptors
-- that are registered, those registered for output, and the calls that do not fail.
use memcache_router.Prelude.{
  ℕ, ◌+◌, Bool, true, false, List, [], ◌∷◌, ◌≡◌, refl, ◌==◌, ==_iff, ==_refl, ap, sym, subst, ◌∙◌,
  ◌||◌, Bool-cases, inl, inr, if◌then◌else◌,
}
use memcache_router.Epoll.{
  for_input, for_output, KernelCall, register, unregister, modify, send, close, has, remove,
}

unfoldable pub watched : List KernelCall → List ℕ
watched [] = []
watched (register f i ∷ cs) = f ∷ watched cs
watched (unregister f ∷ cs) = remove f (watched cs)
watched (c ∷ cs) = watched cs

unfoldable pub watched_for_output : List KernelCall → List ℕ
watched_for_output [] = []
watched_for_output (register f for_output ∷ cs) = f ∷ watched_for_output cs
watched_for_output (modify f for_output ∷ cs) = f ∷ watched_for_output cs
watched_for_output (modify f for_input ∷ cs) = remove f (watched_for_output cs)
watched_for_output (unregister f ∷ cs) = remove f (watched_for_output cs)
watched_for_output (c ∷ cs) = watched_for_output cs

-- A descriptor is registered once, and only a registered one is modified or unregistered.
abbrev pub IsLegal : List KernelCall → Type 0
IsLegal [] = Unit
IsLegal (register f i ∷ cs) = (has f (watched cs) ≡ false) × IsLegal cs
IsLegal (unregister f ∷ cs) = (has f (watched cs) ≡ true) × IsLegal cs
IsLegal (modify f i ∷ cs) = (has f (watched cs) ≡ true) × IsLegal cs
IsLegal (c ∷ cs) = IsLegal cs

unfoldable pub count_sends : List KernelCall → ℕ
count_sends [] = 0
count_sends (send f ∷ cs) = count_sends cs + 1
count_sends (c ∷ cs) = count_sends cs

unfoldable pub count_closes : ℕ → List KernelCall → ℕ
count_closes f [] = 0
count_closes f (close g ∷ cs) = let rest = count_closes f cs in if f == g then rest + 1 else rest
count_closes f (c ∷ cs) = count_closes f cs

pub true_or_false : {b : Bool} → b ≡ true → b ≡ false → ⊥
true_or_false e f = cc

pub has-remove : (f : ℕ) (gs : List ℕ) → has f (remove f gs) ≡ false
unfolding has remove
has-remove f [] = refl
has-remove f (g ∷ gs) = elim (Bool-cases (f == g)) [
  | inl e ↦ rw e (has-remove f gs)
  | inr e ↦ rw (e, e) (has-remove f gs)
]

pub has-remove_other : (f g : ℕ) (gs : List ℕ) → (g == f) ≡ false → has g (remove f gs) ≡ has g gs
unfolding has remove
has-remove_other f g [] ne = refl
has-remove_other f g (h ∷ gs) ne =
    let ih = has-remove_other f g gs ne in
    elim (Bool-cases (f == h)) [
      | inl e ↦ (let same = (==_iff f h).0 e in rw (e, ← same, ne) ih)
      | inr e ↦ rw e (ap (λ b. g == h || b) ih)
    ]

pub has_of_remove :
    (f g : ℕ) (gs : List ℕ) → has g (remove f gs) ≡ true → ((g == f) ≡ false) × (has g gs ≡ true)
has_of_remove f g gs there = elim (Bool-cases (g == f)) [
  | inl e ↦
      (let gone = has-remove f gs in
        let same = (==_iff g f).0 e in
        absurd (true_or_false (subst (λ x. has x (remove f gs) ≡ true) same there) gone))
  | inr e ↦ (e, sym (has-remove_other f g gs e) ∙ there)
]

pub eq_sym_false : (f g : ℕ) → (f == g) ≡ false → (g == f) ≡ false
eq_sym_false f g ne = elim (Bool-cases (g == f)) [
  | inl e ↦
      absurd (true_or_false (subst (λ x. (f == x) ≡ true) (sym ((==_iff g f).0 e)) (==_refl f)) ne)
  | inr e ↦ e
]
