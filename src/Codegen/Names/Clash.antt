-- ===== src/Codegen/Names/Clash.antt =====
-- When the names that a scope hands out differ, and when they clash.

use memcache_router.Prelude.{
  ℕ, ◌+◌, ◌≤◌, Bool, true, false, ◌&&◌, List, [], ◌∷◌, ◌++◌, Option, ◌≡◌, ◌≢◌, refl, sym, ap, ◌∙◌,
  arith, ◌==◌, if◌then◌else◌, All, append-nil, Bool-cases, inl, inr,
}
use memcache_router.Prelude.Text.{Text, text, text_eq, text_eq_refl, text_eq_iff, text_eq_of_ne}
use memcache_router.Codegen.Result.{Result, ok, ◌>>=◌, >>=-eq-ok, ok-injective}
use memcache_router.Codegen.Names.Decimal.{
  decimal, is_digit, IsDigits, IsDigits-decimal, decimal-ne-nil, decimal-injective,
}
use memcache_router.Codegen.Names.{
  Table, Scope, new_scope, number_of, set_number, variable_name, reserve_variable, declare_variable,
  join_ctype_and_name,
}

no_text : Text → Bool
no_text [] = true
no_text (c ∷ s) = false

-- A text without the digits at its end.
unfoldable pub strip_digits : Text → Text
unfolding no_text
strip_digits [] = []
strip_digits (c ∷ s) =
    let rest = strip_digits s in if is_digit c && no_text rest then [] else c ∷ rest

abbrev pub IsPlain : Text → Type 0
IsPlain n = strip_digits n ≡ n

strip_of_IsDigits : (d : Text) → IsDigits d → strip_digits d ≡ []
unfolding strip_digits
strip_of_IsDigits [] h = refl
strip_of_IsDigits (c ∷ d) (h, hs) = ground (arith, strip_of_IsDigits d hs)

strip-append : (n d : Text) → IsDigits d → strip_digits (n ++ d) ≡ strip_digits n
unfolding strip_digits
strip-append [] d h = strip_of_IsDigits d h
strip-append (c ∷ n) d h = rw (strip-append n d h)

strip-variable_name : (n : Text) (i : ℕ) → strip_digits (variable_name n i) ≡ strip_digits n
unfolding variable_name
strip-variable_name n i = elim (Bool-cases (i == 1)) [
  | inl e ↦ rw e
  | inr e ↦ rw e (strip-append n _ (IsDigits-decimal i))
]

append_cancel : (n d e : Text) → n ++ d ≡ n ++ e → d ≡ e
append_cancel [] d e h = h
append_cancel (c ∷ n) d e h = append_cancel n d e (cc)

suffix : ℕ → Text
suffix i = if i == 1 then [] else decimal i

variable_name-suffix : (n : Text) (i : ℕ) → variable_name n i ≡ n ++ suffix i
unfolding variable_name suffix
variable_name-suffix n i = elim (Bool-cases (i == 1)) [ inl e ↦ rw (e, append-nil) | inr e ↦ rw e ]

suffix-injective : (i j : ℕ) → suffix i ≡ suffix j → i ≡ j
unfolding suffix
suffix-injective i j e = ground (arith, decimal-injective i j, decimal-ne-nil i, decimal-ne-nil j)

variable_name-injective :
    (n m : Text) (i j : ℕ)
    → IsPlain n
    → IsPlain m
    → variable_name n i ≡ variable_name m j
    → (n ≡ m) × (i ≡ j)
variable_name-injective n m i j p q e =
    let same : n ≡ m =
      sym p
      ∙ (sym (strip-variable_name n i) ∙ (ap strip_digits e ∙ (strip-variable_name m j ∙ q))) in
    let texts : n ++ suffix i ≡ n ++ suffix j =
      sym (variable_name-suffix n i)
      ∙ (e ∙ (ap (λ x. variable_name x j) (sym same) ∙ variable_name-suffix n j)) in
    (same, suffix-injective i j (append_cancel n _ _ texts))

number-set :
    (n m : Text) (k : ℕ) (t : Table)
    → number_of m (set_number n k t) ≡ (if text_eq n m then k else number_of m t)
unfolding number_of set_number
number-set n m k [] = refl
number-set n m k ((x, j) ∷ t) =
    ground (arith, text_eq_iff x n, text_eq_iff x m, text_eq_iff n m, number-set n m k t)

-- A call that hands out a name.
pub data Request : Type 0 where
  reserve : Text → Request
  declare : Text → Text → Option Text → Option Text → Request

abbrev pub base : Request → Text
base (reserve n) = n
base (declare type_ n initializer array) = n

unfoldable pub request : Scope → Request → Result (Text × Scope)
request s (reserve n) = ok (reserve_variable s n)
request s (declare type_ n initializer array) = declare_variable s type_ n initializer array

unfoldable pub request_all : Scope → List Request → Result (List Text × Scope)
request_all s [] = ok ([], s)
request_all s (r ∷ rs) = do (v, s') ← request s r; (vs, s'') ← request_all s' rs; ok (v ∷ vs, s'')

-- What a request hands out, and what it leaves in the dict, is what `reserve_variable` does.
request-ok :
    (s s' : Scope) (r : Request) (v : Text)
    → request s r ≡ ok (v, s')
    → (v ≡ variable_name (base r) (number_of (base r) s.declared_variables + 1))
      × (s'.declared_variables
          ≡ set_number (base r) (number_of (base r) s.declared_variables + 1) s.declared_variables)
unfolding request declare_variable reserve_variable
request-ok s s' (reserve n) v e =
    let same = ok-injective e in
    (
      sym (ap (λ (p : Text × Scope). p.0) same),
      sym (ap (λ (p : Text × Scope). p.1.declared_variables) same),
    )
request-ok s s' (declare type_ n initializer array) v e =
    let (decl, joined, rest) = >>=-eq-ok (join_ctype_and_name type_ _) _ e in
    let same = ok-injective rest in
    (
      sym (ap (λ (p : Text × Scope). p.0) same),
      sym (ap (λ (p : Text × Scope). p.1.declared_variables) same),
    )

-- `v` has been handed out.
abbrev Issued : Table → Text → Type 0
Issued t v = (n : Text) × (k : ℕ) × IsPlain n × (k ≤ number_of n t) × (v ≡ variable_name n k)

Issued-set : (t : Table) (n v : Text) → Issued t v → Issued (set_number n (number_of n t + 1) t) v
Issued-set t n v (m, k, plain, le, e) =
    (m, k, plain, ground (arith, number-set n m (number_of n t + 1) t, text_eq_iff n m), e)

fresh : (t : Table) (n v : Text) → IsPlain n → Issued t v → variable_name n (number_of n t + 1) ≢ v
fresh t n v p (m, k, plain, le, e) same =
    let (names, numbers) = variable_name-injective n m _ k p plain (same ∙ e) in
    absurd (omega (arith, ap (λ x. number_of x t) names))

abbrev pub ArePlain : List Request → Type 0
ArePlain = All (λ r. IsPlain (base r))

abbrev pub Distinct : List Text → Type 0
Distinct [] = Unit
Distinct (v ∷ vs) = All (λ w. w ≢ v) vs × Distinct vs

Issued-request :
    (s s' : Scope) (r : Request) (v w : Text)
    → IsPlain (base r)
    → request s r ≡ ok (w, s')
    → Issued s.declared_variables v
    → (w ≢ v) × Issued s'.declared_variables v
Issued-request s s' r v w p e old =
    let (name, table) = request-ok s s' r w e in
    (rw name (fresh s.declared_variables (base r) v p old), rw table (Issued-set _ (base r) v old))

Issued-self :
    (s s' : Scope) (r : Request) (v : Text)
    → IsPlain (base r)
    → request s r ≡ ok (v, s')
    → Issued s'.declared_variables v
Issued-self s s' r v p e =
    let (name, table) = request-ok s s' r v e in
    let n = base r in
    let k = number_of n s.declared_variables + 1 in
    (n, k, p, rw (table, number-set, text_eq_refl) (omega arith), name)

later-differ :
    (s s' : Scope) (rs : List Request) (v : Text) (ws : List Text)
    → ArePlain rs
    → request_all s rs ≡ ok (ws, s')
    → Issued s.declared_variables v
    → All (λ w. w ≢ v) ws
unfolding request_all
later-differ s s' [] v ws h e old = rw (← ap (λ (p : List Text × Scope). p.0) (ok-injective e)) tt
later-differ s s' (r ∷ rs) v ws (p, hs) e old =
    let (one, first, rest) = >>=-eq-ok (request s r) _ e in
    let (more, others, last) = >>=-eq-ok (request_all one.1 rs) _ rest in
    let (differs, kept) = Issued-request s one.1 r v one.0 p first old in
    rw (← ap (λ (p : List Text × Scope). p.0) (ok-injective last))
      (differs, later-differ one.1 more.1 rs v more.0 hs others kept)

-- If no base name ends in a digit, all the names that a scope hands out, for declarations and
-- reservations in any order, are different.
pub Distinct-request_all :
    (s s' : Scope) (rs : List Request) (vs : List Text)
    → ArePlain rs
    → request_all s rs ≡ ok (vs, s')
    → Distinct vs
unfolding request_all
Distinct-request_all s s' [] vs h e = rw (← ap (λ (p : List Text × Scope). p.0) (ok-injective e)) tt
Distinct-request_all s s' (r ∷ rs) vs (p, hs) e =
    let (one, first, rest) = >>=-eq-ok (request s r) _ e in
    let (more, others, last) = >>=-eq-ok (request_all one.1 rs) _ rest in
    rw (← ap (λ (p : List Text × Scope). p.0) (ok-injective last)) (
      later-differ one.1 more.1 rs one.0 more.0 hs others (Issued-self s one.1 r one.0 p first),
      Distinct-request_all one.1 more.1 rs more.0 hs others,
    )

longer-ne : (n d : Text) → d ≢ [] → n ++ d ≢ n
longer-ne n d h e = h (append_cancel n d [] (e ∙ sym (append-nil n)))

text_two-ne-nil : text "2" ≢ []
unfolding text
text_two-ne-nil e = cc

-- For any base name, on a new scope: reserving the name with a 2 behind it and then the name itself
-- twice hands out one name twice.
pub reserve_variable_clash :
    (n : Text)
    → (s : Scope) × (request_all new_scope (reserve (n ++ text "2") ∷ reserve n ∷ reserve n ∷ [])
        ≡ ok ((n ++ text "2") ∷ n ∷ (n ++ text "2") ∷ [], s))
unfolding request_all request reserve_variable number_of set_number variable_name
reserve_variable_clash n =
    let differ = text_eq_of_ne (n ++ text "2") n (longer-ne n (text "2") text_two-ne-nil) in
    (
      record new_scope { declared_variables = (n ++ text "2", 1) ∷ (n, 2) ∷ [] },
      simp (differ, text_eq_refl) (unfold decimal text in refl),
    )
