-- ===== src/Codegen/Block/Cleanup.antt =====
-- The order of cleanup code, against the history of additions and cancellations.
use memcache_router.Prelude.{
  ℕ, suc, ◌≤◌, ◌<◌, Bool, false, List, [], ◌∷◌, ◌++◌, map, reverse, ◌≡◌, refl, arith, ◌==◌,
  if◌then◌else◌, append_assoc, append-nil, All, ◌||◌, leb, Bool-cases, inl, inr, sym, ◌∙◌,
}
use mathlib.Core.List.{reverse-append, map-append}
use memcache_router.Prelude.Text.{Text}
use memcache_router.Codegen.Result.{Result, ok, ◌>>=◌, >>=-eq-ok, ok-injective}
use memcache_router.Codegen.Block.{
  CodeBlock, new_block, remove_key, has_key, add_cleanup_code, remove_cleanup_code, insert_item,
  sort_items, own_cleanup, get_cleanup_code,
}

pub data Action : Type 0 where
  add : Text → Action
  cancel : ℕ → Action

unfoldable pub act : CodeBlock → Action → Result CodeBlock
act b (add code) = ok (add_cleanup_code b code).1
act b (cancel handle) = remove_cleanup_code b handle

unfoldable pub act_all : CodeBlock → List Action → Result CodeBlock
act_all b [] = ok b
act_all b (a ∷ acts) = do b' ← act b a; act_all b' acts

-- Whether a handle is cancelled in a history.
unfoldable pub cancelled : ℕ → List Action → Bool
cancelled k [] = false
cancelled k (add code ∷ acts) = cancelled k acts
cancelled k (cancel j ∷ acts) = j == k || cancelled k acts

-- The codes that a history adds, from the handle after `n` on, and does not cancel, latest first.
unfoldable pub pending : ℕ → List Action → List Text
pending n [] = []
pending n (add code ∷ acts) =
    pending (suc n) acts ++ (if cancelled (suc n) acts then [] else code ∷ [])
pending n (cancel j ∷ acts) = pending n acts

-- The entries of the dict, latest first: the positions fall, all below `n`.
abbrev IsFalling : ℕ → List (ℕ × Text) → Type 0
IsFalling n [] = Unit
IsFalling n ((p, c) ∷ d) = (p < n) × IsFalling p d

codes_of : List (ℕ × Text) → List Text
codes_of = map (λ item. item.1)

-- What a history leaves of the entries that stand before it.
kept : List Action → List (ℕ × Text) → List Text
kept acts [] = []
kept acts ((p, c) ∷ d) = let rest = kept acts d in if cancelled p acts then rest else c ∷ rest

IsFalling-mono : (m n : ℕ) (d : List (ℕ × Text)) → m ≤ n → IsFalling m d → IsFalling n d
IsFalling-mono m n [] h f = tt
IsFalling-mono m n ((p, c) ∷ d) h (l, f) = (omega arith, f)

abbrev Below : ℕ → List (ℕ × Text) → Type 0
Below n = All (λ (y : ℕ × Text). y.0 < n)

Below-insert_item :
    (n : ℕ) (x : ℕ × Text) (l : List (ℕ × Text)) → x.0 < n → Below n l → Below n (insert_item x l)
unfolding insert_item
Below-insert_item n x [] h hl = (h, tt)
Below-insert_item n x (y ∷ l) h (hy, hl) = elim (Bool-cases (leb x.0 y.0)) [
  | inl e ↦ rw e (h, (hy, hl))
  | inr e ↦ rw e (hy, Below-insert_item n x l h hl)
]

Below-sort_items : (n : ℕ) (d : List (ℕ × Text)) → IsFalling n d → Below n (sort_items d)
unfolding sort_items
Below-sort_items n [] f = tt
Below-sort_items n ((p, c) ∷ d) (l, f) =
    Below-insert_item n (p, c) _ l (Below-sort_items n d (IsFalling-mono p n d (omega arith) f))

insert_item_last :
    (x : ℕ × Text) (l : List (ℕ × Text)) → Below x.0 l → insert_item x l ≡ l ++ x ∷ []
unfolding insert_item
insert_item_last x [] h = refl
insert_item_last x (y ∷ l) (h, hs) = ground (arith, insert_item_last x l hs)

-- `get_cleanup_code` of one block lists the entries latest first.
own_cleanup-sorted :
    (n : ℕ) (d : List (ℕ × Text)) → IsFalling n d → reverse (codes_of (sort_items d)) ≡ codes_of d
unfolding sort_items codes_of
own_cleanup-sorted n [] f = refl
own_cleanup-sorted n ((p, c) ∷ d) (l, f) = rw (
  insert_item_last (p, c) _ (Below-sort_items p d f),
  map-append,
  reverse-append,
  own_cleanup-sorted p d f,
)

remove_key_absent : (n : ℕ) (d : List (ℕ × Text)) → IsFalling n d → remove_key n d ≡ d
unfolding remove_key
remove_key_absent n [] f = refl
remove_key_absent n ((p, c) ∷ d) (l, f) =
    ground (arith, remove_key_absent n d (IsFalling-mono p n d (omega arith) f))

IsFalling-remove_key :
    (n k : ℕ) (d : List (ℕ × Text)) → IsFalling n d → IsFalling n (remove_key k d)
unfolding remove_key
IsFalling-remove_key n k [] f = tt
IsFalling-remove_key n k ((p, c) ∷ d) (l, f) = elim (Bool-cases (p == k)) [
  | inl e ↦ rw e (IsFalling-remove_key n k d (IsFalling-mono p n d (omega arith) f))
  | inr e ↦ rw e (l, IsFalling-remove_key p k d f)
]

kept-nil : (d : List (ℕ × Text)) → kept [] d ≡ codes_of d
unfolding kept cancelled codes_of
kept-nil [] = refl
kept-nil ((p, c) ∷ d) = rw (kept-nil d)

kept-add :
    (code : Text) (acts : List Action) (d : List (ℕ × Text))
    → kept (add code ∷ acts) d ≡ kept acts d
unfolding kept cancelled
kept-add code acts [] = refl
kept-add code acts ((p, c) ∷ d) = rw (kept-add code acts d)

kept-cancel :
    (k : ℕ) (acts : List Action) (d : List (ℕ × Text))
    → kept (cancel k ∷ acts) d ≡ kept acts (remove_key k d)
unfolding kept cancelled remove_key
kept-cancel k acts [] = refl
kept-cancel k acts ((p, c) ∷ d) = ground (arith, kept-cancel k acts d)

kept-cons :
    (n : ℕ) (c : Text) (acts : List Action) (d : List (ℕ × Text))
    → kept acts ((n, c) ∷ d) ≡ (if cancelled n acts then [] else c ∷ []) ++ kept acts d
unfolding kept
kept-cons n c acts d = ground arith

actions-add_cleanup_code :
    (b : CodeBlock) (c : Text)
    → IsFalling (suc b.last_cleanup_position) b.cleanup_actions
    → (add_cleanup_code b c).1.cleanup_actions
      ≡ (suc b.last_cleanup_position, c) ∷ b.cleanup_actions
unfolding add_cleanup_code
actions-add_cleanup_code b c f = rw (remove_key_absent (suc b.last_cleanup_position) _ f)

remove_cleanup_code-ok :
    (b u : CodeBlock) (k : ℕ)
    → remove_cleanup_code b k ≡ ok u
    → u ≡ record b { cleanup_actions = remove_key k b.cleanup_actions }
unfolding remove_cleanup_code
remove_cleanup_code-ok b u k e = elim (Bool-cases (has_key k b.cleanup_actions)) [
  | inl h ↦ sym (ok-injective (rw h at e))
  | inr h ↦ let bad = rw h at e in cc
]

last-add_cleanup_code :
    (b : CodeBlock) (c : Text)
    → (add_cleanup_code b c).1.last_cleanup_position ≡ suc b.last_cleanup_position
unfolding add_cleanup_code
last-add_cleanup_code b c = refl

module _ (b' : CodeBlock) where
  -- What a history makes of a block with some entries.
  abbrev Leaves : ℕ → List (ℕ × Text) → List Action → Type 0
  Leaves n d acts =
      (codes_of b'.cleanup_actions ≡ pending n acts ++ kept acts d)
      × IsFalling (suc b'.last_cleanup_position) b'.cleanup_actions

  codes-act_all :
      (b : CodeBlock) (acts : List Action)
      → IsFalling (suc b.last_cleanup_position) b.cleanup_actions
      → act_all b acts ≡ ok b'
      → Leaves b.last_cleanup_position b.cleanup_actions acts
  unfolding act_all pending act
  codes-act_all b [] f e = let same : b ≡ b' = ok-injective e in rw (← same, kept-nil) (refl, f)
  codes-act_all b (add c ∷ acts) f e =
      let n = suc b.last_cleanup_position in
      let entries = actions-add_cleanup_code b c f in
      let last = last-add_cleanup_code b c in
      let (codes, falling) =
        codes-act_all (add_cleanup_code b c).1 acts (rw (entries, last) (omega arith, f)) e in
      (rw (kept-add, append_assoc, ← kept-cons) (rw (entries, last) at codes), falling)
  codes-act_all b (cancel k ∷ acts) f e =
      let (u, first, rest) = >>=-eq-ok (remove_cleanup_code b k) (λ x. act_all x acts) e in
      let same = remove_cleanup_code-ok b u k first in
      rw kept-cancel (
        codes-act_all (record b { cleanup_actions = remove_key k b.cleanup_actions }) acts
          (IsFalling-remove_key (suc b.last_cleanup_position) k b.cleanup_actions f)
          (rw same at rest))

own_cleanup-act_all :
    (error_return : Text) (acts : List Action) (b : CodeBlock)
    → act_all (new_block error_return) acts ≡ ok b
    → own_cleanup b ≡ pending 0 acts
unfolding own_cleanup codes_of new_block kept
own_cleanup-act_all r acts b e =
    let (codes, falling) = codes-act_all b (new_block r) acts tt e in
    own_cleanup-sorted (suc b.last_cleanup_position) b.cleanup_actions falling
    ∙ (codes ∙ append-nil (pending 0 acts))

-- What a block takes over from its predecessors.
abbrev pub inherited : List CodeBlock → List Text
inherited [] = []
inherited (p ∷ ps) = get_cleanup_code p ps

-- After any additions and cancellations on a new block that do not raise, the cleanup code is that of
-- the additions that were not cancelled, the latest first, and behind it the predecessors'.
pub get_cleanup_code-act_all :
    (error_return : Text) (acts : List Action) (b : CodeBlock) (ps : List CodeBlock)
    → act_all (new_block error_return) acts ≡ ok b
    → get_cleanup_code b ps ≡ pending 0 acts ++ inherited ps
unfolding get_cleanup_code
get_cleanup_code-act_all r acts b [] e = rw append-nil (own_cleanup-act_all r acts b e)
get_cleanup_code-act_all r acts b (p ∷ ps) e = rw (own_cleanup-act_all r acts b e)
