-- ===== src/Epoll/Serve.antt =====
-- The loop of epoll.py against a kernel that answers as epoll(7) and accept(2) document it.
use memcache_router.Prelude.{
  ℕ, Bool, true, false, List, [], ◌∷◌, ◌≡◌, refl, ap, subst, ◌∙◌, ◌==◌, ==_iff, if◌then◌else◌,
  Bool-cases, inl, inr,
}
use memcache_router.Epoll.{
  unregister, receive, close, Loop, Outcome, continues, key_error, has, remove, log,
  accept_connection, receive_data, hang_up,
}
use memcache_router.Epoll.Watch.{
  watched, watched_for_output, IsLegal, count_sends, has-remove_other, has_of_remove, eq_sym_false,
  true_or_false,
}

-- What the loop keeps: only the server and connections are registered, and only for input.
pub record IsSound (server : ℕ) (s : Loop) : Type 0 where
  pub known :
      (f : ℕ) → has f (watched s.calls) ≡ true → (f == server) ≡ false → has f s.connections ≡ true
  pub server_watched : has server (watched s.calls) ≡ true
  pub input_only : watched_for_output s.calls ≡ []
  pub legal : IsLegal s.calls
  pub silent : count_sends s.calls ≡ 0

unwatched :
    (server f : ℕ) (s : Loop)
    → IsSound server s
    → has f s.connections ≡ false
    → (f == server) ≡ false
    → has f (watched s.calls) ≡ false
unwatched server f s g closed other = elim (Bool-cases (has f (watched s.calls))) [
  | inl e ↦ absurd (true_or_false (g.known f e other) closed)
  | inr e ↦ e
]

-- The connection of a descriptor is stored, and its events are not asked for.
abbrev pub IsGivenUp : ℕ → Loop → Type 0
IsGivenUp f s = (has f s.connections ≡ true) × (has f (watched s.calls) ≡ false)

-- Descriptors other than `f` stay registered, and stay given up.
pub record KeepsOthers (f : ℕ) (s s' : Loop) : Type 0 where
  pub watching :
      (g : ℕ) → (g == f) ≡ false → has g (watched s.calls) ≡ true → has g (watched s'.calls) ≡ true
  pub giving_up : (g : ℕ) → (g == f) ≡ false → IsGivenUp g s → IsGivenUp g s'

connected_other :
    (f h : ℕ) (conns : List ℕ)
    → (h == f) ≡ false
    → has h conns ≡ true
    → has h (f ∷ remove f conns) ≡ true
unfolding has
connected_other f h conns ne e = rw ne (has-remove_other f h conns ne ∙ e)

accepted_known :
    (server f : ℕ) (s : Loop)
    → IsSound server s
    → (h : ℕ) → has h (f ∷ watched s.calls) ≡ true
    → (h == server) ≡ false
    → has h (f ∷ remove f s.connections) ≡ true
unfolding has
accepted_known server f s g h e other = elim (Bool-cases (h == f)) [
  | inl same ↦ rw same refl
  | inr ne ↦ connected_other f h s.connections ne (g.known h (rw ne at e) other)
]

has_more : (f h : ℕ) (gs : List ℕ) → has h gs ≡ true → has h (f ∷ gs) ≡ true
unfolding has
has_more f h gs e = elim (Bool-cases (h == f)) [ inl same ↦ rw same refl | inr ne ↦ rw ne e ]

pub accept_connection-IsSound :
    (server f : ℕ) (s : Loop)
    → IsSound server s
    → has f s.connections ≡ false
    → (f == server) ≡ false
    → IsSound server (accept_connection f s)
unfolding accept_connection watched watched_for_output count_sends
accept_connection-IsSound server f s g closed other = record {
  known = accepted_known server f s g;
  server_watched = has_more f server (watched s.calls) g.server_watched;
  input_only = g.input_only;
  legal = (unwatched server f s g closed other, g.legal);
  silent = g.silent;
}

given_up_differs :
    (f g : ℕ) (s : Loop) → has f s.connections ≡ false → IsGivenUp g s → (g == f) ≡ false
given_up_differs f g s closed (there, e) = elim (Bool-cases (g == f)) [
  | inl same ↦
      absurd
        (true_or_false (subst (λ x. has x s.connections ≡ true) ((==_iff g f).0 same) there) closed)
  | inr ne ↦ ne
]

pub accept_connection-KeepsOthers :
    (from f : ℕ) (s : Loop)
    → has f s.connections ≡ false
    → KeepsOthers from s (accept_connection f s)
unfolding accept_connection watched has
accept_connection-KeepsOthers from f s closed = record {
  watching = λ h ne e. has_more f h (watched s.calls) e;
  giving_up = λ h ne e.
      let differs = given_up_differs f h s closed e in
      (connected_other f h s.connections differs e.0, rw differs e.1);
}

-- The loop goes on, soundly.
abbrev pub Goes : ℕ → ℕ → Loop → Outcome → Type 0
Goes server f s o = (s' : Loop) × (o ≡ continues s') × IsSound server s' × KeepsOthers f s s'

-- A descriptor is given up, and its connection stays or goes.
module _ (server f : ℕ) (s : Loop) (g : IsSound server s) (other : (f == server) ≡ false) where
  given_up_known :
      (h : ℕ)
      → has h (remove f (watched s.calls)) ≡ true
      → (h == server) ≡ false
      → has h s.connections ≡ true
  given_up_known h e ne = g.known h (has_of_remove f h (watched s.calls) e).1 ne

  closed_known :
      (h : ℕ)
      → has h (remove f (watched s.calls)) ≡ true
      → (h == server) ≡ false
      → has h (remove f s.connections) ≡ true
  closed_known h e ne =
      let (differs, there) = has_of_remove f h (watched s.calls) e in
      has-remove_other f h s.connections differs ∙ g.known h there ne

  others_watched :
      (h : ℕ)
      → (h == f) ≡ false
      → has h (watched s.calls) ≡ true
      → has h (remove f (watched s.calls)) ≡ true
  others_watched h ne e = has-remove_other f h (watched s.calls) ne ∙ e

  module _ (w : has f (watched s.calls) ≡ true) where
    pub receive_data-Goes : (d : Bool) → Goes server f s (receive_data f d s)
    unfolding receive_data watched watched_for_output count_sends remove
    receive_data-Goes true = (
      _,
      ap (λ b. if b then continues (log (receive f) s) else key_error s) (g.known f w other),
      record {
        known = g.known;
        server_watched = g.server_watched;
        input_only = g.input_only;
        legal = g.legal;
        silent = g.silent;
      },
      record { watching = λ h ne e. e; giving_up = λ h ne e. e },
    )
    receive_data-Goes false = (
      _,
      ap (λ b. if b then continues (log (unregister f) (log (receive f) s)) else key_error s)
          (g.known f w other),
      record {
        known = given_up_known;
        server_watched = others_watched server (eq_sym_false f server other) g.server_watched;
        input_only = ap (remove f) g.input_only;
        legal = (w, g.legal);
        silent = g.silent;
      },
      record {
        watching = others_watched;
        giving_up = λ h ne e. (e.0, has-remove_other f h (watched s.calls) ne ∙ e.1);
      },
    )

    pub hang_up-Goes : Goes server f s (hang_up f s)
    unfolding hang_up watched watched_for_output count_sends remove
    hang_up-Goes = (
      _,
      ap
          (λ b.
            if b
            then continues (record {
              connections = remove f s.connections;
              calls = close f ∷ unregister f ∷ s.calls;
            })
            else key_error (log (unregister f) s))
          (g.known f w other),
      record {
        known = closed_known;
        server_watched = others_watched server (eq_sym_false f server other) g.server_watched;
        input_only = ap (remove f) g.input_only;
        legal = (w, g.legal);
        silent = g.silent;
      },
      record {
        watching = others_watched;
        giving_up = λ h ne e. (
          has-remove_other f h s.connections ne ∙ e.0,
          has-remove_other f h (watched s.calls) ne ∙ e.1,
        );
      },
    )
