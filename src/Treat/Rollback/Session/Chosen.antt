-- ===== src/Treat/Rollback/Session/Chosen.antt =====
-- The session that a rollback restores when it names one, and when it does not.
use remote_merge.Prelude.{
  Bool, true, false, not, ◌&&◌, List, [], ◌∷◌, ◌++◌, Option, none, some, Result, ok, err, ◌==◌,
  nat_eq, list_eq, All, ◌≡◌, ◌≢◌, inl, inr, refl, ap, arith, Bool-cases, Option-cases,
}
use remote_merge.Text.{Bytes}
use remote_merge.Treat.Rollback.Session.{
  BackupSession, SessionChoiceError, no_sessions, not_found, all_expired, find, choose_session,
  named_session,
}

-- The session stands in the list behind sessions that all fail the test.
pub record FirstOf (test : BackupSession → Bool) (sessions : List BackupSession) (s : BackupSession)
    : Type 0 where
  pub front : List BackupSession
  pub behind : List BackupSession
  pub place : sessions ≡ front ++ s ∷ behind
  pub passes : test s ≡ true
  pub front_fails : All (λ earlier. test earlier ≡ false) front

find-FirstOf :
    (test : BackupSession → Bool) (sessions : List BackupSession) (s : BackupSession)
    → find test sessions ≡ some s
    → FirstOf test sessions s
unfolding find
find-FirstOf test [] s h = absurd (ground arith)
find-FirstOf test (x ∷ xs) s h = elim (Bool-cases (test x)) [
  | inl t ↦
      let e : x ≡ s = ground arith in
      record {
        front = [];
        behind = xs;
        place = ap (λ (y : BackupSession). y ∷ xs) e;
        passes = rw e at t;
        front_fails = tt;
      }
  | inr f ↦
      let rest = find-FirstOf test xs s (ground arith) in
      record {
        front = x ∷ rest.front;
        behind = rest.behind;
        place = ap (λ (ys : List BackupSession). x ∷ ys) rest.place;
        passes = rest.passes;
        front_fails = (f, rest.front_fails);
      }
]

find-none :
    (test : BackupSession → Bool) (sessions : List BackupSession)
    → find test sessions ≡ none
    → All (λ s. test s ≡ false) sessions
unfolding find
find-none test [] h = tt
find-none test (x ∷ xs) h = elim (Bool-cases (test x)) [
  | inl t ↦ absurd (ground arith)
  | inr f ↦ (f, find-none test xs (ground arith))
]

-- What the choice means, for each way that it ends. `asked` is the session that was named.
abbrev pub ChosenRight :
    List BackupSession → Option Bytes → Bool → Result SessionChoiceError BackupSession → Type 0
ChosenRight sessions (some id) force (ok s) =
    FirstOf (λ other. other.session_id == id) sessions s × (s.expired ≡ true → force ≡ true)
ChosenRight sessions none force (ok s) = FirstOf (λ other. not other.expired) sessions s
ChosenRight sessions (some id) force (err (not_found name)) =
    (name ≡ id) × All (λ s. (s.session_id == id) ≡ false) sessions
ChosenRight sessions (some id) force (err (SessionChoiceError.expired name)) =
    (name ≡ id)
    × (force ≡ false)
    × ((s : BackupSession) × FirstOf (λ other. other.session_id == id) sessions s
        × (s.expired ≡ true))
ChosenRight sessions none force (err no_sessions) = sessions ≡ []
ChosenRight sessions none force (err all_expired) =
    (sessions ≢ []) × All (λ s. s.expired ≡ true) sessions
ChosenRight _ _ _ _ = ⊥

named-ok :
    (s : BackupSession) (id : Bytes) (force : Bool)
    → (s.expired && not force) ≡ false
    → named_session (some s) id force ≡ ok s
unfolding named_session
named-ok s id force h = ground arith

named-expired :
    (s : BackupSession) (id : Bytes) (force : Bool)
    → (s.expired && not force) ≡ true
    → named_session (some s) id force ≡ err (SessionChoiceError.expired id)
unfolding named_session
named-expired s id force h = ground arith

named-ChosenRight :
    (sessions : List BackupSession) (id : Bytes) (force : Bool) (s : BackupSession)
    → FirstOf (λ other. other.session_id == id) sessions s
    → ChosenRight sessions (some id) force (named_session (some s) id force)
named-ChosenRight sessions id force s f = elim (Bool-cases (s.expired && not force)) [
  | inl over ↦ rw (named-expired s id force over) (refl, ground arith, (s, f, ground arith))
  | inr open' ↦ rw (named-ok s id force open') (f, λ e. ground arith)
]

All-not :
    (ss : List BackupSession) → All (λ s. not s.expired ≡ false) ss → All (λ s. s.expired ≡ true) ss
All-not [] h = tt
All-not (s ∷ ss) (h, hs) = (ground arith, All-not ss hs)

-- A named session is the first of that name, and is restored after its end only with --force; with
-- no name it is the newest that has not expired. Each failure says what is true: no session has the
-- name, the session of the name has expired and there is no --force, there is no session, or every
-- session has expired.
pub choose_session-ChosenRight :
    (sessions : List BackupSession) (requested : Option Bytes) (force : Bool)
    → ChosenRight sessions requested force (choose_session sessions requested force)
unfolding choose_session
choose_session-ChosenRight sessions (some id) force =
    elim (Option-cases (find (λ session. session.session_id == id) sessions)) [
      | inl e ↦ rw e (refl, find-none (λ session. session.session_id == id) sessions e)
      | inr (s, e) ↦ rw e (
          named-ChosenRight sessions id force s
            (find-FirstOf (λ session. session.session_id == id) sessions s e))
    ]
choose_session-ChosenRight [] none force = refl
choose_session-ChosenRight (x ∷ xs) none force =
    elim (Option-cases (find (λ session. not session.expired) (x ∷ xs))) [
      | inl e ↦
          rw e (λ p. cc, All-not (x ∷ xs) (find-none (λ session. not session.expired) (x ∷ xs) e))
      | inr (s, e) ↦ rw e (find-FirstOf (λ session. not session.expired) (x ∷ xs) s e)
    ]
