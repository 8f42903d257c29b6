-- ===== src/Session/Ends.antt =====
-- What a call ends with, as two conditions: one on the value and the session of a call that
-- returns, and one on the exception and the session of a call that raises. The rules take a chain
-- of calls apart.
use zaraamad_portal_be.Base.{
  ℕ, Bool, true, false, Option, none, some, ◌≡◌, refl, sym, subst, Option-cases, inl, inr, provided,
  provided-some,
}
use zaraamad_portal_be.Text.{Text}
use zaraamad_portal_be.Http.{
  Detail, Exception, Result, ok, raised, http_exception, integrity_error, type_error,
}
use zaraamad_portal_be.Database.{Database}
use zaraamad_portal_be.Session.{
  Session, Action, ◌>>=◌, or_fail, or_raise, fail_if, reads, modify, flush, commit,
  commit_or_rollback,
}

abbrev pub EndsIn :
    {A : Type 0}
    → (A → Session → Type 0)
    → (Exception → Session → Type 0)
    → Result A × Session
    → Type 0
EndsIn Returns Raises (ok a, s) = Returns a s
EndsIn Returns Raises (raised e, s) = Raises e s

pub record Ends {A : Type 0} (x : Result A × Session) (Returns : A → Session → Type 0)
    (Raises : Exception → Session → Type 0) : Type 0 where
  pub ends : EndsIn Returns Raises x

module _ {A : Type 0} {Q : A → Session → Type 0} {E : Exception → Session → Type 0} where
  pub Ends-ok : {a : A} {s : Session} → Q a s → Ends (ok a, s) Q E
  Ends-ok h = record { ends = h }

  pub Ends-raised : {e : Exception} {s : Session} → E e s → Ends {A = A} (raised e, s) Q E
  Ends-raised h = record { ends = h }

  pub Ends-or_fail :
      (o : Option A) (code : ℕ) (detail : Detail) (s : Session)
      → ((a : A) → o ≡ some a → Q a s)
      → E (http_exception code detail) s
      → Ends (or_fail o code detail s) Q E
  Ends-or_fail none code detail s q e = Ends-raised e
  Ends-or_fail (some a) code detail s q e = Ends-ok (q a refl)

  -- The rule with what a failure says of the row.
  pub Ends-found :
      (o : Option A) (code : ℕ) (detail : Detail) (s : Session)
      → ((a : A) → o ≡ some a → Q a s)
      → (o ≡ none → E (http_exception code detail) s)
      → Ends (or_fail o code detail s) Q E
  Ends-found none code detail s q e = Ends-raised (e refl)
  Ends-found (some a) code detail s q e = Ends-ok (q a refl)

  pub Ends-or_raise :
      (o : Option A) (s : Session)
      → ((a : A) → o ≡ some a → Q a s)
      → E type_error s
      → Ends (or_raise o s) Q E
  Ends-or_raise none s q e = Ends-raised e
  Ends-or_raise (some a) s q e = Ends-ok (q a refl)

  pub Ends-mono :
      {R : A → Session → Type 0} {F : Exception → Session → Type 0} (x : Result A × Session)
      → ((a : A) (s : Session) → R a s → Q a s)
      → ((e : Exception) (s : Session) → F e s → E e s)
      → Ends x R F
      → Ends x Q E
  Ends-mono (ok a, s) q e h = Ends-ok (q a s h.ends)
  Ends-mono (raised x, s) q e h = Ends-raised (e x s h.ends)

module _ {A B : Type 0} {Q : B → Session → Type 0} {E : Exception → Session → Type 0} where
  Ends-after :
      (f : A → Action B) (x : Result A × Session)
      → Ends x (λ a s. Ends (f a s) Q E) E
      → Ends (elim x.0 [ ok a ↦ f a x.1 | raised e ↦ (raised e, x.1) ]) Q E
  Ends-after f (ok a, s) h = h.ends
  Ends-after f (raised e, s) h = Ends-raised h.ends

  pub Ends-bind :
      (m : Action A) (f : A → Action B) (s : Session)
      → Ends (m s) (λ a t. Ends (f a t) Q E) E
      → Ends ((m >>= f) s) Q E
  unfolding ◌>>=◌
  Ends-bind m f s h = Ends-after f (m s) h

module _ {Q : Unit {0} → Session → Type 0} {E : Exception → Session → Type 0} where
  pub Ends-fail_if :
      (test : Bool) (code : ℕ) (detail : Detail) (s : Session)
      → (test ≡ false → Q tt s)
      → E (http_exception code detail) s
      → Ends (fail_if test code detail s) Q E
  Ends-fail_if true code detail s q e = Ends-raised e
  Ends-fail_if false code detail s q e = Ends-ok (q refl)

  -- The rule with what a failure says of the test.
  pub Ends-guard :
      (test : Bool) (code : ℕ) (detail : Detail) (s : Session)
      → (test ≡ false → Q tt s)
      → (test ≡ true → E (http_exception code detail) s)
      → Ends (fail_if test code detail s) Q E
  Ends-guard true code detail s q e = Ends-raised (e refl)
  Ends-guard false code detail s q e = Ends-ok (q refl)

  module _ (violation : Database → Option Text) where
    pub Ends-flush :
        (s : Session)
        → Q tt s
        → ((text : Text) → E (integrity_error text) s)
        → Ends (flush violation s) Q E
    unfolding flush
    Ends-flush s q e = elim (Option-cases (violation s.current)) [
      | inl accepted ↦ rw (flush, accepted) (Ends-ok q)
      | inr (text, refused) ↦ rw (flush, refused) (Ends-raised (e text))
    ]

    pub Ends-commit :
        (s : Session)
        → Q tt (record s { committed = s.current })
        → ((text : Text) → E (integrity_error text) s)
        → Ends (commit violation s) Q E
    unfolding commit
    Ends-commit s q e = elim (Option-cases (violation s.current)) [
      | inl accepted ↦ rw (commit, accepted) (Ends-ok q)
      | inr (text, refused) ↦ rw (commit, refused) (Ends-raised (e text))
    ]

    pub Ends-commit_or_rollback :
        (refusal : Text → Exception) (s : Session)
        → Q tt (record s { committed = s.current })
        → ((text : Text) → E (refusal text) (record s { current = s.committed }))
        → Ends (commit_or_rollback violation refusal s) Q E
    unfolding commit_or_rollback ◌>>=◌
    Ends-commit_or_rollback refusal s q e = elim (Option-cases (violation s.current)) [
      | inl accepted ↦ rw (commit_or_rollback, accepted) (Ends-ok q)
      | inr (text, refused) ↦ rw (commit_or_rollback, refused) (Ends-raised (e text))
    ]

module _ {A B : Type 0} {Q : B → Session → Type 0} {E : Exception → Session → Type 0} where
  pub Ends-reads :
      (f : Database → A) (k : A → Action B) (s : Session)
      → Ends (k (f s.current) s) Q E
      → Ends ((reads f >>= k) s) Q E
  Ends-reads f k s h = Ends-bind (reads f) k s (Ends-ok h)

  -- A row that is looked up and must pass a condition.
  pub Ends-provided :
      (test : A → Bool) (o : Option A) (code : ℕ) (detail : Detail) (k : A → Action B) (s : Session)
      → ((a : A) → o ≡ some a → test a ≡ true → Ends (k a s) Q E)
      → E (http_exception code detail) s
      → Ends ((or_fail (provided test o) code detail >>= k) s) Q E
  Ends-provided test o code detail k s q e = Ends-bind (or_fail (provided test o) code detail) k s (
      Ends-or_fail (provided test o) code detail s
        (λ a found. let (is, passes) = provided-some test o found in q a is passes) e)

module _ {B : Type 0} {Q : B → Session → Type 0} {E : Exception → Session → Type 0} where
  pub Ends-modify :
      (f : Database → Database) (k : Unit {0} → Action B) (s : Session)
      → Ends (k tt (record s { current = f s.current })) Q E
      → Ends ((modify f >>= k) s) Q E
  Ends-modify f k s h = Ends-bind (modify f) k s (Ends-ok h)

-- A call that leaves the session alone: if it returns, it returns a value with the property.
pub record Checks {A : Type 0} (m : Action A) (s : Session) (R : A → Type 0) : Type 0 where
  pub checks : Ends (m s) (λ a t. (t ≡ s) × R a) (λ e t. t ≡ s)

module _ {A B : Type 0} {R : A → Type 0} {Q : B → Session → Type 0}
    {E : Exception → Session → Type 0} where
  -- The rest of a chain behind such a call.
  pub Ends-checks :
      (m : Action A) (f : A → Action B) (s : Session)
      → Checks m s R
      → ((a : A) → R a → Ends (f a s) Q E)
      → ((e : Exception) → E e s)
      → Ends ((m >>= f) s) Q E
  Ends-checks m f s c q e = Ends-bind m f s (
      Ends-mono (m s) (λ a t (same, r). subst (λ u. Ends (f a u) Q E) (sym same) (q a r))
        (λ x t same. subst (E x) (sym same) (e x)) c.checks)

module _ {A B : Type 0} {R : A → Session → Type 0} {F : Exception → Session → Type 0}
    {Q : B → Session → Type 0} {E : Exception → Session → Type 0} where
  -- The rest of a chain behind a call of which the ends are known.
  pub Ends-then :
      (m : Action A) (f : A → Action B) (s : Session)
      → Ends (m s) R F
      → ((a : A) (t : Session) → R a t → Ends (f a t) Q E)
      → ((e : Exception) (t : Session) → F e t → E e t)
      → Ends ((m >>= f) s) Q E
  Ends-then m f s c q e = Ends-bind m f s (Ends-mono (m s) q e c)

module _ {A B : Type 0} {R : A → Type 0} {F : Exception → Type 0} {Q : B → Session → Type 0}
    {E : Exception → Session → Type 0} where
  -- The rest of a chain behind a call that leaves the session alone, with why it raises.
  pub Ends-kept :
      (m : Action A) (f : A → Action B) (s : Session)
      → Ends (m s) (λ a t. (t ≡ s) × R a) (λ e t. (t ≡ s) × F e)
      → ((a : A) → R a → Ends (f a s) Q E)
      → ((e : Exception) → F e → E e s)
      → Ends ((m >>= f) s) Q E
  Ends-kept m f s c q e = Ends-bind m f s (
      Ends-mono (m s) (λ a t (same, r). subst (λ u. Ends (f a u) Q E) (sym same) (q a r))
        (λ x t (same, why). subst (E x) (sym same) (e x why)) c)

-- What holds of the committed rows at both ends of a call holds of what it leaves.
pub Ends-committed :
    {A : Type 0} (P : Database → Type 0) (x : Result A × Session)
    → Ends x (λ a t. P t.committed) (λ e t. P t.committed)
    → P x.1.committed
Ends-committed P (ok a, s) h = h.ends
Ends-committed P (raised e, s) h = h.ends

pub Ends-returned :
    {A : Type 0} {Q : A → Session → Type 0} {E : Exception → Session → Type 0}
    (x : Result A × Session) {a : A}
    → Ends x Q E
    → x.0 ≡ ok a
    → Q a x.1
Ends-returned {Q = Q} (ok b, s) {a} h e = let same : b ≡ a = cc in subst (λ z. Q z s) same h.ends
Ends-returned (raised x, s) h e = cc
