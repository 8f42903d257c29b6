-- ===== src/Session.antt =====
-- A request's database session (app/common/database.py): `committed` is what the last commit made
-- durable, `current` is the transaction with the pending changes of the loaded objects. The
-- session has `autoflush=False`, and no modelled query reads a row between a change of it and the
-- flush, so the two need not be told apart. `get_session` closes the session at the end of the
-- request, which drops `current`.
pub mod Ends
use zaraamad_portal_be.Base.{ℕ, Bool, Option, none, some, if◌then◌else◌}
use zaraamad_portal_be.Text.{Text}
use zaraamad_portal_be.Http.{
  Detail, Exception, http_exception, integrity_error, type_error, Result, ok, raised,
}
use zaraamad_portal_be.Database.{Database}

pub record Session : Type 0 where
  pub committed : Database
  pub current : Database

-- A request begins a session on the committed rows.
abbrev pub begin : Database → Session
begin d = record { committed = d; current = d }

abbrev pub Action : Type 0 → Type 0
Action A = Session → Result A × Session

module _ {A : Type 0} where
  abbrev pub pure : A → Action A
  pure a s = (ok a, s)

  abbrev pub raise : Exception → Action A
  raise e s = (raised e, s)

  -- `raise HTTPException(status_code=…, detail=…)`
  abbrev pub fail : ℕ → Detail → Action A
  fail code detail s = (raised (http_exception code detail), s)

  -- A read of the current rows.
  abbrev pub reads : (Database → A) → Action A
  reads f s = (ok (f s.current), s)

infixl 5 ◌>>=◌ ◌>>◌
unfoldable pub ◌>>=◌ : {A B : Type 0} → Action A → (A → Action B) → Action B
◌>>=◌ m f s = let (r, s') = m s in elim r [ ok a ↦ f a s' | raised e ↦ (raised e, s') ]

abbrev pub ◌>>◌ : {A B : Type 0} → Action A → Action B → Action B
m >> k = m >>= λ _. k

-- `if test: raise HTTPException(…)`
abbrev pub fail_if : Bool → ℕ → Detail → Action (Unit {0})
fail_if test code detail s = (if test then raised (http_exception code detail) else ok tt, s)

-- The value, or an exception where it is `None`.
abbrev pub or_fail : {A : Type 0} → Option A → ℕ → Detail → Action A
or_fail none code detail = fail code detail
or_fail (some a) code detail = pure a

-- `none` is an exception of the Python library that no handler catches.
abbrev pub or_raise : {A : Type 0} → Option A → Action A
or_raise none = raise type_error
or_raise (some a) = pure a

-- Assignments, `session.add` and `session.delete`: changes of the current rows.
abbrev pub modify : (Database → Database) → Action (Unit {0})
modify f s = (ok tt, record s { current = f s.current })

-- `session.rollback()`
abbrev pub rollback : Action (Unit {0})
rollback s = (ok tt, record s { current = s.committed })

-- `session.commit()`. `violation` is the database's own check of the constraints: the text of the
-- error with which it refuses the rows, or `none`.
module _ (violation : Database → Option Text) where
  unfoldable pub commit : Action (Unit {0})
  commit s = elim (violation s.current) [
    | none ↦ (ok tt, record s { committed = s.current })
    | some text ↦ (raised (integrity_error text), s)
  ]

  -- `session.flush()`: the database checks the pending rows, and keeps them in the transaction.
  unfoldable pub flush : Action (Unit {0})
  flush s = elim (violation s.current) [
    | none ↦ (ok tt, s)
    | some text ↦ (raised (integrity_error text), s)
  ]

  -- `try: commit` with `except IntegrityError: rollback; raise …`
  unfoldable pub commit_or_rollback : (Text → Exception) → Action (Unit {0})
  commit_or_rollback refusal s = elim (violation s.current) [
    | none ↦ (ok tt, record s { committed = s.current })
    | some text ↦ (rollback >> raise (refusal text)) s
  ]
