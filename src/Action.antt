-- ===== src/Action.antt =====
-- services/api/src/database/core/service.core.ts and transaction-context.ts: a service method as an
-- action on a world that holds the database and whatever stands outside it.
-- A rejected promise keeps what was written before it, so the world comes back beside the error;
-- only `run_in_tx` puts the database back, and it leaves the outside as it is.
pub mod Laws
use terab.Base.{Bool, true, false, Option, none, some, if◌then◌else◌}
use terab.ErrorCode.{ErrorCode, Error, api}

pub data Result (A : Type 0) : Type 0 where
  ok : A → Result A
  err : Error → Result A

-- `in_tx` is whether the call runs inside a transaction (`TransactionContext.current`).
pub record World (D X : Type 0) : Type 0 where
  pub db : D
  pub ext : X
  pub in_tx : Bool

abbrev pub Action : Type 0 → Type 0 → Type 0
Action W A = W → Result A × W

module _ {W A : Type 0} where
  abbrev pub pure : A → Action W A
  pure a w = (ok a, w)

  abbrev pub throw : Error → Action W A
  throw e w = (err e, w)

  -- `if (!value) throw new ApiException(code)`
  abbrev pub or_throw : Option A → ErrorCode → Action W A
  or_throw none code = throw (api code)
  or_throw (some a) code = pure a

  -- `promise.catch(handler)`
  abbrev pub handle : (Error → Action W A) → Result A × W → Result A × W
  handle handler (ok a, w) = (ok a, w)
  handle handler (err e, w) = handler e w

  abbrev pub catch : Action W A → (Error → Action W A) → Action W A
  catch m handler w = handle handler (m w)

abbrev pub throw_if : {W : Type 0} → Bool → ErrorCode → Action W (Unit {0})
throw_if test code w = (if test then err (api code) else ok tt, w)

module _ {W A B : Type 0} where
  abbrev pub continue : (A → Action W B) → Result A × W → Result B × W
  continue f (ok a, w) = f a w
  continue f (err e, w) = (err e, w)

  infixl 5 ◌>>=◌ ◌>>◌
  abbrev pub ◌>>=◌ : Action W A → (A → Action W B) → Action W B
  ◌>>=◌ m f w = continue f (m w)

  abbrev pub ◌>>◌ : Action W A → Action W B → Action W B
  m >> k = m >>= λ _. k

module _ {D X A : Type 0} where
  -- A read of the database.
  abbrev pub query : (D → A) → Action (World D X) A
  query f w = (ok (f w.db), w)

  -- A statement that changes the database and returns something.
  abbrev pub statement : (D → A × D) → Action (World D X) A
  statement f w = (ok (f w.db).0, record w { db = (f w.db).1 })

  -- A call of something outside the database.
  abbrev pub external : (X → Result A × X) → Action (World D X) A
  external f w = ((f w.ext).0, record w { ext = (f w.ext).1 })

  -- The end of a transaction: commit, or put the database back.
  abbrev pub settle : D → Result A × World D X → Result A × World D X
  settle start (ok a, w) = (ok a, record w { in_tx = false })
  settle start (err e, w) = (err e, record w { db = start; in_tx = false })

  -- `ServiceCore.runInTx`: a nested call joins the transaction that is there.
  abbrev pub run_in_tx : Action (World D X) A → Action (World D X) A
  run_in_tx m w = if w.in_tx then m w else settle w.db (m (record w { in_tx = true }))
