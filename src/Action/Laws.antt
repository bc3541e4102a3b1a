-- ===== src/Action/Laws.antt =====
-- What a transaction guarantees.
use terab.Base.{true, false, ◌≡◌, ◌⊎◌, inl, inr, refl, Bool-cases, ap, ◌∙◌}
use terab.ErrorCode.{Error}
use terab.Action.{World, Result, Action, ok, err, settle, run_in_tx, catch, ◌>>=◌}

module _ {D X A : Type 0} where
  settle_err :
      (start : D) (p : Result A × World D X) {e : Error}
      → (settle start p).0 ≡ err e
      → (settle start p).1.db ≡ start
  settle_err start (ok a, w) h = cc
  settle_err start (err e, w) h = refl

  -- A transaction that fails leaves the database as it was.
  pub run_in_tx_atomic :
      (m : Action (World D X) A) (w : World D X) {e : Error}
      → w.in_tx ≡ false
      → (run_in_tx m w).0 ≡ err e
      → (run_in_tx m w).1.db ≡ w.db
  run_in_tx_atomic m w {e} outside failed =
      rw outside (settle_err w.db (m (record w { in_tx = true })) (rw outside at failed))

pub Result-cases :
    {A : Type 0} (r : Result A) → ((e : Error) × (r ≡ err e)) ⊎ ((a : A) × (r ≡ ok a))
Result-cases (ok a) = inr (a, refl)
Result-cases (err e) = inl (e, refl)

-- What holds of the database at the start, and after the body from it, holds after the transaction.
pub run_in_tx_holds :
    {D X A : Type 0} (P : D → Type 0) (m : Action (World D X) A) (w : World D X)
    → P w.db
    → ((v : World D X) → v.db ≡ w.db → P (m v).1.db)
    → P (run_in_tx m w).1.db
run_in_tx_holds P m w start body = elim (Bool-cases w.in_tx) [
  | inl nested ↦ rw nested (body (record w { in_tx = true }) refl)
  | inr outer ↦ rw outer (elim (Result-cases (m (record w { in_tx = true })).0) [
    | inl (e, failed) ↦ rw failed start
    | inr (a, done) ↦ rw done (body (record w { in_tx = true }) refl)
  ])
]

-- A transaction answers what its body answers.
pub run_in_tx_answer :
    {D X A : Type 0} (m : Action (World D X) A) (w : World D X)
    → (run_in_tx m w).0 ≡ (m (record w { in_tx = true })).0
run_in_tx_answer m w = elim (Bool-cases w.in_tx) [
  | inl nested ↦ rw nested refl
  | inr outer ↦ rw outer (settle_answer w.db (m (record w { in_tx = true })))
]
  where
    settle_answer :
        {D X A : Type 0} (start : D) (p : Result A × World D X) → (settle start p).0 ≡ p.0
    settle_answer start (ok a, w) = refl
    settle_answer start (err e, w) = refl

-- A transaction that succeeds keeps what its body wrote.
pub run_in_tx_committed :
    {D X A : Type 0} (m : Action (World D X) A) (w : World D X) {a : A}
    → (m (record w { in_tx = true })).0 ≡ ok a
    → (run_in_tx m w).1.db ≡ (m (record w { in_tx = true })).1.db
run_in_tx_committed m w {a} done = elim (Bool-cases w.in_tx) [
  | inl nested ↦ rw nested refl
  | inr outer ↦ rw outer (settle_ok w.db (m (record w { in_tx = true })) done)
]
  where
    settle_ok :
        {D X A : Type 0} (start : D) (p : Result A × World D X) {a : A}
        → p.0 ≡ ok a
        → (settle start p).1.db ≡ p.1.db
    settle_ok start (ok a, w) h = refl
    settle_ok start (err e, w) h = cc

-- A transaction puts nothing back outside the database.
pub run_in_tx_ext :
    {D X A : Type 0} (m : Action (World D X) A) (w : World D X)
    → (run_in_tx m w).1.ext ≡ (m (record w { in_tx = true })).1.ext
run_in_tx_ext m w = elim (Bool-cases w.in_tx) [
  | inl nested ↦ rw nested refl
  | inr outer ↦ rw outer (settle_ext w.db (m (record w { in_tx = true })))
]
  where
    settle_ext :
        {D X A : Type 0} (start : D) (p : Result A × World D X) → (settle start p).1.ext ≡ p.1.ext
    settle_ext start (ok a, w) = refl
    settle_ext start (err e, w) = refl

-- After a transaction that is not nested, none is open.
pub run_in_tx_closed :
    {D X A : Type 0} (m : Action (World D X) A) (w : World D X)
    → w.in_tx ≡ false
    → (run_in_tx m w).1.in_tx ≡ false
run_in_tx_closed m w outside = rw outside (settle_closed w.db (m (record w { in_tx = true })))
  where
    settle_closed :
        {D X A : Type 0} (start : D) (p : Result A × World D X) → (settle start p).1.in_tx ≡ false
    settle_closed start (ok a, w) = refl
    settle_closed start (err e, w) = refl

-- What succeeds did each of its steps.
pub bind-ok :
    {W A B : Type 0} (m : Action W A) (f : A → Action W B) (w : W) {b : B}
    → ((m >>= f) w).0 ≡ ok b
    → (a : A) × ((m w).0 ≡ ok a) × ((f a (m w).1).0 ≡ ok b) × ((m >>= f) w ≡ f a (m w).1)
bind-ok m f w {b} done = elim (Result-cases (m w).0) [
  | inl (e, failed) ↦ let h : err e ≡ ok b = rw failed at done in cc
  | inr (a, passed) ↦ (a, passed, rw passed at done, rw passed refl)
]

-- What fails in its first step fails.
pub bind-err :
    {W A B : Type 0} (m : Action W A) (f : A → Action W B) (w : W) {e : Error}
    → (m w).0 ≡ err e
    → ((m >>= f) w).0 ≡ err e
bind-err m f w failed = rw failed refl

-- Where a `catch` fails, its handler was called.
pub catch-err :
    {W A : Type 0} (m : Action W A) (handler : Error → Action W A) (w : W) {e : Error}
    → (catch m handler w).0 ≡ err e
    → (e' : Error) × ((m w).0 ≡ err e') × (catch m handler w ≡ handler e' (m w).1)
catch-err m handler w {e} failed = elim (Result-cases (m w).0) [
  | inl (e', broken) ↦ (e', broken, rw broken refl)
  | inr (a, done) ↦ let h : ok a ≡ err e = rw done at failed in cc
]

-- What fails did so in its first step, which ends it, or in the rest.
pub bind-split :
    {W A B : Type 0} (m : Action W A) (f : A → Action W B) (w : W) {e : Error}
    → ((m >>= f) w).0 ≡ err e
    → (((m w).0 ≡ err e) × (((m >>= f) w).1 ≡ (m w).1))
      ⊎ ((a : A) × ((m w).0 ≡ ok a) × ((f a (m w).1).0 ≡ err e) × ((m >>= f) w ≡ f a (m w).1))
bind-split m f w {e} failed = elim (Result-cases (m w).0) [
  | inl (e', broken) ↦ inl (first_error broken (rw broken at failed), rw broken refl)
  | inr (a, done) ↦ inr (a, done, rw done at failed, rw done refl)
]
  where
    first_error :
        {A B : Type 0} {r : Result A} {e e' : Error}
        → r ≡ err e'
        → ◌≡◌ {A = Result B} (err e') (err e)
        → r ≡ err e
    first_error {e = e} {e' = e'} broken same = let eq : e' ≡ e = cc in broken ∙ ap err eq
