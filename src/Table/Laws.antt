-- ===== src/Table/Laws.antt =====
-- Laws of the statements: what each leaves alone, and what it finds.
use terab.Base.{
  ℕ, ◌≡◌, ◌≢◌, refl, ap, if◌then◌else◌, Bool, true, false, none, some, List, map, [], ◌∷◌, arith,
  inl, inr, Has, All, All-Has, Bool-cases, length,
}
use terab.Table.{select_where, find_where, update_where, exists_where, insert, first, UniqueIds}

module _ {A : Type 0} where
  pub Has-select_where :
      (p : A → Bool) (t : List A) (a : A) → Has a t → p a ≡ true → Has a (select_where p t)
  Has-select_where p [] a h e = h
  Has-select_where p (r ∷ t) a (inl same) e =
      let fits : p r ≡ true = rw (← same) e in rw fits (inl same)
  Has-select_where p (r ∷ t) a (inr h) e = elim (Bool-cases (p r)) [
    | inl yes_r ↦ rw yes_r (inr (Has-select_where p t a h e))
    | inr no_r ↦ rw no_r (Has-select_where p t a h e)
  ]

  pub select_where-All :
      (p : A → Bool) (t : List A) → All (λ a. Has a t × (p a ≡ true)) (select_where p t)
  select_where-All p t = All-mono t (λ a h. h)
    where
      All-mono :
          (u : List A)
          → ((a : A) → Has a u → Has a t)
          → All (λ a. Has a t × (p a ≡ true)) (select_where p u)
      All-mono [] f = tt
      All-mono (r ∷ u) f = elim (Bool-cases (p r)) [
        | inl fits ↦ rw fits ((f r (inl refl), fits), All-mono u (λ a h. f a (inr h)))
        | inr misses ↦ rw misses (All-mono u (λ a h. f a (inr h)))
      ]

  -- What was selected is there and fits.
  pub Has-of_select_where :
      (p : A → Bool) (t : List A) (a : A) → Has a (select_where p t) → Has a t × (p a ≡ true)
  Has-of_select_where p t a h =
      All-Has (λ b. Has b t × (p b ≡ true)) (select_where p t) (select_where-All p t) h

  pub find_where-Has :
      (p : A → Bool) (t : List A) (a : A) → find_where p t ≡ some a → Has a t × (p a ≡ true)
  find_where-Has p [] a e = cc
  find_where-Has p (r ∷ t) a e = elim (Bool-cases (p r)) [
    | inl fits ↦ let same : a ≡ r = ground arith in (inl same, rw same fits)
    | inr misses ↦ let (h, k) = find_where-Has p t a (ground arith) in (inr h, k)
  ]

  pub length-update_where :
      (p : A → Bool) (f : A → A) (t : List A) → length (update_where p f t) ≡ length t
  length-update_where p f [] = refl
  length-update_where p f (r ∷ t) = omega (arith, length-update_where p f t)

  -- A property that the change keeps holds of every row afterwards.
  pub update_where-All {κ} :
      (Q : A → Type κ) (p : A → Bool) (f : A → A) (t : List A)
      → ((a : A) → Q a → p a ≡ true → Q (f a))
      → All Q t
      → All Q (update_where p f t)
  update_where-All Q p f [] keep q = tt
  update_where-All Q p f (r ∷ t) keep q = elim (Bool-cases (p r)) [
    | inl fits ↦ rw fits (keep r q.0 fits, update_where-All Q p f t keep q.1)
    | inr misses ↦ rw misses (q.0, update_where-All Q p f t keep q.1)
  ]

  -- What holds of every row before, and of each changed and unchanged row, holds afterwards.
  pub update_where_split {κ μ} :
      (P : A → Type κ) (Q : A → Type μ) (p : A → Bool) (f : A → A) (t : List A)
      → ((a : A) → P a → p a ≡ true → Q (f a))
      → ((a : A) → P a → p a ≡ false → Q a)
      → All P t
      → All Q (update_where p f t)
  update_where_split P Q p f [] change stay q = tt
  update_where_split P Q p f (r ∷ t) change stay q = elim (Bool-cases (p r)) [
    | inl fits ↦ rw fits (change r q.0 fits, update_where_split P Q p f t change stay q.1)
    | inr misses ↦ rw misses (stay r q.0 misses, update_where_split P Q p f t change stay q.1)
  ]

  -- The row that a row becomes.
  abbrev pub updated : (A → Bool) → (A → A) → A → A
  updated p f a = if p a then f a else a

  pub Has-update_where :
      (p : A → Bool) (f : A → A) (t : List A) (a : A)
      → Has a t
      → Has (updated p f a) (update_where p f t)
  Has-update_where p f [] a h = absurd h
  Has-update_where p f (r ∷ t) a (inl e) = inl (ap (updated p f) e)
  Has-update_where p f (r ∷ t) a (inr h) = inr (Has-update_where p f t a h)

  pub Has-of_update_where :
      (p : A → Bool) (f : A → A) (t : List A) (b : A)
      → Has b (update_where p f t)
      → (a : A) × Has a t × (b ≡ updated p f a)
  Has-of_update_where p f [] b h = absurd h
  Has-of_update_where p f (r ∷ t) b (inl e) = (r, inl refl, e)
  Has-of_update_where p f (r ∷ t) b (inr h) =
      let (a, k, e) = Has-of_update_where p f t b h in (a, inr k, e)

  -- A second change that undoes the first on the same rows gives the table back.
  pub update_where_undo :
      (p q : A → Bool) (f g : A → A) (t : List A)
      → ((a : A) → Has a t → q (updated p f a) ≡ p a)
      → ((a : A) → Has a t → p a ≡ true → g (f a) ≡ a)
      → update_where q g (update_where p f t) ≡ t
  update_where_undo p q f g [] same undo = refl
  update_where_undo p q f g (r ∷ t) same undo =
      let rest =
        update_where_undo p q f g t (λ a h. same a (inr h)) (λ a h fits. undo a (inr h) fits) in
      elim (Bool-cases (p r)) [
        | inl fits ↦
            let chosen : q (f r) ≡ true = rw fits at (same r (inl refl)) in
            rw (fits, chosen, undo r (inl refl) fits, rest)
        | inr misses ↦
            let left : q r ≡ false = rw misses at (same r (inl refl)) in rw (misses, left, rest)
      ]

  -- A search finds the changed row where a change does not touch what is searched for.
  pub find-update_where :
      (p q : A → Bool) (f : A → A) (t : List A) (a : A)
      → ((r : A) → p (f r) ≡ p r)
      → find_where p t ≡ some a
      → find_where p (update_where q f t) ≡ some (if q a then f a else a)
  find-update_where p q f [] a same found = cc
  find-update_where p q f (r ∷ t) a same found = elim (Bool-cases (p r)) [
    | inl fits ↦
        let e : a ≡ r = ground arith in
        elim (Bool-cases (q r)) [
          | inl chosen ↦ rw (chosen, same r, fits, e, chosen) refl
          | inr left ↦ rw (left, fits, e, left) refl
        ]
    | inr misses ↦
        let rest = find-update_where p q f t a same (rw misses at found) in
        elim (Bool-cases (q r)) [
          | inl chosen ↦ rw (chosen, same r, misses) rest
          | inr left ↦ rw (left, misses) rest
        ]
  ]

  -- A search finds something where a row fits.
  pub find_where_of_Has :
      (p : A → Bool) (t : List A) (a : A)
      → Has a t
      → p a ≡ true
      → (b : A) × (find_where p t ≡ some b)
  find_where_of_Has p [] a h e = absurd h
  find_where_of_Has p (r ∷ t) a (inl same) e = let e' : p r ≡ true = rw (← same) e in (r, rw e')
  find_where_of_Has p (r ∷ t) a (inr h) e = elim (Bool-cases (p r)) [
    | inl fits ↦ (r, rw fits)
    | inr misses ↦ let (b, k) = find_where_of_Has p t a h e in (b, rw (misses, k))
  ]

  -- `exists_where` finds a row that fits exactly when there is one.
  pub exists_where_of_Has :
      (p : A → Bool) (t : List A) (a : A) → Has a t → p a ≡ true → exists_where p t ≡ true
  exists_where_of_Has p [] a h e = absurd h
  exists_where_of_Has p (r ∷ t) a (inl same) e = let e' : p r ≡ true = rw (← same) e in rw e'
  exists_where_of_Has p (r ∷ t) a (inr h) e = ground (arith, exists_where_of_Has p t a h e)

  pub Has-of_exists_where :
      (p : A → Bool) (t : List A) → exists_where p t ≡ true → (a : A) × Has a t × (p a ≡ true)
  Has-of_exists_where p [] e = cc
  Has-of_exists_where p (r ∷ t) e = elim (Bool-cases (p r)) [
    | inl fits ↦ (r, inl refl, fits)
    | inr misses ↦ let (a, h, k) = Has-of_exists_where p t (ground arith) in (a, inr h, k)
  ]

  -- A change of rows that a query never sees does not change the query.
  pub select-update_where :
      (q p : A → Bool) (f : A → A) (t : List A)
      → ((a : A) → Has a t → p a ≡ true → (q a ≡ false) × (q (f a) ≡ false))
      → select_where q (update_where p f t) ≡ select_where q t
  select-update_where q p f [] off = refl
  select-update_where q p f (r ∷ t) off =
      let rest = select-update_where q p f t (λ a h. off a (inr h)) in
      elim (Bool-cases (p r)) [
        | inl fits ↦ let (old, new) = off r (inl refl) fits in rw (fits, old, new) rest
        | inr misses ↦ rw (misses, rest)
      ]

  -- Nor does a new row that the query does not see.
  pub select-insert :
      (q : A → Bool) (r : A) (t : List A)
      → q r ≡ false
      → select_where q (insert r t) ≡ select_where q t
  select-insert q r [] e = rw e
  select-insert q r (s ∷ t) e = rw (select-insert q r t e)

  -- An UPDATE … RETURNING that gives nothing back has changed nothing.
  pub none_changed :
      (p : A → Bool) (f : A → A) (t : List A)
      → first (map f (select_where p t)) ≡ none
      → update_where p f t ≡ t
  none_changed p f [] e = refl
  none_changed p f (r ∷ t) e = elim (Bool-cases (p r)) [
    | inl fits ↦ absurd (nothing (select_where p t) (rw fits at e))
    | inr misses ↦ rw (misses, none_changed p f t (rw misses at e))
  ]
    where
      nothing : (v : List A) → first (map f (r ∷ v)) ≡ none → ⊥
      nothing v k = cc

  -- What an UPDATE … RETURNING gives back is a changed row.
  pub first_changed :
      (p : A → Bool) (f : A → A) (t : List A) (row : A)
      → first (map f (select_where p t)) ≡ some row
      → (a : A) × Has a t × (p a ≡ true) × (row ≡ f a)
  first_changed p f [] row e = cc
  first_changed p f (r ∷ t) row e = elim (Bool-cases (p r)) [
    | inl fits ↦ (r, inl refl, fits, ground arith)
    | inr misses ↦
        let (a, h, k, same) = first_changed p f t row (ground arith) in (a, inr h, k, same)
  ]

module _ {A : Type 0} (id : A → ℕ) where
  pub update_where-UniqueIds :
      (p : A → Bool) (f : A → A) (t : List A)
      → ((a : A) → id (f a) ≡ id a)
      → UniqueIds id t
      → UniqueIds id (update_where p f t)
  update_where-UniqueIds p f [] same u = tt
  update_where-UniqueIds p f (r ∷ t) same u = elim (Bool-cases (p r)) [
    | inl fits ↦ rw (fits, same r) (other, update_where-UniqueIds p f t same u.1)
    | inr misses ↦ rw misses (other, update_where-UniqueIds p f t same u.1)
  ]
    where
      other : All (λ s. id s ≢ id r) (update_where p f t)
      other = update_where-All (λ s. id s ≢ id r) p f t (λ a ne fits e. ne (rw (← same a) e)) u.0

  -- Two rows with one id are one row.
  pub same_row : (t : List A) (a b : A) → UniqueIds id t → Has a t → Has b t → id a ≡ id b → a ≡ b
  same_row [] a b u h k e = absurd h
  same_row (r ∷ t) a b u (inl p) (inl q) e = cc
  same_row (r ∷ t) a b u (inl p) (inr k) e = absurd (apart t u.0 k (ground arith))
    where
      apart : (v : List A) → All (λ s. id s ≢ id r) v → Has b v → id b ≢ id r
      apart [] all h = absurd h
      apart (s ∷ v) all (inl q) = rw q all.0
      apart (s ∷ v) all (inr h) = apart v all.1 h
  same_row (r ∷ t) a b u (inr h) (inl q) e = absurd (apart t u.0 h (ground arith))
    where
      apart : (v : List A) → All (λ s. id s ≢ id r) v → Has a v → id a ≢ id r
      apart [] all h = absurd h
      apart (s ∷ v) all (inl p) = rw p all.0
      apart (s ∷ v) all (inr h) = apart v all.1 h
  same_row (r ∷ t) a b u (inr h) (inr k) e = same_row t a b u.1 h k e
