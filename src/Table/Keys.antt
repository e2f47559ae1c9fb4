-- ===== src/Table/Keys.antt =====
-- Tables with an INTEGER PRIMARY KEY AUTOINCREMENT: ids are unique, and all below the next one.
use tonkey.Prelude.{
  refl, ℕ, suc, ◌<◌, ◌≡◌, ◌≢◌, ==_refl, All-both, sym, ap, ◌∙◌, subst, inl, inr, Bool, true, false,
  some, some_inj, List, [], ◌∷◌, ◌++◌, arith, ◌==◌, ==→eq, All, All-append, All-map, Bool-cases,
}
use tonkey.Table.{
  select_first, update_where, delete_where, All-select_first, All-update_where, All-delete_where,
  select_first-update_where,
}

module _ {A : Type 0} (key : A → ℕ) where
  abbrev pub has_key : ℕ → A → Bool
  has_key i r = key r == i

  abbrev pub UniqueKeys : List A → Type 0
  UniqueKeys [] = Unit
  UniqueKeys (r ∷ rows) = All (λ (q : A). key q ≢ key r) rows × UniqueKeys rows

  abbrev pub Below : ℕ → List A → Type 0
  Below n rows = All (λ (r : A). key r < n) rows

  pub key-select_first :
      (i : ℕ) (rows : List A) (r : A) → select_first (has_key i) rows ≡ some r → key r ≡ i
  key-select_first i [] r e = cc
  key-select_first i (x ∷ rows) r e = elim (Bool-cases (key x == i)) [
    | inl h ↦ let r_is : x ≡ r = some_inj (rw h at e) in sym (ap key r_is) ∙ ==→eq _ _ h
    | inr h ↦ key-select_first i rows r (rw h at e)
  ]

  All-update_absent :
      (P : A → Type 0) (i : ℕ) (f : A → A) (rows : List A)
      → All (λ (r : A). key r ≢ i) rows
      → All P rows
      → All P (update_where (has_key i) f rows)
  All-update_absent P i f [] ne h = tt
  All-update_absent P i f (x ∷ rows) ne h =
      let miss : (key x == i) ≡ false = ground (arith, ne.0) in
      rw miss (h.0, All-update_absent P i f rows ne.1 h.1)

  -- An UPDATE by id changes the one row that the lookup finds.
  pub All-update_found :
      (P : A → Type 0) (i : ℕ) (f : A → A) (rows : List A) (r : A)
      → UniqueKeys rows
      → select_first (has_key i) rows ≡ some r
      → All P rows
      → P (f r)
      → All P (update_where (has_key i) f rows)
  All-update_found P i f [] r u e h k = tt
  All-update_found P i f (x ∷ rows) r u e h k = elim (Bool-cases (key x == i)) [
    | inl hit ↦
        let r_is : x ≡ r = some_inj (rw hit at e) in
        let ids : key x ≡ i = ==→eq _ _ hit in
        rw hit (
          subst (λ (z : A). P (f z)) (sym r_is) k,
          All-update_absent P i f rows (subst (λ (n : ℕ). All (λ (q : A). key q ≢ n) rows) ids u.0)
              h.1,
        )
    | inr miss ↦ rw miss (h.0, All-update_found P i f rows r u.1 (rw miss at e) h.1 k)
  ]

  keys-update :
      (p : A → Bool) (f : A → A) (k : ℕ) (rows : List A)
      → ((r : A) → key (f r) ≡ key r)
      → All (λ (q : A). key q ≢ k) rows
      → All (λ (q : A). key q ≢ k) (update_where p f rows)
  keys-update p f k [] same h = tt
  keys-update p f k (x ∷ rows) same h = elim (Bool-cases (p x)) [
    | inl e ↦ rw e (rw (same x) h.0, keys-update p f k rows same h.1)
    | inr e ↦ rw e (h.0, keys-update p f k rows same h.1)
  ]

  pub UniqueKeys-update :
      (p : A → Bool) (f : A → A) (rows : List A)
      → ((r : A) → key (f r) ≡ key r)
      → UniqueKeys rows
      → UniqueKeys (update_where p f rows)
  UniqueKeys-update p f [] same u = tt
  UniqueKeys-update p f (x ∷ rows) same u = elim (Bool-cases (p x)) [
    | inl e ↦
        rw (e, same x) (keys-update p f (key x) rows same u.0, UniqueKeys-update p f rows same u.1)
    | inr e ↦ rw e (keys-update p f (key x) rows same u.0, UniqueKeys-update p f rows same u.1)
  ]

  pub Below-update :
      (p : A → Bool) (f : A → A) (n : ℕ) (rows : List A)
      → ((r : A) → key (f r) ≡ key r)
      → Below n rows
      → Below n (update_where p f rows)
  Below-update p f n [] same h = tt
  Below-update p f n (x ∷ rows) same h = elim (Bool-cases (p x)) [
    | inl e ↦ rw (e, same x) (h.0, Below-update p f n rows same h.1)
    | inr e ↦ rw e (h.0, Below-update p f n rows same h.1)
  ]

  pub UniqueKeys-append :
      (n : ℕ) (rows : List A) (r : A)
      → UniqueKeys rows
      → Below n rows
      → key r ≡ n
      → UniqueKeys (rows ++ r ∷ [])
  UniqueKeys-append n [] r u b e = (tt, tt)
  UniqueKeys-append n (x ∷ rows) r u b e = (
    All-append (λ (q : A). key q ≢ key x) rows (r ∷ []) u.0 (omega arith, tt),
    UniqueKeys-append n rows r u.1 b.1 e,
  )

  pub Below-append :
      (n : ℕ) (rows : List A) (r : A) → Below n rows → key r ≡ n → Below (suc n) (rows ++ r ∷ [])
  Below-append n rows r b e =
      All-append (λ (q : A). key q < suc n) rows (r ∷ [])
        (All-map (λ (q : A). key q < n) (λ (q : A). key q < suc n) rows (λ q h. omega arith) b)
        (omega arith, tt)

  -- The row that an UPDATE by id has changed.
  pub found-update :
      (i : ℕ) (f : A → A) (rows : List A) (r : A)
      → ((q : A) → key (f q) ≡ key q)
      → select_first (has_key i) rows ≡ some r
      → select_first (has_key i) (update_where (has_key i) f rows) ≡ some (f r)
  found-update i f [] r same e = cc
  found-update i f (x ∷ rows) r same e = elim (Bool-cases (key x == i)) [
    | inl hit ↦
        let r_is : x ≡ r = some_inj (rw hit at e) in
        rw (hit, same x, hit) (ap (λ (q : A). some (f q)) r_is)
    | inr miss ↦ rw (miss, miss) (found-update i f rows r same (rw miss at e))
  ]

  -- All rows of the table obey `P`, and its ids are as AUTOINCREMENT gives them.
  pub record IsTable (P : A → Type 0) (next : ℕ) (rows : List A) : Type 0 where
    pub unique : UniqueKeys rows
    pub below : Below next rows
    pub all : All P rows

  module _ {P : A → Type 0} {next : ℕ} {rows : List A} (h : IsTable P next rows) where
    pub IsTable-append : (r : A) → key r ≡ next → P r → IsTable P (suc next) (rows ++ r ∷ [])
    IsTable-append r e p = record {
      unique = UniqueKeys-append next rows r h.unique h.below e;
      below = Below-append next rows r h.below e;
      all = All-append P rows (r ∷ []) h.all (p, tt);
    }

    pub IsTable-update :
        (p : A → Bool) (f : A → A)
        → ((r : A) → key (f r) ≡ key r)
        → ((r : A) → P r → p r ≡ true → P (f r))
        → IsTable P next (update_where p f rows)
    IsTable-update p f same keep = record {
      unique = UniqueKeys-update p f rows same h.unique;
      below = Below-update p f next rows same h.below;
      all = All-update_where P p f rows h.all keep;
    }

    pub IsTable-update_found :
        (i : ℕ) (f : A → A) (r : A)
        → ((q : A) → key (f q) ≡ key q)
        → select_first (has_key i) rows ≡ some r
        → P (f r)
        → IsTable P next (update_where (has_key i) f rows)
    IsTable-update_found i f r same found p = record {
      unique = UniqueKeys-update (has_key i) f rows same h.unique;
      below = Below-update (has_key i) f next rows same h.below;
      all = All-update_found P i f rows r h.unique found h.all p;
    }

    pub IsTable-found : (p : A → Bool) (r : A) → select_first p rows ≡ some r → P r
    IsTable-found p r found = (All-select_first P p rows r h.all found).0

    pub IsTable-map : (R : A → Type 0) → ((r : A) → P r → R r) → IsTable R next rows
    IsTable-map R f = record { unique = h.unique; below = h.below; all = All-map P R rows f h.all }

  -- A row that an UPDATE of another id spares.
  pub found-update_other :
      (i k : ℕ) (f : A → A) (rows : List A) (r : A)
      → ((q : A) → key (f q) ≡ key q)
      → k ≢ i
      → select_first (has_key i) rows ≡ some r
      → select_first (has_key i) (update_where (has_key k) f rows) ≡ some r
  found-update_other i k f rows r same other found =
      let r_is = key-select_first i rows r found in
      let miss : (key r == k) ≡ false = ground (arith, r_is, other) in
      let moved =
        select_first-update_where (has_key i) (has_key k) f rows
          (λ q. ap (λ (n : ℕ). n == i) (same q)) in
      rw (moved, found, miss)

  pub select_first-update_other :
      (i k : ℕ) (f : A → A) (rows : List A)
      → ((q : A) → key (f q) ≡ key q)
      → i ≢ k
      → select_first (has_key i) (update_where (has_key k) f rows) ≡ select_first (has_key i) rows
  select_first-update_other i k f [] same other = refl
  select_first-update_other i k f (x ∷ rows) same other = elim (Bool-cases (key x == k)) [
    | inl hit ↦
        let miss : (key x == i) ≡ false = ground (arith, hit, other) in
        rw (hit, same x, miss) (select_first-update_other i k f rows same other)
    | inr spared ↦ elim (Bool-cases (key x == i)) [
      | inl found ↦ rw (spared, found) refl
      | inr miss ↦ rw (spared, miss) (select_first-update_other i k f rows same other)
    ]
  ]

  -- An UPDATE by id makes `P` hold of the rows with it.
  pub All-update_key :
      (P : A → Type 0) (i : ℕ) (f : A → A) (rows : List A)
      → ((q : A) → P (f q))
      → All (λ (q : A). key q ≡ i → P q) (update_where (has_key i) f rows)
  All-update_key P i f [] h = tt
  All-update_key P i f (x ∷ rows) h = elim (Bool-cases (key x == i)) [
    | inl hit ↦ rw hit ((λ _. h x), All-update_key P i f rows h)
    | inr miss ↦ rw miss ((λ same. absurd (apart (key x) i same miss)), All-update_key P i f rows h)
  ]
    where
      apart : (a b : ℕ) → a ≡ b → (a == b) ≡ false → ⊥
      apart a b e k = ground arith

  UniqueKeys-delete :
      (p : A → Bool) (rows : List A) → UniqueKeys rows → UniqueKeys (delete_where p rows)
  UniqueKeys-delete p [] u = tt
  UniqueKeys-delete p (x ∷ rows) u = elim (Bool-cases (p x)) [
    | inl e ↦ rw e (UniqueKeys-delete p rows u.1)
    | inr e ↦
        rw e (All-delete_where (λ (q : A). key q ≢ key x) p rows u.0, UniqueKeys-delete p rows u.1)
  ]

  pub IsTable-delete :
      {P : A → Type 0} {next : ℕ} {rows : List A}
      → IsTable P next rows
      → (p : A → Bool) → IsTable P next (delete_where p rows)
  IsTable-delete {P} {next} {rows} h p = record {
    unique = UniqueKeys-delete p rows h.unique;
    below = All-delete_where (λ (r : A). key r < next) p rows h.below;
    all = All-delete_where P p rows h.all;
  }

  -- Every row is found by its id.
  pub All-found :
      (rows : List A)
      → UniqueKeys rows
      → All (λ (r : A). select_first (has_key (key r)) rows ≡ some r) rows
  All-found [] u = tt
  All-found (x ∷ rows) u = (
    rw (==_refl (key x)) refl,
    All-map (λ (r : A). (key r ≢ key x) × (select_first (has_key (key r)) rows ≡ some r))
        (λ (r : A). select_first (has_key (key r)) (x ∷ rows) ≡ some r) rows
        (λ r h. let miss : (key x == key r) ≡ false = ground (arith, h.0) in rw (miss) h.1)
        (All-both (λ (r : A). key r ≢ key x)
          (λ (r : A). select_first (has_key (key r)) rows ≡ some r) rows u.0 (All-found rows u.1)),
  )
