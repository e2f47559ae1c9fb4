-- ===== src/Apikeys/Revoking.antt =====
-- A revoked key of internal/apikeys under any later calls.
use tonkey.Prelude.{
  ℕ, ◌<◌, ◌≡◌, ◌≢◌, refl, sym, ◌∙◌, subst, Bool, true, false, Option, List, [], ◌∷◌, arith, ◌==◌,
  All, All-map, Bool-cases, inl, inr, Result, ok,
}
use tonkey.Prelude.Int.{ℤ}
use tonkey.Prelude.Ensures.{
  Ensures, Ensures-ok, Ensures-always, weaken, Ensures-pure, Ensures-raise_if, bind_gets,
  bind_or_raise, bind_raise_if, bind_exec, bind_exec_ignoring,
}
use tonkey.Table.{count_where, update_where}
use tonkey.Table.Keys.{
  has_key, UniqueKeys, Below, IsTable, IsTable-append, IsTable-update, IsTable-delete,
  IsTable-found, UniqueKeys-update, Below-update,
}
use tonkey.Apikeys.Text.{Text}
use tonkey.Apikeys.Manager.{
  Error, Row, Key, Db, key_id, is_owned, is_worn, used, inactive, change, remove, add_row, create,
  validate, revoke, delete, cleanup,
}

-- No row with this id is active, and none will be inserted with it.
record IsDead (id : ℕ) (s : Db) : Type 0 where
  table : IsTable key_id (λ (r : Row). r.id ≡ id → r.is_active ≡ false) s.next_key s.keys
  given : id < s.next_key

abbrev Buries : ℕ → {A : Type 0} → Result Error A × Db → Type 0
Buries id x = Ensures (λ _ t. IsDead id t) (IsDead id) x

-- The row that a statement by id and user has found is the one row with that id.
counted-owned :
    (id user : ℕ) (rows : List Row)
    → UniqueKeys key_id rows
    → (count_where (is_owned id user) rows == 0) ≡ false
    → All (λ (r : Row). r.id ≡ id → is_owned id user r ≡ true) rows
counted-owned id user [] u h = tt
counted-owned id user (x ∷ rows) u h = elim (Bool-cases (is_owned id user x)) [
  | inl hit ↦ (
    λ _. hit,
    All-map (λ (r : Row). r.id ≢ x.id) (λ (r : Row). r.id ≡ id → is_owned id user r ≡ true) rows
        (λ r other same. absurd (ground (arith, other, same, hit))) u.0,
  )
  | inr miss ↦
      let rest = counted-owned id user rows u.1 (rw miss at h) in
      (
        λ same. absurd (
            none_counted rows (subst (λ (n : ℕ). All (λ (r : Row). r.id ≢ n) rows) same u.0)
              (rw miss at h)),
        rest,
      )
]
  where
    none_counted :
        (rows : List Row)
        → All (λ (r : Row). r.id ≢ id) rows
        → (count_where (is_owned id user) rows == 0) ≡ false
        → ⊥
    none_counted [] ne h = cc
    none_counted (x ∷ rows) ne h =
        let miss : is_owned id user x ≡ false = ground (arith, ne.0) in
        none_counted rows ne.1 (rw miss at h)

counted-Below :
    (id user n : ℕ) (rows : List Row)
    → Below key_id n rows
    → (count_where (is_owned id user) rows == 0) ≡ false
    → id < n
counted-Below id user n [] b h = cc
counted-Below id user n (x ∷ rows) b h = elim (Bool-cases (is_owned id user x)) [
  | inl hit ↦ ground (arith, b.0, hit)
  | inr miss ↦ counted-Below id user n rows b.1 (rw miss at h)
]

abbrev pub IsNumbered : Db → Type 0
IsNumbered s = IsTable key_id (λ (r : Row). Unit) s.next_key s.keys

revoke-Buries :
    (fails : Bool) (id user : ℕ) (s : Db)
    → IsNumbered s
    → Ensures (λ _ t. IsDead id t) (λ _. Unit) (revoke fails id user s)
unfolding revoke
revoke-Buries fails id user s h = bind_gets _ _ _ (
    bind_exec _ _ _ _ _ tt λ _. Ensures-raise_if _ _ _ tt λ counted. record {
      table = record {
        unique = UniqueKeys-update key_id (is_owned id user) inactive s.keys (λ q. refl) h.unique;
        below =
            Below-update key_id (is_owned id user) inactive s.next_key s.keys (λ q. refl) h.below;
        all = silenced s.keys (counted-owned id user s.keys h.unique counted);
      };
      given = counted-Below id user s.next_key s.keys h.below counted;
    })
  where
    silenced :
        (rows : List Row)
        → All (λ (r : Row). r.id ≡ id → is_owned id user r ≡ true) rows
        → All
            (λ (r : Row). r.id ≡ id → r.is_active ≡ false)
            (update_where (is_owned id user) inactive rows)
    silenced [] k = tt
    silenced (x ∷ rows) k = elim (Bool-cases (is_owned id user x)) [
      | inl hit ↦ rw hit (λ _. refl, silenced rows k.1)
      | inr miss ↦ rw miss (λ same. cc (miss, k.0 same), silenced rows k.1)
    ]

module _ (hash_key : Text → Text) where
  pub data Call : Type 0 where
    creating : (ℕ → Bool) → ℕ → Option ℕ → Text → List Text → Option ℤ → Option ℤ → Text → ℤ → Call
    validating : (ℕ → Bool) → Text → ℤ → ℤ → Call
    revoking : Bool → ℕ → ℕ → Call
    deleting : Bool → ℕ → ℕ → Call
    cleaning : Bool → ℤ → ℤ → Call

  -- The table after a call, whether it returned or not.
  unfoldable pub perform : Call → Db → Db
  perform (creating fails user org name scopes rate expires plain now) s =
      (create hash_key fails user org name scopes rate expires plain now s).1
  perform (validating fails api_key now later) s = (validate hash_key fails api_key now later s).1
  perform (revoking fails id user) s = (revoke fails id user s).1
  perform (deleting fails id user) s = (delete fails id user s).1
  perform (cleaning fails now cutoff) s = (cleanup fails now cutoff s).1

  unfoldable pub run : List Call → Db → Db
  run [] s = s
  run (c ∷ calls) s = run calls (perform c s)

  module _ (id : ℕ) (s : Db) (h : IsDead id s) where
    IsDead-change :
        (p : Row → Bool) (f : Row → Row)
        → ((r : Row) → (f r).id ≡ r.id)
        → ((r : Row) → r.is_active ≡ false → (f r).is_active ≡ false)
        → IsDead id (change p f s)
    IsDead-change p f same keep = record {
      table = IsTable-update key_id h.table p f same (λ r k _ ids. keep r (k (sym (same r) ∙ ids)));
      given = h.given;
    }

    IsDead-remove : (p : Row → Bool) → IsDead id (remove p s)
    IsDead-remove p = record { table = IsTable-delete key_id h.table p; given = h.given }

    create-Buries :
        (fails : ℕ → Bool) (user : ℕ) (org : Option ℕ) (name : Text) (scopes : List Text)
        (rate expires : Option ℤ) (plain : Text) (now : ℤ)
        → Buries id (create hash_key fails user org name scopes rate expires plain now s)
    unfolding create
    create-Buries fails user org name scopes rate expires plain now = bind_raise_if _ _ _ _ h λ _.
        bind_gets _ _ _ (
          bind_exec _ _ _ _ _ h λ _.
            let added : IsDead id (add_row hash_key user org name scopes rate expires plain now s) =
              record {
                table = IsTable-append key_id h.table _ refl (λ same. absurd (fresh same h.given));
                given = omega (arith, h.given);
              } in
            bind_raise_if _ _ _ _ added λ _. Ensures-pure _ _ added)
      where
        fresh : s.next_key ≡ id → id < s.next_key → ⊥
        fresh same less = omega arith

    revoke-keeps : (fails : Bool) (k user : ℕ) → Buries id (revoke fails k user s)
    unfolding revoke
    revoke-keeps fails k user = bind_gets _ _ _ (
        bind_exec _ _ _ _ _ h λ _.
          let silent = IsDead-change (is_owned k user) inactive (λ q. refl) (λ q e. refl) in
          Ensures-raise_if _ _ _ silent λ _. silent)

    delete-Buries : (fails : Bool) (k user : ℕ) → Buries id (delete fails k user s)
    unfolding delete
    delete-Buries fails k user = bind_gets _ _ _ (
        bind_exec _ _ _ _ _ h λ _.
          Ensures-raise_if _ _ _ (IsDead-remove (is_owned k user))
            λ _. IsDead-remove (is_owned k user))

    cleanup-Buries : (fails : Bool) (now cutoff : ℤ) → Buries id (cleanup fails now cutoff s)
    unfolding cleanup
    cleanup-Buries fails now cutoff =
        bind_gets _ _ _
          (bind_exec _ _ _ _ _ h λ _. Ensures-pure _ _ (IsDead-remove (is_worn now cutoff)))

    -- It keeps the id dead, and returns another key or none.
    validate-Buries :
        (fails : ℕ → Bool) (api_key : Text) (now later : ℤ)
        → Ensures
            (λ k t. IsDead id t × (k.id ≢ id))
            (IsDead id)
            (validate hash_key fails api_key now later s)
    unfolding validate
    validate-Buries fails api_key now later = bind_raise_if _ _ _ _ h λ _.
        bind_raise_if _ _ _ _ h λ _. bind_gets _ _ _ (
          bind_or_raise _ _ _ _ h λ row found. bind_raise_if _ _ _ _ h λ active.
            bind_raise_if _ _ _ _ h λ _.
              let other : row.id ≢ id =
                λ same. cc (active, IsTable-found key_id h.table _ row found same) in
              bind_exec_ignoring _ _ _ _ (λ _. Ensures-pure _ _ (h, other))
                (λ _. Ensures-pure _ _ (
                  IsDead-change (has_key key_id row.id) (used later) (λ q. refl) (λ q e. e),
                  other,
                )))

    perform-IsDead : (c : Call) → IsDead id (perform c s)
    unfolding perform
    perform-IsDead (creating fails user org name scopes rate expires plain now) =
        Ensures-always (create-Buries fails user org name scopes rate expires plain now)
    perform-IsDead (validating fails api_key now later) =
        Ensures-always (weaken (λ k t e. e.0) (validate-Buries fails api_key now later))
    perform-IsDead (revoking fails k user) = Ensures-always (revoke-keeps fails k user)
    perform-IsDead (deleting fails k user) = Ensures-always (delete-Buries fails k user)
    perform-IsDead (cleaning fails now cutoff) = Ensures-always (cleanup-Buries fails now cutoff)

  run-IsDead : (id : ℕ) (calls : List Call) (s : Db) → IsDead id s → IsDead id (run calls s)
  unfolding run
  run-IsDead id [] s h = h
  run-IsDead id (c ∷ calls) s h = run-IsDead id calls (perform c s) (perform-IsDead id s h c)

  -- Once `Revoke` has returned without an error, `Validate` never returns the key with that id again, for
  -- any text, whatever calls come between and whatever statements fail. Ids are as the database gives
  -- them.
  pub revoked_for_good :
      (fails : Bool) (id user : ℕ) (s t : Db)
      → IsNumbered s
      → revoke fails id user s ≡ (ok tt, t)
      → (calls : List Call) (later_fails : ℕ → Bool) (api_key : Text) (now later : ℤ) (key : Key)
        (u : Db)
      → validate hash_key later_fails api_key now later (run calls t) ≡ (ok key, u)
      → key.id ≢ id
  revoked_for_good fails id user s t numbered returned calls later_fails api_key now later key u
        valid =
      let dead = Ensures-ok (revoke-Buries fails id user s numbered) returned in
      let still = run-IsDead id calls t dead in
      (Ensures-ok (validate-Buries id (run calls t) still later_fails api_key now later) valid).1
