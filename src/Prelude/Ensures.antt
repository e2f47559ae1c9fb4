-- ===== src/Prelude/Ensures.antt =====
-- What a method ensures: `Q` of the value and the state when it returns, `X` of the state when it
-- stops with an error or a panic. One rule for each way to begin a method.
use mathlib.Core.Bool.{Bool, true, false}
use mathlib.Core.Path.{◌≡◌, refl, sym, ap, subst, ◌∙◌}
use mathlib.Core.Logic.{◌≢◌}
use mathlib.Core.Option.{Option, none, some}
use tonkey.Prelude.Tests.{if◌then◌else◌}
use tonkey.Prelude.Methods.{
  Result, ok, err, panic, Action, pure, modify, raise, gets, or_raise, deref, transaction, raise_if,
  exec, exec_ignoring, ◌>>=◌,
}

module _ {S E A : Type 0} where
  abbrev pub Outcome : (A → S → Type 0) → (S → Type 0) → Result E A × S → Type 0
  Outcome Q X (ok a, t) = Q a t
  Outcome Q X (err e, t) = X t
  Outcome Q X (panic, t) = X t

  pub record Ensures (Q : A → S → Type 0) (X : S → Type 0) (r : Result E A × S) : Type 0 where
    pub outcome : Outcome Q X r

  pub Ensures-ok :
      {Q : A → S → Type 0} {X : S → Type 0} {r : Result E A × S} {a : A} {t : S}
      → Ensures Q X r
      → r ≡ (ok a, t)
      → Q a t
  Ensures-ok {Q} {X} h e = subst (Outcome Q X) e h.outcome

  pub Ensures-value :
      {Q : A → Type 0} {X : S → Type 0} {r : Result E A × S} {a : A}
      → Ensures (λ b _. Q b) X r
      → r.0 ≡ ok a
      → Q a
  Ensures-value {Q} {X} {r} h e =
      subst (λ (z : Result E A). Outcome (λ b _. Q b) X (z, r.1)) e h.outcome

  -- A method that stops, or returns, always in a state where `P` holds.
  pub Ensures-always : {P : S → Type 0} {r : Result E A × S} → Ensures (λ _ t. P t) P r → P r.1
  Ensures-always {P} {r} h = go r h.outcome
    where
      go : (r : Result E A × S) → Outcome (λ _ t. P t) P r → P r.1
      go (ok a, t) k = k
      go (err e, t) k = k
      go (panic, t) k = k

  -- A call that returns no value and changes nothing.
  abbrev pub Refused : Result E A × S → S → Type 0
  Refused r s = (r.1 ≡ s) × ((a : A) → r.0 ≢ ok a)

  pub refused : (s : S) (r : Result E A × S) → Ensures (λ _ _. ⊥) (λ t. t ≡ s) r → Refused r s
  refused s (ok a, t) h = absurd h.outcome
  refused s (err e, t) h = (h.outcome, λ a e. cc)
  refused s (panic, t) h = (h.outcome, λ a e. cc)

  pub weaken :
      {Q R : A → S → Type 0} {X : S → Type 0} {r : Result E A × S}
      → ((a : A) (t : S) → Q a t → R a t)
      → Ensures Q X r
      → Ensures R X r
  weaken {Q} {R} {X} {r} f h = record { outcome = go r h.outcome }
    where
      go : (r : Result E A × S) → Outcome Q X r → Outcome R X r
      go (ok a, t) k = f a t k
      go (err e, t) k = k
      go (panic, t) k = k

  -- A method that always returns.
  pub Ensures-never :
      {Q : A → S → Type 0} (X : S → Type 0) (r : Result E A × S)
      → Ensures Q (λ _. ⊥) r
      → Ensures Q X r
  Ensures-never X (ok a, t) h = record { outcome = h.outcome }
  Ensures-never X (err e, t) h = absurd h.outcome
  Ensures-never X (panic, t) h = absurd h.outcome

  pub Ensures-pure :
      {Q : A → S → Type 0} {X : S → Type 0} (a : A) (s : S) → Q a s → Ensures Q X (pure a s)
  unfolding pure
  Ensures-pure a s h = record { outcome = h }

  pub Ensures-gets :
      {Q : A → S → Type 0} {X : S → Type 0} (g : S → A) (s : S) → Q (g s) s → Ensures Q X (gets g s)
  unfolding gets
  Ensures-gets g s h = record { outcome = h }

  -- A transaction changes nothing when it does not return.
  pub Ensures-transaction :
      {Q : A → S → Type 0} {X : S → Type 0} (b : Bool) (e : E) (c : Bool) (f : E) (m : Action S E A)
      (s : S)
      → X s
      → Ensures Q (λ _. Unit) (m s)
      → Ensures Q X (transaction b e c f m s)
  unfolding transaction
  Ensures-transaction {Q} {X} b e c f m s x h = record { outcome = go b c (m s) h.outcome }
    where
      go :
          (b c : Bool) (r : Result E A × S)
          → Outcome Q (λ _. Unit) r
          → Outcome Q X (
              let (y, t) = r in
              if b then (err e, s) else elim y [
                | ok a ↦ if c then (err f, s) else (ok a, t)
                | err g ↦ (err g, s)
                | panic ↦ (panic, s)
              ])
      go true c (r, t) k = x
      go false true (ok a, t) k = x
      go false false (ok a, t) k = k
      go false c (err g, t) k = x
      go false c (panic, t) k = x

  pub Ensures-raise :
      {Q : A → S → Type 0} {X : S → Type 0} (e : E) (s : S) → X s → Ensures Q X (raise e s)
  unfolding raise
  Ensures-raise e s h = record { outcome = h }

  pub Ensures-if :
      {Q : A → S → Type 0} {X : S → Type 0} (b : Bool) (m n : Action S E A) (s : S)
      → (b ≡ true → Ensures Q X (m s))
      → (b ≡ false → Ensures Q X (n s))
      → Ensures Q X ((if b then m else n) s)
  Ensures-if true m n s x y = x refl
  Ensures-if false m n s x y = y refl

module _ {S E : Type 0} {Q : Unit {0} → S → Type 0} {X : S → Type 0} where
  pub Ensures-exec :
      (b : Bool) (e : E) (f : S → S) (s : S)
      → X s
      → (b ≡ false → Q tt (f s))
      → Ensures Q X (exec b e f s)
  unfolding exec
  Ensures-exec true e f s x q = record { outcome = x }
  Ensures-exec false e f s x q = record { outcome = q refl }

  pub Ensures-exec_ignoring :
      (b : Bool) (f : S → S) (s : S)
      → (b ≡ true → Q tt s)
      → (b ≡ false → Q tt (f s))
      → Ensures {E = E} Q X (exec_ignoring b f s)
  unfolding exec_ignoring
  Ensures-exec_ignoring true f s x q = record { outcome = x refl }
  Ensures-exec_ignoring false f s x q = record { outcome = q refl }

  pub Ensures-modify : (f : S → S) (s : S) → Q tt (f s) → Ensures {E = E} Q X (modify f s)
  unfolding modify
  Ensures-modify f s q = record { outcome = q }

  pub Ensures-raise_if :
      (b : Bool) (e : E) (s : S) → X s → (b ≡ false → Q tt s) → Ensures Q X (raise_if b e s)
  unfolding raise_if
  Ensures-raise_if true e s x q = record { outcome = x }
  Ensures-raise_if false e s x q = record { outcome = q refl }

module _ {S E A B : Type 0} {Q : B → S → Type 0} {X : S → Type 0} where
  pub bind_gets :
      (g : S → A) (f : A → Action S E B) (s : S)
      → Ensures Q X (f (g s) s)
      → Ensures Q X ((gets g >>= f) s)
  unfolding ◌>>=◌
  bind_gets g f s h = record { outcome = (h).outcome }

  pub bind_or_raise :
      (o : Option A) (e : E) (f : A → Action S E B) (s : S)
      → X s
      → ((a : A) → o ≡ some a → Ensures Q X (f a s))
      → Ensures Q X ((or_raise o e >>= f) s)
  unfolding ◌>>=◌
  bind_or_raise none e f s x h = record { outcome = x }
  bind_or_raise (some a) e f s x h = record { outcome = (h a refl).outcome }

  pub bind_deref :
      (o : Option A) (f : A → Action S E B) (s : S)
      → X s
      → ((a : A) → o ≡ some a → Ensures Q X (f a s))
      → Ensures Q X ((deref o >>= f) s)
  unfolding ◌>>=◌
  bind_deref none f s x h = record { outcome = x }
  bind_deref (some a) f s x h = record { outcome = (h a refl).outcome }

  -- A call of another method, with what it did as an equation.
  pub bind_call :
      (m : Action S E A) (f : A → Action S E B) (s : S)
      → X (m s).1
      → ((a : A) (t : S) → m s ≡ (ok a, t) → Ensures Q X (f a t))
      → Ensures Q X ((m >>= f) s)
  unfolding ◌>>=◌
  bind_call m f s x h = record { outcome = go (m s) x h }
    where
      go :
          (r : Result E A × S)
          → X r.1
          → ((a : A) (t : S) → r ≡ (ok a, t) → Ensures Q X (f a t))
          → Outcome {E = E} Q X
              (let (y, t) = r in elim y [ ok a ↦ f a t | err e ↦ (err e, t) | panic ↦ (panic, t) ])
      go (ok a, t) x k = (k a t refl).outcome
      go (err e, t) x k = x
      go (panic, t) x k = x

  -- A call of another method, with what it ensures.
  pub bind_after :
      {R : A → S → Type 0} (m : Action S E A) (f : A → Action S E B) (s : S)
      → Ensures R X (m s)
      → ((a : A) (t : S) → R a t → Ensures Q X (f a t))
      → Ensures Q X ((m >>= f) s)
  unfolding ◌>>=◌
  bind_after {R} m f s h k = record { outcome = go (m s) h.outcome }
    where
      go :
          (r : Result E A × S)
          → Outcome R X r
          → Outcome {E = E} Q X
              (let (y, t) = r in elim y [ ok a ↦ f a t | err e ↦ (err e, t) | panic ↦ (panic, t) ])
      go (ok a, t) x = (k a t x).outcome
      go (err e, t) x = x
      go (panic, t) x = x

  -- A call of a method that only reads.
  pub bind_read :
      (m : Action S E A) (f : A → Action S E B) (s : S)
      → (m s).1 ≡ s
      → X s
      → ((a : A) → m s ≡ (ok a, s) → Ensures Q X (f a s))
      → Ensures Q X ((m >>= f) s)
  bind_read m f s same x h = bind_call m f s (subst X (sym same) x) (λ a t e.
      let t_is : t ≡ s = sym (ap (λ (r : Result E A × S). r.1) e) ∙ same in
      subst (λ (z : S). Ensures Q X (f a z)) (sym t_is)
        (h a (subst (λ (z : S). m s ≡ (ok a, z)) t_is e)))

module _ {S E B : Type 0} {Q : B → S → Type 0} {X : S → Type 0} where
  pub bind_raise_if :
      (b : Bool) (e : E) (f : Unit {0} → Action S E B) (s : S)
      → X s
      → (b ≡ false → Ensures Q X (f tt s))
      → Ensures Q X ((raise_if b e >>= f) s)
  unfolding ◌>>=◌
  bind_raise_if true e f s x h = record { outcome = x }
  bind_raise_if false e f s x h = record { outcome = (h refl).outcome }

  pub bind_modify :
      (g : S → S) (f : Unit {0} → Action S E B) (s : S)
      → Ensures Q X (f tt (g s))
      → Ensures Q X ((modify g >>= f) s)
  unfolding ◌>>=◌
  bind_modify g f s h = record { outcome = (h).outcome }

  pub bind_exec :
      (b : Bool) (e : E) (g : S → S) (f : Unit {0} → Action S E B) (s : S)
      → X s
      → (b ≡ false → Ensures Q X (f tt (g s)))
      → Ensures Q X ((exec b e g >>= f) s)
  unfolding ◌>>=◌
  bind_exec true e g f s x h = record { outcome = x }
  bind_exec false e g f s x h = record { outcome = (h refl).outcome }

  pub bind_exec_ignoring :
      (b : Bool) (g : S → S) (f : Unit {0} → Action S E B) (s : S)
      → (b ≡ true → Ensures Q X (f tt s))
      → (b ≡ false → Ensures Q X (f tt (g s)))
      → Ensures Q X ((exec_ignoring b g >>= f) s)
  unfolding ◌>>=◌
  bind_exec_ignoring true g f s x h = record { outcome = (x refl).outcome }
  bind_exec_ignoring false g f s x h = record { outcome = (h refl).outcome }
