-- ===== src/Prelude/Methods.antt =====
-- A Go method on a shared state: what it returns, and the state that it leaves. What was written
-- before an error or a panic stays written.
use mathlib.Core.Bool.{Bool, true, false}
use tonkey.Prelude.Tests.{if◌then◌else◌}
use mathlib.Core.Option.{Option, none, some}
use mathlib.Core.Path.{◌≡◌, ap}

-- `panic` is a run-time panic of the Go program (a nil dereference, a send on a closed channel).
pub data Result (E A : Type 0) : Type 0 where
  ok : A → Result E A
  err : E → Result E A
  panic : Result E A

abbrev pub Action : Type 0 → Type 0 → Type 0 → Type 0
Action S E A = S → Result E A × S

module _ {S E A : Type 0} where
  unfoldable pub pure : A → Action S E A
  pure a s = (ok a, s)

  unfoldable pub raise : E → Action S E A
  raise e s = (err e, s)

  unfoldable pub gets : (S → A) → Action S E A
  gets f s = (ok (f s), s)

  unfoldable pub or_raise : Option A → E → Action S E A
  or_raise none e s = (err e, s)
  or_raise (some a) e s = (ok a, s)

  -- The dereference of a pointer that may be nil.
  unfoldable pub deref : Option A → Action S E A
  deref none s = (panic, s)
  deref (some a) s = (ok a, s)

module _ {S E : Type 0} where
  -- A change of the state that cannot fail.
  unfoldable pub modify : (S → S) → Action S E (Unit {0})
  modify f s = (ok tt, f s)

  unfoldable pub raise_if : Bool → E → Action S E (Unit {0})
  raise_if true e s = (err e, s)
  raise_if false e s = (ok tt, s)

  -- A statement sent to the database: when it fails the tables are as before and the method
  -- returns `e`.
  unfoldable pub exec : Bool → E → (S → S) → Action S E (Unit {0})
  exec true e f s = (err e, s)
  exec false e f s = (ok tt, f s)

  -- A statement whose error the code drops.
  unfoldable pub exec_ignoring : Bool → (S → S) → Action S E (Unit {0})
  exec_ignoring true f s = (ok tt, s)
  exec_ignoring false f s = (ok tt, f s)

-- Begin, the statements of `m`, and Commit, or Rollback where `m` stops early.
unfoldable pub transaction : {S E A : Type 0} → Bool → E → Bool → E → Action S E A → Action S E A
transaction begin_fails begin_error commit_fails commit_error m s =
    let (r, t) = m s in
    if begin_fails then (err begin_error, s) else elim r [
      | ok a ↦ if commit_fails then (err commit_error, s) else (ok a, t)
      | err e ↦ (err e, s)
      | panic ↦ (panic, s)
    ]

infixl 5 ◌>>=◌ ◌>>◌
-- Opening this opens the actions above too.
unfoldable pub ◌>>=◌ : {S E A B : Type 0} → Action S E A → (A → Action S E B) → Action S E B
unfolding pure modify raise gets or_raise deref raise_if exec exec_ignoring
◌>>=◌ m f s = let (r, t) = m s in elim r [ ok a ↦ f a t | err e ↦ (err e, t) | panic ↦ (panic, t) ]

abbrev pub ◌>>◌ : {S E A B : Type 0} → Action S E A → Action S E B → Action S E B
m >> k = m >>= λ _. k

-- A call whose result is known.
pub bind_ok :
    {S E A B : Type 0} (m : Action S E A) (f : A → Action S E B) {s t : S} {a : A}
    → m s ≡ (ok a, t)
    → (m >>= f) s ≡ f a t
unfolding ◌>>=◌
bind_ok {S} {E} {A} m f e =
    ap
      (λ (r : Result E A × S). elim r.0 [
        | ok a ↦ f a r.1
        | err x ↦ (err x, r.1)
        | panic ↦ (panic, r.1)
      ])
      e

-- A transaction whose statements all succeed.
pub transaction_ok :
    {S E A : Type 0} (e f : E) (m : Action S E A) {s t : S} {a : A}
    → m s ≡ (ok a, t)
    → transaction false e false f m s ≡ (ok a, t)
unfolding transaction
transaction_ok {S} {E} {A} e f m {s} h =
    ap
      (λ (r : Result E A × S). elim r.0 [
        | ok a ↦ (ok a, r.1)
        | err x ↦ (err x, s)
        | panic ↦ (panic, s)
      ])
      h
