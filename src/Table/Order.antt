-- ===== src/Table/Order.antt =====
-- ORDER BY: rows that compare equal keep their order.
use Prim.Native.String.{String}
use tonkey.Prelude.{◌≢◌, sym, Bool, List, [], ◌∷◌, inl, inr, All, Bool-cases, if◌then◌else◌}
use tonkey.Table.Texts.{Lacks, Distinct}

module _ {A : Type 0} (leq : A → A → Bool) where
  abbrev pub insert : A → List A → List A
  insert r [] = r ∷ []
  insert r (q ∷ rows) = let rest = insert r rows in if leq r q then r ∷ q ∷ rows else q ∷ rest

  abbrev pub order_by : List A → List A
  order_by [] = []
  order_by (r ∷ rows) = insert r (order_by rows)

  pub All-insert :
      (P : A → Type 0) (r : A) (rows : List A) → P r → All P rows → All P (insert r rows)
  All-insert P r [] p h = (p, tt)
  All-insert P r (q ∷ rows) p h = elim (Bool-cases (leq r q)) [
    | inl e ↦ rw e (p, h)
    | inr e ↦ rw e (h.0, All-insert P r rows p h.1)
  ]

  pub All-order_by : (P : A → Type 0) (rows : List A) → All P rows → All P (order_by rows)
  All-order_by P [] h = tt
  All-order_by P (r ∷ rows) h = All-insert P r (order_by rows) h.0 (All-order_by P rows h.1)

  module _ (key : A → String) where
    Distinct-insert :
        (r : A) (rows : List A)
        → Lacks key (key r) rows
        → Distinct key rows
        → Distinct key (insert r rows)
    Distinct-insert r [] l h = (tt, tt)
    Distinct-insert r (q ∷ rows) l h = elim (Bool-cases (leq r q)) [
      | inl e ↦ rw e (l, h)
      | inr e ↦ rw e (
        All-insert (λ x. key x ≢ key q) r rows (λ k. l.0 (sym k)) h.0,
        Distinct-insert r rows l.1 h.1,
      )
    ]

    pub Distinct-order_by : (rows : List A) → Distinct key rows → Distinct key (order_by rows)
    Distinct-order_by [] h = tt
    Distinct-order_by (r ∷ rows) h =
        Distinct-insert r (order_by rows) (All-order_by (λ x. key x ≢ key r) rows h.0)
          (Distinct-order_by rows h.1)
