-- ===== src/Batch/Totals.antt =====
-- The total of a batch in internal/batch/batch.go, a sum in int64.
use tonkey.Prelude.{
  ℕ, suc, ◌+◌, ◌-◌, ◌*◌, ◌%◌, ◌^◌, ◌≤◌, ◌≡◌, ◌∙◌, List, [], ◌∷◌, arith, ltb, if◌then◌else◌, length,
  All,
}
use tonkey.Prelude.Int.{ℤ, pos, negsuc, pos_part, neg_part, ◌+ℤ◌, int_laws}
use tonkey.Batch.Store.{Payment}

-- The bit pattern of an int64, and the number that a pattern stands for.
abbrev pub to_word : ℤ → ℕ
to_word (pos n) = n % 2 ^ 64
to_word (negsuc n) = 2 ^ 64 - 1 - n % 2 ^ 64

abbrev pub of_word : ℕ → ℤ
of_word w = if ltb w (2 ^ 63) then pos w else negsuc (2 ^ 64 - 1 - w)

-- `a + b` in int64.
abbrev pub add_64 : ℤ → ℤ → ℤ
add_64 a b = of_word (to_word (a +ℤ b))

-- The loop of `Create` over the amounts.
unfoldable pub total_from : ℤ → List Payment → ℤ
total_from total [] = total
total_from total (p ∷ payments) = total_from (add_64 total p.amount) payments

-- The sum without a bound.
abbrev pub sum : List Payment → ℤ
sum [] = pos 0
sum (p ∷ payments) = p.amount +ℤ sum payments

-- The absolute value is below a number.
abbrev pub IsWithin : ℕ → ℤ → Type 0
IsWithin b z = pos_part z + neg_part z ≤ b

of_word-to_word : (z : ℤ) → IsWithin (2 ^ 63 - 1) z → of_word (to_word z) ≡ z
of_word-to_word (pos n) h = ground arith
of_word-to_word (negsuc n) h = ground arith

add_64-exact : (a b : ℤ) → IsWithin (2 ^ 63 - 1) (a +ℤ b) → add_64 a b ≡ a +ℤ b
add_64-exact a b h = of_word-to_word (a +ℤ b) h

IsWithin-+ℤ : (b c d : ℕ) (x y : ℤ) → IsWithin b x → IsWithin c y → b + c ≤ d → IsWithin d (x +ℤ y)
unfolding ◌+ℤ◌
IsWithin-+ℤ b c d x y h k l = ground arith

pub total_from-sum :
    (k : ℕ) (total : ℤ) (payments : List Payment)
    → IsWithin (k * 2 ^ 56) total
    → k + length payments ≤ 100
    → All (λ (p : Payment). IsWithin (2 ^ 56) p.amount) payments
    → total_from total payments ≡ total +ℤ sum payments
unfolding total_from
total_from-sum k total [] h small each = omega int_laws
total_from-sum k total (p ∷ payments) h small each =
    let word : k * 2 ^ 56 + 2 ^ 56 ≤ 2 ^ 63 - 1 = omega (arith, small) in
    let within =
      IsWithin-+ℤ (k * 2 ^ 56) (2 ^ 56) (suc k * 2 ^ 56) total p.amount h each.0 (omega arith) in
    let exact =
      add_64-exact total p.amount
        (IsWithin-+ℤ (k * 2 ^ 56) (2 ^ 56) (2 ^ 63 - 1) total p.amount h each.0 word) in
    rw exact (
      total_from-sum (suc k) (total +ℤ p.amount) payments within (omega (arith, small)) each.1
      ∙ +ℤ_assoc total p.amount (sum payments))
  where
    +ℤ_assoc : (a b c : ℤ) → a +ℤ b +ℤ c ≡ a +ℤ (b +ℤ c)
    +ℤ_assoc a b c = omega int_laws
