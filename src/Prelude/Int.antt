-- ===== src/Prelude/Int.antt =====
-- Signed integers over the native numbers: Go's int64 and math/big values.
use tonkey.Prelude.{ap, ℕ, suc, ◌+◌, ◌-◌, ◌≤◌, ◌≡◌, Bool, arith, ltb, leb, if◌then◌else◌}

-- `negsuc n` stands for -(n + 1).
pub data ℤ : Type 0 where
  pos : ℕ → ℤ
  negsuc : ℕ → ℤ

abbrev pub pos_part : ℤ → ℕ
pos_part (pos n) = n
pos_part (negsuc n) = 0

abbrev pub neg_part : ℤ → ℕ
neg_part (pos n) = 0
neg_part (negsuc n) = suc n

abbrev pub sub_ℕ : ℕ → ℕ → ℤ
sub_ℕ a b = if leb b a then pos (a - b) else negsuc (b - a - 1)

infixl 65 ◌+ℤ◌ ◌-ℤ◌
infix 50 ◌≤ℤ◌
unfoldable pub ◌+ℤ◌ : ℤ → ℤ → ℤ
a +ℤ b = sub_ℕ (pos_part a + pos_part b) (neg_part a + neg_part b)

unfoldable pub ◌-ℤ◌ : ℤ → ℤ → ℤ
a -ℤ b = sub_ℕ (pos_part a + neg_part b) (neg_part a + pos_part b)

abbrev pub ◌≤ℤ◌ : ℤ → ℤ → Type 0
a ≤ℤ b = pos_part a + neg_part b ≤ pos_part b + neg_part a

abbrev pub ltb_ℤ : ℤ → ℤ → Bool
ltb_ℤ a b = ltb (pos_part a + neg_part b) (pos_part b + neg_part a)

abbrev pub leb_ℤ : ℤ → ℤ → Bool
leb_ℤ a b = leb (pos_part a + neg_part b) (pos_part b + neg_part a)

-- Through these laws `omega` and `grind` read the operations while they stay shut.
pub +ℤ_parts :
    (a b : ℤ)
    → pos_part (a +ℤ b) + neg_part a + neg_part b ≡ neg_part (a +ℤ b) + pos_part a + pos_part b
unfolding ◌+ℤ◌
+ℤ_parts a b = ground arith

pub -ℤ_parts :
    (a b : ℤ)
    → pos_part (a -ℤ b) + neg_part a + pos_part b ≡ neg_part (a -ℤ b) + pos_part a + neg_part b
unfolding ◌-ℤ◌
-ℤ_parts a b = ground arith

pub eq_of_parts : (a b : ℤ) → pos_part a + neg_part b ≡ pos_part b + neg_part a → a ≡ b
eq_of_parts a b h = ground arith

pub ruleset int_laws = (arith, +ℤ_parts, -ℤ_parts, eq_of_parts)

-- Equations of sums: a common term on the left, cancellation, and a term moved over.
pub +ℤ_under : (a h x k y : ℤ) → h +ℤ x ≡ k +ℤ y → a +ℤ h +ℤ x ≡ a +ℤ k +ℤ y
+ℤ_under a h x k y e = omega (int_laws, ap pos_part e, ap neg_part e)

pub +ℤ_cancel : (a b x : ℤ) → a +ℤ x ≡ b +ℤ x → a ≡ b
+ℤ_cancel a b x e = omega (int_laws, ap pos_part e, ap neg_part e)

pub +ℤ_move : (a b x y : ℤ) → a +ℤ x ≡ b +ℤ y → a ≡ b +ℤ (y -ℤ x)
+ℤ_move a b x y e = omega (int_laws, ap pos_part e, ap neg_part e)

-- Two changes of a sum in a row: of different terms, and of one term.
pub +ℤ_join :
    (h₀ h₁ h₂ v t w t' : ℤ)
    → h₁ +ℤ v ≡ h₀ +ℤ t
    → h₂ +ℤ w ≡ h₁ +ℤ t'
    → h₂ +ℤ (v +ℤ w) ≡ h₀ +ℤ (t +ℤ t')
+ℤ_join h₀ h₁ h₂ v t w t' e f =
    omega (int_laws, ap pos_part e, ap neg_part e, ap pos_part f, ap neg_part f)

pub +ℤ_replace : (h₀ h₁ h₂ v t t' : ℤ) → h₁ +ℤ v ≡ h₀ +ℤ t → h₂ +ℤ t ≡ h₁ +ℤ t' → h₂ +ℤ v ≡ h₀ +ℤ t'
+ℤ_replace h₀ h₁ h₂ v t t' e f =
    omega (int_laws, ap pos_part e, ap neg_part e, ap pos_part f, ap neg_part f)

pub +ℤ_same : (h k z z' : ℤ) → h +ℤ z ≡ k +ℤ z' → z ≡ z' → h ≡ k
+ℤ_same h k z z' e f = omega (int_laws, ap pos_part e, ap neg_part e, ap pos_part f, ap neg_part f)

pub +ℤ_grown : (h k x y a : ℤ) → h +ℤ x ≡ k +ℤ (y +ℤ a) → x ≡ y → h ≡ k +ℤ a
+ℤ_grown h k x y a e f =
    omega (int_laws, ap pos_part e, ap neg_part e, ap pos_part f, ap neg_part f)

pub +ℤ_zero : (h k : ℤ) → h +ℤ pos 0 ≡ k +ℤ pos 0 → h ≡ k
+ℤ_zero h k e = omega (int_laws, ap pos_part e, ap neg_part e)

pub zero-+ℤ : (h : ℤ) → h +ℤ pos 0 ≡ h
zero-+ℤ h = omega int_laws

-- What one side gives up the other gets.
pub +ℤ_shift : (x y a : ℤ) → x +ℤ y ≡ x -ℤ a +ℤ (y +ℤ a)
+ℤ_shift x y a = omega int_laws

pub +ℤ_shrunk : (h k x y a : ℤ) → h +ℤ x ≡ k +ℤ (y -ℤ a) → x ≡ y → h ≡ k -ℤ a
+ℤ_shrunk h k x y a e f =
    omega (int_laws, ap pos_part e, ap neg_part e, ap pos_part f, ap neg_part f)
