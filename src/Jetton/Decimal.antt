-- ===== src/Jetton/Decimal.antt =====
-- Amounts and balances are stored as decimal texts, which the code reads and writes with math/big.
-- That package is a parameter: its texts, `SetString(s, 10)`, `String()` and the text "0".
use tonkey.Prelude.{◌≡◌, Option, some}
use tonkey.Prelude.Int.{ℤ, pos}

pub record Decimal : Type 1 where
  pub Text : Type 0
  -- `new(big.Int).SetString(s, 10)`; `none` when it reports failure (and returns nil).
  pub parse : Text → Option ℤ
  -- `(*big.Int).String()`.
  pub print : ℤ → Text
  -- The literal "0" of a new wallet.
  pub zero_text : Text
  -- Documented: `String` writes what `SetString` reads, and "0" reads as 0.
  pub parse-print : (z : ℤ) → parse (print z) ≡ some z
  pub parse-zero_text : parse zero_text ≡ some (pos 0)
