-- ===== src/Jetton/Reads.antt =====
-- What the reading parts of the methods of internal/jetton/jetton.go establish.
use tonkey.Prelude.{ℕ, ◌≡◌, Bool, some, arith, ok, ◌>>=◌}
use tonkey.Prelude.Int.{ℤ, pos, ◌≤ℤ◌}
use tonkey.Table.{select_first}
use tonkey.Jetton.Decimal.{Decimal}
use tonkey.Jetton.Store.{Jetton, Db}
use tonkey.Jetton.Lookup.{has_id, get, positive_amount}

module _ (d : Decimal) where
  open d use {Text, parse}

  pub get-reads : (failed : Bool) (id : ℕ) (s : Db d) → (get d failed id s).1 ≡ s
  unfolding get ◌>>=◌
  get-reads failed id s = ground arith

  pub get-found :
      (failed : Bool) (id : ℕ) (s : Db d) (j : Jetton d) {t : Db d}
      → get d failed id s ≡ (ok j, t)
      → select_first (has_id d id) s.jettons ≡ some j
  unfolding get ◌>>=◌
  get-found failed id s j e = ground arith

  pub positive_amount-reads : (text : Text) (s : Db d) → (positive_amount d text s).1 ≡ s
  unfolding ◌>>=◌
  positive_amount-reads text s = ground arith

  pub positive_amount-read :
      (text : Text) (s : Db d) (a : ℤ) {t : Db d}
      → positive_amount d text s ≡ (ok a, t)
      → (parse text ≡ some a) × (pos 1 ≤ℤ a)
  unfolding ◌>>=◌
  positive_amount-read text s a e = ground arith
