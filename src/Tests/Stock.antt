-- ===== src/Tests/Stock.antt =====
-- Deductions from two warehouses.
use scos.Prelude.{ℕ, ◌+◌, ◌≡◌, refl, some, List, [], ◌∷◌, map, sum_by, Text, codes}
use scos.Js.Fixed.{Fixed}
use scos.Persistence.Stock.{WarehouseStockRow, deduct}
use scos.Persistence.Stock.Laws.{row_stock, row_id, quantity_of, sum_by-deduct}
use scos.Tests.Data.{degrees}

abbrev row : Text → ℕ → WarehouseStockRow Fixed
row id stock = record {
  id = id;
  name = codes "Hong Kong";
  latitude = degrees 1;
  longitude = degrees 1;
  stock = stock;
}

abbrev before : List (WarehouseStockRow Fixed)
before = row (codes "a1") 5 ∷ row (codes "b2") 10 ∷ []

abbrev after : List (WarehouseStockRow Fixed)
after = row (codes "a1") 0 ∷ row (codes "b2") 8 ∷ []

abbrev seven : List (Text × ℕ)
seven = (codes "a1", 5) ∷ (codes "b2", 2) ∷ []

deducts_seven : deduct seven before ≡ some after
unfolding deduct
deducts_seven = refl

sum_by-deduct_example :
    (sum_by row_stock before ≡ sum_by row_stock after + sum_by quantity_of seven)
    × (map row_id after ≡ map row_id before)
sum_by-deduct_example = sum_by-deduct seven before after deducts_seven
