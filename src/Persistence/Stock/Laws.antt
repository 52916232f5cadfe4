-- ===== src/Persistence/Stock/Laws.antt =====
-- What the deductions take.
use scos.Prelude.{
  ℕ, ◌+◌, ◌*◌, ◌≤◌, ◌≡◌, ◌∙◌, refl, some, List, [], ◌∷◌, map, arith, sum_by, Text, ◌==◌, Bool-cases,
  inl, inr, ==_iff,
}
use scos.Persistence.Stock.{WarehouseStockRow, selects, update_stock, updated, deduct}

abbrev pub quantity_of : Text × ℕ → ℕ
quantity_of a = a.1

module _ {N : Type 0} where
  abbrev pub row_stock : WarehouseStockRow N → ℕ
  row_stock row = row.stock

  abbrev pub row_id : WarehouseStockRow N → Text
  row_id row = row.id

  -- One statement takes its quantity from every row that it updates.
  sum_by-update_stock :
      (id : Text) (quantity : ℕ) (rows : List (WarehouseStockRow N))
      → sum_by row_stock rows
        ≡ sum_by row_stock (update_stock id quantity rows) + quantity * updated id quantity rows
  unfolding update_stock updated
  sum_by-update_stock id quantity [] = omega arith
  sum_by-update_stock id quantity (row ∷ rows) =
      let rest = sum_by-update_stock id quantity rows in
      elim (Bool-cases (selects id quantity row)) [
        | inl selected ↦
            let enough : quantity ≤ row.stock = ground arith in
            rw selected (omega (arith, rest, enough))
        | inr other ↦ rw other (omega (arith, rest))
      ]

  ids-update_stock :
      (id : Text) (quantity : ℕ) (rows : List (WarehouseStockRow N))
      → map row_id (update_stock id quantity rows) ≡ map row_id rows
  unfolding update_stock
  ids-update_stock id quantity [] = refl
  ids-update_stock id quantity (row ∷ rows) = ground (arith, ids-update_stock id quantity rows)

  -- If the deductions succeed, the stock of all warehouses together has gone down by exactly the
  -- units allocated, and the warehouses are the same.
  pub sum_by-deduct :
      (allocations : List (Text × ℕ)) (rows after : List (WarehouseStockRow N))
      → deduct allocations rows ≡ some after
      → (sum_by row_stock rows ≡ sum_by row_stock after + sum_by quantity_of allocations)
        × (map row_id after ≡ map row_id rows)
  unfolding deduct
  sum_by-deduct [] rows after h = let same : rows ≡ after = cc in rw same (omega arith, refl)
  sum_by-deduct ((id, quantity) ∷ rest) rows after h =
      elim (Bool-cases (updated id quantity rows == 1)) [
        | inl one ↦
            let next : deduct rest (update_stock id quantity rows) ≡ some after = ground arith in
            let (sums, ids) = sum_by-deduct rest (update_stock id quantity rows) after next in
            let single = (==_iff (updated id quantity rows) 1).0 one in
            let step = sum_by-update_stock id quantity rows in
            let taken : quantity * updated id quantity rows ≡ quantity = rw single (omega arith) in
            (omega (arith, sums, step, taken), ids ∙ ids-update_stock id quantity rows)
        | inr other ↦ absurd (ground arith)
      ]
