-- ===== src/Tests/Sorting.antt =====
-- An order of the rows of app/api/routes/balances.py: those with shorter codes first.
use crypto_ledger_sandbox.Prelude.{
  Bool, Bool-cases, inl, inr, String, List, [], ◌∷◌, refl, if◌then◌else◌, text_length, leb,
}
use crypto_ledger_sandbox.Api.OwnRows.{Row}
use crypto_ledger_sandbox.Api.Rearranged.{Rearranged, nothing, keep, swap, and_then}

abbrev by_length : String → String → Bool
by_length s t = leb (text_length s) (text_length t)

unfoldable pub insert_row : Row → List Row → List Row
insert_row row [] = row ∷ []
insert_row row (other ∷ rows) =
    let rest = insert_row row rows in
    if by_length row.1.code other.1.code then row ∷ other ∷ rows else other ∷ rest

unfoldable pub shorter_first : List Row → List Row
shorter_first [] = []
shorter_first (row ∷ rows) = insert_row row (shorter_first rows)

same_rows : (rows : List Row) → Rearranged rows rows
same_rows [] = nothing
same_rows (x ∷ rows) = keep refl (same_rows rows)

insert_row-Rearranged : (x : Row) (rows : List Row) → Rearranged (x ∷ rows) (insert_row x rows)
unfolding insert_row
insert_row-Rearranged x [] = same_rows (x ∷ [])
insert_row-Rearranged x (y ∷ rows) = elim (Bool-cases (by_length x.1.code y.1.code)) [
  | inl first ↦ rw first (same_rows (x ∷ y ∷ rows))
  | inr later ↦ rw later (and_then (swap refl refl) (keep refl (insert_row-Rearranged x rows)))
]

pub shorter_first-Rearranged : (rows : List Row) → Rearranged rows (shorter_first rows)
unfolding shorter_first
shorter_first-Rearranged [] = nothing
shorter_first-Rearranged (x ∷ rows) =
    and_then (keep refl (shorter_first-Rearranged rows))
      (insert_row-Rearranged x (shorter_first rows))
