-- ===== src/Blocks/Row.antt =====
-- The row of a block (src/blockchain/process-block.ts).
use augur_node.Prelude.{
  ℕ, ◌≡◌, refl, sym, ap, ◌∙◌, Bool, true, false, Option, none, some, List, ◌==◌, if◌then◌else◌,
  Bool-cases, inl, inr, ok, ==_iff, arith,
}
use augur_node.Prelude.Tables.{first_where}
use augur_node.Prelude.TableLaws.{
  first-update, first-insert, first_or, first_satisfies, updated, updated_same, updated_other,
}
use augur_node.Database.{World, BlockRow}
use augur_node.Blocks.{has_number, set_block, upsert_block, insert_block_row}

abbrev pub block_row : ℕ → ℕ → Bool → ℕ → BlockRow
block_row n hash bulk t = record {
  block_number = n;
  block_hash = hash;
  timestamp = t;
  bulk_sync = bulk;
}

apart : (a k n : ℕ) → (n == k) ≡ false → (a == k) ≡ true → (a == n) ≡ false
apart a k n h e = ground arith

or_none : (o : Option BlockRow) → first_or o none ≡ o
or_none none = refl
or_none (some r) = refl

module _ (n hash : ℕ) (bulk : Bool) (t : ℕ) where
  -- Which row the upsert leaves first under a number, for each row that it may have found.
  upserted :
      (k : ℕ) (rows : List BlockRow) (found : Option BlockRow)
      → first_where (has_number n) rows ≡ found
      → first_where (has_number k) (upsert_block n hash bulk t found rows)
        ≡ (if n == k then some (block_row n hash bulk t) else first_where (has_number k) rows)
  upserted k rows none h =
      first-insert (has_number k) (block_row n hash bulk t) rows ∙ elim (Bool-cases (n == k)) [
        | inl e ↦ rw e (
            ap (λ o. first_or o (some (block_row n hash bulk t)))
              (ap (λ m. first_where (has_number m) rows) (sym ((==_iff n k).0 e)) ∙ h))
        | inr e ↦ rw e (or_none _)
      ]
  upserted k rows (some r) h =
      first-update (has_number k) (has_number n) (set_block hash t bulk) rows (λ x. refl)
      ∙ elim (Bool-cases (n == k)) [
        | inl e ↦ rw e (
            ap
              (λ m.
                updated (has_number n) (set_block hash t bulk) (first_where (has_number m) rows))
              (sym ((==_iff n k).0 e))
            ∙ updated_same (has_number n) (set_block hash t bulk) rows h
            ∙ ap (λ m. some (block_row m hash bulk t))
                ((==_iff r.block_number n).0 (first_satisfies (has_number n) rows h)))
        | inr e ↦ rw e (
            updated_other (has_number k) (has_number n) (set_block hash t bulk) rows
              (λ x q. apart x.block_number k n e q))
      ]

  -- Whether its number is new or not, the row of a block that is inserted has the hash, the
  -- timestamp and the mark of that block; the rows found under other numbers stay. Nothing is
  -- thrown.
  pub insert_block_row_lem :
      {N : Type 0} (k : ℕ) (w : World N)
      → let result = insert_block_row n hash bulk t w in
        (result.0 ≡ ok tt)
        × (first_where (has_number k) result.1.db.blocks ≡ (
            if n == k
            then some (block_row n hash bulk t)
            else first_where (has_number k) w.db.blocks))
  unfolding insert_block_row
  insert_block_row_lem k w =
      (refl, upserted k w.db.blocks (first_where (has_number n) w.db.blocks) refl)
