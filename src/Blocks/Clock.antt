-- ===== src/Blocks/Clock.antt =====
-- The stack of override timestamps (src/blockchain/process-block.ts).
use augur_node.Prelude.{
  ℕ, ◌≡◌, refl, Bool, true, false, some, List, [], ◌∷◌, ◌==◌, ◌&&◌, if◌then◌else◌, Bool-cases, inl,
  inr, ok, err,
}
use augur_node.Database.{World, ◌>>◌, timestamp_removal_failed}
use augur_node.Blocks.{
  set_override_timestamp, remove_override_timestamp, get_override_timestamp, get_current_time,
  head_of,
}

-- A timestamp to fall back to.
abbrev pub has_prior : List ℕ → Bool
has_prior [] = false
has_prior (t ∷ ts) = true

module _ {N : Type 0} where
  -- After a timestamp is set, the current time is that timestamp, unless it is zero: then it is
  -- the timestamp of the last block. Its removal returns if the same timestamp is removed and
  -- another was set before it, and throws otherwise; either way the stack is what it was. The
  -- database names the timestamp before it if the removal returns, and the one that was set if not.
  pub remove-set_override_timestamp :
      (t u : ℕ) (w : World N)
      → let result = (set_override_timestamp t >> remove_override_timestamp u) w in
        let returns = (t == u) && has_prior w.override_timestamps in
        (get_current_time (set_override_timestamp t w).1
          ≡ (if t == 0 then w.block_head_timestamp else t))
        × (result.0 ≡ (if returns then ok tt else err timestamp_removal_failed))
        × (result.1.override_timestamps ≡ w.override_timestamps)
        × (result.1.db.override_timestamp
            ≡ (if returns then head_of w.override_timestamps else some t))
  unfolding set_override_timestamp remove_override_timestamp get_override_timestamp get_current_time
  remove-set_override_timestamp t u w =
      let (result, stack, row) = go w.override_timestamps in (refl, result, stack, row)
    where
      go :
          (ts : List ℕ)
          → let result =
              (set_override_timestamp t >> remove_override_timestamp u)
                (record w { override_timestamps = ts }) in
            let returns = (t == u) && has_prior ts in
            (result.0 ≡ (if returns then ok tt else err timestamp_removal_failed))
            × (result.1.override_timestamps ≡ ts)
            × (result.1.db.override_timestamp ≡ (if returns then head_of ts else some t))
      go [] = elim (Bool-cases (t == u)) [
        | inl e ↦ rw e (refl, refl, refl)
        | inr e ↦ rw e (refl, refl, refl)
      ]
      go (p ∷ ts) = elim (Bool-cases (t == u)) [
        | inl e ↦ rw e (refl, refl, refl)
        | inr e ↦ rw e (refl, refl, refl)
      ]
