-- ===== src/Reporting/Totals.antt =====
-- The stakes of payouts, added up by payout (src/server/getters/database.ts,
-- src/blockchain/log-processors/crowdsourcer.ts).
use augur_node.Prelude.{
  ℕ, suc, ◌≤◌, ◌<◌, ◌≡◌, refl, sym, ap, ◌∙◌, arith, Bool, true, false, ◌||◌, List, [], ◌∷◌, ◌==◌,
  ltb, if◌then◌else◌, Bool-cases, inl, inr,
}
use augur_node.BigNumber.{BigNumber}
use augur_node.Reporting.Stakes.{StakesByPayoutId, add_stake, group_by_and_sum}

module _ (bn : BigNumber) where
  open bn use {Num, plus, zero_bn, plus_assoc, plus_comm, plus-zero_bn}

  -- What is staked on a payout.
  unfoldable pub total : ℕ → List (StakesByPayoutId Num) → Num
  total id [] = zero_bn
  total id (s ∷ rest) =
      let t = total id rest in if s.payout_id == id then plus s.amount_staked t else t

  -- Something is staked on a payout.
  unfoldable pub is_staked : ℕ → List (StakesByPayoutId Num) → Bool
  is_staked id [] = false
  is_staked id (s ∷ rest) = (s.payout_id == id) || is_staked id rest

  -- The payouts of the groups ascend from `low` on.
  unfoldable pub IsAscending : ℕ → List (StakesByPayoutId Num) → Type 0
  IsAscending low [] = Unit {0}
  IsAscending low (g ∷ groups) = (low ≤ g.payout_id) × IsAscending (suc g.payout_id) groups

  abbrev with_stake : StakesByPayoutId Num → ℕ → Num → Num
  with_stake s id t = if s.payout_id == id then plus s.amount_staked t else t

  same_id : (a b id : ℕ) → (a == b) ≡ true → (a == id) ≡ (b == id)
  same_id a b id h = ground (arith, h)

  other_id : (a b id : ℕ) → (a == b) ≡ false → (b == id) ≡ true → (a == id) ≡ false
  other_id a b id h k = ground (arith, h, k)

  total-add_stake :
      (id : ℕ) (s : StakesByPayoutId Num) (groups : List (StakesByPayoutId Num))
      → total id (add_stake bn s groups) ≡ with_stake s id (total id groups)
  unfolding total add_stake
  total-add_stake id s [] = refl
  total-add_stake id s (g ∷ groups) = elim (Bool-cases (s.payout_id == g.payout_id)) [
    | inl e ↦ rw (e, same_id s.payout_id g.payout_id id e) (added (g.payout_id == id))
    | inr e ↦ elim (Bool-cases (ltb s.payout_id g.payout_id)) [
      | inl l ↦ rw (e, l) refl
      | inr l ↦
          rw (e, l)
            (elim (Bool-cases (g.payout_id == id)) [
              | inl k ↦
                  rw (k, other_id s.payout_id g.payout_id id e k)
                    (ap (plus g.amount_staked) (
                      total-add_stake id s groups
                      ∙ rw (other_id s.payout_id g.payout_id id e k) refl))
              | inr k ↦ rw k (total-add_stake id s groups)
            ])
    ]
  ]
    where
      added :
          (b : Bool)
          → (if b
              then plus (plus s.amount_staked g.amount_staked) (total id groups)
              else total id groups)
            ≡ (if b
                then plus s.amount_staked
                    (if b then plus g.amount_staked (total id groups) else total id groups)
                else (if b then plus g.amount_staked (total id groups) else total id groups))
      added true = plus_assoc _ _ _
      added false = refl

  pub total-group_by_and_sum :
      (id : ℕ) (groups stakes : List (StakesByPayoutId Num))
      → total id (group_by_and_sum bn groups stakes) ≡ plus (total id stakes) (total id groups)
  unfolding total group_by_and_sum
  total-group_by_and_sum id groups [] = sym (plus_comm zero_bn _ ∙ plus-zero_bn _)
  total-group_by_and_sum id groups (s ∷ stakes) =
      total-group_by_and_sum id (add_stake bn s groups) stakes
      ∙ ap (plus (total id stakes)) (total-add_stake id s groups)
      ∙ moved (s.payout_id == id)
    where
      moved :
          (b : Bool)
          → plus
              (total id stakes)
              (if b then plus s.amount_staked (total id groups) else total id groups)
            ≡ plus
                (if b then plus s.amount_staked (total id stakes) else total id stakes)
                (total id groups)
      moved true = sym (plus_assoc _ _ _) ∙ ap (λ x. plus x (total id groups)) (plus_comm _ _)
      moved false = refl

  is_staked-add_stake :
      (id : ℕ) (s : StakesByPayoutId Num) (groups : List (StakesByPayoutId Num))
      → is_staked id (add_stake bn s groups) ≡ ((s.payout_id == id) || is_staked id groups)
  unfolding is_staked add_stake
  is_staked-add_stake id s [] = refl
  is_staked-add_stake id s (g ∷ groups) = elim (Bool-cases (s.payout_id == g.payout_id)) [
    | inl e ↦
        rw (e, same_id s.payout_id g.payout_id id e)
          (absorbed (g.payout_id == id) (is_staked id groups))
    | inr e ↦ elim (Bool-cases (ltb s.payout_id g.payout_id)) [
      | inl l ↦ rw (e, l) refl
      | inr l ↦
          rw (e, l)
            (ap (λ x. (g.payout_id == id) || x) (is_staked-add_stake id s groups)
              ∙ exchanged (g.payout_id == id) (s.payout_id == id) (is_staked id groups))
    ]
  ]
    where
      absorbed : (a b : Bool) → (a || b) ≡ (a || (a || b))
      absorbed true b = refl
      absorbed false b = refl

      exchanged : (a b c : Bool) → (a || (b || c)) ≡ (b || (a || c))
      exchanged true true c = refl
      exchanged true false c = refl
      exchanged false b c = refl

  pub is_staked-group_by_and_sum :
      (id : ℕ) (groups stakes : List (StakesByPayoutId Num))
      → is_staked id (group_by_and_sum bn groups stakes)
        ≡ (is_staked id stakes || is_staked id groups)
  unfolding is_staked group_by_and_sum
  is_staked-group_by_and_sum id groups [] = refl
  is_staked-group_by_and_sum id groups (s ∷ stakes) =
      is_staked-group_by_and_sum id (add_stake bn s groups) stakes
      ∙ ap (λ x. is_staked id stakes || x) (is_staked-add_stake id s groups)
      ∙ moved (s.payout_id == id) (is_staked id stakes) (is_staked id groups)
    where
      moved : (a b c : Bool) → (b || (a || c)) ≡ ((a || b) || c)
      moved true true c = refl
      moved true false c = refl
      moved false b c = refl

  add_stake-IsAscending :
      (low : ℕ) (s : StakesByPayoutId Num) (groups : List (StakesByPayoutId Num))
      → low ≤ s.payout_id
      → IsAscending low groups
      → IsAscending low (add_stake bn s groups)
  unfolding IsAscending add_stake
  add_stake-IsAscending low s [] l o = (l, tt)
  add_stake-IsAscending low s (g ∷ groups) l o = elim (Bool-cases (s.payout_id == g.payout_id)) [
    | inl e ↦ rw e o
    | inr e ↦ elim (Bool-cases (ltb s.payout_id g.payout_id)) [
      | inl k ↦ rw (e, k) (l, (before s.payout_id g.payout_id k, o.1))
      | inr k ↦
          rw (e, k)
            (
              o.0,
              add_stake-IsAscending (suc g.payout_id) s groups (after s.payout_id g.payout_id e k)
                  o.1,
            )
    ]
  ]
    where
      before : (a b : ℕ) → ltb a b ≡ true → suc a ≤ b
      before a b h = ground (arith, h)

      after : (a b : ℕ) → (a == b) ≡ false → ltb a b ≡ false → suc b ≤ a
      after a b h k = ground (arith, h, k)

  pub group_by_and_sum-IsAscending :
      (groups stakes : List (StakesByPayoutId Num))
      → IsAscending 0 groups
      → IsAscending 0 (group_by_and_sum bn groups stakes)
  unfolding group_by_and_sum
  group_by_and_sum-IsAscending groups [] o = o
  group_by_and_sum-IsAscending groups (s ∷ stakes) o =
      group_by_and_sum-IsAscending (add_stake bn s groups) stakes
        (add_stake-IsAscending 0 s groups (omega arith) o)

  pub total-above :
      (id low : ℕ) (groups : List (StakesByPayoutId Num))
      → id < low
      → IsAscending low groups
      → total id groups ≡ zero_bn
  unfolding total IsAscending
  total-above id low [] l o = refl
  total-above id low (g ∷ groups) l o =
      rw (above g.payout_id id (omega (arith, l, o.0)))
        (total-above id (suc g.payout_id) groups (omega (arith, l, o.0)) o.1)
    where
      above : (a id : ℕ) → id < a → (a == id) ≡ false
      above a id h = ground (arith, h)
