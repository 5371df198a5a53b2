-- ===== src/Reporting/MostStaked.antt =====
-- The payout that is tentatively winning is the one with the largest stake
-- (src/blockchain/log-processors/crowdsourcer.ts).
use augur_node.Prelude.{
  ℕ, suc, ◌≤◌, ◌≡◌, ◌⊎◌, refl, sym, ap, ◌∙◌, subst, arith, Bool, true, false, ◌||◌, Option, none,
  some, List, [], ◌∷◌, map, ◌==◌, ==_iff, ==_refl, if◌then◌else◌, Bool-cases, inl, inr,
}
use augur_node.Prelude.Tables.{update_where}
use augur_node.BigNumber.{BigNumber}
use augur_node.Database.{World, PayoutRow}
use augur_node.Reporting.Stakes.{
  StakesByPayoutId, group_by_and_sum, most_staked, first_of, market_stakes, mark_payouts,
  update_tentative_winning_payout,
}
use augur_node.Reporting.Totals.{
  total, is_staked, IsAscending, total-group_by_and_sum, is_staked-group_by_and_sum,
  group_by_and_sum-IsAscending, total-above,
}

module _ (bn : BigNumber) where
  open bn use {Num, plus, zero_bn, lt, plus_comm, plus-zero_bn, lt_irrefl, lt_trans, lt_connex}

  -- A payout on which something is staked, and no other has a larger stake.
  abbrev pub IsMostStaked : ℕ → List (StakesByPayoutId Num) → Type 0
  IsMostStaked id stakes =
      (is_staked bn id stakes ≡ true)
      × ((other : ℕ)
          → is_staked bn other stakes ≡ true
          → lt (total bn id stakes) (total bn other stakes) ≡ false)

  AtMost : Num → List (StakesByPayoutId Num) → Type 0
  AtMost a [] = Unit {0}
  AtMost a (g ∷ groups) = (lt a g.amount_staked ≡ false) × AtMost a groups

  -- The groups have the totals of the groups as a whole.
  AllTotals : List (StakesByPayoutId Num) → List (StakesByPayoutId Num) → Type 0
  AllTotals all [] = Unit {0}
  AllTotals all (g ∷ groups) = (g.amount_staked ≡ total bn g.payout_id all) × AllTotals all groups

  contradiction : true ≡ false → ⊥
  contradiction e = cc

  not_less : (a b c : Num) → lt a b ≡ false → lt b c ≡ false → lt a c ≡ false
  not_less a b c h k = elim (Bool-cases (lt a c)) [
    | inr e ↦ e
    | inl e ↦ elim (Bool-cases (lt b a)) [
      | inl l ↦ absurd (contradiction (sym (lt_trans b a c l e) ∙ k))
      | inr l ↦
          absurd (contradiction (sym e ∙ subst (λ x. lt x c ≡ false) (sym (lt_connex a b h l)) k))
    ]
  ]

  asymmetric : (a b : Num) → lt a b ≡ true → lt b a ≡ false
  asymmetric a b h = elim (Bool-cases (lt b a)) [
    | inr e ↦ e
    | inl e ↦ absurd (contradiction (sym (lt_trans a b a h e) ∙ lt_irrefl a))
  ]

  -- The first of the groups, from the better of two on.
  better-AtMost :
      (best g : StakesByPayoutId Num) (groups : List (StakesByPayoutId Num)) (b : Bool)
      → lt best.amount_staked g.amount_staked ≡ b
      → (let r = most_staked bn (if b then g else best) groups in
          (lt r.amount_staked (if b then g else best).amount_staked ≡ false)
          × AtMost r.amount_staked groups)
      → (let r = most_staked bn (if b then g else best) groups in
          (lt r.amount_staked best.amount_staked ≡ false) × AtMost r.amount_staked (g ∷ groups))
  unfolding AtMost
  better-AtMost best g groups true e k =
      (not_less _ g.amount_staked _ k.0 (asymmetric _ _ e), (k.0, k.1))
  better-AtMost best g groups false e k = (k.0, (not_less _ best.amount_staked _ k.0 e, k.1))

  most_staked-AtMost :
      (best : StakesByPayoutId Num) (groups : List (StakesByPayoutId Num))
      → (lt (most_staked bn best groups).amount_staked best.amount_staked ≡ false)
        × AtMost (most_staked bn best groups).amount_staked groups
  unfolding most_staked AtMost
  most_staked-AtMost best [] = (lt_irrefl _, tt)
  most_staked-AtMost best (g ∷ groups) =
      let b = lt best.amount_staked g.amount_staked in
      better-AtMost best g groups b refl (most_staked-AtMost (if b then g else best) groups)

  later :
      (a id : ℕ) (groups : List (StakesByPayoutId Num))
      → is_staked bn id groups ≡ true
      → ((a == id) || is_staked bn id groups) ≡ true
  later a id groups h = elim (Bool-cases (a == id)) [ inl e ↦ rw e refl | inr e ↦ rw e h ]

  -- What holds of the best and of all groups holds of the most staked one.
  most_staked-kept :
      (all : List (StakesByPayoutId Num)) (best : StakesByPayoutId Num)
      (groups : List (StakesByPayoutId Num))
      → best.amount_staked ≡ total bn best.payout_id all
      → is_staked bn best.payout_id all ≡ true
      → AllTotals all groups
      → ((id : ℕ) → is_staked bn id groups ≡ true → is_staked bn id all ≡ true)
      → ((most_staked bn best groups).amount_staked
          ≡ total bn (most_staked bn best groups).payout_id all)
        × (is_staked bn (most_staked bn best groups).payout_id all ≡ true)
  unfolding most_staked AllTotals is_staked
  most_staked-kept all best [] e s t k = (e, s)
  most_staked-kept all best (g ∷ groups) e s t k =
      elim (Bool-cases (lt best.amount_staked g.amount_staked)) [
        | inl l ↦
            rw (l, most_staked)
              (most_staked-kept all g groups t.0 (k g.payout_id (rw (==_refl g.payout_id) refl)) t.1
                (λ id h. k id (later g.payout_id id groups h)))
        | inr l ↦
            rw (l, most_staked)
              (most_staked-kept all best groups e s t.1
                (λ id h. k id (later g.payout_id id groups h)))
      ]

  others_above : (a id : ℕ) → suc a ≤ id → (a == id) ≡ false
  others_above a id h = ground (arith, h)

  -- Groups that ascend and that have the totals of `all` from `low` on.
  groups-AllTotals :
      (all groups : List (StakesByPayoutId Num)) (low : ℕ)
      → IsAscending bn low groups
      → ((id : ℕ) → low ≤ id → total bn id groups ≡ total bn id all)
      → AllTotals all groups
  unfolding AllTotals IsAscending total
  groups-AllTotals all [] low o k = tt
  groups-AllTotals all (g ∷ groups) low o k = (
    sym own ∙ k g.payout_id o.0,
    groups-AllTotals all groups (suc g.payout_id) o.1
        (λ id h. sym (rw (others_above g.payout_id id h) refl) ∙ k id (omega (arith, h, o.0))),
  )
    where
      own : total bn g.payout_id (g ∷ groups) ≡ g.amount_staked
      own = rw (==_refl g.payout_id) (
          ap (plus g.amount_staked)
            (total-above bn g.payout_id (suc g.payout_id) groups (omega arith) o.1)
          ∙ plus-zero_bn _)

  none_larger :
      (a : Num) (all groups : List (StakesByPayoutId Num))
      → AllTotals all groups
      → AtMost a groups
      → (id : ℕ) → is_staked bn id groups ≡ true
      → lt a (total bn id all) ≡ false
  unfolding AllTotals AtMost is_staked
  none_larger a all [] t k id h = absurd (contradiction (sym h))
  none_larger a all (g ∷ groups) t k id h = elim (Bool-cases (g.payout_id == id)) [
    | inl e ↦
        subst (λ x. lt a (total bn x all) ≡ false) ((==_iff g.payout_id id).0 e)
          (subst (λ x. lt a x ≡ false) t.0 k.0)
    | inr e ↦ none_larger a all groups t.1 k.1 id (rw e at h)
  ]

  some_of : {a b : StakesByPayoutId Num} → some a ≡ some b → a ≡ b
  some_of e = cc

  -- Groups that have the stakes of a list: the most staked of them is the most staked of the list.
  first_of-IsMostStaked :
      (stakes groups : List (StakesByPayoutId Num)) (best : StakesByPayoutId Num)
      → ((id : ℕ) → total bn id groups ≡ total bn id stakes)
      → ((id : ℕ) → is_staked bn id groups ≡ is_staked bn id stakes)
      → IsAscending bn 0 groups
      → first_of bn groups ≡ some best
      → IsMostStaked best.payout_id stakes
  unfolding AtMost AllTotals is_staked
  first_of-IsMostStaked stakes [] best k s o e = absurd (cc)
  first_of-IsMostStaked stakes (g ∷ groups) best k s o e =
      subst (λ (b : StakesByPayoutId Num). IsMostStaked b.payout_id stakes) (some_of e)
        (
          first.1,
          λ other h.
              subst (λ x. lt x (total bn other stakes) ≡ false) first.0
                (none_larger (most_staked bn g groups).amount_staked stakes (g ∷ groups) totals
                  (most_staked-AtMost g groups) other (s other ∙ h)),
        )
    where
      totals : AllTotals stakes (g ∷ groups)
      totals = groups-AllTotals stakes (g ∷ groups) 0 o (λ id h. k id)

      first :
          ((most_staked bn g groups).amount_staked
            ≡ total bn (most_staked bn g groups).payout_id stakes)
          × (is_staked bn (most_staked bn g groups).payout_id stakes ≡ true)
      first =
          most_staked-kept stakes g groups totals.0
            (sym (s g.payout_id) ∙ rw (==_refl g.payout_id) refl) totals.1
            (λ id h. sym (s id) ∙ later g.payout_id id groups h)

  -- Stakes that have no group are none.
  no_stakes :
      (stakes : List (StakesByPayoutId Num))
      → ((id : ℕ) → is_staked bn id stakes ≡ false)
      → stakes ≡ []
  unfolding is_staked
  no_stakes [] k = refl
  no_stakes (s ∷ stakes) k =
      absurd (contradiction (sym (rw (==_refl s.payout_id) refl) ∙ k s.payout_id))

  -- The payouts of a market after one is chosen, or none.
  abbrev pub marked : ℕ → Option ℕ → PayoutRow Num → PayoutRow Num
  marked market_id none p =
      if p.market_id == market_id then record p { tentative_winning = 0 } else p
  marked market_id (some id) p =
      if p.market_id == market_id
      then record p { tentative_winning = if p.payout_id == id then 1 else 0 }
      else p

  abbrev id_of : Option (StakesByPayoutId Num) → Option ℕ
  id_of none = none
  id_of (some s) = some s.payout_id

  mark_payouts_lem :
      (market_id : ℕ) (best : Option (StakesByPayoutId Num)) (payouts : List (PayoutRow Num))
      → mark_payouts bn market_id best payouts ≡ map (marked market_id (id_of best)) payouts
  unfolding mark_payouts update_where
  mark_payouts_lem market_id none [] = refl
  mark_payouts_lem market_id (some best) [] = refl
  mark_payouts_lem market_id none (p ∷ payouts) =
      let rest = mark_payouts_lem market_id none payouts in
      elim (Bool-cases (p.market_id == market_id)) [
        | inl e ↦ rw e (ap (◌∷◌ (record p { tentative_winning = 0 })) rest)
        | inr e ↦ rw e (ap (◌∷◌ p) rest)
      ]
  mark_payouts_lem market_id (some best) (p ∷ payouts) =
      let rest = mark_payouts_lem market_id (some best) payouts in
      elim (Bool-cases (p.market_id == market_id)) [
        | inl e ↦ elim (Bool-cases (p.payout_id == best.payout_id)) [
          | inl k ↦ rw (e, k) (rw (e, k) (ap (◌∷◌ (record p { tentative_winning = 1 })) rest))
          | inr k ↦ rw (e, k) (rw (e, k) (ap (◌∷◌ (record p { tentative_winning = 0 })) rest))
        ]
        | inr e ↦ rw e (rw e (ap (◌∷◌ p) rest))
      ]

  -- What a market's payouts come to, for its stakes and the choice that was made from their groups.
  abbrev pub IsChosen :
      ℕ → List (StakesByPayoutId Num) → List (PayoutRow Num) → List (PayoutRow Num) → Type 0
  IsChosen market_id stakes payouts payouts' =
      ((stakes ≡ []) × (payouts' ≡ map (marked market_id none) payouts))
      ⊎ ((id : ℕ) × IsMostStaked id stakes × (payouts' ≡ map (marked market_id (some id)) payouts))

  groups-IsChosen :
      (market_id : ℕ) (stakes groups : List (StakesByPayoutId Num)) (payouts : List (PayoutRow Num))
      → ((id : ℕ) → total bn id groups ≡ total bn id stakes)
      → ((id : ℕ) → is_staked bn id groups ≡ is_staked bn id stakes)
      → IsAscending bn 0 groups
      → IsChosen market_id stakes payouts (mark_payouts bn market_id (first_of bn groups) payouts)
  unfolding is_staked
  groups-IsChosen market_id stakes [] payouts k s o =
      inl (no_stakes stakes (λ id. sym (s id)), mark_payouts_lem market_id none payouts)
  groups-IsChosen market_id stakes (g ∷ groups) payouts k s o =
      let best = most_staked bn g groups in
      inr (
        best.payout_id,
        first_of-IsMostStaked stakes (g ∷ groups) best k s o refl,
        mark_payouts_lem market_id (some best) payouts,
      )

  or_false : (a : Bool) → (a || false) ≡ a
  or_false true = refl
  or_false false = refl

  -- After `updateTentativeWinningPayout` at most one payout of the market is tentatively winning: if
  -- the market has a completed crowdsourcer or an initial report, the one with such a stake on which
  -- no less is staked than on any other (equal stakes on a payout count once), and if it has neither,
  -- none. The payouts of other markets stay.
  pub update_tentative_winning_payout_lem :
      (market_id : ℕ) (w : World Num)
      → IsChosen market_id
          (market_stakes bn market_id w.db)
          w.db.payouts
          (update_tentative_winning_payout bn market_id w).1.db.payouts
  unfolding update_tentative_winning_payout total is_staked IsAscending
  update_tentative_winning_payout_lem market_id w =
      let stakes = market_stakes bn market_id w.db in
      groups-IsChosen market_id stakes (group_by_and_sum bn [] stakes) w.db.payouts
        (λ id. total-group_by_and_sum bn id [] stakes ∙ plus-zero_bn _)
        (λ id. is_staked-group_by_and_sum bn id [] stakes ∙ or_false _)
        (group_by_and_sum-IsAscending bn [] stakes tt)
