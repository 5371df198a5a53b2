-- ===== src/Tokens/Writes.antt =====
-- The writes of the token logs as shifts of a ledger, and their sequences
-- (src/blockchain/log-processors/token/*.ts).
use augur_node.Prelude.{
  ℕ, ◌≡◌, ◌≢◌, refl, sym, ap, subst, ◌∙◌, Bool, true, false, none, some, List, ◌==◌, if◌then◌else◌,
  Bool-cases, Option-cases, inl, inr, ==_iff, ok,
}
use augur_node.Prelude.Tables.{first_where, update_where, insert_row}
use augur_node.BigNumber.{BigNumber, is_zero, zero_bn-plus, zero_of_is_zero, negated-zero_bn}
use augur_node.Database.{Db, BalanceRow, SupplyRow, Emission, modify, emit, then_ok, ◌>>◌}
use augur_node.Tokens.{
  is_balance_of, is_supply_of, set_balance, set_supply, increase_token_balance,
  decrease_token_balance, increase_token_supply, decrease_token_supply, is_legacy_reputation_token,
  Do, W, write_balance, update_balance,
}
use augur_node.Tokens.Ledger as L
use augur_node.Tokens.Shifts as S

module _ (bn : BigNumber) (legacy : ℕ) where
  open bn use {
    Num, zero_bn, plus, minus, negated, lt, plus_comm, plus_assoc, plus-zero_bn, minus_lem,
  }

  -- From one state of the tables to another, what is added to the supply of every token, and for
  -- every token but the legacy one to each balance and to the sum of all balances.
  abbrev pub Shift : (ℕ → Num) → (ℕ → ℕ → Num) → (ℕ → Num) → Db Num → Db Num → Type 0
  Shift s b t d d' =
      L.UniqueKeys bn d.balances
      → L.UniqueKeys bn d'.balances
        × ((u : ℕ)
            → L.supply_of bn u d'.token_supply ≡ plus (L.supply_of bn u d.token_supply) (s u))
        × ((u : ℕ)
            → u ≢ legacy
            → (L.total bn u d'.balances ≡ plus (L.total bn u d.balances) (t u))
              × ((o : ℕ)
                  → L.balance_of bn u o d'.balances
                    ≡ plus (L.balance_of bn u o d.balances) (b u o)))

  -- Whenever the write returns, it is that shift.
  abbrev pub Does : (ℕ → Num) → (ℕ → ℕ → Num) → (ℕ → Num) → Do bn → Type 0
  Does s b t m = (w w' : W bn) → m w ≡ (ok tt, w') → Shift s b t w.db w'.db

  abbrev pub nothing : ℕ → Num
  nothing u = zero_bn

  abbrev pub nothing_at : ℕ → ℕ → Num
  nothing_at u o = zero_bn

  pub Does-keep :
      (f : Db Num → Db Num)
      → ((d : Db Num) → (f d).balances ≡ d.balances)
      → ((d : Db Num) → (f d).token_supply ≡ d.token_supply)
      → Does nothing nothing_at nothing (modify f)
  Does-keep f kb ks w w' h =
      subst (Shift nothing nothing_at nothing w.db) (ap (λ p. p.1.db) h) (λ k. (
        subst (L.UniqueKeys bn) (sym (kb w.db)) k,
        (λ u. ap (L.supply_of bn u) (ks w.db) ∙ sym (plus-zero_bn _)),
        λ u n. (
          ap (L.total bn u) (kb w.db) ∙ sym (plus-zero_bn _),
          λ o. ap (L.balance_of bn u o) (kb w.db) ∙ sym (plus-zero_bn _),
        ),
      ))

  pub Does-emit : (e : Emission) → Does nothing nothing_at nothing (emit e)
  Does-emit e w w' h = subst (Shift nothing nothing_at nothing w.db) (ap (λ p. p.1.db) h) (λ k.
      (k, (λ u. sym (plus-zero_bn _)), λ u n. (sym (plus-zero_bn _), λ o. sym (plus-zero_bn _))))

  pub Does-then :
      {s s' : ℕ → Num} {b b' : ℕ → ℕ → Num} {t t' : ℕ → Num} {m k : Do bn}
      → Does s b t m
      → Does s' b' t' k
      → Does
          (λ u. plus (s u) (s' u))
          (λ u o. plus (b u o) (b' u o))
          (λ u. plus (t u) (t' u))
          (m >> k)
  Does-then {m = m} {k = k} hm hk w w'' h =
      let (a, w', e, e') = then_ok m k w h in
      λ unique.
        let (i, is, ib) = hm w w' e unique in
        let (j, js, jb) = hk w' w'' e' i in
        (
          j,
          (λ u. chain (is u) (js u)),
          λ u n. (chain (ib u n).0 (jb u n).0, λ o. chain ((ib u n).1 o) ((jb u n).1 o)),
        )
    where
      chain : {x y z p q : Num} → y ≡ plus x p → z ≡ plus y q → z ≡ plus x (plus p q)
      chain {x} {y} {z} {p} {q} e e' = e' ∙ ap (λ v. plus v q) e ∙ plus_assoc x p q

  -- The same shift, written differently.
  pub Does-as :
      {s s' : ℕ → Num} {b b' : ℕ → ℕ → Num} {t t' : ℕ → Num} {m : Do bn}
      → ((u : ℕ) → s u ≡ s' u)
      → ((u o : ℕ) → b u o ≡ b' u o)
      → ((u : ℕ) → t u ≡ t' u)
      → Does s b t m
      → Does s' b' t' m
  Does-as es eb et d w w' h unique =
      let (j, js, jb) = d w w' h unique in
      (
        j,
        (λ u. js u ∙ ap (plus _) (es u)),
        λ u n. ((jb u n).0 ∙ ap (plus _) (et u), λ o. (jb u n).1 o ∙ ap (plus _) (eb u o)),
      )

  -- A write beside one that shifts nothing, and a write of the supply before one of a balance.
  module _ {s : ℕ → Num} {b : ℕ → ℕ → Num} {t : ℕ → Num} {m k : Do bn} where
    pub Does-before : Does nothing nothing_at nothing m → Does s b t k → Does s b t (m >> k)
    Does-before hm hk =
        Does-as {m = m >> k} (λ u. zero_bn-plus bn _) (λ u o. zero_bn-plus bn _)
          (λ u. zero_bn-plus bn _) (Does-then {m = m} {k = k} hm hk)

    pub Does-after : Does s b t m → Does nothing nothing_at nothing k → Does s b t (m >> k)
    Does-after hm hk =
        Does-as {m = m >> k} (λ u. plus-zero_bn _) (λ u o. plus-zero_bn _) (λ u. plus-zero_bn _)
          (Does-then {m = m} {k = k} hm hk)

    pub Does-both : Does s nothing_at nothing m → Does nothing b t k → Does s b t (m >> k)
    Does-both hm hk =
        Does-as {m = m >> k} (λ u. plus-zero_bn _) (λ u o. zero_bn-plus bn _)
          (λ u. zero_bn-plus bn _) (Does-then {m = m} {k = k} hm hk)

  only_at_legacy :
      (token owner : ℕ) (a : Num) (u o : ℕ)
      → token ≡ legacy
      → u ≢ legacy
      → S.only_at bn token owner a u o ≡ zero_bn
  only_at_legacy token owner a u o e n = elim (Bool-cases (token == u)) [
    | inl q ↦ elim (n (sym ((==_iff token u).0 q) ∙ e)) [ ]
    | inr q ↦ rw q refl
  ]

  only_for_legacy :
      (token : ℕ) (a : Num) (u : ℕ)
      → token ≡ legacy
      → u ≢ legacy
      → L.only_for bn token a u ≡ zero_bn
  only_for_legacy token a u e n = elim (Bool-cases (token == u)) [
    | inl q ↦ elim (n (sym ((==_iff token u).0 q) ∙ e)) [ ]
    | inr q ↦ rw q refl
  ]

  if-zero : (c : Bool) {a : Num} → a ≡ zero_bn → (if c then a else zero_bn) ≡ zero_bn
  if-zero true e = e
  if-zero false e = refl

  Shift-same :
      {s : ℕ → Num} {b : ℕ → ℕ → Num} {t : ℕ → Num} {d d' : Db Num}
      → d ≡ d'
      → ((u : ℕ) → s u ≡ zero_bn)
      → ((u : ℕ) → u ≢ legacy → (t u ≡ zero_bn) × ((o : ℕ) → b u o ≡ zero_bn))
      → Shift s b t d d'
  Shift-same {s} {b} {t} {d} {d'} e zs zt =
      subst (Shift s b t d) e
        (λ k. (k, (λ u. added (zs u)), λ u n. (added (zt u n).0, λ o. added ((zt u n).1 o))))
    where
      added : {x a : Num} → a ≡ zero_bn → x ≡ plus x a
      added {x} z = sym (ap (plus x) z ∙ plus-zero_bn x)

  Shift-supply :
      {s : ℕ → Num} (d : Db Num) (rows : List (SupplyRow Num))
      → ((u : ℕ) → L.supply_of bn u rows ≡ plus (L.supply_of bn u d.token_supply) (s u))
      → Shift s nothing_at nothing d (record d { token_supply = rows })
  Shift-supply d rows k unique =
      (unique, k, λ u n. (sym (plus-zero_bn _), λ o. sym (plus-zero_bn _)))

  Shift-balance_update :
      (token owner : ℕ) (a : Num) (d : Db Num) {r : BalanceRow Num}
      → first_where (is_balance_of token owner) d.balances ≡ some r
      → Shift nothing (S.only_at bn token owner a) (L.only_for bn token a) d (record d {
        balances =
            update_where (is_balance_of token owner) (set_balance (plus r.balance a)) d.balances;
      })
  Shift-balance_update token owner a d {r} h k = (
    L.UniqueKeys-update bn token owner (plus r.balance a) d.balances k,
    (λ u. sym (plus-zero_bn _)),
    λ u n. (
      L.total-update bn u token owner a d.balances k h,
      λ o. S.balance_of-update bn token owner a d.balances u o h,
    ),
  )

  Shift-balance_insert :
      (token owner : ℕ) (a : Num) (d : Db Num)
      → first_where (is_balance_of token owner) d.balances ≡ none
      → Shift nothing (S.only_at bn token owner a) (L.only_for bn token a) d (record d {
        balances = insert_row (record { token = token; owner = owner; balance = a }) d.balances;
      })
  Shift-balance_insert token owner a d h k = (
    L.UniqueKeys-insert bn (record { token = token; owner = owner; balance = a }) d.balances h k,
    (λ u. sym (plus-zero_bn _)),
    λ u n. (
      L.total-insert bn u (record { token = token; owner = owner; balance = a }) d.balances,
      λ o. S.balance_of-insert bn token owner a d.balances u o h,
    ),
  )

  -- A row that was written has passed its check.
  written :
      (b : Num) (m : Do bn) (w w' : W bn) → write_balance bn b m w ≡ (ok tt, w') → m w ≡ (ok tt, w')
  written b m w w' h = elim (Bool-cases (lt b zero_bn)) [
    | inl e ↦ cc (ap (λ p. p.0) (rw e at h))
    | inr e ↦ rw e at h
  ]

  abbrev insert_balance : ℕ → ℕ → Num → Do bn
  insert_balance token owner a = modify (λ db. record db {
    balances = insert_row (record { token = token; owner = owner; balance = a }) db.balances;
  })

  pub Does-increase_token_balance :
      (token owner : ℕ) (a : Num)
      → Does nothing
          (S.only_at bn token owner a)
          (L.only_for bn token a)
          (increase_token_balance bn legacy token owner a)
  unfolding increase_token_balance is_legacy_reputation_token
  Does-increase_token_balance token owner a w w' h = elim (Bool-cases (token == legacy)) [
    | inl e ↦
        Shift-same (ap (λ p. p.1.db) (rw e at h)) (λ u. refl)
          (λ u n. (
            only_for_legacy token a u ((==_iff token legacy).0 e) n,
            λ o. only_at_legacy token owner a u o ((==_iff token legacy).0 e) n,
          ))
    | inr e ↦ elim (Option-cases (first_where (is_balance_of token owner) w.db.balances)) [
      | inl f ↦
          subst (Shift nothing (S.only_at bn token owner a) (L.only_for bn token a) w.db)
            (ap (λ p. p.1.db) (written a (insert_balance token owner a) w w' (rw f at (rw e at h))))
            (Shift-balance_insert token owner a w.db f)
      | inr (r, f) ↦
          subst (Shift nothing (S.only_at bn token owner a) (L.only_for bn token a) w.db)
            (ap (λ p. p.1.db)
              (written (plus r.balance a) (update_balance bn token owner (plus r.balance a)) w w'
                (rw f at (rw e at h))))
            (Shift-balance_update token owner a w.db f)
    ]
  ]

  pub Does-decrease_token_balance :
      (token owner : ℕ) (a : Num)
      → Does nothing
          (S.only_at bn token owner (negated a))
          (L.only_for bn token (negated a))
          (decrease_token_balance bn legacy token owner a)
  unfolding decrease_token_balance is_legacy_reputation_token
  Does-decrease_token_balance token owner a w w' h = elim (Bool-cases (token == legacy)) [
    | inl e ↦
        Shift-same (ap (λ p. p.1.db) (rw e at h)) (λ u. refl)
          (λ u n. (
            only_for_legacy token (negated a) u ((==_iff token legacy).0 e) n,
            λ o. only_at_legacy token owner (negated a) u o ((==_iff token legacy).0 e) n,
          ))
    | inr e ↦ elim (Bool-cases (is_zero bn a)) [
      | inl z ↦
          Shift-same (ap (λ p. p.1.db) (rw z at (rw e at h))) (λ u. refl)
            (λ u n. (if-zero _ (negated_zero z), λ o. if-zero _ (negated_zero z)))
      | inr z ↦ elim (Option-cases (first_where (is_balance_of token owner) w.db.balances)) [
        | inl f ↦ cc (ap (λ p. p.0) (rw f at (rw z at (rw e at h))))
        | inr (r, f) ↦
            subst
              (Shift nothing (S.only_at bn token owner (negated a))
                (L.only_for bn token (negated a)) w.db)
              (ap (λ b. lowered b) (sym (minus_lem r.balance a))
                ∙ ap (λ p. p.1.db)
                    (written (minus r.balance a) (update_balance bn token owner (minus r.balance a))
                      w w' (rw f at (rw z at (rw e at h)))))
              (Shift-balance_update token owner (negated a) w.db f)
      ]
    ]
  ]
    where
      lowered : Num → Db Num
      lowered b = record (w.db) {
        balances = update_where (is_balance_of token owner) (set_balance b) w.db.balances;
      }

      negated_zero : is_zero bn a ≡ true → negated a ≡ zero_bn
      negated_zero z = ap negated (zero_of_is_zero bn a z) ∙ negated-zero_bn bn

  pub Does-increase_token_supply :
      (token : ℕ) (a : Num)
      → Does (L.only_for bn token a) nothing_at nothing (increase_token_supply bn token a)
  unfolding increase_token_supply
  Does-increase_token_supply token a w w' h =
      elim (Option-cases (first_where (is_supply_of token) w.db.token_supply)) [
        | inl f ↦
            subst (Shift (L.only_for bn token a) nothing_at nothing w.db)
              (ap (λ p. p.1.db) (rw f at h))
              (Shift-supply w.db _ (λ u. S.supply_of-insert bn token a w.db.token_supply u f))
        | inr (r, f) ↦
            subst (Shift (L.only_for bn token a) nothing_at nothing w.db)
              (ap (λ p. p.1.db) (rw f at h))
              (Shift-supply w.db _ (λ u. S.supply_of-update bn token a w.db.token_supply u f))
      ]

  pub Does-decrease_token_supply :
      (token : ℕ) (a : Num)
      → Does (L.only_for bn token (negated a)) nothing_at nothing (decrease_token_supply bn token a)
  unfolding decrease_token_supply
  Does-decrease_token_supply token a w w' h = elim (Bool-cases (is_zero bn a)) [
    | inl z ↦
        Shift-same (ap (λ p. p.1.db) (rw z at h))
          (λ u. if-zero _ (ap negated (zero_of_is_zero bn a z) ∙ negated-zero_bn bn))
          (λ u n. (refl, λ o. refl))
    | inr z ↦ elim (Option-cases (first_where (is_supply_of token) w.db.token_supply)) [
      | inl f ↦ cc (ap (λ p. p.0) (rw f at (rw z at h)))
      | inr (r, f) ↦
          subst (Shift (L.only_for bn token (negated a)) nothing_at nothing w.db)
            (ap (λ b. lowered b) (sym (minus_lem r.supply a))
              ∙ ap (λ p. p.1.db) (rw f at (rw z at h)))
            (Shift-supply w.db _
              (λ u. S.supply_of-update bn token (negated a) w.db.token_supply u f))
    ]
  ]
    where
      lowered : Num → Db Num
      lowered s = record (w.db) {
        token_supply = update_where (is_supply_of token) (set_supply s) w.db.token_supply;
      }
