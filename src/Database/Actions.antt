-- ===== src/Database/Actions.antt =====
-- A database write of the program: it reads and changes the tables, emits events to subscribers and
-- may throw. What was written before a throw stays written until the transaction is rolled back; an
-- event that was emitted cannot be taken back.
use augur_node.Prelude.{ℕ, ap, Option, none, some, List, [], ◌∷◌, ◌++◌, Result, ok, err, ◌≡◌, refl}
use augur_node.Database.Rows.{Db, ReportingState}

-- `SubscriptionEventNames`
pub data EventName : Type 0 where
  fee_window_opened complete_sets_purchased complete_sets_sold : EventName
  dispute_crowdsourcer_completed dispute_crowdsourcer_contribution : EventName
  dispute_crowdsourcer_created dispute_crowdsourcer_redeemed_log fee_window_closed : EventName
  fee_window_created fee_window_redeemed initial_report_submitted initial_reporter_redeemed :
      EventName
  initial_reporter_transferred market_created market_finalized market_migrated : EventName
  market_state order_canceled order_created order_filled reporting_participant_disavowed : EventName
  sync_finished tokens_transferred trading_proceeds_claimed universe_created burn : EventName
  tokens_burned approval : EventName

-- An emitted event: its name and what it is about. The payload of a log's event is built from that
-- log, which its transaction and index name.
pub data Emission : Type 0 where
  log_event : EventName → ℕ → ℕ → Emission
  market_state_event : ℕ → ℕ → ReportingState → Emission
  market_dispute_event : ℕ → ℕ → ℕ → ReportingState → Emission
  fee_window_event : EventName → ℕ → ℕ → ℕ → Emission
  -- An event of a log that `SubscriptionEventNames` has no name for.
  unnamed_event : ℕ → ℕ → Emission

-- The places that throw.
pub data Error : Type 0 where
  balance_not_found supply_not_found order_not_found token_not_found market_not_found : Error
  market_state_not_current block_without_timestamp timestamp_removal_failed : Error
  null_transaction_hash state_id_not_generated not_a_trader prior_state_not_found : Error
  dimension_error universe_not_found forking_market_not_found fee_window_not_found : Error
  crowdsourcer_not_found reporting_participant_not_found mailbox_not_found : Error
  mailbox_balance_failed payout_not_found category_not_found : Error
  rep_balance_not_found market_already_exists trade_not_found outcome_not_found : Error
  -- A CHECK and a UNIQUE of a table, which a written row fails.
  check_failed not_unique : Error

pub record World (N : Type 0) : Type 0 where
  pub db : Db N
  pub emitted : List Emission
  -- The variables `overrideTimestamps`, the last one first, and `blockHeadTimestamp`.
  pub override_timestamps : List ℕ
  pub block_head_timestamp : ℕ

abbrev pub Action : Type 0 → Type 0 → Type 0
Action N A = World N → Result Error A × World N

module _ {N A : Type 0} where
  abbrev pub pure : A → Action N A
  pure a w = (ok a, w)

  abbrev pub throw : Error → Action N A
  throw e w = (err e, w)

  abbrev pub gets : (Db N → A) → Action N A
  gets f w = (ok (f w.db), w)

  -- `if (row == null) throw new Error(e)`
  abbrev pub or_throw : Option A → Error → Action N A
  or_throw none e = throw e
  or_throw (some a) e = pure a

abbrev pub modify : {N : Type 0} → (Db N → Db N) → Action N (Unit {0})
modify f w = (ok tt, record w { db = f w.db })

abbrev pub emit : {N : Type 0} → Emission → Action N (Unit {0})
emit e w = (ok tt, record w { emitted = w.emitted ++ e ∷ [] })

abbrev pub lift : {N A : Type 0} → Result Error A → Action N A
lift r w = (r, w)

infixl 5 ◌>>=◌ ◌>>◌
abbrev pub ◌>>=◌ : {N A B : Type 0} → Action N A → (A → Action N B) → Action N B
◌>>=◌ m f w = let (r, w') = m w in elim r [ ok a ↦ f a w' | err e ↦ (err e, w') ]

abbrev pub ◌>>◌ : {N A B : Type 0} → Action N A → Action N B → Action N B
m >> k = m >>= λ _. k

-- `db.transaction`: a throw takes back every write of the body, and is thrown on.
unfoldable pub transaction : {N A : Type 0} → Action N A → Action N A
transaction m w =
    let (r, w') = m w in elim r [ ok a ↦ (ok a, w') | err e ↦ (err e, record w' { db = w.db }) ]

-- A sequence of writes that returns: both of its parts return.
pub then_ok :
    {N A B : Type 0} (m : Action N A) (k : Action N B) (w : World N) {b : B} {w'' : World N}
    → (m >> k) w ≡ (ok b, w'')
    → (a : A) × (w' : World N) × (m w ≡ (ok a, w')) × (k w' ≡ (ok b, w''))
then_ok {N} {A} {B} m k w {b} {w''} h = go (m w) refl h
  where
    go :
        (p : Result Error A × World N)
        → m w ≡ p
        → ◌≡◌ {A = Result Error B × World N}
            (elim p.0 [ ok a ↦ k p.1 | err e ↦ (err e, p.1) ])
            (ok b, w'')
        → (a : A) × (w' : World N) × (m w ≡ (ok a, w')) × (k w' ≡ (ok b, w''))
    go (ok a, w') e h = (a, w', e, h)
    go (err e, w') p h = cc

-- A sequence whose first part returns goes on with what it returned.
pub after_ok :
    {N A B : Type 0} (m : Action N A) (f : A → Action N B) (w : World N) {a : A} {w' : World N}
    → m w ≡ (ok a, w')
    → (m >>= f) w ≡ f a w'
after_ok {N} {A} {B} m f w h = ap (λ p. go_on p) h
  where
    go_on : Result Error A × World N → Result Error B × World N
    go_on p = elim p.0 [ ok a ↦ f a p.1 | err e ↦ (err e, p.1) ]
