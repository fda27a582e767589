-- ===== src/Persistence/SettlementStore/Settled.antt =====
-- What a settlement has done, and a settlement that is sent again.
use waw_discord_bot.Prelude.{
  ℕ, ◌≡◌, ◌≢◌, ◌⊎◌, refl, sym, ap, subst, ◌∙◌, Option, none, some, arith, Option-cases, inl, inr,
  Bool-cases, ℤ, find-Mem, false, ◌-ℤ◌, ◌<ℤ◌, eq_iff, find, str_eq, eqb_ℤ, ltb_ℤ, eqb_ℤ→eq, true,
}
use mathlib.Core.Option
use mathlib.Core.List.{Mem}
use waw_discord_bot.Kbo.Settlement.{
  KboSettlementInput, DeltaAllocation, Allocation, allocated, allocate_settlement_delta,
  invalid_account_projection, invalid_void_refund,
}
use waw_discord_bot.Persistence.Database.{Db, AccountRow, BetRow, GameRow, SettlementRow}
use waw_discord_bot.Persistence.Queries.{find_account, lock_game}
use waw_discord_bot.Persistence.SettlementStore.{
  DenialReason, rights_unauthorized, bet_not_found, game_data_unavailable, revision_not_current,
  revision_not_newer, game_not_terminal, already_settled, SettledBet, settled, claim_operation,
  commit_denied, settled_row, find_settlement_by_operation, lock_bet, current_settlement,
  Calculated, Calculation, calculated, not_terminal, failed, calculate_settlement,
}
use waw_discord_bot.Persistence.SettlementStore.Laws.{lock_owner-found}
use waw_discord_bot.Persistence.SettlementStore.Transaction.{
  lock_owner, delta_input, previous_return, is_authorized, settle_new, settle_calculated,
  settle_bet, settle_locked, settle_on, settle_for, settle_tx,
}
use waw_discord_bot.Persistence.SettlementStore.Payment.{
  worth, worth_after, allocate-conserves, IsWritten, claim_operation-tables,
  write_settlement-IsWritten,
}

-- The revision is above that of the settlement before, if there is one.
abbrev pub IsNewer : Option SettlementRow → ℤ → Type 0
IsNewer none revision = Unit {0}
IsNewer (some previous) revision = previous.game_revision <ℤ revision

-- The operation of a settlement is of a settlement that is stored: the stored one is reported, joined
-- with its ledger entry, and the tables stay.
pub record IsRepeated (i : KboSettlementInput) (db : Db) (s : SettledBet) (db' : Db) : Type 0 where
  pub unchanged : db' ≡ db
  pub row : SettlementRow
  pub stored : Mem row db.settlements
  pub same_operation : row.operation_id ≡ i.operation_id
  pub reported : settled_row db.ledger row ≡ s

found-IsRepeated :
    (i : KboSettlementInput) (db : Db) {s : SettledBet} {db' : Db}
    → db' ≡ db
    → find_settlement_by_operation i.operation_id db ≡ some s
    → IsRepeated i db s db'
unfolding find_settlement_by_operation
found-IsRepeated i db {s} same known =
    elim (Option-cases (find (λ r. str_eq r.operation_id i.operation_id) db.settlements)) [
      | inl absent ↦ absurd (ground arith)
      | inr (row, found) ↦
          let (stored, matched) = find-Mem _ db.settlements found in
          record {
            unchanged = same;
            row = row;
            stored = stored;
            same_operation = (eq_iff row.operation_id i.operation_id).0 matched;
            reported = ground arith;
          }
    ]

module _ (i : KboSettlementInput) (now : ℕ) where
  -- A bet that was settled now: it is the bet of the account on the game, the game is authorized and
  -- at the revision of the request, newer than that of the settlement before; the amount is what
  -- the rules give for the game, the delta what it adds to the amount before, and the account has it.
  pub record IsSettled (db : Db) (s : SettledBet) (db' : Db) : Type 0 where
    pub account : AccountRow
    pub game : GameRow
    pub bet : BetRow
    pub c : Calculated
    pub fit : is_authorized i.rights_status ≡ true
    pub owned : lock_owner i db ≡ some account
    pub listed : lock_game i.game_id db ≡ some game
    pub locked : lock_bet i db ≡ some bet
    pub own : bet.account_id ≡ account.account_id
    pub current : game.current_revision ≡ i.game_revision
    pub newer : IsNewer (current_settlement bet db) i.game_revision
    pub decided :
        calculate_settlement bet game.status game.home_score game.away_score ≡ calculated c
    pub returned : s.return_amount ≡ c.return_amount
    pub applied : s.applied_delta ≡ c.return_amount -ℤ previous_return (current_settlement bet db)
    pub conserved : s.available_delta -ℤ s.debt_delta ≡ s.applied_delta
    pub paid : Option.map worth (find_account account.account_id db') ≡ some (worth_after account s)
    pub known : find_settlement_by_operation i.operation_id db' ≡ some s

  commit_denied-ne-settled :
      (reason : DenialReason) (db : Db) {s : SettledBet} {db' : Db}
      → commit_denied i now reason db ≢ some (settled s, db')
  unfolding commit_denied
  commit_denied-ne-settled reason db = ground arith

  one_before :
      (bet : BetRow) (db : Db) (previous : SettlementRow)
      → current_settlement bet db ≡ some previous
      → eqb_ℤ previous.game_revision i.game_revision ≡ false
      → ltb_ℤ i.game_revision previous.game_revision ≡ false
      → IsNewer (current_settlement bet db) i.game_revision
  one_before bet db previous h other newer =
      let older : previous.game_revision <ℤ i.game_revision = ground arith in rw h older

  -- The account, the game and the bet that a settlement has locked, and the amount for them.
  module _ (account : AccountRow) (game : GameRow) (bet : BetRow) (db : Db) {s : SettledBet}
      {db' : Db} (fit : is_authorized i.rights_status ≡ true)
      (new : find_settlement_by_operation i.operation_id db ≡ none)
      (owned : lock_owner i db ≡ some account)
      (found : find_account account.account_id db ≡ some account)
      (listed : lock_game i.game_id db ≡ some game)
      (current : game.current_revision ≡ i.game_revision) (locked : lock_bet i db ≡ some bet)
      (own : bet.account_id ≡ account.account_id) where
    settle_new-IsWritten :
        (c : Calculated) (applied : ℤ) (delta : DeltaAllocation)
        → settle_new i now account bet c applied delta db ≡ some (settled s, db')
        → IsWritten i now account c applied delta s db'
    unfolding settle_new
    settle_new-IsWritten c applied delta h = elim (Option-cases (claim_operation i now none db)) [
      | inl conflict ↦ absurd (ground (arith, new))
      | inr (next, fresh) ↦
          let (accounts, _) = claim_operation-tables i now none db fresh in
          write_settlement-IsWritten i now account bet c applied delta next
            (subst (λ rows. find (λ r. str_eq r.account_id account.account_id) rows ≡ some account)
              (sym accounts) found)
            (rw (fresh, settle_new) at h)
    ]

    settle_calculated-IsSettled :
        (previous : Option SettlementRow) (o : Calculation)
        → current_settlement bet db ≡ previous
        → IsNewer (current_settlement bet db) i.game_revision
        → calculate_settlement bet game.status game.home_score game.away_score ≡ o
        → settle_calculated i now account bet previous o db ≡ some (settled s, db')
        → IsSettled db s db'
    unfolding settle_calculated
    settle_calculated-IsSettled previous failed before newer decided h = cc
    settle_calculated-IsSettled previous not_terminal before newer decided h =
        absurd (commit_denied-ne-settled game_not_terminal db h)
    settle_calculated-IsSettled previous (calculated c) before newer decided h =
        by_allocation (allocate_settlement_delta (delta_input account bet previous c)) refl
      where
        by_allocation :
            (a : Allocation)
            → allocate_settlement_delta (delta_input account bet previous c) ≡ a
            → IsSettled db s db'
        by_allocation (allocated delta) e =
            let w =
              settle_new-IsWritten c (c.return_amount -ℤ previous_return previous) delta
                (rw (e, settle_calculated) at h) in
            record {
              account = account;
              game = game;
              bet = bet;
              c = c;
              fit = fit;
              owned = owned;
              listed = listed;
              locked = locked;
              own = own;
              current = current;
              newer = newer;
              decided = decided;
              returned = rw w.result refl;
              applied = rw (w.result, before) refl;
              conserved = rw w.result (allocate-conserves (delta_input account bet previous c) e);
              paid = w.paid;
              known = w.known;
            }
        by_allocation invalid_account_projection e = absurd (ground arith)
        by_allocation invalid_void_refund e = absurd (ground arith)

    settle_bet-IsSettled :
        (previous : Option SettlementRow)
        → current_settlement bet db ≡ previous
        → settle_bet i now account game bet previous db ≡ some (settled s, db')
        → IsSettled db s db'
    unfolding settle_bet
    settle_bet-IsSettled none e h = settle_calculated-IsSettled none _ e (rw e tt) refl h
    settle_bet-IsSettled (some previous) e h =
        elim (Bool-cases (eqb_ℤ previous.game_revision i.game_revision)) [
          | inl again ↦ absurd (commit_denied-ne-settled already_settled db (rw again at h))
          | inr other ↦ elim (Bool-cases (ltb_ℤ i.game_revision previous.game_revision)) [
            | inl older ↦
                absurd (commit_denied-ne-settled revision_not_newer db (rw (other, older) at h))
            | inr newer ↦
                settle_calculated-IsSettled (some previous) _ e
                  (one_before bet db previous e other newer) refl (rw (other, newer) at h)
          ]
        ]

  settle_on-IsSettled :
      (account : AccountRow) (game : GameRow) (db : Db) {s : SettledBet} {db' : Db}
      → is_authorized i.rights_status ≡ true
      → find_settlement_by_operation i.operation_id db ≡ none
      → lock_owner i db ≡ some account
      → lock_game i.game_id db ≡ some game
      → settle_on i now account game db ≡ some (settled s, db')
      → IsSettled db s db'
  unfolding settle_on settle_locked
  settle_on-IsSettled account game db fit new owned listed h =
      elim (Bool-cases (eqb_ℤ game.current_revision i.game_revision)) [
        | inr old ↦
            absurd (commit_denied-ne-settled revision_not_current db (rw (old, settle_on) at h))
        | inl current ↦ elim (Option-cases (lock_bet i db)) [
          | inl absent ↦
              absurd
                (commit_denied-ne-settled bet_not_found db (rw (current, absent, settle_on) at h))
          | inr (bet, locked) ↦ elim (Bool-cases (str_eq bet.account_id account.account_id)) [
            | inl own ↦
                settle_bet-IsSettled account game bet db fit new owned
                  (lock_owner-found i now db owned) listed
                  (eqb_ℤ→eq game.current_revision i.game_revision current) locked
                  ((eq_iff bet.account_id account.account_id).0 own) _ refl
                  (rw (current, locked, own, settle_on, settle_locked) at h)
            | inr foreign ↦ absurd (
                commit_denied-ne-settled bet_not_found db
                  (rw (current, locked, foreign, settle_on, settle_locked) at h))
          ]
        ]
      ]

  settle_for-IsSettled :
      (account : AccountRow) (db : Db) {s : SettledBet} {db' : Db}
      → is_authorized i.rights_status ≡ true
      → find_settlement_by_operation i.operation_id db ≡ none
      → lock_owner i db ≡ some account
      → settle_for i now account db ≡ some (settled s, db')
      → IsSettled db s db'
  unfolding settle_for
  settle_for-IsSettled account db fit new owned h = elim (Option-cases (lock_game i.game_id db)) [
    | inl unlisted ↦
        absurd
          (commit_denied-ne-settled game_data_unavailable db (rw (new, unlisted, settle_for) at h))
    | inr (game, listed) ↦
        settle_on-IsSettled account game db fit new owned listed (rw (new, listed, settle_for) at h)
  ]

  -- A settlement that reports a settled bet either found its operation or has settled the bet.
  settle_tx_cases :
      (db : Db) {s : SettledBet} {db' : Db}
      → settle_tx i now db ≡ some (settled s, db')
      → ((db' ≡ db) × (find_settlement_by_operation i.operation_id db ≡ some s))
        ⊎ IsSettled db s db'
  unfolding settle_tx
  settle_tx_cases db {s} {db'} h =
      elim (Option-cases (find_settlement_by_operation i.operation_id db)) [
        | inr (twin, known) ↦
            let same : db' ≡ db = ground arith in
            let told : twin ≡ s = ground arith in inl (same, known ∙ ap some told)
        | inl new ↦ elim (Bool-cases (is_authorized i.rights_status)) [
          | inr unfit ↦
              absurd
                (commit_denied-ne-settled rights_unauthorized db (rw (new, unfit, settle_tx) at h))
          | inl fit ↦ elim (Option-cases (lock_owner i db)) [
            | inl absent ↦
                absurd (
                  commit_denied-ne-settled bet_not_found db (rw (new, fit, absent, settle_tx) at h))
            | inr (account, owned) ↦ inr (
                settle_for-IsSettled account db fit new owned
                  (rw (new, fit, owned, settle_tx) at h))
          ]
        ]
      ]

-- A settlement that reports a settled bet either repeats one: a stored settlement has its operation,
-- that one is reported and the tables stay; or it has settled the bet: the rights are held, the game is at the requested revision, which is newer than
-- that of the settlement before, the amount is what the rules give, the delta is what it adds to
-- the amount before, the balance less the debt changes by that delta, and the settlement is found.
pub settle_tx-IsSettled :
    (i : KboSettlementInput) (now : ℕ) (db : Db) {s : SettledBet} {db' : Db}
    → settle_tx i now db ≡ some (settled s, db')
    → IsRepeated i db s db' ⊎ IsSettled i now db s db'
settle_tx-IsSettled i now db h = elim (settle_tx_cases i now db h) [
  | inl (same, known) ↦ inl (found-IsRepeated i db same known)
  | inr new ↦ inr new
]

-- A settlement that is sent again with the operation of one that settled a bet, at any later instant
-- and with any other content, is answered as that one was and leaves the tables as they are.
pub settle_tx-settle_tx :
    (i j : KboSettlementInput) (now later : ℕ) (db : Db) {s : SettledBet} {db' : Db}
    → settle_tx i now db ≡ some (settled s, db')
    → j.operation_id ≡ i.operation_id
    → settle_tx j later db' ≡ some (settled s, db')
unfolding settle_tx
settle_tx-settle_tx i j now later db {s} {db'} h same_operation =
    let known : find_settlement_by_operation i.operation_id db' ≡ some s = kept in ground arith
  where
    kept : find_settlement_by_operation i.operation_id db' ≡ some s
    kept = elim (settle_tx_cases i now db h) [
      | inl (same, known) ↦
          subst (λ d. find_settlement_by_operation i.operation_id d ≡ some s) (sym same) known
      | inr new ↦ new.known
    ]
