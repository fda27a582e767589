-- ===== src/Persistence/Ledger/Frames.antt =====
-- The statements that leave accounts and entries alone, and what the locks of an account give.
use waw_discord_bot.Prelude.{
  Option, List, [], ◌∷◌, none, ◌≡◌, refl, sym, subst, some, String, str_eq, find, arith,
  >>=-eq-some, ◌∙◌,
}
use waw_discord_bot.Persistence.Database.{
  Db, AccountRow, set_account, OperationRow, AuditRow, ClaimRow, BetRow, SettlementRow, BetStatus,
  insert_operation, insert_audit, insert_claim, insert_bet, insert_settlement, update_bet,
}
use waw_discord_bot.Persistence.Queries.{finish, find_account, find_enrollment, lock_active_account}
use waw_discord_bot.Persistence.Ledger.{SameCredit, Balances}
use waw_discord_bot.Persistence.Ledger.Posting.{found-account_id}

pub insert_operation-SameCredit :
    (row : OperationRow) (db : Db) {db' : Db}
    → insert_operation row db ≡ some db'
    → SameCredit db db'
unfolding insert_operation
insert_operation-SameCredit row db h = ground arith

pub insert_audit-SameCredit :
    (row : AuditRow) (db : Db) {db' : Db} → insert_audit row db ≡ some db' → SameCredit db db'
unfolding insert_audit
insert_audit-SameCredit row db h = ground arith

pub insert_claim-SameCredit :
    (row : ClaimRow) (db : Db) {db' : Db} → insert_claim row db ≡ some db' → SameCredit db db'
unfolding insert_claim
insert_claim-SameCredit row db h = ground arith

pub insert_bet-SameCredit :
    (row : BetRow) (db : Db) {db' : Db} → insert_bet row db ≡ some db' → SameCredit db db'
unfolding insert_bet
insert_bet-SameCredit row db h = ground arith

pub insert_settlement-SameCredit :
    (row : SettlementRow) (db : Db) {db' : Db}
    → insert_settlement row db ≡ some db'
    → SameCredit db db'
unfolding insert_settlement
insert_settlement-SameCredit row db h = ground arith

pub update_bet-SameCredit :
    (id : String) (status : BetStatus) (settlement : String) (db : Db)
    → SameCredit db (update_bet id status settlement db)
unfolding update_bet
update_bet-SameCredit id status settlement db = record { accounts = refl; ledger = refl }

pub SameCredit-refl : (db : Db) → SameCredit db db
SameCredit-refl db = record { accounts = refl; ledger = refl }

pub SameCredit-trans : {a b c : Db} → SameCredit a b → SameCredit b c → SameCredit a c
SameCredit-trans f g = record { accounts = g.accounts ∙ f.accounts; ledger = g.ledger ∙ f.ledger }

-- A row that was found by any identifier is found by its own.
pub find_account-own :
    (id : String) (db : Db) {row : AccountRow}
    → find_account id db ≡ some row
    → find_account row.account_id db ≡ some row
find_account-own id db {row} h =
    subst (λ x. find_account x db ≡ some row) (sym (found-account_id id db.accounts h)) h

pub find_account-SameCredit :
    (id : String) (db : Db) {db' : Db} {row : AccountRow}
    → SameCredit db db'
    → find_account id db ≡ some row
    → find_account id db' ≡ some row
find_account-SameCredit id db {row} s h =
    subst (λ rows. find (λ r. str_eq r.account_id id) rows ≡ some row) (sym s.accounts) h

pub lock_active_account-found :
    (guild user : String) (db : Db) {row : AccountRow}
    → lock_active_account guild user db ≡ some row
    → find_account row.account_id db ≡ some row
unfolding lock_active_account
lock_active_account-found guild user db h =
    let (e, _, found) = >>=-eq-some (find_enrollment guild user db) _ h in
    find_account-own e.account_id db found

pub find_account-set :
    (id : String) (f : AccountRow → AccountRow) (rows : List AccountRow) {row : AccountRow}
    → ((s : AccountRow) → (f s).account_id ≡ s.account_id)
    → find (λ r. str_eq r.account_id id) rows ≡ some row
    → find (λ r. str_eq r.account_id id) (set_account id f rows) ≡ some (f row)
find_account-set id f [] keeps h = cc
find_account-set id f (r ∷ rs) {row} keeps h =
    ground (arith, keeps r, find_account-set id f rs {row = row} keeps)

-- The account of an enrollment is locked again after its row was changed.
pub lock_active_account-set :
    (guild user : String) (f : AccountRow → AccountRow) (db db' : Db) (account : AccountRow)
    → ((s : AccountRow) → (f s).account_id ≡ s.account_id)
    → db'.enrollments ≡ db.enrollments
    → db'.accounts ≡ set_account account.account_id f db.accounts
    → lock_active_account guild user db ≡ some account
    → lock_active_account guild user db' ≡ some (f account)
unfolding lock_active_account
lock_active_account-set guild user f db db' account keeps same rows h =
    let (e, enrolled, found) = >>=-eq-some (find_enrollment guild user db) _ h in
    let own = found-account_id e.account_id db.accounts found in
    let again = find_account-set e.account_id f db.accounts keeps found in
    let moved =
      subst
        (λ x.
          find (λ r. str_eq r.account_id e.account_id) (set_account x f db.accounts)
          ≡ some (f account))
        (sym own) again in
    rw (same, enrolled)
      (subst (λ rows. find (λ r. str_eq r.account_id e.account_id) rows ≡ some (f account))
        (sym rows) moved)

-- It is locked as before where the tables of the join are as before.
pub lock_active_account-same :
    (guild user : String) (db db' : Db) {account : AccountRow}
    → db'.enrollments ≡ db.enrollments
    → db'.accounts ≡ db.accounts
    → lock_active_account guild user db ≡ some account
    → lock_active_account guild user db' ≡ some account
unfolding lock_active_account
lock_active_account-same guild user db db' e a locked = rw (e, a) locked

-- A transaction keeps the ledger balanced if its committed results do.
pub finish-Balances {ℓ} :
    {A : Type ℓ} (db : Db) (o : Option (A × Db))
    → Balances db
    → ((r : A) (db' : Db) → o ≡ some (r, db') → Balances db')
    → Balances (finish db o).1
finish-Balances db none b h = b
finish-Balances db (some (r, db')) b h = h r db' refl
