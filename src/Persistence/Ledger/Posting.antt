-- ===== src/Persistence/Ledger/Posting.antt =====
-- The statements that change accounts and entries keep them in agreement.
use waw_discord_bot.Prelude.{
  ◌≡◌, refl, sym, ap, ◌∙◌, true, false, some, List, [], ◌∷◌, ◌+◌, ℕ, subst, find-All, All-const,
  +ℤ_comm, eqb_ℤ→eq, String, str_eq, eq_iff, pos, ◌+ℤ◌, ◌≤ℤ◌, All, find, arith, if◌then◌else◌,
  Bool-cases, inl, inr,
}
use waw_discord_bot.Persistence.Database.{
  Db, AccountRow, LedgerRow, has_account, set_account, ledger_ok, update_account, insert_account,
  insert_ledger,
}
use waw_discord_bot.Persistence.Ledger.{
  available_total, debt_total, IsPosted, IsBalanced, Balances, IsEntry, SameCredit,
}

-- An account without entries has the totals of a new one.
total_of_absent :
    (id : String) (rows : List AccountRow) (ledger : List LedgerRow)
    → has_account id rows ≡ false
    → All (λ e. has_account e.account_id rows ≡ true) ledger
    → (available_total id ledger ≡ pos 0) × (debt_total id ledger ≡ pos 0)
unfolding available_total debt_total
total_of_absent id rows [] h o = (refl, refl)
total_of_absent id rows (e ∷ es) h o =
    ground (arith, eq_iff e.account_id id, total_of_absent id rows es h o.1)

-- The totals that an entry gives the row of its account.
record IsMoved (e : LedgerRow) (ledger : List LedgerRow) (r : AccountRow) : Type 0 where
  available : r.available_balance ≡ e.available_delta +ℤ available_total e.account_id ledger
  debt : r.correction_debt ≡ e.debt_delta +ℤ debt_total e.account_id ledger
  solvent : pos 0 ≤ℤ r.available_balance
  owing : pos 0 ≤ℤ r.correction_debt

-- An entry, with the rows of its account set to the new totals.
IsPosted-set :
    (e : LedgerRow) (ledger : List LedgerRow) (f : AccountRow → AccountRow) (r : AccountRow)
    → ((s : AccountRow) → (f s).account_id ≡ s.account_id)
    → ((s : AccountRow) → s.account_id ≡ e.account_id → IsPosted ledger s → IsMoved e ledger (f s))
    → IsPosted ledger r
    → IsPosted (e ∷ ledger) (if str_eq r.account_id e.account_id then f r else r)
unfolding available_total debt_total
IsPosted-set e ledger f r keeps moves h = elim (Bool-cases (str_eq r.account_id e.account_id)) [
  | inl same ↦
      let id : r.account_id ≡ e.account_id = (eq_iff _ _).0 same in
      let m = moves r id h in
      let kept = (eq_iff e.account_id (f r).account_id).1 (sym (keeps r ∙ id)) in
      let id' : (f r).account_id ≡ e.account_id = keeps r ∙ id in
      rw same (record {
        available = ground (arith, m.available);
        debt = ground (arith, m.debt);
        solvent = m.solvent;
        owing = m.owing;
      })
  | inr other ↦ rw other (record {
    available = ground (arith, eq_iff r.account_id e.account_id, eq_iff e.account_id r.account_id);
    debt = ground (arith, eq_iff r.account_id e.account_id, eq_iff e.account_id r.account_id);
    solvent = h.solvent;
    owing = h.owing;
  })
]

module _ (f : AccountRow → AccountRow)
    (keeps : (s : AccountRow) → (f s).account_id ≡ s.account_id) where
  has_account-set :
      (id x : String) (rows : List AccountRow)
      → has_account x (set_account id f rows) ≡ has_account x rows
  has_account-set id x [] = refl
  has_account-set id x (r ∷ rs) = ground (arith, keeps r, has_account-set id x rs)

  owned-set :
      (id : String) (rows : List AccountRow) (ledger : List LedgerRow)
      → All (λ e. has_account e.account_id rows ≡ true) ledger
      → All (λ e. has_account e.account_id (set_account id f rows) ≡ true) ledger
  owned-set id rows [] h = tt
  owned-set id rows (e ∷ es) h =
      (has_account-set id e.account_id rows ∙ h.0, owned-set id rows es h.1)

  All-IsPosted-set :
      (e : LedgerRow) (ledger : List LedgerRow) (rows : List AccountRow)
      → ((s : AccountRow)
          → s.account_id ≡ e.account_id
          → IsPosted ledger s
          → IsMoved e ledger (f s))
      → All (IsPosted ledger) rows
      → All (IsPosted (e ∷ ledger)) (set_account e.account_id f rows)
  All-IsPosted-set e ledger [] moves h = tt
  All-IsPosted-set e ledger (r ∷ rs) moves h =
      (IsPosted-set e ledger f r keeps moves h.0, All-IsPosted-set e ledger rs moves h.1)

update_account-eq-some :
    (id : String) (f : AccountRow → AccountRow) (db : Db) {db' : Db}
    → update_account id f db ≡ some db'
    → record db { accounts = set_account id f db.accounts } ≡ db'
unfolding update_account
update_account-eq-some id f db h = ground arith

insert_ledger-eq-some :
    (e : LedgerRow) (db : Db) {db' : Db}
    → insert_ledger e db ≡ some db'
    → (record db {
      ledger = (record e { entry_id = db.next_entry_id }) ∷ db.ledger;
      next_entry_id = db.next_entry_id + 1;
    }
        ≡ db')
      × (ledger_ok (record e { entry_id = db.next_entry_id }) ≡ true)
      × (has_account e.account_id db.accounts ≡ true)
unfolding insert_ledger
insert_ledger-eq-some e db h = ground arith

ledger_ok-sums :
    (e : LedgerRow)
    → ledger_ok e ≡ true
    → (e.available_after ≡ e.available_delta +ℤ e.available_before)
      × (e.debt_after ≡ e.debt_delta +ℤ e.debt_before)
      × (pos 0 ≤ℤ e.available_after)
      × (pos 0 ≤ℤ e.debt_after)
unfolding ledger_ok
ledger_ok-sums e h = (
  eqb_ℤ→eq _ _ (ground arith) ∙ +ℤ_comm e.available_before e.available_delta,
  eqb_ℤ→eq _ _ (ground arith) ∙ +ℤ_comm e.debt_before e.debt_delta,
  ground arith,
  ground arith,
)

module _ (row : AccountRow) (f : AccountRow → AccountRow) (e : LedgerRow) (ledger : List LedgerRow)
    (entry : IsEntry row f e) (checked : ledger_ok e ≡ true) (old : IsPosted ledger row) where
  entry-IsMoved :
      (s : AccountRow) → s.account_id ≡ e.account_id → IsPosted ledger s → IsMoved e ledger (f s)
  entry-IsMoved s same h =
      let (available, debt, solvent, owing) = ledger_ok-sums e checked in
      let own : s.account_id ≡ row.account_id = same ∙ entry.account in
      let a : (f s).available_balance ≡ e.available_after =
        entry.available_after s
          (h.available ∙ ap (λ t. available_total t ledger) own ∙ sym old.available) in
      let d : (f s).correction_debt ≡ e.debt_after =
        entry.debt_after s (h.debt ∙ ap (λ t. debt_total t ledger) own ∙ sym old.debt) in
      record {
        available =
            a
            ∙ available
            ∙ ap (λ t. e.available_delta +ℤ t)
                (entry.available_before
                  ∙ old.available
                  ∙ ap (λ t. available_total t ledger) (sym entry.account));
        debt =
            d
            ∙ debt
            ∙ ap (λ t. e.debt_delta +ℤ t)
                (entry.debt_before ∙ old.debt ∙ ap (λ t. debt_total t ledger) (sym entry.account));
        solvent = subst (λ t. pos 0 ≤ℤ t) (sym a) solvent;
        owing = subst (λ t. pos 0 ≤ℤ t) (sym d) owing;
      }

post_rows :
    (row : AccountRow) (f : AccountRow → AccountRow) (e : LedgerRow) (accounts : List AccountRow)
    (ledger : List LedgerRow)
    → IsBalanced accounts ledger
    → find (λ r. str_eq r.account_id e.account_id) accounts ≡ some row
    → IsEntry row f e
    → ledger_ok e ≡ true
    → has_account e.account_id accounts ≡ true
    → IsBalanced (set_account e.account_id f accounts) (e ∷ ledger)
post_rows row f e accounts ledger b found entry checked known =
    let (_, old) = find-All (IsPosted ledger) _ accounts b.posted found in
    record {
      posted =
          All-IsPosted-set f entry.keeps e ledger accounts
            (entry-IsMoved row f e ledger entry checked old) b.posted;
      owned = owned-set f entry.keeps e.account_id accounts (e ∷ ledger) (known, b.owned);
    }

pub found-account_id :
    (id : String) (rows : List AccountRow) {row : AccountRow}
    → find (λ r. str_eq r.account_id id) rows ≡ some row
    → row.account_id ≡ id
found-account_id id rows found =
    (eq_iff _ _).0 (find-All (λ r. Unit {0}) _ rows (All-const rows) found).0

IsEntry-numbered :
    (row : AccountRow) (f : AccountRow → AccountRow) (e : LedgerRow) (n : ℕ)
    → IsEntry row f e
    → IsEntry row f (record e { entry_id = n })
IsEntry-numbered row f e n h = record {
  account = h.account;
  keeps = h.keeps;
  available_before = h.available_before;
  debt_before = h.debt_before;
  available_after = h.available_after;
  debt_after = h.debt_after;
}

-- The pair of statements by which every store moves credit keeps the ledger balanced.
pub post-Balances :
    (id : String) (row : AccountRow) (f : AccountRow → AccountRow) (e : LedgerRow) (db : Db)
    {db₁ db₂ : Db}
    → Balances db
    → find (λ r. str_eq r.account_id id) db.accounts ≡ some row
    → IsEntry row f e
    → update_account id f db ≡ some db₁
    → insert_ledger e db₁ ≡ some db₂
    → Balances db₂
post-Balances id row f e db {db₁} b found entry updated inserted =
    let same : id ≡ e.account_id = sym (entry.account ∙ found-account_id id db.accounts found) in
    let e' = record e { entry_id = db₁.next_entry_id } in
    let rows = update_account-eq-some id f db updated in
    let (final, checked, known) = insert_ledger-eq-some e db₁ inserted in
    let held : has_account e.account_id db.accounts ≡ true =
      sym (has_account-set f entry.keeps id e.account_id db.accounts)
      ∙ ap (λ (d : Db). has_account e.account_id d.accounts) rows
      ∙ known in
    let core =
      post_rows row f e' db.accounts db.ledger b
        (subst (λ x. find (λ r. str_eq r.account_id x) db.accounts ≡ some row) same found)
        (IsEntry-numbered row f e db₁.next_entry_id entry) checked held in
    let moved =
      subst (λ x. IsBalanced (set_account x f db.accounts) (e' ∷ db.ledger)) (sym same) core in
    subst (λ d. Balances d) final
      (subst (λ (d : Db). IsBalanced d.accounts (e' ∷ d.ledger)) rows moved)

abbrev new_account : String → ℕ → AccountRow
new_account id at = record {
  account_id = id;
  available_balance = pos 0;
  correction_debt = pos 0;
  version = 0;
  created_at = at;
  updated_at = at;
}

insert_account-eq-some :
    (id : String) (at : ℕ) (db : Db) {db' : Db}
    → insert_account id at db ≡ some db'
    → (has_account id db.accounts ≡ false)
      × (record db { accounts = new_account id at ∷ db.accounts } ≡ db')
unfolding insert_account
insert_account-eq-some id at db h = ground arith

owned-cons :
    (new : AccountRow) (rows : List AccountRow) (ledger : List LedgerRow)
    → All (λ e. has_account e.account_id rows ≡ true) ledger
    → All (λ e. has_account e.account_id (new ∷ rows) ≡ true) ledger
owned-cons new rows [] h = tt
owned-cons new rows (e ∷ es) h = (ground arith, owned-cons new rows es h.1)

-- An account opened without credit keeps the ledger balanced.
pub insert_account-Balances :
    (id : String) (at : ℕ) (db : Db) {db' : Db}
    → Balances db
    → insert_account id at db ≡ some db'
    → Balances db'
insert_account-Balances id at db b h =
    let (absent, final) = insert_account-eq-some id at db h in
    let (available, debt) = total_of_absent id db.accounts db.ledger absent b.owned in
    subst (λ d. Balances d) final
      (record {
        posted = (
          record {
            available = sym available;
            debt = sym debt;
            solvent = omega arith;
            owing = omega arith;
          },
          b.posted,
        );
        owned = owned-cons (new_account id at) db.accounts db.ledger b.owned;
      })

pub SameCredit-Balances : (db : Db) {db' : Db} → SameCredit db db' → Balances db → Balances db'
SameCredit-Balances db {db'} s b =
    subst (λ rows. IsBalanced rows db'.ledger) (sym s.accounts)
      (subst (λ es. IsBalanced db.accounts es) (sym s.ledger) b)
