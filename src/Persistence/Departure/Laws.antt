-- ===== src/Persistence/Departure/Laws.antt =====
-- What a departure does to the accounts, the ledger and the enrolments.
use waw_discord_bot.Prelude.{
  ℕ, Date, invalid_date, instant, ◌≡◌, refl, subst, Bool, true, false, none, some, String, List, [],
  ◌∷◌, All, find, str_eq, ◌&&◌, arith, eq_refl, Option-cases, inl, inr, Bool-cases, eq_iff,
}
use waw_discord_bot.Persistence.Database.{
  Db, EnrollmentRow, insert_operation, insert_audit, depart_enrollment, set_departed,
  enrollment_clash, is_active,
}
use waw_discord_bot.Persistence.Queries.{find_enrollment, user_is}
use waw_discord_bot.Persistence.Ledger.{Balances, SameCredit}
use waw_discord_bot.Persistence.Ledger.Posting.{SameCredit-Balances}
use waw_discord_bot.Persistence.Ledger.Frames.{finish-Balances}
use waw_discord_bot.Persistence.Departure.{
  KboDepartureInput, KboDepartureResult, departed, enter_operation, append_audit, depart_enrolled,
  depart_tx, depart_at, depart, assert_kbo_departure_input,
}

module _ (i : KboDepartureInput) (at : ℕ) where
  depart_enrolled-tables :
      (enrollment : EnrollmentRow) (db : Db) {r : KboDepartureResult} {db' : Db}
      → depart_enrolled i at enrollment db ≡ some (r, db')
      → (db'.accounts ≡ db.accounts)
        × (db'.ledger ≡ db.ledger)
        × (db'.enrollments ≡ set_departed enrollment.enrollment_id at db.enrollments)
  unfolding depart_enrolled enter_operation append_audit insert_operation insert_audit
      depart_enrollment
  depart_enrolled-tables enrollment db h = ground arith

  depart_tx-SameCredit :
      (db : Db) {r : KboDepartureResult} {db' : Db}
      → depart_tx i at db ≡ some (r, db')
      → SameCredit db db'
  unfolding depart_tx
  depart_tx-SameCredit db {db'} h =
      elim (Option-cases (find_enrollment i.guild_id i.discord_user_id db)) [
        | inl absent ↦
            let same : db ≡ db' = ground arith in
            subst (SameCredit db) same (record { accounts = refl; ledger = refl })
        | inr (enrollment, found) ↦
            let (accounts, ledger, _) =
              depart_enrolled-tables enrollment db (rw (found, depart_tx) at h) in
            record { accounts = accounts; ledger = ledger }
      ]

-- Whatever a departure gives, the ledger stays balanced.
pub depart-Balances : (i : KboDepartureInput) (db : Db) → Balances db → Balances (depart i db).1
unfolding depart
depart-Balances i db b = elim (Bool-cases (assert_kbo_departure_input i)) [
  | inl valid ↦ rw valid (at_date i.departed_at)
  | inr invalid ↦ rw invalid b
]
  where
    at_date : (d : Date) → Balances (depart_at i d db).1
    at_date invalid_date = b
    at_date (instant at) =
        finish-Balances db (depart_tx i at db) b
          (λ r db' e. SameCredit-Balances db (depart_tx-SameCredit i at db e) b)

-- No two enrolments break a unique constraint of their table.
abbrev pub IsUnique : List EnrollmentRow → Type 0
IsUnique [] = Unit {0}
IsUnique (r ∷ rs) = All (λ s. enrollment_clash r s ≡ false) rs × IsUnique rs

str_eq_both : (a b c : String) → str_eq a c ≡ true → str_eq b c ≡ true → str_eq a b ≡ true
str_eq_both a b c h k = ground (arith, eq_iff a c, eq_iff b c, eq_iff a b)

module _ (guild user : String) where
  -- The test of the query for an active enrolment.
  abbrev is_wanted : EnrollmentRow → Bool
  is_wanted r = str_eq r.guild_id guild && user_is user r.discord_user_id && is_active r.status

  is_wanted-clash :
      (r s : EnrollmentRow) → is_wanted r ≡ true → is_wanted s ≡ true → enrollment_clash r s ≡ true
  is_wanted-clash r s h k = elim (Option-cases r.discord_user_id) [
    | inl gone ↦ absurd (ground arith)
    | inr (a, known_a) ↦ elim (Option-cases s.discord_user_id) [
      | inl gone ↦ absurd (ground arith)
      | inr (b, known_b) ↦
          ground
            (arith, known_a, known_b, str_eq_both r.guild_id s.guild_id guild, str_eq_both a b user)
    ]
  ]

  find_after :
      (id : String) (at : ℕ) (r : EnrollmentRow) (rows : List EnrollmentRow)
      → is_wanted r ≡ true
      → All (λ s. enrollment_clash r s ≡ false) rows
      → find is_wanted (set_departed id at rows) ≡ none
  find_after id at r [] h apart = refl
  find_after id at r (s ∷ rows) h apart =
      ground (arith, is_wanted-clash r s, find_after id at r rows h apart.1)

  find-set_departed :
      (at : ℕ) (e : EnrollmentRow) (rows : List EnrollmentRow)
      → IsUnique rows
      → find is_wanted rows ≡ some e
      → find is_wanted (set_departed e.enrollment_id at rows) ≡ none
  find-set_departed at e [] unique h = cc
  find-set_departed at e (r ∷ rows) unique h = elim (Bool-cases (is_wanted r)) [
    | inl wanted ↦
        let same : r ≡ e = ground arith in
        subst (λ x. find is_wanted (set_departed x.enrollment_id at (r ∷ rows)) ≡ none) same
          (ground
            (arith, eq_refl r.enrollment_id, find_after r.enrollment_id at r rows wanted unique.0))
    | inr other ↦
        let rest = find-set_departed at e rows unique.1 (ground arith) in ground (arith, rest)
  ]

-- Where no two enrolments clash, a departure that reports departed was of a member with an active
-- enrolment, and after it the member has none.
pub depart_tx-departed :
    (i : KboDepartureInput) (at : ℕ) (db : Db) {db' : Db}
    → IsUnique db.enrollments
    → depart_tx i at db ≡ some (departed, db')
    → ((e : EnrollmentRow) × (find_enrollment i.guild_id i.discord_user_id db ≡ some e))
      × (find_enrollment i.guild_id i.discord_user_id db' ≡ none)
unfolding depart_tx
depart_tx-departed i at db {db'} unique h =
    elim (Option-cases (find_enrollment i.guild_id i.discord_user_id db)) [
      | inl absent ↦ absurd (ground arith)
      | inr (e, found) ↦
          let (_, _, enrollments) = depart_enrolled-tables i at e db (rw (found, depart_tx) at h) in
          (
            (e, found),
            rw (enrollments)
                (find-set_departed i.guild_id i.discord_user_id at e db.enrollments unique found),
          )
    ]
