-- ===== src/Examples/Tables.antt =====
-- storage/mysql/ and its theorems, on a table with a due, a held and a corrupt row.
use reliable_messaging.Base.{
  ◌≤◌, ◌<◌, ◌/◌, List, [], ◌∷◌, some, ◌≡◌, ◌⊎◌, inl, inr, refl, All, ok, err, length, arith, true,
  sym,
}
use reliable_messaging.Base.Bytes.{literal, bytes_eq, valid_utf8, put_uint64}
use reliable_messaging.Base.Framing.{length_prefixed}
use reliable_messaging.Base.Int.{pos}
use reliable_messaging.Base.Text.{format_uint, parse_uint}
use reliable_messaging.Message.{new, message_of, preimage}
use reliable_messaging.Outbox.{Claim, stale_claim}
use reliable_messaging.Storage.Mysql.Rows.{
  Row, Table, affected, answered, lost, find_row, update_row,
}
use reliable_messaging.Storage.Mysql.Append.{record_number}
use reliable_messaging.Storage.Mysql.Write.{
  update, write_row, confirm, set_confirmed, set_quarantined,
}
use reliable_messaging.Storage.Mysql.Claim.{
  claim_due, claim_rows, select_due, insert_ordered, claim_of, lease_end, token_of,
}
use reliable_messaging.Storage.Mysql.Operations.{
  Op, confirm_claim, quarantine_claim, claim, append_message, run_all,
}
use reliable_messaging.Storage.Mysql.Growth.{Grows}
use reliable_messaging.Storage.Mysql.Keys.{IsTable, run_all-IsTable}
use reliable_messaging.Storage.Mysql.History.{run_all-Grows}
use reliable_messaging.Storage.Mysql.Selection.{DueNow, IsDue}
use reliable_messaging.Storage.Mysql.Released.{WritesRow, update_outcome}
use reliable_messaging.Storage.Mysql.Grants.{IsSelection, IsDisposed, IsGrant}
use reliable_messaging.Storage.Mysql.Granted.{claim_due_grants}
use reliable_messaging.Storage.Mysql.Granting.{claim_due_skips}
use reliable_messaging.Storage.Mysql.Fencing.{IsHolder}
use reliable_messaging.Storage.Mysql.Superseded.{superseded_stale, write_once}
use reliable_messaging.Storage.Mysql.Lease.{IsConfirmed, claim_due-confirm}
use reliable_messaging.Examples.Data.{
  env, message, due_row, held_row, table, held_claim, io, unlocked, second, thirty_two,
}

pub table-IsTable : IsTable table
unfolding find_row
table-IsTable = record {
  keyed = record {
    distinct = (refl, (refl, (refl, tt)));
    below = (omega arith, (omega arith, (omega arith, tt)));
    pos_ids = (omega arith, (omega arith, (omega arith, tt)));
  };
  next_pos = omega arith;
}

-- At time 100 the relay's claim is confirmed; the acknowledgement of a second write is lost; an
-- append and a scan follow.
abbrev ops : List Op
ops =
    confirm_claim 100 answered held_claim
    ∷ quarantine_claim 120 lost held_claim (literal "code")
    ∷ append_message 130 answered answered true message 140000
    ∷ claim io 150 unlocked (pos 5) second
    ∷ []

run_all-Grows_example : Grows table (run_all env ops table)
run_all-Grows_example = run_all-Grows env ops table

run_all-IsTable_example : IsTable (run_all env ops table)
run_all-IsTable_example = run_all-IsTable env ops table table-IsTable

update_outcome_example :
    ((h : IsHolder 100 held_claim table) × (u : Table) × (update 100 answered held_claim
          (set_confirmed 100)
          table
        ≡ (ok tt, u))
      × WritesRow 100 (set_confirmed 100) h.id h.row table u)
    ⊎ ((¬ IsHolder 100 held_claim table)
        × (update 100 answered held_claim (set_confirmed 100) table ≡ (err stale_claim, table)))
update_outcome_example =
    update_outcome 100 held_claim (set_confirmed 100) table table-IsTable (λ r. refl)

superseded_stale_example :
    update 100 answered
      (record held_claim { version = 3 })
      (set_confirmed 100)
      (run_all env ops table)
    ≡ (err stale_claim, run_all env ops table)
unfolding record_number parse_uint format_uint bytes_eq find_row
superseded_stale_example =
    superseded_stale env ops table (record held_claim { version = 3 }) 2 held_row table-IsTable refl
      refl (omega arith) 100 (set_confirmed 100)

write_once_example :
    let u = run_all env ops (update 100 answered held_claim (set_confirmed 100) table).1 in
    update 110 answered held_claim (set_quarantined (literal "code")) u ≡ (err stale_claim, u)
unfolding update record_number parse_uint format_uint bytes_eq update_row confirm write_row affected
write_once_example =
    write_once env ops table held_claim 100 (set_confirmed 100) table-IsTable (λ r. refl)
      (λ r. refl) refl 110 (set_quarantined (literal "code"))

abbrev claimed : List Claim
claimed = claim_of (lease_end 100 1000000000) (token_of (some (thirty_two 0))) message due_row ∷ []

abbrev after_claim : Table
after_claim = (claim_due env io 100 unlocked (pos 5) second table).1

-- The due row is claimed, and the corrupt row quarantined.
claims_due : claim_due env io 100 unlocked (pos 5) second table ≡ (ok claimed, after_claim)
unfolding claim_due claim_rows select_due insert_ordered new valid_utf8 bytes_eq message_of preimage
    length_prefixed put_uint64
claims_due = refl

claim_due_grants_example :
    (length claimed ≤ 5)
    × ((rs : List Row) × IsSelection 100 unlocked 5 table.rows rs
        × All (IsDisposed env 1000100 after_claim.rows claimed) rs
        × All
            (IsGrant env io 1000100
              (λ r. (find_row r.id table.rows ≡ some r) × IsDue 100 unlocked r)
              after_claim.rows)
            claimed)
claim_due_grants_example =
    claim_due_grants env io 100 unlocked (pos 5) second table table-IsTable claimed after_claim
      claims_due

-- Its lease runs until 200.
held_row-waits : ¬ DueNow 100 held_row
held_row-waits (inl (inl e, _)) = cc
held_row-waits (inl (inr e, _)) = cc
held_row-waits (inr (_, (u, e, early))) = ground (arith, e)

claim_due_skips_example : find_row 2 after_claim.rows ≡ some held_row
unfolding find_row
claim_due_skips_example =
    claim_due_skips env io 100 unlocked (pos 5) second table table-IsTable 2 held_row refl
      (inl held_row-waits)

claim_due-confirm_example :
    All (λ c. 500 < c.lease_until / 1000 → IsConfirmed 500 c after_claim) claimed
claim_due-confirm_example =
    claim_due-confirm env io 100 unlocked (pos 5) second table after_claim claimed table-IsTable
      (omega arith) (λ k bs e. let same : thirty_two k ≡ bs = cc in rw (sym same) refl) claims_due
      500
