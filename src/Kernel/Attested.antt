-- ===== src/Kernel/Attested.antt =====
-- What an audit that verifies a receipt has established.
use observable_agent_workflo.Prelude.{
  String, ◌≡◌, refl, Bool, true, false, not, Option, none, List, [], ◌∷◌, arith, inl, inr, select,
  is_empty, Bool-cases,
}
use observable_agent_workflo.Result.{Error, ok, Result-cases}
use observable_agent_workflo.Json.{Host}
use observable_agent_workflo.Core.Record.{MemoryRecord}
use observable_agent_workflo.Core.Receipt.{
  CheckerResult, EvidenceManifest, PromotionReceipt, all_passed,
}
use observable_agent_workflo.Storage.{
  Db, get_memory_record, get_receipt, get_evidence_manifest, list_receipts,
}
use observable_agent_workflo.Receipts.Integrity.{Attests, verify_receipt_iff}
use observable_agent_workflo.Checkers.Base.{Checker, run_checkers}
use observable_agent_workflo.Promotion.Evidence.{collect_event_digests, dump_manifest}
use observable_agent_workflo.Promotion.{checker_context}
use observable_agent_workflo.Kernel.Audit.{
  manifest_ref, check_receipt, verify_receipt, recheck_result, no_context, strict_recheck, AuditRow,
  recheck_if, audit_row, audit_rows, audit_receipts, or_missing,
}

-- A receipt that speaks of what the store has now.
pub record IsAttested (host : Host) (db : Db) (r : PromotionReceipt) : Type 0 where
  pub candidate : MemoryRecord
  pub found : get_memory_record r.candidate_id db ≡ ok candidate
  pub manifest : EvidenceManifest
  pub referenced : get_evidence_manifest (manifest_ref r.evidence_refs) db ≡ ok manifest
  pub attests : Attests host r manifest candidate

or_missing_fails :
    (name : String) (e : Error) {v : CheckerResult} → or_missing name e ≡ ok v → v.passed ≡ false
unfolding or_missing
or_missing_fails name (Error.not_found_error text) h = ground arith
or_missing_fails name e h = ground arith

check_receipt_sound :
    (host : Host) (r : PromotionReceipt) (db : Db) (v : CheckerResult)
    → check_receipt host r db ≡ ok v
    → v.passed ≡ true
    → IsAttested host db r
unfolding check_receipt
check_receipt_sound host r db v h p = elim (Result-cases (get_memory_record r.candidate_id db)) [
  | inr (e, bad) ↦ absurd (ground (arith, or_missing_fails "receipt-reference" e {v = v}))
  | inl (c, found) ↦ elim (Result-cases (get_evidence_manifest (manifest_ref r.evidence_refs) db)) [
    | inr (e, bad) ↦ absurd (ground (arith, or_missing_fails "receipt-reference" e {v = v}))
    | inl (m, referenced) ↦ record {
      candidate = c;
      found = found;
      manifest = m;
      referenced = referenced;
      attests = (verify_receipt_iff host r m c).0 (v, ground arith, p);
    }
  ]
]

all_passed-no_failed :
    (cs : List CheckerResult)
    → is_empty (select (λ (c : CheckerResult). not c.passed) cs) ≡ true
    → all_passed cs ≡ true
all_passed-no_failed [] h = refl
all_passed-no_failed (c ∷ cs) h = elim (Bool-cases c.passed) [
  | inl passed_ ↦ ground (arith, all_passed-no_failed cs)
  | inr failed_ ↦ absurd (ground arith)
]

-- The checkers, run on what the store has now, all pass.
abbrev pub Rechecks : Host → Db → List Checker → PromotionReceipt → Type 0
Rechecks host db checkers r =
    (c : MemoryRecord) × (m : EvidenceManifest) × (checks : List CheckerResult) × (get_memory_record
        r.candidate_id db
      ≡ ok c)
    × (get_evidence_manifest (manifest_ref r.evidence_refs) db ≡ ok m)
    × (run_checkers checkers c (dump_manifest m)
          (checker_context no_context (collect_event_digests c db))
        ≡ ok checks)
    × (all_passed checks ≡ true)

strict_recheck_sound :
    (host : Host) (checkers : List Checker) (r : PromotionReceipt) (db : Db) (v : CheckerResult)
    → strict_recheck host checkers r db ≡ ok v
    → v.passed ≡ true
    → Rechecks host db checkers r
unfolding strict_recheck recheck_result
strict_recheck_sound host checkers r db v h p =
    elim (Result-cases (get_memory_record r.candidate_id db)) [
      | inr (e, bad) ↦ absurd (ground (arith, or_missing_fails "strict-recheck" e {v = v}))
      | inl (c, found) ↦
          elim (Result-cases (get_evidence_manifest (manifest_ref r.evidence_refs) db)) [
            | inr (e, bad) ↦ absurd (ground (arith, or_missing_fails "strict-recheck" e {v = v}))
            | inl (m, referenced) ↦
                elim (Result-cases (
                  run_checkers checkers c (dump_manifest m)
                    (checker_context no_context (collect_event_digests c db)))) [
                      | inr (e, bad) ↦ absurd (ground arith)
                      | inl (checks, ran) ↦ (
                        c,
                        m,
                        checks,
                        found,
                        referenced,
                        ran,
                        all_passed-no_failed checks (ground arith),
                      )
                    ]
          ]
    ]

-- the row of one receipt
abbrev pub RowSound :
    Host → Db → (strict : Bool) → List Checker → PromotionReceipt → AuditRow → Type 0
RowSound host db strict checkers r row =
    (row.receipt_id ≡ r.receipt_id)
    × (row.verified ≡ true
        → ((q : PromotionReceipt) × (get_receipt r.receipt_id db ≡ ok q) × IsAttested host db q)
          × (strict ≡ true → Rechecks host db checkers r))

abbrev pub RowsSound :
    Host → Db → (strict : Bool) → List Checker → List PromotionReceipt → List AuditRow → Type 0
RowsSound host db strict checkers [] [] = Unit
RowsSound host db strict checkers [] (row ∷ rows) = ⊥
RowsSound host db strict checkers (r ∷ rs) [] = ⊥
RowsSound host db strict checkers (r ∷ rs) (row ∷ rows) =
    RowSound host db strict checkers r row × RowsSound host db strict checkers rs rows

recheck_if_sound :
    (host : Host) (checkers : List Checker) (r : PromotionReceipt) (v : CheckerResult) (db : Db)
    (again : Option CheckerResult)
    → recheck_if host true checkers r v db ≡ ok again
    → (audit_row r v again).verified ≡ true
    → Rechecks host db checkers r
unfolding recheck_if audit_row
recheck_if_sound host checkers r v db again h p = elim (Bool-cases v.passed) [
  | inr failed_ ↦ absurd (ground arith)
  | inl passed_ ↦ elim (Result-cases (strict_recheck host checkers r db)) [
    | inr (e, bad) ↦ absurd (ground arith)
    | inl (x, again_) ↦ strict_recheck_sound host checkers r db x again_ (ground arith)
  ]
]

row_sound :
    (host : Host) (db : Db) (strict : Bool) (checkers : List Checker) (r : PromotionReceipt)
    (v : CheckerResult) (again : Option CheckerResult)
    → verify_receipt host r.receipt_id db ≡ ok v
    → recheck_if host strict checkers r v db ≡ ok again
    → RowSound host db strict checkers r (audit_row r v again)
unfolding verify_receipt audit_row
row_sound host db strict checkers r v again h k = (
  refl,
  λ p. (
    elim (Result-cases (get_receipt r.receipt_id db)) [
      | inr (e, bad) ↦ absurd (ground arith)
      | inl (q, read) ↦ (q, read, check_receipt_sound host q db v (ground arith) (ground arith))
    ],
    λ s. recheck_if_sound host checkers r v db again (rw s at k) p,
  ),
)

audit_rows_sound :
    (host : Host) (db : Db) (strict : Bool) (checkers : List Checker) (rs : List PromotionReceipt)
    (rows : List AuditRow)
    → audit_rows host strict checkers rs db ≡ ok rows
    → RowsSound host db strict checkers rs rows
unfolding audit_rows
audit_rows_sound host db strict checkers [] rows h =
    let same : [] ≡ rows = ground arith in rw (← same) tt
audit_rows_sound host db strict checkers (r ∷ rs) rows h =
    elim (Result-cases (verify_receipt host r.receipt_id db)) [
      | inr (e, bad) ↦ absurd (ground arith)
      | inl (v, checked) ↦ elim (Result-cases (recheck_if host strict checkers r v db)) [
        | inr (e, bad) ↦ absurd (ground arith)
        | inl (again, rechecked) ↦ elim (Result-cases (audit_rows host strict checkers rs db)) [
          | inr (e, bad) ↦ absurd (ground arith)
          | inl (rest, done) ↦
              let same : audit_row r v again ∷ rest ≡ rows = ground arith in
              rw (← same) (
                row_sound host db strict checkers r v again checked rechecked,
                audit_rows_sound host db strict checkers rs rest done,
              )
        ]
      ]
    ]

-- An audit that returns has one row for each stored receipt, in order. A row that says "verified"
-- stands for a stored receipt that attests the candidate and the manifest that the store has now;
-- in a strict audit the checkers have also been run on them again, and all passed.
pub audit_receipts_sound :
    (host : Host) (strict : Bool) (checkers : List Checker) (db : Db) (rows : List AuditRow)
    → audit_receipts host strict checkers db ≡ ok rows
    → RowsSound host db strict checkers (list_receipts none db) rows
unfolding audit_receipts
audit_receipts_sound host strict checkers db rows h =
    audit_rows_sound host db strict checkers (list_receipts none db) rows h
