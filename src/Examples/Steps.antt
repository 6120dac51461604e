-- ===== src/Examples/Steps.antt =====
-- Every step of the session returns, and its worlds are consistent.
use observable_agent_workflo.Prelude.{◌≡◌, refl, true, [], ◌∷◌, some, none, Bool}
use observable_agent_workflo.Result.{is_ok, ok}
use observable_agent_workflo.Checkers.Base.{run_checkers}
use observable_agent_workflo.Checkers.Boundary.{
  float_paths, deterministic_boundary, find_float_paths, find_in_fields, find_in_items,
}
use observable_agent_workflo.Checkers.Caps.{out_of_range, check_caps, verify_caps, resource_caps}
use observable_agent_workflo.Checkers.InputSet.{
  compare_digests, check_actual, check_digests, check_ids, input_set,
}
use observable_agent_workflo.Checkers.Manifest.{verify_digest, candidate_digest}
use observable_agent_workflo.Core.Contract.{
  metadata_strs, metadata_caps, contract_steps, from_candidate, contract_json,
}
use observable_agent_workflo.Core.Event.{create as create_event, revise}
use observable_agent_workflo.Core.Lane.{lane_eq}
use observable_agent_workflo.Core.Receipt.{
  dump_check, replay_seed, manifest_seed, create_manifest, action_seed, create_intent,
  compute_receipt_digest, create_receipt as make_receipt,
}
use observable_agent_workflo.Core.Record.{
  create, validated, content_seed, content_digest, tagged_id, compute_update_id, moved, dump,
  memory_ref,
}
use observable_agent_workflo.Core.Transitions.{
  lane_mem, assert_transition_allowed, admissible_lanes_for_mode,
}
use observable_agent_workflo.Kernel.Consolidate.{consolidate_run, verify_memory}
use observable_agent_workflo.Examples.Hosted.{hash}
use observable_agent_workflo.Gate.{
  expected_action_id, is_passing, require_passing, relevant, admit_intent, ensure_allowed,
}
use observable_agent_workflo.Json.{
  value_eq, items_eq, fields_le, decimal, print_int, quote, canonical_json, digest_json, py_str,
  normalize_for_json, normalize_items, normalize_fields, sort_keys, sort_items, sort_fields, dumps,
  dumps_items, dumps_fields,
}
use observable_agent_workflo.Kernel.{
  new_memory, record_event, payload_to_claim, actual_run_id, index_raw, observe, ref_or_blank,
  memory_refs, record_memory_operation, retrieve,
}
use observable_agent_workflo.Kernel.Audit.{
  manifest_ref, or_missing, check_receipt, verify_receipt as audit_receipt, recheck_result,
  strict_recheck, recheck_if, audit_row, audit_rows, audit_receipts,
}
use observable_agent_workflo.Kernel.Change.{correct_memory, retire, contradict, supersede}
use observable_agent_workflo.Kernel.Propose.{
  insert_unique, sorted_set, propose, proposal_metadata, propose_memory,
}
use observable_agent_workflo.Kernel.Run.{check_run_intent, messages, run_task, run}
use observable_agent_workflo.Kernel.Tools.{
  register, find_tool, authorized_context, run_tool, invoke, get_receipts, check_contract,
  dump_intent, admit_call, invoke_tool,
}
use observable_agent_workflo.Prelude.Text.{prefix, strip}
use observable_agent_workflo.Promotion.{
  settle, conclude, issue, verify_candidate, verify, supersede_one, supersede_all, promote_with,
  promote,
}
use observable_agent_workflo.Promotion.Events.{
  run_id_or, append_new_event, append_verify_event, append_promote_event,
}
use observable_agent_workflo.Promotion.Evidence.{
  collect_from, collect_event_digests, dump_manifest, build_evidence,
}
use observable_agent_workflo.Receipts.{verify_receipt, digest_result}
use observable_agent_workflo.Storage.{
  create_receipt, now_utc, uuid4, transaction, upsert_rows, append_event, upsert_memory_record,
  get_event, get_memory_record, get_contract, get_receipt, get_evidence_manifest, list_events,
  list_memory_records, list_memory_revisions, list_receipts, insert_contract, create_contract,
  create_evidence_manifest, count_lane, audit_counts,
}
use observable_agent_workflo.Storage.Search.{
  row_to_retrieved, rows_to_retrieved, to_fts_query, join_records, search_like, search_rows,
  search_memory,
}
use observable_agent_workflo.Storage.Tables.{
  find_event, find_record, find_receipt, find_contract, find_manifest, upsert_record, delete_fts,
  order_by_id, insert_event, insert_revision, insert_receipt,
}
use observable_agent_workflo.Core.Lane.{tombstone}
use observable_agent_workflo.Storage.Trail.{lanes_after}
use observable_agent_workflo.Storage.Invariant.{IsConsistent}
use observable_agent_workflo.Json.{str, dict}
use observable_agent_workflo.Kernel.Keeps.{observe-Keeps, propose_memory-Keeps}
use observable_agent_workflo.Promotion.Keeps.{verify-Keeps, promote-Keeps}
use observable_agent_workflo.Examples.Hosted.{host, start, value_of, value_of_lem, result_is}
use observable_agent_workflo.Examples.Session.{
  consolidated, proposed, verified, promoted, ran, retrieved, corrected, contradicted, retired,
  revived, replaced, rows, adapter, call, intent, intent_made, receipt, blank_result,
  blank_tool_result, proposal, blank_record, blank_receipt, observed, written, searched, pipeline,
  context,
}

pub steps_ok :
    (is_ok proposed.0 ≡ true)
    × (is_ok verified.0 ≡ true)
    × (is_ok promoted.0 ≡ true)
    × (is_ok ran.0 ≡ true)
    × (is_ok retrieved.0 ≡ true)
    × (is_ok corrected.0 ≡ true)
    × (is_ok contradicted.0 ≡ true)
    × (is_ok retired.0 ≡ true)
    × (is_ok revived.0 ≡ true)
    × (is_ok replaced.0 ≡ true)
    × (is_ok rows ≡ true)
    × (is_ok (invoke_tool host true adapter call intent (receipt.receipt_id ∷ []) promoted.1.db)
        ≡ true)
    × (is_ok intent_made ≡ true)
    × (get_memory_record proposal.memory_id retired.1.db ≡ ok (value_of blank_record retired.0))
    × ((value_of blank_record retired.0).lane ≡ tombstone)
    × (is_ok written.0 ≡ true)
    × (is_ok searched ≡ true)
    × (is_ok consolidated.0 ≡ true)
unfolding consolidate_run verify_memory run_checkers float_paths deterministic_boundary
    find_float_paths find_in_fields find_in_items out_of_range check_caps verify_caps resource_caps
    compare_digests check_actual check_digests check_ids input_set verify_digest candidate_digest
    metadata_strs metadata_caps contract_steps from_candidate contract_json create_event create
    revise lane_eq dump_check replay_seed manifest_seed create_manifest action_seed create_intent
    compute_receipt_digest make_receipt create_receipt validated content_seed content_digest
    tagged_id compute_update_id moved dump memory_ref lane_mem assert_transition_allowed
    admissible_lanes_for_mode hash expected_action_id is_passing require_passing relevant
    admit_intent ensure_allowed value_eq items_eq fields_le decimal print_int quote canonical_json
    digest_json py_str normalize_for_json normalize_items normalize_fields sort_keys sort_items
    sort_fields dumps dumps_items dumps_fields new_memory record_event payload_to_claim
    actual_run_id index_raw observe ref_or_blank memory_refs record_memory_operation retrieve
    manifest_ref or_missing check_receipt audit_receipt verify_receipt recheck_result strict_recheck
    recheck_if audit_row audit_rows audit_receipts correct_memory retire contradict supersede
    insert_unique sorted_set propose proposal_metadata propose_memory check_run_intent messages
    run_task run register find_tool authorized_context run_tool invoke get_receipts check_contract
    dump_intent admit_call invoke_tool prefix strip settle conclude issue verify_candidate verify
    supersede_one supersede_all promote_with promote run_id_or append_new_event append_verify_event
    append_promote_event collect_from collect_event_digests dump_manifest build_evidence
    digest_result now_utc uuid4 transaction upsert_rows append_event upsert_memory_record get_event
    get_memory_record get_contract get_receipt get_evidence_manifest list_events list_memory_records
    list_memory_revisions list_receipts insert_contract create_contract create_evidence_manifest
    count_lane audit_counts row_to_retrieved rows_to_retrieved to_fts_query join_records search_like
    search_rows search_memory find_event find_record find_receipt find_contract find_manifest
    upsert_record delete_fts order_by_id insert_event insert_revision insert_receipt
steps_ok = (
  refl, refl, refl, refl, refl, refl, refl, refl, refl, refl, refl, refl, refl, refl, refl, refl,
  refl, refl,
)

pub proposed_is : proposed ≡ (ok (value_of blank_record proposed.0), proposed.1)
proposed_is =
    let (it, _, _, _, _, _, _, _, _, _, _, _, _, _, _, _, _, _) = steps_ok in
    value_of_lem blank_record proposed it

pub verified_is : verified ≡ (ok (value_of blank_receipt verified.0), verified.1)
verified_is =
    let (_, it, _, _, _, _, _, _, _, _, _, _, _, _, _, _, _, _) = steps_ok in
    value_of_lem blank_receipt verified it

pub promoted_is : promoted ≡ (ok (value_of blank_record promoted.0), promoted.1)
promoted_is =
    let (_, _, it, _, _, _, _, _, _, _, _, _, _, _, _, _, _, _) = steps_ok in
    value_of_lem blank_record promoted it

pub ran_is : ran ≡ (ok (value_of blank_result ran.0), ran.1)
ran_is =
    let (_, _, _, it, _, _, _, _, _, _, _, _, _, _, _, _, _, _) = steps_ok in
    value_of_lem blank_result ran it

pub retrieved_is : retrieved ≡ (ok (value_of [] retrieved.0), retrieved.1)
retrieved_is =
    let (_, _, _, _, it, _, _, _, _, _, _, _, _, _, _, _, _, _) = steps_ok in
    value_of_lem [] retrieved it

pub corrected_is : corrected ≡ (ok (value_of blank_record corrected.0), corrected.1)
corrected_is =
    let (_, _, _, _, _, it, _, _, _, _, _, _, _, _, _, _, _, _) = steps_ok in
    value_of_lem blank_record corrected it

pub contradicted_is : contradicted ≡ (ok (value_of blank_record contradicted.0), contradicted.1)
contradicted_is =
    let (_, _, _, _, _, _, it, _, _, _, _, _, _, _, _, _, _, _) = steps_ok in
    value_of_lem blank_record contradicted it

pub retired_is : retired ≡ (ok (value_of blank_record retired.0), retired.1)
retired_is =
    let (_, _, _, _, _, _, _, it, _, _, _, _, _, _, _, _, _, _) = steps_ok in
    value_of_lem blank_record retired it

pub revived_is : revived ≡ (ok (value_of blank_receipt revived.0), revived.1)
revived_is =
    let (_, _, _, _, _, _, _, _, it, _, _, _, _, _, _, _, _, _) = steps_ok in
    value_of_lem blank_receipt revived it

pub replaced_is : replaced ≡ (ok (value_of blank_record replaced.0), replaced.1)
replaced_is =
    let (_, _, _, _, _, _, _, _, _, it, _, _, _, _, _, _, _, _) = steps_ok in
    value_of_lem blank_record replaced it

pub written_is : written ≡ (ok (value_of blank_record written.0), written.1)
written_is =
    let (_, _, _, _, _, _, _, _, _, _, _, _, _, _, _, it, _, _) = steps_ok in
    value_of_lem blank_record written it

pub rows_is : rows ≡ ok (value_of [] rows)
rows_is =
    let (_, _, _, _, _, _, _, _, _, _, it, _, _, _, _, _, _, _) = steps_ok in result_is [] rows it

pub invoked_is :
    invoke_tool host Bool.true adapter call intent (receipt.receipt_id ∷ []) promoted.1.db
    ≡ ok (
        value_of blank_tool_result
          (invoke_tool host Bool.true adapter call intent (receipt.receipt_id ∷ []) promoted.1.db))
invoked_is =
    let (_, _, _, _, _, _, _, _, _, _, _, it, _, _, _, _, _, _) = steps_ok in
    result_is blank_tool_result _ it

pub searched_is : searched ≡ ok (value_of [] searched)
searched_is =
    let (_, _, _, _, _, _, _, _, _, _, _, _, _, _, _, _, it, _) = steps_ok in
    result_is [] searched it

pub consolidated_is : consolidated ≡ (ok (value_of blank_record consolidated.0), consolidated.1)
consolidated_is =
    let (_, _, _, _, _, _, _, _, _, _, _, _, _, _, _, _, _, it) = steps_ok in
    value_of_lem blank_record consolidated it

pub retired_found :
    (get_memory_record proposal.memory_id retired.1.db ≡ ok (value_of blank_record retired.0))
    × ((value_of blank_record retired.0).lane ≡ tombstone)
retired_found =
    let (_, _, _, _, _, _, _, _, _, _, _, _, _, found, lane, _, _, _) = steps_ok in (found, lane)

start-IsConsistent : IsConsistent host start.db
unfolding find_record lanes_after
start-IsConsistent = record { numbered = tt; mirrored = tt; chained = tt; current = λ id. refl }

pub proposed-IsConsistent : IsConsistent host proposed.1.db
proposed-IsConsistent = (propose_memory-Keeps host "r1" "session" none none none).at observed (
    (observe-Keeps host "task" (dict (("text", str "build") ∷ [])) (some "r1") [] Bool.true).at
      start start-IsConsistent)

pub verified-IsConsistent : IsConsistent host verified.1.db
verified-IsConsistent =
    (verify-Keeps host pipeline proposal.memory_id none context).at proposed.1 proposed-IsConsistent

pub promoted-IsConsistent : IsConsistent host promoted.1.db
promoted-IsConsistent = (promote-Keeps host proposal.memory_id).at verified.1 verified-IsConsistent
