-- ===== src/Examples/Recorded.antt =====
-- Every step of the receiver's session returns, and its use is a service.
use observable_agent_workflo.Prelude.{◌≡◌, refl, true, str_mem, [], ◌∷◌}
use observable_agent_workflo.Result.{is_ok, ok}
use observable_agent_workflo.Checkers.Base.{run_checkers}
use observable_agent_workflo.Checkers.Boundary.{
  float_paths, deterministic_boundary, find_float_paths, find_in_fields, find_in_items,
}
use observable_agent_workflo.Checkers.Caps.{out_of_range, check_caps, verify_caps, resource_caps}
use observable_agent_workflo.Checkers.Default.{create_default_checkers}
use observable_agent_workflo.Checkers.InputSet.{
  compare_digests, check_actual, check_digests, check_ids, input_set,
}
use observable_agent_workflo.Checkers.Manifest.{
  verify_digest, candidate_digest, verify_manifest, verify_evidence, evidence_manifest,
}
use observable_agent_workflo.Checkers.Schema.{schema_errors, candidate_schema}
use observable_agent_workflo.Checkers.Tools.{check_invocations, check_tools, declared_tools}
use observable_agent_workflo.Core.Contract.{
  list_of_strs, metadata_strs, dict_of, metadata_caps, contract_steps, from_candidate,
  contract_json,
}
use observable_agent_workflo.Core.Event.{create as create_event, revise}
use observable_agent_workflo.Core.Receipt.{
  dump_check, replay_seed, manifest_seed, create_manifest, action_seed, create_intent,
  compute_receipt_digest, create_receipt as make_receipt,
}
use observable_agent_workflo.Core.Record.{
  create, validated, content_seed, content_digest, tagged_id, compute_update_id, moved, dump,
  memory_ref,
}
use observable_agent_workflo.Core.Transitions.{
  lane_mem, assert_transition_allowed, admissible_lanes_for_mode,
}
use observable_agent_workflo.Examples.Hosted.{hash}
use observable_agent_workflo.Gate.{
  expected_action_id, is_passing, require_passing, relevant, admit_intent, ensure_allowed,
}
use observable_agent_workflo.Json.{
  value_eq, items_eq, fields_le, decimal, print_int, quote, canonical_json, digest_json, py_str,
  normalize_for_json, normalize_items, normalize_fields, sort_keys, sort_items, sort_fields, dumps,
  dumps_items, dumps_fields,
}
use observable_agent_workflo.Kernel.{
  new_memory, record_event, payload_to_claim, actual_run_id, index_raw, observe, ref_or_blank,
  memory_refs, record_memory_operation, retrieve,
}
use observable_agent_workflo.Kernel.Audit.{
  manifest_ref, or_missing, check_receipt, verify_receipt as audit_receipt, recheck_result,
  strict_recheck, recheck_if, audit_row, audit_rows, audit_receipts,
}
use observable_agent_workflo.Kernel.Propose.{
  insert_unique, sorted_set, propose, proposal_metadata, propose_memory,
}
use observable_agent_workflo.Kernel.Tools.{
  register, find_tool, authorized_context, run_tool, invoke, get_receipts, check_contract,
  dump_intent, admit_call, invoke_tool,
}
use observable_agent_workflo.Prelude.Text.{prefix, strip}
use observable_agent_workflo.Promotion.{
  settle, conclude, issue, verify_candidate, verify, supersede_one, supersede_all, promote_with,
  promote,
}
use observable_agent_workflo.Promotion.Events.{
  run_id_or, append_new_event, append_verify_event, append_promote_event,
}
use observable_agent_workflo.Promotion.Evidence.{
  collect_from, collect_event_digests, dump_manifest, build_evidence,
}
use observable_agent_workflo.Qualified.Decision.{caught, authoritative, reasons_against, decision}
use observable_agent_workflo.Qualified.Eligibility.{
  check_receipt as check_promotion_receipt, row, current_memory, event_digests, recheck,
  check_sources, promotion,
}
use observable_agent_workflo.Qualified.Journal.Apply.{
  apply_cost, apply_admit, check_blocking, apply_withdraw, apply_invalidate, apply_allegation,
  bound, apply_exposure, apply_intent, apply_attempt, status_of, apply_outcome,
}
use observable_agent_workflo.Qualified.Journal.Replay.{
  revision_of, accept, take_entry, step, steps, is_unresolved, unresolved_ids, finish, replay,
}
use observable_agent_workflo.Qualified.Journal.Settle.{
  operation_of, negative_block, judged, apply_checked, apply_reconciled, apply_kind,
}
use observable_agent_workflo.Qualified.Journal.Store.{
  entries, insert_entry, insert_batch, append, event,
}
use observable_agent_workflo.Qualified.Lines.{
  sorted_set as sorted_lines, splitlines, split_lf, ascending, normal_form, normalize,
}
use observable_agent_workflo.Qualified.Model.{
  is_id, is_hash, exact, valid_cost, is_domain, valid_context, valid_source, valid_operation,
  valid_qualification, valid_entry,
}
use observable_agent_workflo.Qualified.Model.Decode.{
  decode_cost, decode_context, decode_source, decode_operation, read_qualification,
  decode_qualification, check_entry,
}
use observable_agent_workflo.Qualified.Model.Dump.{
  dump_cost, dump_context, dump_source, dump_qualification, kind_value, dump_entry,
}
use observable_agent_workflo.Qualified.Native.{checked, runtime, pinned, read, operation}
use observable_agent_workflo.Qualified.Native.Reconstruct.{
  expected_mapping, supported_policy, is_projection, check_training, is_evidence, check_evaluation,
  source_costs, check_costs, is_supported_offer, check_scope, check_schemas, reconstruct,
}
use observable_agent_workflo.Qualified.Runtime.{
  record_event as qualified_record_event, registry, cost_event, cost_events, check_inputs,
  append_admission, admit_qualification,
}
use observable_agent_workflo.Qualified.Runtime.Retrieve.{
  retrieve as retrieve_qualified, messages as qualified_messages, run as qualified_run, with_claim,
  marked, consider, exposure_events, expose,
}
use observable_agent_workflo.Qualified.Runtime.Views.{
  comes_after, sort_views, by_memory, distinct_views, rank,
}
use observable_agent_workflo.Qualified.Use.{
  verify_all, check_request, repeat_use, first_use, reserve_as, reserve,
}
use observable_agent_workflo.Qualified.Use.Effect.{
  use_events, record_outcome, perform as perform_use, transact, after_reservation, resume,
  use_qualification,
}
use observable_agent_workflo.Qualified.Wire.{
  traverse, check_size, loads, encoded, digest, check_hooks, check_items, check_fields,
}
use observable_agent_workflo.Qualified.Wire.Limits.{nodes, height}
use observable_agent_workflo.Receipts.{verify_receipt, digest_result}
use observable_agent_workflo.Storage.{
  create_receipt, now_utc, uuid4, transaction, upsert_rows, append_event, upsert_memory_record,
  get_event, get_memory_record, get_contract, get_receipt, get_evidence_manifest, list_events,
  list_memory_records, list_memory_revisions, list_receipts, insert_contract, create_contract,
  create_evidence_manifest, count_lane, audit_counts,
}
use observable_agent_workflo.Storage.Search.{
  row_to_retrieved, rows_to_retrieved, to_fts_query, join_records, search_like, search_rows,
  search_memory,
}
use observable_agent_workflo.Storage.Tables.{
  find_event, find_record, find_receipt, find_contract, find_manifest, upsert_record, delete_fts,
  order_by_id, insert_event, insert_revision, insert_receipt,
}
use observable_agent_workflo.Storage.Trail.{lanes_after}
use observable_agent_workflo.Examples.Receiver.{host, qualification}
use observable_agent_workflo.Examples.Uses.{
  admitted, retrieved, used, left, appended, blank_retrieved, blank_used, blank_replayed,
  input_checked, blank_check, intent_of, failed, open_, second,
}
use observable_agent_workflo.Prelude.{map, some, none}
use observable_agent_workflo.Prelude.Assoc.{lookup}
use observable_agent_workflo.Json.{str}
use observable_agent_workflo.Qualified.Journal.Store.{row_entry}
use observable_agent_workflo.Examples.Hosted.{value_of, value_of_lem, result_is}

pub uses_ok :
    (is_ok admitted ≡ true)
    × (is_ok retrieved ≡ true)
    × (is_ok used.0 ≡ true)
    × (is_ok left ≡ true)
    × (is_ok appended ≡ true)
    × (str_mem "use-1" (value_of blank_replayed left).state.services ≡ true)
    × ((value_of blank_used used.0).service ≡ true)
    × (valid_qualification host qualification ≡ true)
    × (is_ok input_checked ≡ true)
    × ((value_of blank_check input_checked).passed ≡ true)
    × (entries used.1 ≡ ok (map row_entry used.1))
    × (lookup "use-1" (value_of blank_replayed left).state.intents ≡ some (intent_of left))
    × (entries failed.1 ≡ ok (map row_entry failed.1))
    × (is_ok open_ ≡ true)
    × (lookup "use-2" (value_of blank_replayed open_).state.intents ≡ none)
    × ((value_of blank_replayed open_).unresolved ≡ "use-1" ∷ [])
    × (lookup "use-1" (value_of blank_replayed open_).state.intents ≡ some (intent_of open_))
    × ((intent_of open_).qualification ≡ second.qualification)
    × (value_eq (intent_of open_).input (str "b\na") ≡ true)
unfolding run_checkers float_paths deterministic_boundary find_float_paths find_in_fields
    find_in_items out_of_range check_caps verify_caps resource_caps create_default_checkers
    compare_digests check_actual check_digests check_ids input_set verify_digest candidate_digest
    verify_manifest verify_evidence evidence_manifest schema_errors candidate_schema
    check_invocations check_tools declared_tools list_of_strs metadata_strs metadata_caps
    contract_steps from_candidate contract_json create_event create revise dump_check replay_seed
    manifest_seed create_manifest action_seed create_intent compute_receipt_digest make_receipt
    create_receipt validated content_seed content_digest tagged_id compute_update_id moved dump
    memory_ref lane_mem assert_transition_allowed admissible_lanes_for_mode hash expected_action_id
    is_passing require_passing relevant admit_intent ensure_allowed value_eq items_eq fields_le
    decimal print_int quote canonical_json digest_json py_str normalize_for_json normalize_items
    normalize_fields sort_keys sort_items sort_fields dumps dumps_items dumps_fields new_memory
    record_event qualified_record_event payload_to_claim actual_run_id index_raw observe
    ref_or_blank memory_refs record_memory_operation retrieve retrieve_qualified manifest_ref
    or_missing check_receipt check_promotion_receipt audit_receipt verify_receipt recheck_result
    strict_recheck recheck_if audit_row audit_rows audit_receipts insert_unique sorted_set
    sorted_lines propose proposal_metadata propose_memory qualified_messages qualified_run register
    find_tool authorized_context run_tool invoke get_receipts check_contract dump_intent admit_call
    invoke_tool prefix strip settle conclude issue verify_candidate verify supersede_one
    supersede_all promote_with promote run_id_or append_new_event append_verify_event
    append_promote_event collect_from collect_event_digests dump_manifest build_evidence caught
    authoritative reasons_against decision row current_memory event_digests recheck check_sources
    promotion apply_cost apply_admit check_blocking apply_withdraw apply_invalidate apply_allegation
    bound apply_exposure apply_intent apply_attempt status_of apply_outcome revision_of accept
    take_entry step steps is_unresolved unresolved_ids finish replay operation_of negative_block
    judged apply_checked apply_reconciled apply_kind entries insert_entry insert_batch append event
    splitlines split_lf ascending normal_form normalize is_id is_hash exact valid_cost is_domain
    valid_context valid_source valid_operation valid_qualification valid_entry decode_cost
    decode_context decode_source decode_operation read_qualification decode_qualification
    check_entry dump_cost dump_context dump_source dump_qualification kind_value dump_entry checked
    runtime pinned read operation expected_mapping supported_policy is_projection check_training
    is_evidence check_evaluation source_costs check_costs is_supported_offer check_scope
    check_schemas reconstruct registry cost_event cost_events check_inputs append_admission
    admit_qualification with_claim marked consider exposure_events expose comes_after sort_views
    by_memory distinct_views rank verify_all check_request repeat_use first_use reserve_as reserve
    use_events record_outcome perform_use transact after_reservation resume use_qualification
    traverse check_size loads encoded digest check_hooks check_items check_fields nodes height
    digest_result now_utc uuid4 transaction upsert_rows append_event upsert_memory_record get_event
    get_memory_record get_contract get_receipt get_evidence_manifest list_events list_memory_records
    list_memory_revisions list_receipts insert_contract create_contract create_evidence_manifest
    count_lane audit_counts row_to_retrieved rows_to_retrieved to_fts_query join_records search_like
    search_rows search_memory find_event find_record find_receipt find_contract find_manifest
    upsert_record delete_fts order_by_id insert_event insert_revision insert_receipt lanes_after
    dict_of
uses_ok = (
  refl, refl, refl, refl, refl, refl, refl, refl, refl, refl, refl, refl, refl, refl, refl, refl,
  refl, refl, refl,
)

pub retrieved_is : retrieved ≡ ok (value_of blank_retrieved retrieved)
retrieved_is =
    let (_, it, _, _, _, _, _, _, _, _, _, _, _, _, _, _, _, _, _) = uses_ok in
    result_is blank_retrieved retrieved it

pub left_is : left ≡ ok (value_of blank_replayed left)
left_is =
    let (_, _, _, it, _, _, _, _, _, _, _, _, _, _, _, _, _, _, _) = uses_ok in
    result_is blank_replayed left it

pub appended_is : appended ≡ ok ((value_of ("", []) appended).0, (value_of ("", []) appended).1)
appended_is =
    let (_, _, _, _, it, _, _, _, _, _, _, _, _, _, _, _, _, _, _) = uses_ok in
    result_is ("", []) appended it

pub used_is : used ≡ (ok (value_of blank_used used.0), used.1)
used_is =
    let (_, _, it, _, _, _, _, _, _, _, _, _, _, _, _, _, _, _, _) = uses_ok in
    value_of_lem blank_used used it

pub input_checked_is : input_checked ≡ ok (value_of blank_check input_checked)
input_checked_is =
    let (_, _, _, _, _, _, _, _, it, _, _, _, _, _, _, _, _, _, _) = uses_ok in
    result_is blank_check input_checked it

pub open_is : open_ ≡ ok (value_of blank_replayed open_)
open_is =
    let (_, _, _, _, _, _, _, _, _, _, _, _, _, it, _, _, _, _, _) = uses_ok in
    result_is blank_replayed open_ it
