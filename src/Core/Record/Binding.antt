-- ===== src/Core/Record/Binding.antt =====
-- An update identifier binds a record to its content.
use observable_agent_workflo.Prelude.{String, inl, inr, ◌≡◌, Option, arith, strip}
use observable_agent_workflo.Result.{ok, Result-cases}
use observable_agent_workflo.Json.{Host, Fields, obj, digest_json}
use observable_agent_workflo.Core.Lane.{Lane}
use observable_agent_workflo.Core.Record.{
  MemoryRecord, Draft, validated, content_seed, content_digest, compute_update_id, create, moved,
}

-- A record is bound when its update identifier is the one computed from its present content.
abbrev pub IsBound : Host → MemoryRecord → Type 0
IsBound host r =
    (d : String) × (content_digest host r ≡ ok d)
    × (compute_update_id host r.memory_id d ≡ ok r.update_id)

abbrev seed_of : Draft → Fields
seed_of d = content_seed d.claim d.source_event_ids d.metadata d.supersedes d.contradicts

-- A record created from a claim with no space around it is bound to its content.
pub create-IsBound :
    (host : Host) (t u : String) (d : Draft) {r : MemoryRecord}
    → create host t u d ≡ ok r
    → strip d.claim ≡ d.claim
    → IsBound host r
unfolding create validated content_digest
create-IsBound host t u d h s = elim (Result-cases (digest_json host (obj (seed_of d)))) [
  | inl (c, hc) ↦ (c, ground arith, ground arith)
  | inr (e, he) ↦ absurd (ground arith)
]

-- Moving a bound record whose claim is stripped to another lane keeps it bound.
pub moved-IsBound :
    (host : Host) (r : MemoryRecord) (l : Lane) (reason : String) (rid : Option String)
    (now : String) {r' : MemoryRecord}
    → moved r l reason rid now ≡ ok r'
    → strip r.claim ≡ r.claim
    → IsBound host r
    → IsBound host r'
unfolding moved validated content_digest
moved-IsBound host r l reason rid now h s (d, p, q) = (d, ground arith, ground arith)
