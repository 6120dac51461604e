-- ===== src/Core/Lane.antt =====
-- The enumerations of core/models.py.
use observable_agent_workflo.Prelude.{ℕ, String, Bool, ◌≡◌, ◌↔◌, nat_eq, arith}

pub data Lane : Type 0 where
  raw candidate shadow certified superseded quarantine tombstone contradiction : Lane

abbrev pub lane_value : Lane → String
lane_value raw = "raw"
lane_value candidate = "candidate"
lane_value shadow = "shadow"
lane_value certified = "certified"
lane_value superseded = "superseded"
lane_value quarantine = "quarantine"
lane_value tombstone = "tombstone"
lane_value contradiction = "contradiction"

abbrev index : Lane → ℕ
index raw = 0
index candidate = 1
index shadow = 2
index certified = 3
index superseded = 4
index quarantine = 5
index tombstone = 6
index contradiction = 7

unfoldable pub lane_eq : Lane → Lane → Bool
lane_eq a b = nat_eq (index a) (index b)

pub lane_eq_iff : (a b : Lane) → (lane_eq a b ≡ Bool.true) ↔ (a ≡ b)
unfolding lane_eq
lane_eq_iff a b = ground arith

pub data MemoryOperation : Type 0 where
  write replace delete read use_ verify correct promote : MemoryOperation

abbrev pub operation_value : MemoryOperation → String
operation_value write = "write"
operation_value replace = "replace"
operation_value delete = "delete"
operation_value read = "read"
operation_value use_ = "use"
operation_value verify = "verify"
operation_value correct = "correct"
operation_value promote = "promote"
