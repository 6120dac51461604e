-- ===== src/Checkers/Caps/Bounds.antt =====
-- The step limit that an accepted candidate declares.
use observable_agent_workflo.Prelude.{ℕ, ◌≤◌, ◌≡◌, ◌⊎◌, inl, inr, refl, true, false, arith}
use observable_agent_workflo.Prelude.Int.{pos, negsuc}
use observable_agent_workflo.Json.{Value, Fields, obj, boolean, int, value_eq}
use observable_agent_workflo.Checkers.Base.{Context}
use observable_agent_workflo.Checkers.Caps.{out_of_range, max_steps_of, intent_differs, check_caps}

in_range :
    (limit : ℕ) (v : Value)
    → out_of_range limit v ≡ false
    → ((n : ℕ) × (v ≡ int (pos n)) × (1 ≤ n) × (n ≤ limit)) ⊎ (v ≡ boolean true)
unfolding out_of_range
in_range limit (int (pos n)) h = inl (n, refl, ground arith, ground arith)
in_range limit (int (negsuc n)) h = absurd (ground arith)
in_range limit (boolean true) h = inr refl
in_range limit (boolean false) h = absurd (ground arith)
in_range limit Value.null h = absurd (ground arith)
in_range limit (Value.float x) h = absurd (ground arith)
in_range limit (Value.str x) h = absurd (ground arith)
in_range limit (Value.arr x) h = absurd (ground arith)
in_range limit (Value.obj x) h = absurd (ground arith)

-- Accepted caps equal those of the evidence and those of the action intent, if there is one, and
-- the step limit is `true` or an integer from 1 up to the checker's own limit.
pub check_caps_accepts :
    (limit : ℕ) (caps : Fields) (evidence_caps : Value) (context : Context)
    → (check_caps limit caps evidence_caps context).passed ≡ true
    → (value_eq evidence_caps (obj caps) ≡ true)
      × (intent_differs context.action_intent caps ≡ false)
      × (((n : ℕ) × (max_steps_of caps ≡ int (pos n)) × (1 ≤ n) × (n ≤ limit))
          ⊎ (max_steps_of caps ≡ boolean true))
unfolding check_caps
check_caps_accepts limit caps evidence_caps context h =
    (ground arith, ground arith, in_range limit (max_steps_of caps) (ground arith))
