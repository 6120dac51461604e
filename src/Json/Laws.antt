-- ===== src/Json/Laws.antt =====
-- Reading a JSON object after a key is set.
use observable_agent_workflo.Prelude.{String, ◌==◌, ◌≡◌, refl, some, arith, eq_iff, if◌then◌else◌}
use observable_agent_workflo.Json.{Value, Fields, end, field, get, put}

pub get-put :
    (j k : String) (v : Value) (f : Fields)
    → get j (put k v f) ≡ (if k == j then some v else get j f)
get-put j k v end = refl
get-put j k v (field i w f) = ground (arith, get-put j k v f, eq_iff i k, eq_iff i j, eq_iff k j)
