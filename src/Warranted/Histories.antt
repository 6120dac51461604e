-- ===== src/Warranted/Histories.antt =====
-- The store after any sequence of the operations listed here, from the empty store on, whether the
-- operations return or raise.
use observable_agent_workflo.Prelude.{
  ℕ, String, ◌≡◌, refl, Bool, Option, none, List, [], ◌∷◌, All, All-mono, All-Elem,
}
use observable_agent_workflo.Result.{ok}
use observable_agent_workflo.Json.{Host, Items, Fields, end}
use observable_agent_workflo.Core.Receipt.{ActionIntent}
use observable_agent_workflo.Storage.{World, empty}
use observable_agent_workflo.Storage.Tables.{find_record}
use observable_agent_workflo.Storage.Trail.{lanes_after}
use observable_agent_workflo.Storage.Invariant.{IsConsistent}
use observable_agent_workflo.Storage.Search.{RetrievedMemory}
use observable_agent_workflo.Storage.Search.Lanes.{MatchesRows}
use observable_agent_workflo.Promotion.{Pipeline, verify, promote}
use observable_agent_workflo.Promotion.Keeps.{verify-Keeps, promote-Keeps}
use observable_agent_workflo.Kernel.{observe, retrieve}
use observable_agent_workflo.Kernel.Change.{correct_memory, retire, contradict, supersede}
use observable_agent_workflo.Kernel.Propose.{propose_memory}
use observable_agent_workflo.Kernel.Run.{Complete, run}
use observable_agent_workflo.Kernel.Exposure.{IsCertified, retrieve-IsCertified}
use observable_agent_workflo.Kernel.Keeps.{
  observe-Keeps, retrieve-Keeps, correct_memory-Keeps, retire-Keeps, contradict-Keeps,
  supersede-Keeps, propose_memory-Keeps, run-Keeps,
}
use observable_agent_workflo.Warranted.Base.{Backs, BacksIfCertified, IsWarranted}
use observable_agent_workflo.Warranted.Promoting.{verify-IsWarranted}
use observable_agent_workflo.Warranted.Certifying.{promote-IsWarranted}
use observable_agent_workflo.Warranted.Operating.{
  observe-W, retrieve-W, correct_memory-W, retire-W, contradict-W, supersede-W, propose_memory-W,
  run-W,
}

-- A call of one of the kernel's methods that write, with its arguments.
pub data Operation : Type 0 where
  observes :
      (kind : String) (payload : Fields) (run_id : Option String) (parents : List String)
      (index_as_raw : Bool)
      → Operation
  proposes :
      (run_id scope : String) (tools : Option (List String)) (caps : Option Fields)
      (signature : Option String)
      → Operation
  verifies : (candidate_id : String) (intent : Option ActionIntent) → Operation
  promotes : (candidate_id : String) → Operation
  corrects : (memory_id claim : String) (run_id : Option String) (sources : List String) → Operation
  contradicts : (memory_id claim : String) (sources : List String) (reason : String) → Operation
  retires : (memory_id reason : String) → Operation
  supersedes : (old_id new_id receipt_id : String) → Operation
  retrieves : (query mode : String) (limit : ℕ) (run_id : Option String) → Operation
  runs :
      (task : String) (tools : Option Items) (external_effects : Bool)
      (model run_id : Option String) (receipt_ids : List String) (intent : Option ActionIntent)
      → Operation

-- A kernel: its host, its pipeline, its profile and its language model.
pub record Agent : Type 0 where
  pub host : Host
  pub pipeline : Pipeline
  pub strict : Bool
  pub complete : Complete

-- the world after a call, whether it returned or raised
unfoldable pub perform : Agent → Operation → World → World
perform a (observes kind payload run_id parents index_as_raw) w =
    (observe a.host kind payload run_id parents index_as_raw w).1
perform a (proposes run_id scope tools caps signature) w =
    (propose_memory a.host run_id scope tools caps signature w).1
perform a (verifies id intent) w =
    (verify a.host a.pipeline id none (record { action_intent = intent; entries = end }) w).1
perform a (promotes id) w = (promote a.host id w).1
perform a (corrects id claim run_id sources) w = (correct_memory a.host id claim run_id sources w).1
perform a (contradicts id claim sources reason) w = (contradict a.host id claim sources reason w).1
perform a (retires id reason) w = (retire a.host id reason w).1
perform a (supersedes old_id new_id receipt_id) w = (supersede a.host old_id new_id receipt_id w).1
perform a (retrieves query mode limit run_id) w = (retrieve a.host query mode limit run_id w).1
perform a (runs task tools external model run_id ids intent) w =
    (run a.host a.strict a.complete task tools external model run_id ids intent w).1

unfoldable pub perform_all : Agent → List Operation → World → World
perform_all a [] w = w
perform_all a (o ∷ os) w = perform_all a os (perform a o w)

-- the world of a new store
abbrev pub opened : World
opened = record { db = empty; clock = 0; fresh = 0 }

perform-IsConsistent :
    (a : Agent) (o : Operation) (w : World)
    → IsConsistent a.host w.db
    → IsConsistent a.host (perform a o w).db
unfolding perform
perform-IsConsistent a (observes k p r ps i) w h = (observe-Keeps a.host k p r ps i).at w h
perform-IsConsistent a (proposes r s t c g) w h = (propose_memory-Keeps a.host r s t c g).at w h
perform-IsConsistent a (verifies id i) w h = (verify-Keeps a.host a.pipeline id none _).at w h
perform-IsConsistent a (promotes id) w h = (promote-Keeps a.host id).at w h
perform-IsConsistent a (corrects id c r ss) w h = (correct_memory-Keeps a.host id c r ss).at w h
perform-IsConsistent a (contradicts id c ss r) w h = (contradict-Keeps a.host id c ss r).at w h
perform-IsConsistent a (retires id r) w h = (retire-Keeps a.host id r).at w h
perform-IsConsistent a (supersedes o n r) w h = (supersede-Keeps a.host o n r).at w h
perform-IsConsistent a (retrieves q m l r) w h = (retrieve-Keeps a.host q m l r).at w h
perform-IsConsistent a (runs t ts x m r ids i) w h =
    (run-Keeps a.host a.strict a.complete t ts x m r ids i).at w h

perform-IsWarranted :
    (a : Agent) (o : Operation) (w : World) → IsWarranted w → IsWarranted (perform a o w)
unfolding perform
perform-IsWarranted a (observes k p r ps i) w h = (observe-W a.host k p r ps i).at w h
perform-IsWarranted a (proposes r s t c g) w h = (propose_memory-W a.host r s t c g).at w h
perform-IsWarranted a (verifies id i) w h = (verify-IsWarranted a.host a.pipeline id none _).at w h
perform-IsWarranted a (promotes id) w h = (promote-IsWarranted a.host id).at w h
perform-IsWarranted a (corrects id c r ss) w h = (correct_memory-W a.host id c r ss).at w h
perform-IsWarranted a (contradicts id c ss r) w h = (contradict-W a.host id c ss r).at w h
perform-IsWarranted a (retires id r) w h = (retire-W a.host id r).at w h
perform-IsWarranted a (supersedes o n r) w h = (supersede-W a.host o n r).at w h
perform-IsWarranted a (retrieves q m l r) w h = (retrieve-W a.host q m l r).at w h
perform-IsWarranted a (runs t ts x m r ids i) w h =
    (run-W a.host a.strict a.complete t ts x m r ids i).at w h

histories :
    (a : Agent) (os : List Operation) (w : World)
    → IsConsistent a.host w.db
    → IsWarranted w
    → IsConsistent a.host (perform_all a os w).db × IsWarranted (perform_all a os w)
unfolding perform_all
histories a [] w h k = (h, k)
histories a (o ∷ os) w h k =
    histories a os (perform a o w) (perform-IsConsistent a o w h) (perform-IsWarranted a o w k)

opened-IsConsistent : (host : Host) → IsConsistent host opened.db
unfolding find_record lanes_after
opened-IsConsistent host = record {
  numbered = tt;
  mirrored = tt;
  chained = tt;
  current = λ id. refl;
}

-- After any sequence of calls, from an empty store on, the store is consistent, and every certified
-- memory in it names a stored receipt that passed, with checks all of which passed, and that is for
-- this memory and its present update.
pub histories-IsWarranted :
    (a : Agent) (os : List Operation)
    → IsConsistent a.host (perform_all a os opened).db × IsWarranted (perform_all a os opened)
histories-IsWarranted a os = histories a os opened (opened-IsConsistent a.host) tt

-- A memory that is shown as admissible, and the receipt behind it.
pub record Grounded (w : World) (m : RetrievedMemory) : Type 0 where
  pub shown : IsCertified w.db m
  pub backed : Backs w.promotion_receipts shown.source

-- After any sequence of calls, from an empty store on, an admissible retrieval that returns shows
-- certified memories only, and behind each stands a stored, passing receipt for its present update;
-- provided that MATCH returns rows of the index.
pub retrieve-Grounded :
    (a : Agent) (os : List Operation) (query : String) (limit : ℕ) (run_id : Option String)
    → MatchesRows a.host
    → (ms : List RetrievedMemory) (w' : World)
    → retrieve a.host query "admissible" limit run_id (perform_all a os opened) ≡ (ok ms, w')
    → All (Grounded (perform_all a os opened)) ms
retrieve-Grounded a os query limit run_id matches ms w' h =
    let (inv, warranted) = histories-IsWarranted a os in
    All-mono _ _ ms
      (λ m c. record {
        shown = c;
        backed =
            All-Elem (BacksIfCertified (perform_all a os opened).promotion_receipts) c.source
              (perform_all a os opened).memory_records warranted c.stored c.certified_;
      })
      (retrieve-IsCertified a.host query limit run_id (perform_all a os opened) matches inv ms w' h)
