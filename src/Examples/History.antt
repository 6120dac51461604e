-- ===== src/Examples/History.antt =====
-- The theorems about whole histories, at the calls of the session.
use observable_agent_workflo.Prelude.{◌≡◌, refl, true, none, some, List, [], ◌∷◌, All}
use observable_agent_workflo.Result.{ok}
use observable_agent_workflo.Json.{str, dict}
use observable_agent_workflo.Storage.Invariant.{IsConsistent}
use observable_agent_workflo.Kernel.{retrieve}
use observable_agent_workflo.Warranted.Base.{IsWarranted}
use observable_agent_workflo.Warranted.Histories.{
  Operation, observes, proposes, verifies, promotes, Agent, perform, perform_all, opened, Grounded,
  histories-IsWarranted, retrieve-Grounded,
}
use observable_agent_workflo.Examples.Hosted.{host, value_of, host-MatchesRows}
use observable_agent_workflo.Examples.Session.{
  pipeline, complete, intent, proposal, promoted, retrieved,
}
use observable_agent_workflo.Examples.Steps.{retrieved_is}

abbrev agent : Agent
agent = record { host = host; pipeline = pipeline; strict = true; complete = complete }

abbrev calls : List Operation
calls =
    observes "task" (dict (("text", str "build") ∷ [])) (some "r1") [] true
    ∷ proposes "r1" "session" none none none
    ∷ verifies proposal.memory_id (some intent)
    ∷ promotes proposal.memory_id
    ∷ []

histories-IsWarranted_example :
    IsConsistent host (perform_all agent calls opened).db
    × IsWarranted (perform_all agent calls opened)
histories-IsWarranted_example = histories-IsWarranted agent calls

same_world : perform_all agent calls opened ≡ promoted.1
unfolding perform perform_all
same_world = refl

shown :
    retrieve host "build" "admissible" 5 none (perform_all agent calls opened)
    ≡ (ok (value_of [] retrieved.0), retrieved.1)
shown = rw same_world retrieved_is

retrieve-Grounded_example :
    All (Grounded (perform_all agent calls opened)) (value_of [] retrieved.0)
retrieve-Grounded_example =
    retrieve-Grounded agent calls "build" 5 none host-MatchesRows (value_of [] retrieved.0)
      retrieved.1 shown
