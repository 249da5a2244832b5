-- ===== src/Lib.antt =====
-- pmqa: a model of the workflow core of PMQA and its correctness.
--
-- The program explores a web product with a team of agents. A `WorkflowState` is the shared,
-- immutable state of a run. The Supervisor reads it and decides which agent acts next or how the
-- run ends; the agent returns a patch, the runtime checks the patch against the capabilities of the
-- agent's role, and the reducer applies it. A graph of two nodes alternates between the Supervisor
-- and the selected agent. Every payload that enters a contract is validated against a policy of
-- prohibited keys and frozen. Outside the graph, `PMQAApplicationService` takes a run request, finds
-- the workflow and the runner that it names, dispatches one runner invocation and assembles the
-- record of the run from the response of the runner.
--
-- The files, and the code that they model:
--   Security       pmqa/security/boundary_policy.py: `normalize_boundary_key`, `is_prohibited_key`.
--   Values         the Python values of payloads, as trees.
--   Workflow       pmqa/workflow/: Payload is `_validate_payload` and `_freeze`, Models is models.py,
--                  Updates is updates.py, Reducer is reducer.py, Agents is agents.py; Tools,
--                  ToolIds and ToolRegistry are tools.py.
--   Supervisor     pmqa/supervisor/: Contracts is contracts.py, Policy and History are policy.py.
--   Runtime        pmqa/runtime/runtime.py: `WorkflowRuntime.execute_agent` and `invoke_tool`.
--   Orchestration  pmqa/orchestration/langgraph.py: the nodes, the routing, the edges and
--                  `_validate_agents`.
--   Run            pmqa/run/models.py: Identifiers, Texts and Timestamps are the texts, Json is
--                  `_validate_safe_json` and `_freeze_json`, Plain is `_is_plain_json` and
--                  `_plain_json_equal`, Dumps is `to_dict` and `from_dict`, Build the constructors
--                  of the parts, and Requests, Definitions, Invocations and Records the contracts.
--   Runners        pmqa/runners/: Contracts and Response are contracts.py, Control is
--                  base.py, Mock is mock.py.
--   Application    pmqa/application/: Contracts is contracts.py, Registry is registry.py,
--                  Service and Dispatch are service.py.
--   Usage          pmqa/usage/: Decimals, Ranks, Evidence, Costs and Invocations are contracts.py,
--                  Pricing is pricing.py.
--   Base           shared names; Tests: samples, and the theorems at concrete inputs.
--
-- A class of the contracts is a record with its fields. The function named after it is the
-- constructor: its field constraints, its validator and its freezing. A raised exception is an `err`
-- with a constructor for the message; the text of a message is not modelled. An agent is what it
-- declares and what its `invoke` returns for a request, or that it raises; the theorems hold for
-- every such function. A run of the graph is `Reach`, any number of supersteps along the edges that
-- `build_pmqa_graph` adds, so what holds of it holds for every recursion limit. A workflow adapter
-- and a runner are what their declarations say, when they are registered and when they are used, and
-- what their methods answer for an argument. The control that `execute` is given is none, one that
-- says whether a cancellation is requested, or an object of another type. A clock is what its samples give. The arithmetic of
-- floats that the mock runner uses is a parameter.
--
-- Integers are natural numbers where a field is constrained to be non-negative. A `datetime` is
-- microseconds and whether it is aware. In the run contracts it is aware, and the microseconds count
-- from the start of the year 1; they are dumped by the calendar. Which characters are printable is
-- the platform's to say, a parameter. A float is its 64 bits, and a `Decimal` a sign, a coefficient
-- and an exponent of ten, which is read from its text by its digits. A text is a string of characters and the code points of it where it is
-- normalized; the case folding of a character outside ASCII is modelled as far as the normalization
-- can see it. `decimal_from` runs on fuel one more than the number, and a number has no more digits
-- than that.
--
-- Not modelled: the engine of the graph; containers that hold themselves; the coercions of pydantic,
-- whose fields have the checked type here; Python's equality of mixed numbers; trees that are read
-- from outside, so that `from_dict` is modelled on the trees that `to_dict` gives; and the parts of
-- the program outside these (the summary, the collection and the storage of usage, reasoning,
-- product packs, storage, the command line and the demo product).
pub mod Base
pub mod Security
pub mod Values
pub mod Workflow
pub mod Supervisor
pub mod Run
pub mod Runners
pub mod Application
pub mod Usage
pub mod Runtime
pub mod Orchestration
pub mod Tests
