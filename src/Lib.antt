-- ===== src/Lib.antt =====
-- A verification library for kb-retv-services, the retrieval and assistance services behind the
-- knowledge base: models of its core logic, translated from the Go sources, and what is proved of
-- them.
--
-- The program answers chat turns and messages. A turn is decided (internal/application/decide) from
-- an intent and from a tool selection; a selected tool is executed by the orchestrator
-- (internal/application/skeleton), which audits, asks for confirmation and calls a handler; a question
-- without a tool goes through the retrieval pipeline (internal/ai/rag), which grades evidence, writes a
-- draft, has it criticised and decides whether to send it; every call of a language model passes the
-- providers of internal/infra/llm, which retry, break the circuit, fall back and record. Incoming messages
-- are received by internal/application/workflows/omnichannel, and mail is assessed without a model by
-- internal/application/workflows/intake.
--
-- What is modelled where:
--   Prelude    shared names, Go's strings (lists of bytes), integers and maps (association lists).
--   Perms      internal/shared/perms: `Valid`, `Can`. Perms/Grants is about what a grant covers.
--   Llm        internal/infra/llm. Errors: errors as values, and how the callers read them. Breaker:
--              the circuit breaker of resilient.go as a state with `allow`, `recordFailure` and
--              `recordSuccess`; Breaker/Cooldown and Breaker/Counting follow it over lists of events.
--              Resilient: `call` and its loop, over a world that says what each attempt returns and
--              when. Failover: failover.go. Routed: `call` of routed_provider.go over the candidates
--              that it visits.
--   Tools, Skeleton
--              internal/application/tools/schema.go and internal/application/skeleton. Template: the
--              texts of an answer. Pending: the store of proposed actions, which
--              Pending/Refine compares with a ledger. Response: `compose`.
--              Orchestrator: `Handle`, `ExecuteSelection`, `Confirm`, with the audit entries and the
--              handler runs as a list of effects.
--   Rag        internal/ai/rag. Types; Merge: rrf.go; Context: context_assembler.go; Decision: the pure
--              functions of a decision; Retrieve: pipeline_retrieve.go; Pipeline: `Run` and its stages,
--              with what it asks of models and writes as a list of events.
--   Router     internal/application/intent/router.go: `Route` over the similarities to the anchors.
--              Router/Highest is about the two loops.
--   Decide     internal/application/decide/decide.go: what kind of answer a turn gets.
--   Intake     internal/application/workflows/intake: score.go, confidence.go, spec.go.
--   Tools/Caseref, Tools/Params, Tools/Selector
--              internal/application/tools: references to cases in a text (caseref.go), the parameters
--              of a tool (params.go), the choice of a tool over given similarities (selector.go), the
--              cascade and the model selector (cascade.go, modelselector.go). What a pattern finds and
--              how names match are arguments.
--   Omni       internal/application/workflows/omnichannel: `Run` over services that answer from the
--              state of everything outside, which each call may change. Request: the checks of
--              internal/application/dto. Control, Verify: the mails that verify a mailbox. Accounts,
--              Threads: the account and the conversation of a message. Stored, Intake: what follows
--              once it is stored. Run/Frame is what the calls for one company keep.
--   Memcache   internal/infra/memcache, with the clock as an argument of each call.
--   Budget     internal/ai/budget: `Acquire` over any cache; Budget/Windows is about the one in memory.
--   Concurrency
--              pkg/concurrency. Parallel: `Map` as steps that the sender, the workers and the caller take
--              in any order. Limiter: `Do` of a limiter, in the same way.
--   Examples   concrete runs.
--
-- How the models are made. Clocks, random ids, databases, models and channels are arguments: functions,
-- or the list of what they answer. A method that holds a mutex is one function on the state. Errors
-- are values. A float64 is a value of an unknown type with the comparisons and literals that the code
-- uses. Loops are structural recursion. The loop that merges bars in a template has fuel, the length of
-- the text, which each round shortens, and the printing of a number has its value plus one, which is
-- more than its digits; the rounds of the retry loop are those that the source counts. Integers are
-- unbounded, but for the backoff, where the base is rounded to a float and the conversion of a value past
-- 63 bits is an argument.
--
-- Not modelled: repositories and database clients, HTTP, configuration, vendors' clients, prompts,
-- embeddings, logging and tracing, which are input and output; streaming of the resilient and routed
-- providers; the Unicode part of case folding and white space; and the workflows of chat,
-- replies and search.
pub mod Prelude
pub mod Perms
pub mod Llm
pub mod Tools
pub mod Skeleton
pub mod Rag
pub mod Router
pub mod Decide
pub mod Intake
pub mod Memcache
pub mod Omni
pub mod Budget
pub mod Concurrency
pub mod Examples
