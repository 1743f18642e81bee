-- ===== src/Lib.antt =====
-- FALDA: layered memory for agents, over SQLite. This library models the parts that decide what
-- is remembered, what is recalled, and when: each file says which source file it is about, with
-- paths from the repository's root.
--
-- The parts and how they meet. A distillation job waits in the queue (src/distill/queue.ts,
-- Queue.antt) until the worker (src/distill/worker.ts, Worker.antt) claims it under a lease, and is
-- then completed, rescheduled or buried; the sweep of the worker enqueues the stores with new turns
-- or a dirty flag (src/distill/watermark.ts, Distill/Watermark.antt). A pass over a store
-- (src/distill/core.ts, Distill.antt) asks a model for decisions on the candidates that it has
-- extracted: Distill/Decision.antt says which replies count, Distill/Chunks.antt how candidates are
-- batched, Distill/Plan.antt how the decisions of a pass are made consistent, and
-- Distill/Commit.antt is the transaction that applies them to the store (the operations of
-- src/falda.ts and src/store/distill-audit.ts that it calls are in Distill/Store.antt). The second
-- phase of the pass turns the atoms into scenes and a core text: Distill/Scenes.antt has the table of
-- scenes and the episodes, Distill/Scenes/Topics.antt the clusters and topic scenes,
-- Distill/Scenes/Narrate.antt the texts, the core and the gate at the end, and
-- Distill/Scenes/Organize.antt the whole pass and when it is skipped.
-- Turns come into a store and leave it through addStream and deleteStream of src/falda.ts
-- (Stream.antt, Stream/Deletion.antt), over the same tables, with the whole rows of the stream, which
-- the pass sees by their ids.
-- A recall assembles one text from four tiers under a budget of characters
-- (src/distill/context.ts, Context.antt); what it admitted is written as a trace
-- (src/recall/traces.ts, Recall/Traces.antt), on which the harness later reports which items were
-- used (src/recall/usage.ts, Recall/Usage.antt), and which is pruned with age
-- (src/recall/retention.ts, Recall/Retention.antt); src/recall/reconstruct.ts shows a trace again
-- from today's store (Recall/Reconstruct.antt). The opencode plugin buffers turns and flushes
-- them to FALDA (integrations/opencode/plugin/capture-flush.ts, Capture.antt).
-- A request names a tenant and a pool: src/mcp_auth.ts says what its token may address
-- (Pools/Auth.antt), and src/pools.ts keeps the registry of shared pools in a file (Pools/Persist.antt)
-- and routes the request to a physical store (Pools.antt); Pools/Roster.antt is the contract that
-- both are held to.
--
-- How code becomes a definition. A SQLite table is the list of its rows in rowid order, and a
-- statement is a function on that list (Prelude/Table.antt): UPDATE ... WHERE is update_where, and
-- so on; a transaction that throws is `none`, or leaves its caller's table. An ISO timestamp is its
-- number of milliseconds; the clock is an argument, once for each reading that the source makes
-- (in the transaction and in the sweep, whose readings are many, once for the whole).
-- Keys and identifiers are native strings; text that is measured or cut is the list of its UTF-16
-- code units. Names are the source's, in snake case.
--
-- Awaits. In the worker (Worker.antt) and the capture queue (Capture.antt) an asynchronous call is two
-- steps, with the environment's events between them. A pass over a store, the scenes and the core
-- included, the assembling of a recall and a call of addStream are one step each, although the source
-- awaits the model, the embedder or a search many times inside them: what a foreground request may do
-- to the store in between is not modelled, and the results below on a pass are about passes that
-- nothing interrupts.
--
-- Loops are structural recursion over the rows or entries. There is fuel in two places: in `decimal`,
-- where the number itself bounds its digits, and in `stride` of Distill/Chunks.antt, where the number
-- of items does, as each round takes at least one.
--
-- Double-precision arithmetic is not modelled: similarities of embeddings go through the
-- operations of `Cosine`, quotients of two counts are compared as fractions; the shares of a
-- recall budget and the over-fetch limits go through the operations of `FloatOps`, and what is
-- needed of them is a hypothesis. Nor are JSON.parse (the values that it returns are the data type
-- Json), the replies of the model and the digests (both are parameters), the extraction of
-- candidates, SQLite's schema statements, embeddings and the searches that use them (the searches
-- are the answers in `StoreReads`), HTTP, MCP, logging and metrics.
pub mod Prelude
pub mod Queue
pub mod Recall
pub mod Context
pub mod Capture
pub mod Distill
pub mod Worker
pub mod Pools
pub mod Stream
