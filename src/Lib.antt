-- ===== src/Lib.antt =====
-- A verification library for the project knowledge base of this repository: a FastAPI backend
-- (backend/app) that keeps uploaded documents, cuts and embeds them, summarises them, folds the
-- summaries into a versioned belief state per project, and answers questions from both.
--
-- How the parts interact. A user's role and teams decide which projects the user reaches (Access,
-- Teams). An upload adds a document with a pending job and queues it (Documents). The ingestion
-- worker takes the job up, cuts and indexes the text (Chunks), stores one summary for the document,
-- and queues an update of the belief state when enough summaries are pending (Ingest). The update
-- consumes the pending summaries batch by batch and adds the next version; a rebuild folds all of
-- them, or those after the latest full version, by map-reduce (Cag, Reduce). A question is answered
-- from the best chunks of the vector store and the latest belief state (Retrieve, Prompting, Query).
--
-- Files and code:
--   Models     the rows of backend/app/models/*.py and the tables: one list of rows for each table
--   Errors     backend/app/core/exceptions.py, built-in exceptions and FastAPI's HTTPException
--   Schema     backend/app/schemas/belief_state.py
--   Access     backend/app/core/roles.py and access.py, and require_role of dependencies.py;
--              Access.Scope describes what a user reaches by membership
--   Auth       backend/app/services/auth.py, backend/app/core/security.py and get_current_user of
--              backend/app/core/dependencies.py
--   Teams      backend/app/services/team.py; Teams.Members has its invariant and what it opens
--   Documents  backend/app/services/document.py and the routes of backend/app/api/documents.py
--   Projects   backend/app/services/project.py and VectorStore.delete_collection of
--              backend/app/ingestion/vector_store.py
--   Chunks     backend/app/ingestion/chunker.py
--   Parser     backend/app/ingestion/parser.py; Parser.Newlines says what is left of its whitespace
--   Vectors    the other operations of VectorStore, and _index_document of
--              backend/app/workers/ingest.py; Vectors.Reindex is backend/app/workers/maintenance.py, and
--              Vectors.Owned and Owners say whose points are left
--   Summarizer backend/app/ingestion/summarizer.py; Summarizer.Fallback says what a failure leaves
--   Ingest     backend/app/workers/ingest.py, where indexing a document and summarising it are
--              parameters; Ingest.Jobs says how a job ends. Ingest.Update is cag_update of
--              backend/app/workers/cag.py
--   Cag        backend/app/services/cag.py, CAGService: get_latest, get_window_since,
--              synthesize_and_insert, rebuild, insert_version, ... under the same names; its rows and
--              queries are in Cag.Rows, its invariants in Cag.Versions (numbering), Cag.Counted
--              (coverage counts), Cag.Drain (batches), Cag.Increment, Cag.Coverage and Cag.Insert
--   CagPrompts backend/app/services/cag_prompts.py; the texts are in CagPrompts.Templates
--   Jobs       the jobs of backend/app/workers/cag.py: Jobs.Fold has the functions that they hand to
--              the service, made of the prompts and the model, and Jobs.Covers says what is stored;
--              Jobs.Log and Jobs.History follow a project over many jobs
--   Reduce     _hierarchical_reduce and _synthesize_prompt of backend/app/workers/cag.py
--   Retrieve   backend/app/retrieval/retriever.py and VectorStore.hybrid_search of
--              backend/app/ingestion/vector_store.py
--   Prompting  backend/app/retrieval/prompting.py
--   Query      backend/app/services/query.py
--   RateLimit  backend/app/core/ratelimit.py; RateLimit.Trace has the requests at one key, one after
--              another, and Window, Retry and Ties what is allowed
--   Eval       the evaluation of eval/*.py: Judge (judge.py), Report (report.py), Calibrate
--              (calibrate.py), Arms and Run (run_eval.py), Fixtures; Blinding, Counts, Agreement,
--              Divergent, Trust, Gaps, Pinned and Comparable have the properties
--   Act        awaited calls: an action takes a world and returns a result or an error with a world
--   Base, Sorting, Samples, Tests   shared helpers, Python's stable sort, instances, and runs
--
-- Conventions. UUIDs, timestamps and scores are only compared, so they are natural numbers; text is
-- a list of code points. A function that raises returns a Result. A service method is a function
-- from the tables to its result and the tables that its transaction leaves; the advisory lock makes
-- the belief-state transactions of a project run one after another, and no other interleaving of
-- transactions is modelled. What is not code of the repository is a parameter: the language model,
-- the embedders, the Qdrant client, Redis, the job queue, Pydantic and what SQL leaves to PostgreSQL (the
-- record Postgres of Models, with the laws of ORDER BY). Concrete instances are in Samples.
--
-- Fuel. The reduction, which merges levels of digests until one is left, and the chunker, which
-- moves a start by a step, are while loops: they take fuel, and without a result the fuel has run
-- out. As many rounds as there are summaries, and as many windows as there are words, are enough
-- where the batch size is at least two and the overlap is less than the chunk size; where they are
-- not, the loops may run for ever. All other loops are over lists.
--
-- Not modelled: log lines, times and messages of exceptions, which no behaviour depends on; the
-- reading of PDF files, the schema migrations, the startup and the configuration, which are calls of
-- third-party code; floating-point figures such as the similarity of two summaries; the frontend.
-- Also outside the model are the routes but for uploads, and of the evaluation the text of the
-- report, the mock model, the reading of files and run_eval, which wires the parts to a database.
-- The statements of the database are not refused, but for the insertion of a summary: a cast of a
-- field that is no boolean, which PostgreSQL refuses, is NULL here. Only an ingestion job is
-- cancelled. The two pipelines of a rate-limited request run without another request between
-- them. Of a project's configuration the sizes are natural numbers; the code checks no sign.
-- That indexing a document ends is not part of the ingestion worker's model, since the chunker
-- may not.
pub mod Base
pub mod Errors
pub mod Models
pub mod Schema
pub mod Sorting
pub mod Access
pub mod Teams
pub mod Auth
pub mod RateLimit
pub mod Prompting
pub mod Retrieve
pub mod Documents
pub mod Parser
pub mod Vectors
pub mod Chunks
pub mod Query
pub mod CagPrompts
pub mod Cag
pub mod Act
pub mod Ingest
pub mod Projects
pub mod Reduce
pub mod Jobs
pub mod Summarizer
pub mod Eval
pub mod Samples
mod Tests
