-- ===== src/Lib.antt =====
-- ARD Ossie provider: the deterministic core of the compiler that turns AI Ready Data documents
-- into Apache Ossie models, modelled from src/ard_ossie (Python) and proved.
--
-- The parts and how they interact. A submission names a product and its tables. `models.py` says
-- which records are well formed; `versioning.py` decides each version transition; `identity.py`
-- decides whether a product or a table is new, known or in conflict; `impact.py` finds the
-- products that share a table and keeps the readiness of a changeset; `registry.py` stores the
-- records, a file to each, under immutable identity rules. `pipeline.py` plans the versions of a
-- submission's tables and stops it by findings. `ossie_compiler.py` compiles a product into an
-- Ossie model. After a merge, `application/release_detection.py` finds which products and tables
-- to release, and `release.py` makes the plan of a release and verifies the bundle of its files.
-- Then `application/release_publication.py` pushes the tags of the plan and uploads the bundle
-- through the git and GitHub programs, and `application/release_dispatch.py` announces the release
-- once. `application/finalize.py` tells the outcome of a workflow by labels, comments and
-- statuses. All report by the results and errors of `application/contracts.py`. `llm/service.py`
-- asks a language model for structured data, with retries and repairs.
--
-- Which file models which part:
--   Versioning      versioning.py: `plan_version`, its range checks and its decision (`decide_version`
--                   with `decide_new`, `decide_limit`, `decide_current` for its blocks)
--   Models          models.py: the records and what their construction checks; Models/Patterns the
--                   constrained text types, Models/Locator `TableLocator`, Models/References the
--                   validators' meaning
--   Impact          impact.py: `ChangeSetRecord`, `mark_ready`, `analyze_table_change`,
--                   `build_changeset`
--   Identity        identity.py: `classify_product` and `classify_table`
--   Registry        registry.py: the `Registry` class; Registry/Files the files it replaces
--   Pipeline        pipeline.py: `_build_table_records` and `_hard_findings`; Pipeline/Shared
--                   `_shared_table_findings`, Pipeline/Tables `_resolve_tables`
--   Ossie           ossie_compiler.py and ir.py: `compile_ossie` with its parts
--   Detection       application/release_detection.py: `ReleaseDetectionService`, its loop over the
--                   changed paths; Detection/Expansion the loop over the changesets, and `run`
--   Release         release.py: `build_release_plan`, `verify_tag_target`; Release/Snapshots the
--                   files of a release and `_verify_release_snapshots`, Release/Gates the fidelity and
--                   validation gates, Release/Bundle `build_release_bundle` and
--                   `verify_release_bundle`, Release/Resolve `resolve_release_plan`
--   Workflow        application/contracts.py: exit codes, statuses, errors and results;
--                   Workflow/Sensitive the pattern of sensitive keys
--   Llm             llm/contracts.py: errors and results; Llm/Fence the check of an answer,
--                   Llm/Service llm/service.py: `LLMService`
--   Shell           the programs that run and what they answer; Shell/Text the validated texts,
--                   Shell/Git adapters/git_cli.py, and of adapters/github_cli.py Shell/GitHub the
--                   reading of answers, Shell/Pages answers of several documents, Shell/Pulls pull
--                   requests, statuses and events, Shell/Release releases, Shell/Issues labels and
--                   comments
--   Publication     application/release_publication.py: the checks of `ReleasePublicationService`,
--                   Publication/Run its `run`
--   Dispatch        application/release_dispatch.py: the request of `ReleaseDispatchService`,
--                   Dispatch/Checks the approved result, Dispatch/Run its `run`
--   Finalize        application/finalize.py: `FinalizeService`
--
-- Representation. Texts are native strings, compared by code points as Python does. A `dict` is an
-- association list in insertion order. A number is a natural; where an argument may be negative
-- before it is checked, it is a signed integer. `set` and `sorted` are `Prelude.Sets` and
-- `Prelude.Sorting`. A raised exception is the `err` of a result whose error type lists what the
-- source raises. The services over git and GitHub keep the list of the commands that were run, and
-- the answer to a command is any function of the commands before it and of the command, or its
-- failure to start or to end in time; a change of the world is a command, so that what a service may change is a statement on this list. A JSON
-- value is `Json`, its objects in the order of the text. `str.strip`, `str.lower` and
-- `str.casefold` are parameters, `str.strip` so only where a name is normalized. Every loop runs
-- over a list, except three. The printing of a decimal number has the number as fuel: that is
-- enough, as each digit divides the rest by ten. The requests to a language model are counted down
-- from the three that the source allows, with the error of its last line where none is left. The
-- loop over the documents of an answer has a round more than the text has characters, and each
-- document takes one.
--
-- Parameters for code outside the repository: SHA-256, the ZIP format (with the law that an
-- archive of entries with different names opens to these entries), YAML, the reading and printing
-- of JSON, the parsers of the JSON reports, the JSON schemas, the drawing of a new identifier, the
-- language model, and the answers of the programs, of the files and of the ports.
--
-- Not modelled: the parsers of HTML, PDF and XLSX, the language model providers and the command
-- line, which are input and output; the semantic document pipeline, the rest of the processing
-- pipeline and the workflows around it. Of the models the messages of errors, the length of a
-- pause between retries, and the checks that the root of the file system port and the file name of
-- a bundle are well-formed are left out. The registry's files hold the records that are dumped
-- into them, and a failing write is a prefix of the file replacements.
pub mod Prelude
pub mod Versioning
pub mod Models
pub mod Impact
pub mod Identity
pub mod Registry
pub mod Release
pub mod Detection
pub mod Ossie
pub mod Pipeline
pub mod Json
pub mod Llm
pub mod Workflow
pub mod Shell
pub mod Publication
pub mod Dispatch
pub mod Finalize
