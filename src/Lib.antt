-- ===== src/Lib.antt =====
-- A verification library for the DuckDB extension unity_catalog (src/ of the repository, in C++).
--
-- The extension reads tables of a Unity Catalog server. This library models the path of a planned
-- scan: the filters of the query become an expression (src/uc_irc_expression.cpp), the server is
-- asked for a plan and polled (src/uc_api.cpp), the plan's files are listed, with the delete files of
-- each, and its tokens drained (src/uc_multi_file_list.cpp), and the delete files of a data file,
-- parquet or deletion vectors (src/uc_puffin.cpp), become the filter that its reader asks
-- (src/include/uc_position_delete_filter.hpp). Beside it stand the calls of the server's REST
-- interface (src/uc_api.cpp), and of the attached catalog (src/storage) the transactions, the set of
-- schemas, the backfill of a table's staged commits, and the creation of tables, which writes a
-- table's first version through DuckDB's Delta extension and registers it with the server.
--
-- Files and the code that they are about:
--   Irc              src/uc_irc_expression.cpp: `json_quote` is `JsonQuote`, `expr_to_irc` is
--                    `ExprToIRCJson`, `serialize_filters_to_irc` is `SerializeFiltersToIRC`
--   Http             `MakeRequestResp` and `ParseRetryAfterMs` of src/uc_api.cpp
--   Api              src/uc_api.cpp: Data: the structs of src/include/uc_api.hpp; Fields, Errors,
--                    Values: what is read of a response; WireSchema: `WireSchema`; Calls:
--                    `CreateStagingTable`, `CreateTable`, `TableExists` (Create), `LoadTable` (Load),
--                    `UpdateTable` (Update), the credentials and the default schema (Access),
--                    `GetTables`, `GetSchemas` (Listing)
--   ScanPlan         the data of src/include/uc_api.hpp; Parse: the responses; Poll: `PlanTableScan`,
--                    `FetchPlanningResult`, `FetchScanTasks`, `CancelPlan`
--   FileList         `UCMultiFileList` of src/uc_multi_file_list.cpp
--   DeleteFilter     `UCPositionDeleteFilter`; Build: `BuildUCDeleteFilter`
--   Puffin           src/uc_puffin.cpp: Crc is `CRC32`, with its reference in Serial; Blob is
--                    `UCDeletionVectorData`, Footer is `UCPuffinReader`
--   Storage          Transaction: src/storage/uc_transaction.cpp;
--                    SchemaSet: src/storage/uc_schema_set.cpp; Backfill: `BackfillCommits` and
--                    `CopyStagedCommitToDeltaLog` of src/storage/uc_table_set.cpp; Table: what the
--                    catalog's report of a table says (same file); Gate: the gate of planned scans
--                    of src/storage/unity_catalog.cpp; CreateTable: `UCTableSet::CreateTable` of
--                    src/storage/uc_table_set.cpp and the functions that it calls; TableEntry:
--                    src/storage/uc_table_entry.cpp, the choice and the start of a scan; Attach:
--                    `InternalAttach`, `InternalDetach`, `InternalCheckpoint`, `RefreshCredentials` of
--                    src/storage/uc_table_set.cpp and the commit of
--                    src/functions/uc_delta_ccv2_commit.cpp; Version: `GetVersion` of
--                    src/storage/uc_table_set.cpp
--   Base, Result,    what the others share: lists, bytes, bits, numbers, exceptions, and the calls of
--   Json             the yyjson library
--   Tests            the theorems at concrete inputs
--
-- How the code is read. A function that may throw returns a `Result`; a method that writes before it
-- throws returns the state beside the exception. A load through a pointer is a partial read of the
-- bytes from there on, so a result `none` is a read outside the buffer (or, for the loops on fuel,
-- fuel that ran out). Integers of a width keep their wrap-around. The network, the clock and the
-- query's interrupts are operations on an abstract world, with a log of the requests and of the
-- milliseconds that the code itself sleeps; the creation of a table and its attachment take the
-- server's calls and DuckDB's as operations on such a world, the creation with a log of the calls.
-- yyjson, CRoaring, the parquet reader, the file system and the formatting of numbers are parameters.
--
-- Fuel. The polling loop has 3,001 rounds: each round that goes on takes at least 100 ms off a budget
-- of 300,000 ms. A sleep has as many chunks as milliseconds at most, and the search for intervals as
-- many rounds as characters. The draining of tokens has no bound of its own in the code, since a
-- server may hand back tokens for ever; its theorem takes a plan that has an end.
--
-- Not modelled: the texts of exceptions, logging, failures of allocation (such as the `reserve` of a
-- corrupt bitmap count), request headers; what the HTTP client repeats and waits for within one call;
-- the map of open transactions; the set of tables and the rest of what is known of a table, the type
-- parser, and the glue that binds the extension to DuckDB.
mod Base
mod Result
mod Json
pub mod Http
pub mod DeleteFilter
pub mod Puffin
pub mod Api
pub mod ScanPlan
pub mod FileList
pub mod Irc
mod Tests
pub mod Storage
