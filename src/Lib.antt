-- ===== src/Lib.antt =====
-- Verification of shigoku, a terminal program for watching anime that keeps a local library in step with
-- AniList and MyAnimeList (MAL).
--
-- The parts and how they meet. The resolution engine (src/resolve.cpp) decides which provider plays a
-- show, from a read-only view of the library; which search hit of a provider is the show is decided by
-- scores (src/resolver.cpp). The store (src/store.cpp) keeps the library in a table
-- of shows. The list sync (src/sync.cpp) pulls the AniList list, lets the store merge it, and pushes
-- the rows that the store lists as dirty; the MAL mirror (src/mal_mirror.cpp) does the same with
-- MAL, under a snapshot of its own. The domain (src/domain.hpp, src/domain.cpp) has the types and
-- the pure rules that all of them use. The terminal application keeps toasts and an event queue
-- (src/tui/toast.cpp, src/tui/queue.hpp); src/semver.cpp compares versions for the update check.
-- An external picker (src/picker.cpp) can take the place of the search screen. The manga side keeps a
-- library of its own (src/manga/mstore.cpp), pushes chapters to AniList (src/manga/msync.cpp) and
-- opens a chapter in the document viewer (src/view), which it starts by a command line
-- (src/manga/viewer.cpp) and whose report of the last page it reads back.
--
-- Which file models what.
--   Common: lists, texts as bytes, Boolean tests, integers, single bits of a mask.
--   Domain/Types, Enums, Score, Airing, Calendar: src/domain.hpp and src/domain.cpp. `Enrichment` and
--     `Show` are the entities; a rating, a floating value that nothing here reads, is left out.
--   Resolve/World, Open, Walk, Route: `ResolveWorld` as a record of its answers, `classify_open`, the
--     class `Walk` with `advance` and `exhaust`, `route_preferred`, `open_history`. Resolve/Walk has
--     the lemmas: Masks, Steps, Scan, Advance, Once, Rescue.
--   Store/Types, Merge, Rows, WorkList, Apply: `store_detail::reconcile`, the columns of the table
--     `show` and its writers, the three work lists, and the plan loop of `apply_reconcile_for`. The
--     SQL text is executed on a list of rows; the database's failures are arguments.
--   Store/Keyed: a table as a list of rows under a unique key, with SELECT, INSERT ... ON CONFLICT and DELETE;
--     Undo is about writes that are taken back.
--   Store/Providers: the bindings, negatives, pins and routes of src/store.cpp with their transactions,
--     constraints and cascades; the database's answers are a `Database`. Reads has the readers.
--   Hls: the master playlist and the choice of a variant of src/hls.cpp.
--   Match/Titles, Score, Winner, Pick: src/resolver.cpp.
--   Store/Finish: `save_progress` and `record_finish` with the tiers of src/domain.hpp; a `double` is a
--     value of a parameter, `Reals`, with the operations that the code uses.
--   Store/Plan: `reconcile_plan_for`; Second and Settles follow its plan through the plan loop, Kept and
--     Counts are about the collapse of the list and the imports.
--   Sync/Airing: `refresh_airing` over the table, with the lookup at AniList as an argument. Requests is about what is
--     asked for, Wanted and Written about what is written.
--   Sync/Types, Push, Run: `push_dirty`, `run_sync`, `flush_push`. The AniList client and the store are
--     an environment whose answers may depend on all calls made before. A log holds the calls.
--   Mirror/Push, Pull: `push_mirror` and `pull_mirror`, in the same way.
--   Tui/Toast, Queue: `ToastQueue` and `BasicEventQueue`; a queue method runs under one mutex, so runs
--     of several threads are sequences of calls.
--   Store/Migrate: the opening of the database file, its lock and its ladder of migrations. The engine's
--     answers are a record. Laws and Live have the proofs.
--   Picker: the choice of a picker, the rows that it is fed and the row that it picks.
--   View/Names, Dedupe, Extract: src/view/archive_names.cpp and the extraction of the pages in
--     src/view/archive_source.cpp; Names/Fence has the lemmas.
--   View/Pager, Keys, Zoom: the paging state of src/view/pager.cpp; Pager/Seated has the invariant.
--   View/Cli: the viewer's command line, read (parse_cli) and written (src/manga/viewer.cpp); Argv, Report.
--   Manga/Push: src/manga/msync.cpp, with the AniList client as an argument.
--   Manga/Store: the marks of chapters in src/manga/mstore.cpp, with the mark and its undo in
--     src/manga/mapp.cpp; Shelf is the cache of the chapters and what AniList was told,
--     and Unread the chapter at which reading goes on.
--   Manga/Reading: the page at which a chapter is opened, and what the viewer's report does to it, for
--     the manga on the screen.
--   Common/Decimal: numbers as decimal digits.
--   Semver: `parse_version`, `Version::order`, `is_newer`.
--   The files named Tests hold the laws at sample inputs.
--
-- Bounds and fuel. The inner loop of `push_dirty` has fuel 2: a row is tried again only after the one
-- backoff that a run can make. `enforce_cap` has as fuel the number of
-- toasts, of which each round removes one. Counters and the version segments wrap at 2^32, ages of
-- toasts at 2^64. The mask of a walk tracks 64 providers; the laws on walks are about at most that
-- many. A number has at most as many digits as one more than itself, the fuel of its printing. A lock
-- is tried again at most 100 times. A 64-bit id or instant is an integer without bounds.
--
-- Not modelled: the writes of a pull's imports, the grouping of the schedule and the text helpers of the
-- domain; the geometry of the viewer, which is in floating numbers, its natural order of file names and
-- the archive library; of the manga application all but its marks, its cache and its list sync; and all
-- that is input and output, namely the network and its scrapers, the database engine, processes,
-- sockets and drawing.
pub mod Common
pub mod Domain
pub mod Hls
pub mod Manga
pub mod Match
pub mod Mirror
pub mod Picker
pub mod Resolve
pub mod Semver
pub mod Store
pub mod Sync
pub mod Tui
pub mod View
