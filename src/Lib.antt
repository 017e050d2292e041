-- ===== src/Lib.antt =====
-- Verification of nzk-webdavs, a WebDAV server over TLS, and of its file mover.
--
-- The server (src/main.rs) checks its settings (src/config.rs, Config.antt), refuses to start when
-- its certificate or key would be served (src/tls.rs, Startup.antt), and serves requests
-- (src/server.rs, Server.antt, and Server/Serving.antt for the loops) that pass Basic
-- authentication (src/auth.rs, Auth.antt), or that bring the secret of the update webhook. The
-- `dav_server` crate does the WebDAV work on a file system (src/autofs.rs, Autofs.antt) that makes
-- parents on demand and publishes an upload by a rename, once all of it has arrived. Lines of the
-- log carry a time (src/logging.rs, Logging.antt for the calendar, Logging/Lines.antt for the
-- lines, the levels and the start of the logger).
--
-- The file mover (src/bin/file-mover.rs) is a small HTTP server of its own. Mover/Names.antt has
-- its queries, URLs and names, Mover/Jobs.antt the registry of background jobs, Mover/Walk.antt
-- the walks and the copy loop, Mover/Run.antt `run_job`, Mover/Delete.antt `run_delete_job`, and
-- Mover/Requests.antt and Mover/Start.antt the handlers that change files or start jobs.
-- Mover/Put.antt is `handle_put`, Mover/Listing.antt `handle_ls`, Mover/Search.antt the search,
-- whose requests are in Mover/Search/Polling.antt, and Mover/Route.antt brings all handlers
-- together. What the mover may not do itself it has done by a helper (src/bin/file-mover-sudo.rs,
-- Sudo.antt), with requests and answers in JSON.
--
-- State and operations. `std::fs` is the record `Os` of Io.antt: a type of states, and a field for
-- each call, which takes and returns a state. A method that changes a struct takes it and returns
-- it; a fallible function returns `Result`, `FsResult`, `Outcome` or `Answer`. Definitions carry
-- the names of the source. Crates are records of what they do: `Codec` (base64, subtle), `Hashing`
-- (sha2, hex), `DavServer`, `Tls` (rustls, rcgen), `Serde` (serde_json). Texts are lists of numbers:
-- code points, or the bytes where the source looks at bytes, as for credentials. A path is its
-- text, and a `..` in it is a name like any other.
--
-- Integers. Counters that are u64 in the source wrap around at 2^64 where they are added to. In
-- Logging.antt the two sums of i64 that come first wrap around as in a release build (`wrap_i64`),
-- and the casts are written out; where they do not wrap, no later sum or product of the
-- calendar leaves i64. `failed` counts files, and does not reach the end of usize.
--
-- Threads. The lock on the registry makes each of its sections one step; `Step` in
-- Mover/Jobs/Unique.antt lists them, and `Reach` what any interleaving can reach. In `run_job` and
-- `run_delete_job` the worker threads share a counter that hands each file to one of them;
-- `schedule` is the order in which the files get done, one file at a time.
--
-- Fuel. `walk_files`, `walk_delete` and `copy_recursive` take fuel, one unit for each level of the
-- tree, and return `none` without it; `Within` in Mover/Walk/Links.antt is the depth that is
-- enough for both walks. `walk_search` does the same, with `IsWithin` in Mover/Search/Ends.antt,
-- where links do not count. `write_chunks` takes the number of the bytes. Everything else recurs
-- on its data.
--
-- Connections. `serve` of src/server.rs is a state machine over what tokio reports: connections,
-- requests, signals and the end of the grace period. `main` of the file mover handles one request
-- after the other; a job that runs in the background is the work of `run_job` on a state of its
-- own.
--
-- Not modelled: sockets, TLS itself and the clock; C strings; the page of the file mover; the
-- parsing of arguments; an error of `accept`, which ends `serve`. The reads of `copy_file` are fixed
-- when the source is opened, so a destination that is the same file as the source is not seen. The
-- record of a search is replaced when its walk ends, not with each match.
pub mod Common
pub mod External
pub mod Io
pub mod Logging
pub mod Config
pub mod Auth
pub mod Server
pub mod Startup
pub mod Autofs
pub mod Mover
pub mod Json
pub mod Sudo
pub mod Examples
