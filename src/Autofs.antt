-- ===== src/Autofs.antt =====
-- src/autofs.rs: the file system of the WebDAV server, in two parts. `Upload` is the file that an
-- atomic write streams into, and `Create` what opens it.
pub mod Upload
pub mod Create
pub mod Meta
