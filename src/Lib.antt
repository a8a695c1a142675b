-- ===== src/Lib.antt =====
-- QuicFS, a file system over QUIC: the client mounts a directory that the server exports.
--
-- The client (client/src) answers the kernel's FUSE calls (client/src/fuse_ops.rs). It keeps small
-- writes in a buffer (client/src/writebuf.rs) until the server acknowledges them, caches metadata
-- (client/src/cache.rs), sends RPCs on a connection that it sets up again when it is lost
-- (client/src/conn.rs), and turns the status of an answer into an errno. The server (server/src)
-- resolves the paths that a client names beneath the export root (server/src/sanitize.rs), keeps a
-- table of open handles for each session (server/src/handles.rs) and serves the RPCs
-- (server/src/ops). Each side checks the other's public key against a file of trusted keys
-- (client/src/verify.rs, server/src/verify.rs). Both share the frames on the wire, the status codes
-- and the trust files (common/src).
--
-- Files and what they model:
--   Base         shared names; Boolean tests, lists, maps and integers over the native numbers
--   File, Io     the content of an open file, and the calls of the operating system with the laws
--                that the code relies on
--   Common       Status: common/src/status.rs; FrameIo: common/src/io.rs; Text and TextMap: what the
--                trust files use of str and BTreeMap; Trust: KnownHosts and AuthorizedKeys of
--                common/src/trust.rs, with their load and save
--   Client       WriteBuf: client/src/writebuf.rs, whose state WriteBuffer and methods push,
--                begin_flush, ack_flush, fail_flush, drop_handle keep their names; Send, Fetch,
--                Listing and Calls: write, read, readdir and the other RPCs of client/src/conn.rs;
--                Errno: check_status there, and rpc_to_errno, io_to_errno, flush_reply of client/src/fuse_ops.rs; Cache:
--                client/src/cache.rs; Inodes: InodeTable of client/src/fuse_ops.rs; Mount:
--                ensure_live, flush_one and the callbacks write and flush there, and the background task
--                and the unmount of client/src/mount.rs; Fuse: QuicFs
--                and the other callbacks of client/src/fuse_ops.rs; Pinning: PinningServerVerifier
--                of client/src/verify.rs, and connect, establish and reconnect of
--                client/src/conn.rs
--   Server       Handles: server/src/handles.rs; Sanitize: resolve of server/src/sanitize.rs; Write
--                and Read: handle_write and handle_read of server/src/ops/data.rs; ReadDir:
--                handle_readdir of server/src/ops/meta.rs; Os: programs of system calls;
--                Confined: the confined operations of server/src/sanitize.rs; SetAttr:
--                handle_setattr and handle_statfs of server/src/ops/meta.rs; Meta and Files: the
--                other handlers of server/src/ops/meta.rs and server/src/ops/data.rs; Auth:
--                server/src/verify.rs and server/src/auth.rs; Admission: the accept loop of
--                server/src/main.rs and validate of server/src/config.rs; Connection:
--                handle_connection of server/src/lib.rs, server/src/ops/ctrl.rs, server/src/dispatch.rs
--                and server/src/session.rs
--   EndToEnd     write, read, readdir and the changes of names by the client, answered by the
--                server's handlers
--   Tests        the theorems at concrete inputs
--
-- Numbers are native, with the wrap of 64-bit words written out. A HashMap is an association list,
-- whose order is any. The chunks of a write are cut with the length of the data as fuel, which each
-- chunk lowers, so that it is enough; the loop of a read has the number of bytes that are left; the
-- loop of reconnect has the number of its attempts. Time is an argument. The disk, the hash of a key,
-- the certificate parser, the network and the server behind a connection are parameters, with the
-- laws that the code relies on. Names of files are texts, as the client requires of them.
--
-- Not modelled: QUIC, TLS and MessagePack, which are libraries; command lines, logging and signals; the
-- callbacks readdir, statfs, opendir, releasedir and forget, and the invalidation of the cache after a
-- buffered write; negative times in a stat, which the server never sends; the creation of identity
-- files; the deadlines of RPCs and the tasks that run beside each other, except as orders of calls.
pub mod Base
pub mod File
pub mod Io
pub mod Common
pub mod Server
pub mod Client
pub mod EndToEnd
pub mod Tests
