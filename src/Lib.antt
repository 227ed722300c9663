-- ===== src/Lib.antt =====
-- dcfs-client: a file system whose files are DataCapsules, append-only lists of records on a server.
--
-- The parts, and the path of a byte through them. A FUSE read or write calls `Inode::Read` or
-- `Inode::Write`; an inode keeps its blocks in a `RecordCache`, which fetches blocks through
-- `StorageBackend::ReadRecordData` and, when the last reference to the inode goes, hands its dirty
-- blocks encrypted to `StorageBackend::WriteRecord`. That signs them and calls `Modify` of the
-- middleware, `DCFSMidSim`, which writes data block, block map and inode records to a `DCServer`.
--
-- The files:
-- - Base: errors (src/fs/errno.hpp), byte strings, raw memory with memcpy, and arithmetic.
-- - Crypto: src/util/crypto.cpp. `hash256`, `sign`, `verify`, `encrypt_symmetric` and
--   `decrypt_symmetric` call an OpenSSL that is a parameter; Crypto/Laws has what is assumed of it.
-- - Cache: `RecordCache` of src/fs/inode.cpp. `fill_dcache` is `fillDcache`, `fill_bmcache` is
--   `fillBmcache`, `bm_check` is `bmCheck`, `read` and `write` are `Read` and `Write`, with their
--   copies in `copy_range` and `patch_range`; Cache/Flush has `FlushCache`. Cache/View says what a
--   cache stands for: the bytes of the file. Fill, Load, CopyOut, CopyIn, WriteThrough and WriteBack
--   have the lemmas on the loops, ReadBack, Writing and BlockMap what reads and writes do.
-- - Inode: class `Inode` of src/fs/inode.cpp. The out-parameters of a call that fails are not kept.
-- - Capsule: src/dc-client/proto/capsule.proto, and the interface `DCServer` of src/fs/backend.hpp.
-- - Mid: `DCFSMidSim` of src/fs/backend_sim.cpp. `compose_record` is `composeRecord`; Mid/Modify has
--   `Modify` in the pieces of its comments, and the other methods; Mid/Payload the bytes of inode and
--   block map records. Its state is the index, the root, the server, and the number of times that
--   the clock was read and a key was drawn.
--   Mid/Written and Mid/FirstVersion say which records a version consists of, Mid/Kept that the server
--   keeps them, as long as no two come under one name. The names are SHA-256 digests; nothing is assumed
--   of these but their 32 bytes. That no two records had the same name is a condition on what the
--   server was given, which `log` tells of its state.
-- - Backend: `StorageBackend` of src/fs/backend.cpp; Backend/Serving has it as what caches call,
--   Backend/Meta what the client reads of a version, Backend/Later of a second one, Backend/Stored
--   and Backend/Content what a fresh cache loads from the server, and Backend/Reopened and Backend/Reread
--   put the parts together.
-- - Inodes: the table of inodes of src/fs/inode.cpp, `allocate_inode`, `get_inode` and
--   `release_inode`, over a heap of objects.
-- - Directory: src/fs/dir.cpp, and the loop of src/fs/dcfs.cpp that looks a path up, with a call of
--   `Readdir` for each entry and one more as its fuel.
--   Inode/Name has what keeps an inode's name, Directory/Names when the names of a directory differ.
-- - Dcfs: src/fs/dcfs.cpp, the operations that FUSE calls. The state is the root directory, the table
--   of inodes with all that is behind it, and the table of open files. Dcfs/Entries has `dcfs_getattr`,
--   `dcfs_readdir`, `dcfs_create` and `dcfs_open`, Dcfs/Files has `dcfs_read`, `dcfs_write` and
--   `dcfs_flush`, Dcfs/Files/Closing and Dcfs/Files/ReadAgain the path of a file from its last close
--   through the server to its next reader, Dcfs/Valid the invariant, and Dcfs/Runs the runs from a
--   mount on as a relation.
-- - Startup: `main` and what `dcfs_init` makes: src/fs/dcfs.cpp, src/util/options.cpp, and the
--   constructors in src/fs/backend.hpp and src/fs/backend_real.cpp. Startup/Mounting has what a
--   program is made of that mounts, Startup/Started what it does. `--help` mounts nothing.
-- - Encode: src/util/encode.cpp.
-- - DcClient: src/dc-client/dc_client.cpp. `Put` and `Get` are cut in two at their waits; DcClient/Runs
--   has the calls and handlers in any order as a relation.
-- - ClientComm: src/dc-client/client_comm.cpp. ClientComm/Servers has the list of servers and the
--   sockets of the constructor; `handle_ack`, `handle_get_resp` and `run_dc_client_listen_server` are
--   the listening thread, the loop over a list of what each poll finds. A socket is its address.
-- - DcServer: the two servers. DcServer/Sim is `DCServerSim` of src/fs/backend_sim.cpp, over a file
--   system; DcServer/Net is `DCServerNet` of src/fs/backend_real.cpp, over the DcClient.
-- - Examples: concrete parameters, and the theorems at concrete inputs.
--
-- State and errors. A method is a function from its state to an `Outcome` and the state after it. An
-- `Outcome` is a value, a negative `err_t`, or `fault`: a failed assertion or undefined behaviour. A
-- pointer is the memory from it on, a function from distances to bytes.
--
-- Bounds. Sizes and offsets are natural numbers; `offset + size` and the block size wrap at 2^64, which
-- the theorems on reads and writes exclude. A size that becomes an `int` wraps at 2^32 and is negative
-- from 2^31 on, in what `dcfs_read` and `dcfs_write` return and in what is encrypted of a block. The
-- loops over blocks recurse on the number of rounds, computed from their bounds; the loop over a block map's payload has the payload's length as fuel,
-- and takes 32 bytes of it a round.
-- The loops over the directory have a call of `Readdir` for each entry and one more, the loop over the
-- server list a round for each character and one more. `stoi` and the ports are held to an `int`.
--
-- Not modelled: memory that is freed or leaked, locks, the text of log messages (but for the hash that
-- `handle_ack` reads 32 bytes of); of src/fs/dcfs.cpp the help text and
-- `dcfs_destroy`, which ends the process; of `ClientComm` the outgoing modes that this
-- build leaves out. OpenSSL, the protocol buffers, ZeroMQ, `rand`, the parser of options and the
-- file system of the simulated server are parameters.
pub mod Base
pub mod Crypto
pub mod Cache
pub mod Inode
pub mod Capsule
pub mod Mid
pub mod Backend
pub mod Inodes
pub mod DcClient
pub mod ClientComm
pub mod DcServer
pub mod Dcfs
pub mod Startup
pub mod Encode
pub mod Directory
pub mod Examples
