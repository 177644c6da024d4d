-- ===== src/Lib.antt =====
-- Verification library of nftp-codec, a C library for a small file transfer protocol.
--
-- The program. A packet (`nftp`, src/codec.c) is built by a client or the protocol handler,
-- encoded by `nftp_encode` into a row of pieces (`nftp_iovs`, src/iovs.c) that point into the
-- packet, and gathered into one stream of bytes by `nftp_iovs2stream`; `nftp_decode` takes a
-- stream apart again. `nftp_vec` (src/vector.c) is a ring of pointers in which the handler
-- (src/proto.c) keeps the callbacks that are registered for files; the transfers that are under
-- way are in hash tables. Both containers have iterators (src/iter.c). src/hash.c holds
-- checksums, and src/file.c reads and writes files block by block. The type codes, error codes
-- and byte macros are in src/nftp.h.
--
-- Errors models `enum NFTP_ERR`, and a run that may reach undefined behaviour: `fault` is an
-- access outside an allocated object. Every read and write of an array goes through `load`,
-- `store`, `blit` or `cut` of Mem, which fault there. Prelude passes on the library's names and
-- holds the lemmas that several components use, with `be16` and the like for the byte macros.
--
-- Vec models src/vector.c. `struct _vec` is the record `Vec`, `nftp_vec_push` is `push`, and so
-- on; the loops of insert and delete are `shift_up` and `shift_down`, with the number of rounds
-- that the code's bounds give. Vec.Deque is the list with a capacity that a vector stands for,
-- Vec.Valid the invariant, and Vec.Calls puts calls one after the other, with the guard against
-- NULL. Capacities are at most 2 ^ 30, so that no sum of the code passes the range of `int`.
--
-- Iovs models src/iovs.c in the same way: `struct _iovs` is `Iovs`, `gather` is the loop of
-- `nftp_iovs2stream`. `size_t` sums wrap at 2 ^ 64.
--
-- Codec models src/codec.c: `Nftp` is the packet, `alloc` is `nftp_alloc`, `decode` is
-- `nftp_decode` with a function for each case of its switch, Codec.Encode is `nftp_encode` and
-- `nftp_encode_iovs`, whose row holds pointers (`Ptr`) that are read when the stream is made, so
-- that `exbuf` may be overwritten in between as in C. Codec.Stream is `nftp_decode_iovs`.
-- Codec.Encode.Layout writes out the bytes of each type of packet independently of that.
--
-- Hash models `nftp_crc32` of src/hash.c with its table, Hash.Crc32c `nftp_crc32c` with the
-- tables that it builds and the address that decides how it starts, and Hash.Small the other
-- hashes, which Hash.Small.Undone undoes byte by byte. Hash.Remainder is the CRC as a remainder
-- by a polynomial, digit by digit.
--
-- Iter models the iterators over a vector and over a row: `vec_iter_next` and `vec_iter_prev` of
-- src/vector.c, `iovs_iter_next` and `iovs_iter_prev` of src/iovs.c, whose value is the number
-- of a cell. Iter.Handle is src/iter.c, which chooses between them.
--
-- File models the size, the block count and the block reads of src/file.c over a disk (`Disk`),
-- which is a parameter, File.Name its search for a free name, and File.Text `nftp_file_read`;
-- its theorems suppose that reading gives what stands in the file (`Reads`).
--
-- File.Write models the functions of src/file.c that change the disk, over a `System`: the calls
-- of the C library as operations on a state, with what is documented of them as the laws
-- `IsSystem`. File.Write.Memory is one that fulfils them.
--
-- Proto models src/proto.c. Its static variables and the disk are the record `State`; the
-- objects that are shared by pointers, `struct file_cb` and `struct nctx`, stand in two stores.
-- The hash tables, the file system, memory and `basename` are the parameter `Env`.
-- Proto.Registry is `nftp_proto_register` and `nftp_proto_unregister`, Proto.Sender
-- `nftp_proto_maker` and the answer to a GIVEME, Proto.Handler `nftp_proto_handler` with the
-- HELLO, Proto.Receiver its FILE and END, and Proto.Transfers `nftp_proto_recv_status` and
-- `nftp_proto_recv_stop`. Proto.Receiver.Delivery puts the packets of a transfer one after the
-- other. Proto.Blocks is the part of the handler that takes one block in: appends it and the
-- kept ones behind it, or keeps it. Proto.Shutdown is `nftp_proto_fini`, and Proto.Peek what a
-- client can ask of a HELLO message and of the settings. Proto.Exchange puts two sides together,
-- each with an `Env` of its own: a sender that makes the HELLO and answers GIVEMEs, and a
-- receiver that asks for the blocks; every message is bytes that one side makes and the other
-- decodes. A callback is taken not to call the library again, the `strdup` of a finished file's
-- name to be granted, and a context is freed with its blocks and its name.
--
-- All loops have bounds that the code computes, and are structural recursion on the number of
-- rounds; the loop over the kept blocks of src/proto.c has fuel, one more than the number of
-- blocks, which Proto.Blocks.Reassembly proves to be enough, and so have the loops of
-- `nftp_file_read`, one round more than the file has bytes, and of `nftp_proto_fini`, one more
-- than the registry has entries. `malloc` is a parameter that may refuse. The mutexes make each
-- call one step.
--
-- Not modelled: `nftp_file_path` and `nftp_file_bname` of src/file.c, of which the last is the
-- parameter `base_name`; `nftp_iter_free`; of src/proto.c the functions that only return 0; the
-- vendored hash table (hashtable/), whose calls are the parameter `Hashtable`; src/log4nftp.h,
-- which prints; `nftp_free`, `nftp_vec_free`, `nftp_vec_cap` and `nftp_iovs_free`,
-- `nftp_iovs_len` and `nftp_iovs_cap`, which give memory back or read a field; the tests.
pub mod Prelude
pub mod Errors
pub mod Mem
pub mod Vec
pub mod Iovs
pub mod Codec
pub mod Hash
pub mod Iter
pub mod File
pub mod Proto
