-- ===== src/Lib.antt =====
-- Varnish Cache: a verification library beside the C sources.
--
-- The program is an HTTP accelerator. The manager, varnishd, starts a child that takes requests, looks
-- objects up in its cache, fetches misses from backends, and delivers. This library models parts that
-- the rest stands on, and decisions that every request depends on:
--
-- * Ws (bin/varnishd/cache_ws.c): the workspace, a bump allocator from which a session and a worker
--   take everything that a request builds. `Ws` is struct ws; WS_Init, WS_Alloc, WS_Dup, WS_Free,
--   WS_Snapshot, WS_Reset, WS_Reserve, WS_Release and WS_ReleaseP are init, alloc, dup, free, snapshot,
--   reset, reserve, release and release_p. Addresses are numbers, the memory a function of them.
-- * Vsb (lib/libvarnish/vsb.c): the string buffers that the command line interface, the VCL compiler
--   and the panic handler print into, of a fixed size or extended as needed. VSB_cat is cat, and so on.
--   malloc is an argument: whether it gives memory for a size.
-- * Poll (bin/varnishd/cache_backend_poll.c): the health of a backend, from the bitmaps of its probes.
--   What the network and the clock answer to one probe is an argument of the probe.
-- * Vct (lib/libvarnish/vct.c): the classes of bytes that the headers' parsers test.
-- * Http (bin/varnishd/cache_http.c): the headers of a message and the lookups in them.
-- * Rfc2616 (bin/varnishd/rfc2616.c): what the headers of a response say of its time to live and its
--   body, and when a 304 may be sent; it uses Http for every header that it reads.
-- * Critbit (bin/varnishd/hash_critbit.c): the hasher, a tree of objheads by the bits of their digests,
--   with the references on each. Hash is about one objhead that it hands out.
-- * Hash (bin/varnishd/cache_hash.c): one objhead, with the objcores under one key, the sessions that
--   wait for a busy one, and the references that both hold. It uses Expire for the ttl and the grace.
-- * Expire (bin/varnishd/cache_expire.c): the ttl, grace and keep of an object, a session's limits on
--   them, and the time of the object's timer. Expire.Store is the heap of timers and the LRU lists, with
--   EXP_Insert, EXP_Inject, EXP_Touch, EXP_Rearm and EXP_NukeOne as insert_object, inject, touch, rearm
--   and nuke_one, and timer_turn as a turn of exp_timer.
-- * Binheap (lib/libvarnish/binary_heap.c): the heap that Expire keeps the timers in, with its paged
--   index arithmetic, whose laws Binheap.Pages has for pages of 512 and 1024 pointers, and its rows.
-- * Vary (bin/varnishd/cache_vary.c): the string of the headers that an object varies by, made by
--   VRY_Create (create), and matched against a request by VRY_Match (match), through Http.
-- * Smf (bin/varnishd/storage_file.c): the ranges of the file that objects are stored in. alloc_smf,
--   free_smf, trim_smf and new_smf have their names, and Smf.Storage has what the stevedore calls:
--   smf_alloc, smf_trim, smf_free, and the chunks that smf_open maps.
-- * Esi (bin/varnishd/cache_esi_parse.c, cache_esi_deliver.c): the coding of a document with includes,
--   which the parser writes beside the stored object and the delivery walks through.
-- * Quote (lib/libvarnish/vsb.c, argv.c): the quoting of an argument and the splitting of a command line.
-- * Vlu (lib/libvarnish/vlu.c): the cutting of input into lines, with VLU_Data and VLU_Fd as vlu_data and
--   vlu_fd. The callback is an argument, and so is what it keeps.
-- * RoundRobin (bin/varnishd/cache_dir_round_robin.c): the choice of a backend by the round-robin and
--   the fallback director. What the hosts answer is an argument, and so is the state they share.
--
-- Prelude holds what they share: tests on numbers, lists and memories, assertions. A function whose C
-- code asserts returns an Option, and none where an assertion fails, so that `some` in a result says
-- that no assertion that is modelled failed. The checks of magic numbers and of locks are left out. A
-- `char` is signed, as http_GetHdr depends on.
--
-- Bounds and fuel. An `unsigned` is a number modulo 2^32 where the code computes one; addresses are
-- not bounded above. The loop of VSB_extendsize doubles 16 up to 4096: eight rounds, and it has fuel for
-- nine. The loop of ESI_Deliver has one round of fuel for each byte of the coding, of which each round
-- reads one. VAV_Parse has a round of fuel for each byte, and hcb_lookup needs two rounds, which a
-- theorem says. The loop of VSB_vprintf runs twice at most, since one extension makes enough room, and
-- has fuel for two. The loops of the heap have a round of fuel for each index that they can reach,
-- those of VRY_Create, VRY_Match and VLU_Data one for each byte, and the theorems show that none runs
-- out. VRY_Validate needs a round for each entry and one more. smf_open_chunk halves a chunk in each
-- round, and takes its fuel as an argument. All other loops are recursions on a list or on the
-- rounds that are left.
--
-- Not modelled: the log and its text, locks (the functions run under them, and no reader meets a tree
-- that another thread is changing), floating point (times are microseconds, and a quality is an exact
-- decimal). strtoul, sscanf and TIM_parse are arguments. VSB_unquote, the allocation of struct vsb, the
-- parts of cache_http.c that parse, copy and write messages, HSH_Purge and HSH_Drop of
-- cache_hash.c, the set-up of the storage file, the parser of includes and compressed documents are
-- left out, as are the other components: bans, fetching, the request's state machine, the other
-- storage, sockets and threads, the manager, the VCL compiler and the tools. They are larger, and
-- tied to the system calls and the generated code that they drive.
pub mod Prelude
pub mod Binheap
pub mod Critbit
pub mod Esi
pub mod Expire
pub mod Hash
pub mod Http
pub mod Poll
pub mod Quote
pub mod Rfc2616
pub mod RoundRobin
pub mod Smf
pub mod Vary
pub mod Vct
pub mod Vlu
pub mod Vsb
pub mod Ws
