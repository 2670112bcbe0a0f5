-- ===== src/Lib.antt =====
-- unbound4j: a verification of the native part of the unbound4j library (jni/src), which answers
-- reverse DNS lookups for Java through libunbound.
--
-- The parts of the program and the files that model them:
-- Base, Base/*: shared names, Boolean tests on the native numbers, lists, bytes as numbers.
-- Memory, Memory/Stores: stores into a buffer, vsnprintf, snprintf and C strings, as jni/src uses
--   them.
-- Sldns/*: jni/src/sldns.c, which prints the wire format of a domain name into a buffer.
--   Sldns/Output is sldns_str_vprint, sldns_str_print and the store of one character;
--   Sldns/Escape is dname_char_print and str_char_print; Sldns/Dname is
--   sldns_wire2str_dname_scan, with one definition for each part of its loop, and
--   sldns_wire2str_rdata_scan and sldns_wire2str_rdata_buf (Body and Safety are the scan of a name
--   without a packet, Labels, Format and Decode what it prints, and Packet, Rounds, Pointers, Cycle and
--   Overread the scan with a packet, Compressed what a compressed name is, and
--   Visits and Decompress what is printed for one); Sldns/Str is sldns_wire2str_str_scan.
-- Dnsutils/*: jni/src/dnsutils.c, which builds the name of a reverse lookup; Dnsutils/Decode
--   reads such names back.
-- Uthash: the tables of jni/src/uthash.h, a vendored library: a record of operations and of what
--   its user guide says of them. The definitions that use it take such a record, and
--   list_table is one.
-- Engine/*: jni/src/unbound4j.c. Engine/State has the structures of unbound4j.h and of
--   unbound4j.c, the two tables, the heap of each kind of structure, and the history of the calls
--   that leave the program (libunbound, pthread, the delegates). Engine/Context is ub4j_init,
--   ub4j_config_init, ub4j_create_context, ub4j_delete_context, ub4j_free_context and ub4j_destroy;
--   Engine/Query is ub4j_reverse_lookup and ub_reverse_lookup_callback; Engine/Thread is
--   context_processing_thread. Engine/Tracking is the specification: the queue of the queries of one
--   Unbound context, which the table, the heap and libunbound have to agree on. Engine/Submit,
--   Engine/Answer and Engine/Thread/* relate each operation to it. Engine/Runs is a step relation of
--   lookups, answers and rounds, and Engine/Lifecycle and Engine/Shutdown follow its runs;
--   Engine/Thread/Timely adds a clock to them.
--   Engine/Query/HostName is about the host name of an answer, Engine/Context/* about the table of
--   contexts: Registry is its specification, a list of items with their structures, Registering the
--   creation, Deletion and Destruction the end of contexts with the threads that are joined.
--   Engine/Contexts says what a run leaves of the table of contexts. Engine/Frames, Engine/Beside
--   and Engine/During let other threads look addresses up inside a callback, Engine/Concurrent has
--   the histories in which they do, Engine/Overlap lets them act inside a lookup,
--   Engine/Interleaving and Engine/Thread/Answers inside a round, Engine/Race deletes a context
--   under a lookup, and Engine/Unlocked is a callback without the write lock.
--   Engine/Thread/Deliveries is what ub_process delivers, Engine/Thread/Stop the end of the thread.
--   Engine/Lifetime is the life of the one context of a program, from its creation to ub4j_destroy.
-- Driver/*: jni/src/main.c, the command line driver. Driver/Addresses is about its generator of
--   addresses, Driver/Turns about a lookup thread, Driver/Exit about main.
-- Jni/*: the bridge to Java. Jni/Jvm is the Java virtual machine, a parameter, and the calls made to
--   it; Jni/Throw is jni/src/jniutils.c; Jni/Callback and Jni/Interface are
--   jni/src/unbound4j_jinterface.c, the delegate callback and the entries. Jni/Delivery runs the
--   delegate calls of the engine with the callback; the callback frees its context, and malloc may reuse
--   the address, so it numbers the contexts at one address.
-- Tests/*: concrete states and inputs.
--
-- How code becomes definitions. A function that may touch freed or foreign memory returns an Option,
-- and none is a fault: an access outside a buffer or to a structure that is not allocated, a delete
-- of what is not in a table, a NULL that is written through. What a library returns (locks,
-- libunbound, malloc, the clock) is an argument. Numbers are natural numbers; size_t subtraction and
-- the generator of context ids wrap, and times and timeouts are not negative and do not overflow.
-- The counts of the printing functions of jni/src/sldns.c (w, and what they return) stand for an int
-- as long as they are at most INT_MAX, int_max in Memory. A step of a run is a whole call of
-- ub4j_reverse_lookup, of the callback or of the body of the thread's loop. Three functions run on
-- where they hold no lock, and take what other threads do there as an argument: reverse_lookup
-- between the lock of the contexts and the lock of the queries, lookup_callback between the call of
-- the delegate and the write lock, and check_queries between the read lock of its peek and the write
-- lock of its pass. In the steps of a run nothing happens there; a history has callbacks during
-- which other threads look addresses up, too. In both the callback of an answer gets the write lock
-- of the queries. A delegate callback does not come back into the library. The lookup threads of the
-- driver run one after the other.
--
-- Fuel. The loop of sldns_wire2str_dname_scan runs on fuel, and running out of it is not a result.
-- With no packet (as sldns_wire2str_rdata_buf calls it) each round but the last consumes a byte, so
-- rdata_buf gives it one more than the number of bytes. With a packet at most 1001 pointers are followed,
-- and between two of them the rounds go forward in the packet, so dlen + 1001 (pktlen + 1) + 1 is enough.
-- throwNoClassDefError runs on fuel, too, and one step is enough where the class NoClassDefFoundError
-- exists.
--
-- Not modelled: the Java classes, jni/src/log.c and jni/src/uthash.h (vendored), the text of the
-- error buffers (a constructor stands for each), the free of the reverse lookup domain, the
-- interleaving of threads other than between two locks, and in the bridge to Java the creation of a
-- future and of its global reference, for which a number stands.
pub mod Base
pub mod Memory
pub mod Sldns
pub mod Dnsutils
pub mod Uthash
pub mod Engine
pub mod Driver
pub mod Jni
pub mod Tests
