-- ===== src/Lib.antt =====
-- The core of NaviServer, a web server in C: models of its data structures, translated from the
-- source, and proofs about them.
--
-- The parts of the program, and the files that model them:
-- * Set (nsd/set.c, include/ns.h): `Ns_Set`, the arrays of (name, value) pairs that hold headers,
--   forms and configuration. A record of the array as it is allocated, and one function for each
--   operation: `put` is Ns_SetPut, `find_cmp` is Ns_SetFindCmp, and so on. Set/View reads a set as
--   the list of its fields; Set/Lookup, Set/Change and Set/Combine speak of that list; Set/Split has
--   Ns_SetSplit and Ns_SetListFind.
-- * Index (nsd/index.c): `Ns_Index`, an array of pointers kept in order by a comparison. `add` is
--   Ns_IndexAdd, `bin_search` is BinSearch and BinSearchKey. Index/Search, Order, Delete and Find
--   follow its operations; Index/Elements has the indexes of strings and ints, Index/Windows the
--   NsBsearch of old Windows.
-- * Sched (nsd/sched.c): scheduled events, in a heap by the next time to run and in a hash table by
--   their ids. `queue_event` is QueueEvent, `dequeue_event` is DeQueueEvent, `take_due` the loop of
--   SchedThread over the events that are due. Sched/Swap, Order and Links have the order of the heap
--   and the links between the heap and the events; Queue, Due, Control, Schedule, Calls and Twice
--   follow the operations.
-- * Time (nsthread/time.c): `Ns_Time` and its arithmetic.
-- * Locks (nsthread/rwlock.c, sema.c, cslock.c): read/write locks, semaphores and critical sections,
--   which the threads of the server share. A step is what a thread does while it holds the mutex.
-- * Base64 (nsd/uuencode.c): the encoding of the passwords in request headers.
-- * Strings (nsd/str.c): trimming, case, words and searches.
-- * Cache (nsd/cache.c): caches of a limited size. The entries live in a memory and point at each
--   other; Cache/Chain and Lists have the list that these pointers make, Books its agreement with the
--   sizes and the hash table, Access, Create, Prune and Flush the operations.
-- * Range (nsd/range.c): the byte ranges of a request, in Range/Offsets and Covers, and the
--   buffers of the response, in Range/Parts.
-- * UrlEncode (nsd/urlencode.c): percent encoding, with UrlEncode/RoundTrip.
-- * Pathname (nsd/pathname.c): normal forms of paths, in Pathname/Normal, and paths made of names.
-- * Request (nsd/request.c): request lines, in Request/Lines, the URLs in them, in Request/Urls, and
--   header lines, in Request/Headers.
-- * Url (nsd/url.c, quotehtml.c): the parts of URLs, in Url/Parse, and quoted HTML, in Url/Quote.
-- * UrlSpace (nsd/urlspace.c): data for sets of URLs, as the server keeps its request procedures,
--   permissions and aliases. UrlSpace has the sequences of words and the tries, UrlSpace/Junction the
--   channels with their filters, UrlSpace/Space the functions of the interface; Words, Exact,
--   Prefixes, Truncate, Balance and Ordered follow the tries, Channels, Replace, Deepest, Remove,
--   Clear, Stored and Walk the junctions. The branches of a trie are the elements of an Ns_Index: a
--   new one is put in by `add` of Index (Insert), and a scan for the word, of which there is one in
--   the order that Ordered keeps, stands for the `bsearch` of Ns_IndexFind. The two indexes of a
--   junction are those of Index.
-- * Ops (nsd/op.c): the records of request procedures, which the table of proxy requests and the
--   threads that run them refer to, with Ops/Counts.
-- * HttpTime (nsd/httptime.c): the times in headers, with HttpTime/RoundTrip.
-- * The helpers (Common): lists, Boolean tests and integers over the native numbers.
-- * The tests (Tests): runs of the definitions, and the theorems at inputs that meet their hypotheses.
--
-- How the parts interact: the scheduler and the locks do not share state with the others; the
-- operations of the scheduler are the parts that run under its one lock, and any order of calls of
-- them is a sequence of these functions on one state. Index/Find takes the C library's `bsearch` as
-- a record of a function and what its manual says; Index/Windows has the like of it, NsBsearch.
-- Request stands on Strings, UrlEncode and Pathname, and puts headers into a Set; Url shares its
-- helpers. UrlSpace keeps its channels in two indexes of Index, and takes Tcl_StringMatch and
-- `strcmp`. The steps of Ops are what threads do under one lock. Cache and Range stand alone, but
-- that Cache compares times with Time.
-- Index/Elements takes `strcmp`, an order, Sched takes `localtime` and `mktime`, and HttpTime takes
-- `gmtime` and `timegm`.
--
-- Bounds and fuel: numbers are natural numbers, and ints where the source uses a sign; sizes are
-- taken to be far from the bounds of `int`, `long` and `size_t`, but for the ids of events, which
-- wrap around as the source has it. A loop over an array is recursion on the rounds left. The
-- searches take one round for each element, which halving never needs in full; the loops of the heap
-- take one for each event, as a slot is halved or doubled each time; `take_due` one for each event,
-- as each round takes one away; `fresh_id` one for each id that it tries. The loop that prunes a
-- cache and the flush take one round for each entry, and the parsers one for each byte. The walk of
-- the URL space has the source's stack of 512 words; a walk that reads past it has no result.
--
-- What is not modelled: the release of memory, the log, callbacks, the threads' life and what the
-- operating system does. Connections, cookies, forms, ADP pages, the Tcl commands, databases and the
-- modules are not modelled; of request procedures the registration in the URL space is not.
pub mod Common
pub mod Set
pub mod Index
pub mod Sched
pub mod Time
pub mod Locks
pub mod Base64
pub mod Strings
pub mod Cache
pub mod Range
pub mod UrlEncode
pub mod Pathname
pub mod Request
pub mod Url
pub mod UrlSpace
pub mod Ops
pub mod HttpTime
pub mod Tests
