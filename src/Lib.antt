-- ===== src/Lib.antt =====
-- lftp, the file transfer program: its command parser and queue, its bookmark file, its URLs and
-- bencoding, its timers, settings and limits on rates, its sets of files and of patterns, and its
-- caches, as functions on lists of bytes and on explicit states.
--
-- The parts and how they meet. A line that the user or a script gives is in the buffer of
-- `CmdExec`; `parse_one_cmd` (src/parsecmd.cc) takes one command off it, expanding the aliases of
-- the table of src/alias.cc. Text that other parts give to that parser is quoted by
-- `append_quoted` (src/CmdExec.cc), and the queue of src/QueueFeeder.cc is such a part: its next
-- command is a text for the parser, behind the commands that change to its directories. URLs
-- (src/url.cc) are arguments of commands; they can name a bookmark, which is a line of a file that
-- src/keyvalue.cc reads and writes. src/Bencode.cc stands by itself: it is the format of torrents.
-- The timers (src/Timer.cc) wake the scheduler up; they are in a heap (src/xheap.h). Tables by name
-- are hash maps (src/xmap.cc): that of the settings (src/ResMgr.cc), and that of the limits on rates
-- (src/RateLimit.cc), which ask the settings for their numbers. The cache of listings
-- (src/LsCache.cc) keeps sets of files (src/FileSet.cc), which a mirror filters by patterns
-- (src/PatternSet.cc), and the names of their owners come from the cache of src/IdNameCache.cc.
--
-- Prelude and its children: the names of the libraries that the modules share, Boolean tests,
-- lists measured by native numbers, integers, texts (`Bytes`, a list of codes; `peek` is 0 at the
-- end, where the code sees a NUL), and `IsRest`, a text from some byte on.
--
-- Alias: src/alias.cc and src/alias.h. `Table` is the list from `base` on; `add`, `del`, `find`
-- and `format` are the functions of these names, `is_touched` is that of `TouchedAlias`.
-- Alias.Order has the order of `strcasecmp`, Alias.Lookup the table as a map.
--
-- Parse: src/parsecmd.cc. Parse.Words has the scans of a single word, Parse.Args the quoting and
-- joining of words (src/CmdExec.cc, src/ArgV.cc), Parse.Command the parser. `Cmd` is the state:
-- the unread buffer, the alias field with its used aliases, and what the command sets. A round of
-- the loop for all arguments is `step`. The loop takes fuel, a unit for each round: a round
-- without an alias takes at least a byte, so more than the length of the buffer is enough
-- (Parse.Halts); with aliases there may be no such bound (Parse.Cycle). Parse.Quote, Trail and
-- RoundTrip read back what the quoting writes.
--
-- Queue: src/QueueFeeder.cc. Queue.Store is the store of `QueueJob`s with `unlink_job`,
-- `insert_jobs`, `get_job`, `grab_job` and `get_next_match`; loops along `next` take the number of
-- addresses given so far as their fuel, which no list exceeds (`IsQueue`). Queue.Jobs has
-- `QueueCmd`, `NextCmd`, `DelJob` and `MoveJob`, Queue.Format what they print. Queue.Linked,
-- Unlink and Insert are about links, Queue.Represent relates a queue to the list of its jobs,
-- Queue.Refine, Remove, Move, Moves, Matching and Deleting say what an operation does to that
-- list, and Queue.Requeue what FormatJobs writes for another start. `fnmatch` and the plural forms
-- of messages are arguments.
--
-- KeyValue: src/keyvalue.cc and src/keyvalue.h. `Db` is the chain with the pair of the iteration.
-- Read takes a round for each line, so the length of the text is enough fuel. `qsort` is an
-- insertion sort, which is any sort where keys are unique. KeyValue.Lookup has the chain as a map,
-- KeyValue.Lines a line and KeyValue.File the file.
--
-- Url: src/url.cc and src/url.h. Url.Coding has `append_url_encoded` and `_url_decode`
-- (src/xstring.cc), Url.Scan the functions on the text of a URL, Url.Fields the fields of `ParsedURL`,
-- Url.Parse its `parse`, Url.Combine `CombineTo`. Sessions of slots, bookmarks and the tests of host names are
-- arguments. A parse takes a unit of fuel for each bookmark that leads to another one.
--
-- Bencode: src/Bencode.cc and src/Bencode.h, with the map of src/xmap.h as a sorted list of
-- entries. Bencode.Node has the values, Bencode.Parser `Parse`, Bencode.Printer `Pack` and
-- `ComputeLength`. Parse nests as deep as its text: twice its length is enough fuel.
--
-- Heap: src/xheap.h. A node is an address, `index` its place in the array, and `less` the order of
-- what the nodes stand for, an argument. `siftup` halves its place and `siftdown` doubles it, so the
-- place and the count are enough fuel. Heap.Links has the places, Heap.Order and Heap.Sift the order,
-- Heap.Removal and Heap.Laws the operations.
--
-- Timer: src/Timer.cc and src/Timer.h, on that heap. A `Time` is a number of microseconds, and
-- `Timers` the clock, the timers and the static members. The random part of a timer and the answers
-- of the settings are arguments. Timer.Running has the invariant, Timer.Kept and Timer.Steps the operations and
-- Timer.Timeout the timeout of the scheduler, which takes a timer out of the heap in each round.
--
-- HashMap: src/xmap.cc and src/xmap.h. A map has a chain for each hash; HashMap.Chain has the
-- chains, HashMap.Moving and HashMap.Rebuild the growth of the map, HashMap.Laws the map from keys, and
-- HashMap.Iteration the visit of the entries, which takes a round for each chain and one more.
--
-- RateLimit: src/RateLimit.cc and src/RateLimit.h. `Limits` has the fields of the limits at their
-- addresses and the map `total`. A limit stands under that of its host, and that under the one above
-- all hosts, so three levels are the fuel. RateLimit.Pool has a single pool, RateLimit.Xfer what the
-- limits are, Made, Upper and Fresh what `init` makes, Counts the numbers of transfers and Share the answer
-- of `BytesAllowed`. A double is an exact quotient, multiplied out, and a time a number of
-- microseconds.
--
-- Settings: src/ResMgr.cc and src/ResMgr.h. `var_name_cmp` and `find_var` are `VarNameCmp` and
-- `FindVar`; Settings.Find has what they choose. Settings.Values has `Set` and `Query` on the values
-- of a variable, and Settings.Store their laws. Validators and `fnmatch` are arguments.
--
-- FileSet: src/FileSet.cc and src/FileSet.h, a set of files in order by name. `merged` and `merge_info`
-- are `Merge` and `MergeInfo` of FileInfo, `find_ge` is `FindGEIndByName`, whose loop halves its range
-- and so has the number of files as fuel, `insert_info` is `Add`, and `merge` chooses between
-- `merge_insert` and `merge_both`. FileSet.Search has the order and the search, Look and Names the set as
-- a map from names with the insertion, Merging and Subtraction what the operations do to it. Setters has what
-- a file takes from another one of its name, field by field, and Known that `Merge` does that. The fields that merging does not touch, the
-- index of the iteration and the sort orders are left out.
--
-- PatternSet: src/PatternSet.cc and src/PatternSet.h. The links of a set stand in memory at addresses,
-- since `AddFirst` writes into one of them. PatternSet.Rules is the set as a list of rules, Chain what
-- the calls and `Match` do to it, Glob the part of a path that a pattern is matched with. The loop of
-- `Match` has the number of links made as fuel.
--
-- IdNameCache: src/IdNameCache.cc and src/IdNameCache.h. `lookup_id` and `lookup_name` are the two
-- `lookup`, `name_of` and `id_of` the two `Lookup`, and `system_records` is the `get_record` of the
-- caches of users and of groups, from the answers of the system. IdNameCache.Find and
-- IdNameCache.Maps have the two tables as maps.
--
-- LsCache: src/LsCache.cc with src/Cache.cc. `add` and `find` are `Add` and `Find`, `trim` is `Trim`;
-- a CacheEntry has the time when its timer stops. LsCache.Trimming has what is left of the chain and
-- LsCache.Adding what is found. Locations, settings and the memory of a set of files are in `Config`.
--
-- Scheduler: src/SMTask.cc and src/SMTask.h, on src/xlist.h. Scheduler.Lists are the lists, of addresses,
-- Methods what is called on a task, and Scheduler itself `Roll`, `CollectGarbage` and `Schedule`. An
-- assertion that fails is a `fault`. Sound has the invariant, Calls and Nesting the calls that a task
-- makes as steps, Roll and Turns a turn of a task, Rounds, Cover and NewLoop the loop of `ScheduleNew`,
-- ReadyLoop that of `Schedule`, Drops, Dying, Destroying, Pass and Garbage the end of tasks, and Schedule the whole.
-- `ScheduleNew` takes (n + 1) * (n + 1) rounds at most for n tasks, which are its fuel; the loop of
-- `CollectGarbage` passes a task by or destroys it in each round, so it has the number of tasks and one more; the loop
-- of `Roll` has a bound as an argument, since it may not end. What a task does (`Do`) and what the destructor of a
-- derived class does before that of SMTask (`Dtor`) are arguments. The hypotheses on them are that they end and call
-- nothing of SMTask but what Nesting and Drops list: a destructor makes no task and no reference, and that of
-- SMTaskInit, which leaves the first task when the program ends, is left out.
--
-- Not modelled: the network protocols, what each task does, the execution of commands, the
-- validators of the settings, the mirror, torrents and the terminal, which stand on system calls and
-- on each other; the sort orders of a set of files; the two functions that format a bencoded value
-- for a log; the copies of gnulib; file locking.
pub mod Alias
pub mod Bencode
pub mod FileSet
pub mod HashMap
pub mod Heap
pub mod IdNameCache
pub mod KeyValue
pub mod LsCache
pub mod Parse
pub mod PatternSet
pub mod Prelude
pub mod Queue
pub mod RateLimit
pub mod Scheduler
pub mod Settings
pub mod Timer
pub mod Url
