-- ===== src/Lib.antt =====
-- FaST-Manager: the sharing of one GPU among the Pods of a node, by time and by memory.
--
-- The program. A scheduler (src/scheduler.cpp) gives out tokens, each good for a time on a part of the
-- GPU. Every Pod has a daemon (src/pod-manager.cpp) that asks the scheduler for tokens and accounts the
-- memory of the Pod. In each client process a hook library (src/hook.cpp) stands before the CUDA
-- driver: it asks its daemon before a kernel is launched or memory is allocated. All three talk through
-- the messages of src/comm.cpp; the hook library predicts the next burst with src/predictor.cpp.
--
-- The files.
--   Common, Common/*: tests, lists, maps, texts and signed integers over the native numbers.
--   Double: the C++ type `double` as an interface, with the laws of its order where a theorem needs
--     them, and integers of thousandths as an instance for the tests. No arithmetic law is assumed
--     there.
--   Timer: `struct timespec`, and `floor` and the conversion to `long` with the laws of IEEE 754
--     that the end of a wait needs, which the thousandths meet.
--   Comm/Bytes, Buffer, Message, Attempt: src/comm.h and src/comm.cpp. A buffer is a list of bytes
--     of its length, and an access past its end is `none`; Comm/RoundTrip and Comm/Answers are about
--     messages.
--   Predictor/Keeper, Period: `RecordKeeper` and `Predictor` of src/predictor.cpp. A time point is
--     its count of nanoseconds, with the wrap-around of `int64_t` differences. Survivors, Ages and
--     Window compare the keeper with a plain queue; Sentinels is about the whole predictor.
--   Scheduler/Client, State, Config, Priority, Select, Tokens, Message: src/scheduler.h,
--     src/scheduler.cpp and src/schd-priority.cpp. Steps has the threads as steps on one state: a
--     message (`handle_message`), the parts of `schedule_daemon_func`, and a reload of the
--     configuration. Parts, Accounting, Invariant, Preserve, Selection and Reached lead to the
--     invariant; Quota, Order, Memory, Limits and Usage are about single operations, Overrun about
--     the tokens of a whole pass, and Progress and Granted about a candidate that waits. Settings
--     has the options and the start in `main`, Service the threads `pod_client_func` and
--     `monitor_file`, Rounds the loop of `schedule_daemon_func` as it composes its parts, and Served
--     and Composed what holds from the start on. Timer has the ends of the waits, and Main the loop
--     that accepts connections and the history that a debug build writes. Full has the two histories
--     of a debug build, and Dumped is about them; Outbox is about the messages that were sent, and
--     Answered about a whole round for a candidate that waits. Startup has `main` from the options
--     to its loop, and Begun what holds then.
--   PodManager/State, Launch, Threads: src/pod-manager.cpp. `hook_kernel_launch` is given by its
--     parts between two waits. Accounts and Recovery are about memory, Bursts and Exchange about
--     quotas. Launches has the launch threads as steps on one state; Counts, Changes, Inside,
--     Sleepers, Slept and Blocked are about them. Startup has the environment and the order of the
--     calls in `main`, Started its start against the scheduler and the loop that accepts
--     connections. Requests, Asked and Round are about a request for a quota that goes through the
--     scheduler, up to a whole round of its loop.
--   Hook/State, Tokens, Memory, Symbols, Intercept: src/hook.cpp and src/hook.h. The other end of
--     the connection is a parameter, and Rooms puts the daemon of PodManager there, as does Quotas
--     for launches; Managed is about managed memory, Accounts has allocations and frees as steps
--     beside the other connections of the daemon, and Noted and Synced compare the two accounts,
--     Erased is about freeing, and Periods about the two predictors. Addresses has `dlsym` and
--     `cuGetProcAddress`, with the macros of cuda.h as a parameter, and Lookups compares them;
--     Connection has the connection to the daemon and the signal handlers, and Endpoints is about
--     its address. Functions has the generated functions with the functions of the driver that they
--     look up. Tracking has the tracking thread and the launches as steps on one state, Ends is
--     about the wait of a launch that the tracking ends, and Waits about a start of the tracking
--     that is not heard.
--   Older/State, Tokens, Memory, Symbols, Intercept, Functions, Addresses, Connection:
--     docker/kubeshare-gemini-scheduler/hook.cpp, an older version of the hook library. Agreement,
--     Sizes, Calls and Lookups compare it with the newer one, as Functions does for whole calls, and
--     Launches is about its bursts.
--   Logging, Logging/Lines: src/debug.h and src/debug.cpp, and what a line of the log shows.
--   Tests/*: the theorems at concrete inputs.
--
-- State and errors. Each operation takes the state and gives the state after it; clock readings are
-- arguments. `none` is undefined behaviour or the end of the process: an access outside a message, a
-- client that the map lacks, the front of an empty list. Where a mutex makes an operation atomic it is
-- one function. A `size_t` is a number with `% 2 ^ 64`. No definition uses fuel: the loops go over lists,
-- `multiple_attempt` over the attempts that are left, and the endless loops of the threads are
-- steps, or run as far as what arrives is given.
--
-- Not modelled: sockets, threads and mutexes themselves, `getopt_long`, the conversion of numbers, the
-- stream operators that read the configuration file, the bytes of inotify, the formatting of a log
-- message, the CUDA driver, and random quotas. `std::sort` is a parameter, of which a theorem uses at
-- most that it permutes. A failed `send` of the scheduler counts as sent, and of the attempts of the hook
-- library's `communicate` only the one that succeeds is modelled. The wait of a thread on a
-- condition ends only by a signal, or at its time; the wait on `sleeping_count_cond`, which nobody
-- signals, also ends by itself.
pub mod Common
pub mod Double
pub mod Timer
pub mod Logging
pub mod Comm
pub mod Predictor
pub mod Scheduler
pub mod PodManager
pub mod Hook
pub mod Older
pub mod Tests
