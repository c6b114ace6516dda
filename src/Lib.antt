-- ===== src/Lib.antt =====
-- myCommon: a library of common C modules (queues, message passing, containers, JSON and OS
-- helpers) for Linux programs.
--
-- The parts that are modelled, and how they work together:
-- - common/comm_que.c (CommQue): one ring of preallocated slots. A producer gets an empty slot
--   (CommQue_GetEmpty), fills it and puts it full (CommQue_PutFull); a consumer gets a full slot
--   (CommQue_GetFull) and puts it empty (CommQue_PutEmpty).
-- - common/msgqueue.c (MsgQueue): a queue of T_Msg (common/media.h) in the slots of one CommQue;
--   msg_queue_send, msg_queue_receive and msg_queue_release_msg call the four functions above.
-- - common/thread_safe_queue.c (ThreadSafeQueue): a queue of data blocks in linked nodes, with
--   search and removal by a match function.
-- - common/request_que.c (RequestQueue): requests with an id and a status, in a uthash table and,
--   while they are pending, in a queue of thread_safe_queue.c.
-- - common/module_manager.c (ModuleManager): modules with tables of message handlers;
--   framework_send_message puts a message into a queue of msgqueue.c, and
--   process_framework_message_queue hands it to the handlers.
-- - common/shareMem/share_mem_queue.c (ShareMem): a ring of elements in shared memory between two
--   processes, with semaphores for its free and its filled elements.
-- - common/jsonrpc (JsonRpc): requests and replies over a socket in frames, and the methods of
--   the service in a list of xlist.c.
-- - common/ctos.c (Ctos): arithmetic on 64-bit values in two halves, the order of clock readings,
--   queues of messages in elements that clients claim and release, and a circular list.
-- - common/readn.c (ReadN): the loops that read and write a whole buffer.
-- - common/JsonEx.c (JsonEx), common/cjson/cjson_extension.c (JsonStruct) and common/JsonParse
--   (JsonParse): arrays of ids, structs by tables of fields, and elements of lists by tables of
--   structs, in JSON.
-- - common/common.c (Argv, Codec, Resolution): a command line in words, the names of codecs, and
--   sizes of pictures by name or number.
-- - common/xlist.c (XList): a doubly linked list of nodes that the caller owns.
--
-- Which file models what:
-- - Common: shared names, Boolean tests, lists under native indices, 32-bit and 64-bit words
--   (Common/Words), the slots of a ring (Common/Window) and E_StateCode of common/defs.h
--   (Common/StateCode).
-- - CommQue: CommQue_t as the record CommQue, one function for each function of comm_que.c, as it
--   runs under the mutex. A wait is modelled over the list of the states that the thread finds
--   when it has the mutex again (Wake), so a theorem over all such lists is one over every
--   behaviour of other threads. CommQue/Handle has the tests for a null handle, CommQue/Create
--   creation and deletion with what they acquire and release, CommQue/Index the index arithmetic,
--   CommQue/Slots and CommQue/Protocol the clients' protocol as a step relation, CommQue/Refine,
--   CommQue/Ownership, CommQue/Wait, CommQue/Wakeup and CommQue/Misuse what follows.
-- - MsgQueue: the queue with the contents of its slots; MsgQueue/Fifo the specification, a client
--   and how a queue represents a specification state, MsgQueue/Fifo/Post, Fetch and Refine the
--   proofs; MsgQueue/Drain the loop of clear_queue, MsgQueue/Create creation and destruction.
-- - ThreadSafeQueue: Queue and QueueNode, with the memory of the nodes as a function from
--   addresses (Common/Heap) and null as none; a read through null or through a freed node gives
--   none. ThreadSafeQueue/Chain says what a valid queue in memory is; Enqueue, Dequeue, Find,
--   Remove and Clear have an operation each, Refine the specification.
-- - RequestQueue: the calls, with the memory of the requests, which RequestQueue/Requests has
--   with AsyncRequest and AsyncRequestQueue; RequestQueue/Table is the interface of uthash.h with
--   its documented laws, RequestQueue/Slots says what a valid queue is, and Submit with Fresh,
--   Calls, Complete, Cleanup with Sweep, Destroy, Clock and Dangling have the calls and what goes
--   wrong with cancelled requests.
-- - ModuleManager: struct module, struct framework_context and the calls on them, by their names
--   without framework_ and module_; ModuleManager/Registry has the ids, ModuleManager/Handlers
--   the handler tables with their specification, ModuleManager/Message a T_ModuleMsg in memory
--   and what msg_queue_send copies of it, ModuleManager/Delivery what arrives,
--   ModuleManager/Dispatch sending and processing, ModuleManager/Round and Lost a message on its
--   way, ModuleManager/Lifecycle and Balance creation, the main loop and destruction with what
--   they acquire and release.
-- - ShareMem: SMQ_ControlBlock as the record ControlBlock and the calls on it; ShareMem/Segments
--   has creation, opening and deletion with what they acquire and release, ShareMem/Balance and
--   ShareMem/Open what follows, ShareMem/Stream one producer and one consumer as a step relation
--   and the bounded queue that they see, ShareMem/Protocol the proofs.
-- - JsonRpc: the loops over send and recv of both sides; JsonRpc/Frame has the way of a text,
--   JsonRpc/Client the connection of the client, JsonRpc/Request a request and what it frees,
--   JsonRpc/Methods the method list with its specification.
-- - Ctos: os_i64_* and os_time_*, each by its name without os_; Ctos/Halves has the arithmetic,
--   Ctos/Clock the readings of os_time_now. Ctos/Messages has os_message_* of one queue,
--   Ctos/Messages/Release which pointers are elements, Stages who has an element, Protocol any
--   number of clients as a step relation over the waits, the parts under the mutex and the
--   signals, Steps and Invariant what holds behind them; Registry has creation and deletion,
--   Balance, Entries and Indices what follows. Ctos/Rings has os_list_* on the memory of the
--   entries, Ctos/Rings/Turn the circular list, Calls and Entries what the calls do to it.
-- - ReadN: sys_readn and sys_writen over the results of read and write in order, ReadN/Whole what
--   they transfer.
-- - XList: T_StdListDef and T_StdNodeDef with the memory of the nodes, push_back, push_front,
--   insert_after and remove_node for the functions StdListPushBack, StdListPushFront,
--   StdListInsertAfter and StdListRemove; XList/Links says what a valid list is, XList/Calls,
--   XList/Insert and XList/Remove have the calls.
-- - Argv: string_to_argv with strtok over the bytes of the line and what it acquires and
--   releases, and free_argv; Argv/Words has the words of a text read byte by byte, Argv/Held what
--   is held, Argv/Split what is returned.
-- - Codec: the searches of get_vcodec_str, get_vcodec_type, get_acodec_str and get_acodec_type;
--   Codec/Acodec and Codec/Vcodec have the tables, over the numbers of the constants as a
--   parameter, Codec/Names the way back from a name.
-- - Resolution: GetSizeFromString and the sscanf that it starts with, over the bytes of a text;
--   Resolution/Scan has the numbers.
-- - Cjson: the calls of cJSON as an interface with what the ids rely on, and trees that fit it
--   for concrete runs (Cjson/Trees).
-- - JsonEx: the functions of JsonEx.c, without Json in their names; JsonEx/Arrays has what is
--   read of an array, JsonEx/Ids the way of ids to a text and back.
-- - JsonStruct: the reading of a struct, with its memory as a byte for each address;
--   JsonStruct/Encode has the writing, JsonStruct/Load the document and the block,
--   JsonStruct/Contents, JsonStruct/Flat and JsonStruct/RoundTrip the way to JSON and back,
--   JsonStruct/Within and JsonStruct/Bounds what is written, JsonStruct/Strings the string at the
--   end of a table.
-- - JsonParse: the reading and the writing of elements; JsonParse/Keys has the tables of
--   JsonParsePriv.h with offsets for an int and a BOOL of four bytes, JsonParse/Lists and
--   JsonParse/Leaks what follows.
--
-- Bounds and fuel: the first pass of string_to_argv runs on fuel, more rounds than bytes being
-- enough. The indices of comm_que.c do not wrap for at most 2^31 slots, and slot addresses do not
-- for a buffer of fewer than 2^64 bytes; both are hypotheses where they matter.
-- process_framework_message_queue runs on fuel, one round more than messages being enough.
-- clear_queue runs on fuel, and more rounds than full slots are enough; so do the loops over the
-- nodes of thread_safe_queue.c, and more rounds than nodes are enough.
--
-- Not modelled: cJSON, cJSON_Utils and uthash, copies of other projects (uthash is an interface);
-- the ring buffer of AWTK; sockets, devices, threads, log files and what clocks show; the calls
-- of ctos.c that hand one call to the platform (mutexes, waits of semaphores, tasks, memory), and
-- a second creation of a message queue of ctos.c while one runs; the conversion of a timeout to a
-- deadline, which only chooses when a wait times out.
pub mod Common
pub mod CommQue
pub mod MsgQueue
pub mod ThreadSafeQueue
pub mod RequestQueue
pub mod ModuleManager
pub mod ShareMem
pub mod JsonRpc
pub mod Ctos
pub mod ReadN
pub mod XList
pub mod Argv
pub mod Codec
pub mod Resolution
pub mod Cjson
pub mod JsonEx
pub mod JsonStruct
pub mod JsonParse
