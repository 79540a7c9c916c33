-- ===== src/Lib.antt =====
-- AState is a state store for reinforcement learning. Trainers publish sharded tensors, and inference
-- processes pull them over RDMA. This library models its algorithms and proves them correct.
--
-- - MrSet (src/utrans/utrans_mr_set.c, utrans_mr_set.h): the set of memory regions that are registered
--   with the network card. MrSet/Node.antt and MrSet/Tree.antt hold the AVL tree (`avl_insert`,
--   `avl_find`, `avl_delete_node`, ...), and MrSet/Api.antt the functions `utrans_mr_set_*`, here
--   `mr_set_*`. A tree owns its nodes, so it is a value; `none` is a null pointer that the code would
--   dereference. `uint64_t` sums of addresses wrap at 2 ^ 64. The outcome of `malloc` is an argument.
--   MrSet/Sorted.antt holds the specification, a sorted list of disjoint regions; the other children
--   hold the proofs, named for what they are about.
--
-- - Regist (src/utrans/utrans.c): Regist/Context.antt holds the steps of `_regist_pub_buf` between the
--   points where it takes and releases its lock, Regist/Api.antt their composition, its callers and
--   `utrans_dereg_mem`, on the set of MrSet. `calloc`, `malloc` and UCX answer by arguments; what they
--   hand out is kept in a list of resources. Regist/Threads.antt runs threads at the same time, as a step
--   relation: a step is a critical section, or what a thread does between two.
--
-- - Shard (src/core/tensor_sharded_ops.cpp, tensor_sharded_ops.h, include/astate/sharded_key.h): which
--   parts of which candidate shards fill a target shard. Shard/Flat.antt holds
--   `ShardedTensorToFlatIntervals`, Shard/Cover.antt `CheckCandidatesCoverage`, Shard/Copy.antt
--   `FindCoveringCandidatesUnsafe`, Shard/Find.antt `FindCoveringCandidates` with its validation, and
--   Shard/CopyCheck.antt `ValidateShardedCopyParams`. Vectors are lists; a read past the end of one is
--   the outcome `fault`, and an exception is `throws`. Sizes and offsets are natural numbers. The
--   proofs relate the intervals to blocks of coordinates (Shard/Blocks.antt).
--
-- - Table (src/core/in_memory_tensor_table.cpp): Table/Torch.antt is the interface to the tensor
--   library, a parameter of the rest, and Table/Memory.antt holds the operations of
--   `InMemoryTensorTable` and the copy of `CopyTensorWithShardedKeysUnsafe`, whose region is that of
--   Shard. Maps are lists in the order of their iteration, and an exception is `raises`.
--
-- - Transfer (src/transfer/tensor_transfer_pull.cpp, tensor_transfer_pull.h): Transfer/Service.antt
--   holds the state of `TensorTransferPull` for the handshake of senders and receivers, `MultiPut`,
--   the start of a read, the parts of `Complete`, and the handlers of its messages, which it reads
--   and writes by Protocol. Transfer/Hosts.antt holds sets of nodes. Transfer/Rounds.antt runs any
--   number of writers and readers, as a step relation; messages may be lost. Transfer/Pairs.antt
--   says how far a writer and a reader can be apart, which Transfer/Steps.antt and
--   Transfer/Deliveries.antt follow step by step. A wait that ends in a timeout is a node that does
--   nothing more. A writer calls `Complete` after a `MultiPut` that has returned true.
--   Transfer/Compact.antt holds `GetCompactTensorInfos`, with maps as lists in the order of their
--   iteration, or as functions where they are only searched.
--
-- - Remote (src/core/remote_tensor_table.cpp, remote_tensor_table.h): Remote/Copies.antt holds
--   `AlignStorageOffset` and `GetOrCreateLocalTensorCopy`, with the buffers that small copies share,
--   Remote/Reshard.antt `ReshardTensor` and `GetOrCreateLocalReshardTensors`, and
--   Remote/Prefetch.antt the tensors that a receiver reads ahead: `GetLocalPrefetchCachedTensor`,
--   the sections of `PrefetchCachedTensors`, between which other calls use the cache, and what
--   `Complete` does with them. Which readings succeed is an argument. Remote/Shards.antt holds
--   `GetRemoteTensorShards`, with `IsContiguousShard` and `TryAdjustGlobalOffset`
--   (src/core/utils.h), over the search of Shard; what the transfer service has published is an
--   argument. Remote/Reads.antt holds `ReadTensors` for tensors that are not read ahead, with the
--   part of `TensorTransferPull::Get` that says which bytes are received; the sizes of items and the
--   answers of the transport are arguments.
--
-- - Retry (src/common/retry): Retry/Policy.antt holds `CountingRetry`, `CountingAndSleepRetryPolicy`
--   and `SleepingRetry`, Retry/Backoff.antt `TimeBoundedRetry` with `ExponentialTimeBoundedRetry`,
--   Retry/Timeout.antt `TimeoutRetry` and the pause of `ExponentialBackoffRetry`, and
--   Retry/Loop.antt `RetryUtils::Retry`. Clock readings, random numbers and the call that is retried
--   are arguments. The loop is on fuel; one turn more than the policy grants attempts is enough, and
--   its theorems ask for no more.
--
-- - Helpers (src/utrans/utils_helper.c, utils_helper.h): Helpers/Strings.antt holds `sort_strs` and
--   `match_patterns`. `fnmatch` is a parameter. The loop of `match_patterns` is on fuel, of which the
--   length of its argument and one more is enough. Helpers/Numa.antt holds `align_page` and
--   `ram_numa_node_detect_rough`, and Helpers/Majority.antt the node with most pages; the answers of
--   the system and of libnuma are parameters (`Numa`).
--
-- - Protocol (src/protocol/messages.cpp, messages.h): Protocol/Json.antt is the interface to jsoncpp, a
--   parameter of the rest: its operations (`Json`) and their documented behaviour (`IsJson`).
--   Protocol/Nodes.antt holds `NodeInfo` and the messages on weights, Protocol/Tensors.antt the JSON of
--   `ATensor`, Protocol/Decimal.antt `std::to_string` and `std::stoull`, Protocol/Keys.antt
--   `ShardedKey`, and Protocol/Publish.antt `TensorMemoryRDMAInfo` and
--   `TensorRDMAMetaPublishMessage`. An exception is `none`. Protocol/Trees.antt and
--   Protocol/Documents.antt are a JSON library that meets the interface, for the runs in
--   Protocol/Tests.antt. The 20 turns of `to_string` are enough for 64 bits.
--
-- - Wire (src/core/atensor.h, src/transport/atensor_serializer.cpp, atensor_serializer.h): Wire/Meta.antt
--   holds the description of a tensor (`ATensor`), Wire/Bytes.antt `memcpy` between integers and
--   buffers, and Wire/Serialize.antt `SerializeTensorMeta` and `DeserializeTensorMeta`. A buffer is a
--   list of bytes, integers are little-endian bit patterns, and `none` is an access out of bounds. The
--   string overload of `DeserializeTensorMeta`, which calls itself, is on fuel.
--
-- The other recursions follow the tree or the list, so no fuel is needed.
--
-- Base holds the names, tests and list lemmas that the parts share. Runs on concrete inputs stand in
-- the module Tests of each part.
--
-- Not modelled: the network, CUDA, thread pools, the discovery services, logging, and the Python layer,
-- which are I/O or calls of other libraries; and the parts of Remote, Transfer and utrans not named above.
pub mod Base
pub mod Helpers
pub mod MrSet
pub mod Protocol
pub mod Regist
pub mod Remote
pub mod Retry
pub mod Shard
pub mod Table
pub mod Transfer
pub mod Wire
