-- ===== src/Lib.antt =====
-- A verification library for SemaDB, a vector database in Go. The program stores collections of points
-- (an id and a document) in shards. A cluster node routes requests to the servers that hold the shards
-- and merges their answers; a shard writes its points to the buckets of a key-value store, keeps its
-- indexes in step with them, and answers searches from the indexes. A part is modelled by functions of
-- its state that return the new state, with the errors and the run-time panics of the source as
-- outcomes (Base.Result).
--
-- Files and the code they are about:
--   Base          the helpers that every part shares: tests on numbers, lists, Go maps as association
--                 lists, outcomes, float32 patterns with their order
--   Conversion    conversion/conversion.go and conversion/keys.go: numbers, lists and keys as bytes
--   Diskstore     diskstore/memstore.go: the in-memory bucket with its writes and scans
--   Shard.IdCounter  shard/idcounter.go: the counter that hands out node ids
--   Shard.Points  shard/points.go: the points bucket, from UUIDs to node ids and back, with the data
--   Vamana.DistSet   shard/index/vamana/distset.go: the set of the closest points of a search
--   Vamana.Prune  robustPrune of shard/index/vamana/search.go, with the edge list of
--                 shard/index/vamana/node.go
--   Cluster.Placement  cluster/placement.go: the distribution of points over shards
--   Cluster.Hashing  cluster/hashing.go: the servers for a key
--   Cluster.Failed  curateFailedPoints, UpdatePoints and DeletePoints of cluster/actions.go
--   Shard.ItemCache  shard/cache/itemcache.go: the cache of items over a bucket
--   Vamana.Node   shard/index/vamana/node.go: a node of the graph and how it is stored
--   Inverted.Sortable  shard/index/inverted/sortable.go: values as bytes in the order of the values
--   Inverted.Terms  the constraint Invertable of shard/index/inverted/inverted.go with its four types
--   Inverted.Index  shard/index/inverted/inverted.go: the changes of an index and its flush
--   Inverted.Search  shard/index/inverted/inverted.go: the search by an operator
--   Inverted.Arrays  shard/index/inverted/array.go and string.go: arrays of terms, strings without case
--   Shard.Writes  shard/shard.go: insertions, updates and deletions of points, with the point count
--   Shard.Manager  shard/cache/manager.go: the shared caches and their pruning
--   Shard.Reads   shard/shard.go: the points of a search, and the page that is asked for
--   Models        models/: collections, schemas and the values of a client's map
--   Models.Schema models/index.go: the validation of a schema and the check of a map against it
--   Models.Query  models/search.go: queries and their validation
--   Cluster.Route cluster/rpc.go: a request to another server with its retries
--   Cluster.Collections  cluster/rpchandlers.go and cluster/actions.go: the collections of the users
--   Text          shard/index/text/text.go: the sets of the terms and the documents of a text index
--   Text.Search   the set that a search of a text index finds
-- How they interact: the counter and the points bucket stand on a bucket (Diskstore) and write their
-- values by Conversion; the item cache reaches its items by the interface `Storable`, which the graph
-- nodes implement; pruning works on the set that the search collects.
-- A request that changes a shard (Shard.Writes) takes its node ids from the counter, writes its points
-- to the points bucket and sends the changes to the indexes, of which the inverted ones stand on a bucket
-- of their own whose keys are the sortable encodings. A search of a shard (Shard.Reads) goes back from
-- node ids to points.
--
-- Conventions. A byte is a number below 256 and a byte slice a list of them. A uint64 is a number below
-- 2 ^ 64, with the wrap-around of the source written out. A float32 is its bit pattern; its order is
-- defined in Base.Float, and products of floats are parameters, since the hardware's arithmetic is not
-- in the source. A Go map is an association list whose order stands for the order of iteration. Mutexes
-- and pools are not modelled: an operation is one step.
--
-- A request about a collection goes from the node that takes it (Cluster.Collections) through the routing
-- (Cluster.Route) to the server that the hash of the user chooses (Cluster.Hashing). The values of a client's
-- points and queries are checked against the schema of the collection (Models) before a shard sees them. The
-- text index (Text) stands on two item caches over one bucket.
--
-- Fuel. `prune_loop` runs on the number of items, of which each round takes at least one.
-- `assign_loop` runs on fuel because it creates shards as it goes, at most one for each point that is
-- left and one more.
--
-- A transaction that fails is rolled back, as bbolt's is; the store in memory keeps the writes of one that
-- fails, which is not modelled. Not modelled either: the bolt store and the other third-party
-- packages (parameters or interfaces where they are used), the HTTP handlers, the RPC transport,
-- configuration, metrics and logging, the assembly kernels of the distances,
-- the variants of the conversions that reinterpret memory.
pub mod Base
pub mod Cluster
pub mod Conversion
pub mod Diskstore
pub mod Inverted
pub mod Models
pub mod Shard
pub mod Text
pub mod Vamana
