-- ===== src/Lib.antt =====
-- MLStoreDB, a document store in Go, modelled and verified.
--
-- The program keeps collections of JSON documents in memory, with indexes, and writes every change
-- to one encrypted file: a header of 152 bytes and a log of records, in which a COMMIT record ends
-- each batch. A server speaks the MongoDB wire protocol on top of it.
--
--   Prelude        shared names: numbers, lists, results, byte strings, maps
--   Log.Record     db/filev2.go: encodeIDBlob, decodeIDBlob, buildRecord, parseRecordAt,
--                  decodePayload; compressIfNeeded, sealGCM, openGCM of db/file.go;
--                  zlibDecompress of db/zlib_helpers.go
--   Log.Scan       db/filev2.go: scanV2, and in Log.Scan.Heal the truncation of openV2
--   Log.Writer     db/filev2.go: orderOpsForCommit, encodeRecordBytes, appendV2
--   Index          db/index.go: newIndex, addDoc, removeDoc, addKey, removeKey, ordAdd, ordRemove,
--                  lookupIDs, countKey, covers
--   Store.Indexes  db/store.go: applyIndexes, which calls the index operations
--   Store.Writes   db/store.go: insertApply, upsertApply, updateApply, deleteApply; markDirty and
--                  markEntryMutated of db/file.go; docEntry and loadEntry of db/cache.go;
--                  noteEdgeMutation of db/graph.go
--   Store.Sorting  db/store.go: sortBy, compareValues, sortByPartial with docHeap, and the end of
--                  findDocs
--   Store.Parallel db/parallel.go: materializeRefs, materializeRefsSerial, countMatches; resident of
--                  db/cache.go and findWorkers of db/file.go
--   Graph          db/graph.go: buildAdj and neighborsOf in Graph.Adjacency, traverse in
--                  Graph.Traverse, shortestPath in Graph.Path
--   Hooks          db/hooks.go: addHook, Off, matchHooks, beginHookErr, runBeforeHooks,
--                  runAfterHooksInline
--   Access         db/auth.go: checkReadLocked, checkWriteLocked, validLocked, canRead, canWrite,
--                  Authenticate, resolveRolePerms, purgeExpiredLocked, Revoke, fieldDenySet,
--                  redactDoc
--   Filter         db/filter.go: match, matchField, matchLogical, matchOps, matchOneOp, lookupMulti;
--                  applyRegex of db/filter_regex.go; equalJSON, compareValues of db/store.go;
--                  Filter.Probe has filterTouchesFields of db/auth.go
--   Wire.Cursors   wire/cursor.go: register, batch, kill, sweep
--   Wire.Update    wire/update.go: the paths and comparisons; Wire.Update.Arrays has the operators on
--                  arrays, Wire.Update.Apply applyUpdateOp, Wire.Update.Expr applyUpdateExpr with
--                  normalizeIDValue of wire/query.go, Wire.Update.Diff diffTopLevel and its use in
--                  updateApply of db/store.go
--   Wire.Bson      wire/bson.go: Wire.Bson.Reader has bsonReader and readValue, readDocumentKeys,
--                  readArray, decodeBSONOrdered; Wire.Bson.Writer has appendElement,
--                  appendExtended, appendDocument, appendArray, encodeBSON; Wire.Bson.Format is the
--                  format as data
--
-- Graph.Traverse reads the two matrices of Graph.Adjacency, Graph.Path the outgoing one. Log.Scan
-- calls the parser and the decoder of Log.Record, and Log.Writer its builder. Store.Indexes calls
-- addDoc and removeDoc of Index, and Store.Writes calls applyIndexes. Store.Parallel calls match
-- of Filter. Libraries that are not part of the repository (CRC-32, AES-GCM, zlib, encoding/json,
-- fmt) are the fields of the record Log.Extern.Extern, and Log.Extern.Lawful states what the
-- theorems need of them. How a document becomes index rows is a parameter of Store.Indexes; the
-- record Store.Writes.DocOps adds what the writes do to a document (the size check, the id, the
-- patch). Access takes the password check as a parameter, and the documents of users and roles as
-- they parse. Wire.Bson.GoLib has what the BSON codec uses of float64, base64 and the layout of
-- dates, and Filter.FilterLib what the filters use of float64 and regexp, as Wire.Update.FloatOps
-- what the updates use of float64.
--
-- A byte is a number, a string is its list of bytes, and a Go map is an association list. The
-- first loop of scanV2 runs on fuel, one more than the length of the file; every round but the
-- last passes at least 24 bytes, so this is enough. The search of traverse runs on fuel of two
-- more than the vertices in the tables of both matrices, since a vertex enters the queue once;
-- that of shortestPath of two more than those of its matrix, and the path is rebuilt on two more
-- than the maximal depth. A call of the BSON reader runs on fuel, two more than the bytes, of
-- which each element takes two. The int32 record length and the int of a batch's end keep their
-- wrap-around. sort.SliceStable is the insertion sort that it is on at most 20 elements. A mutex
-- makes each operation one step, so the models have no locks.
--
-- Not modelled: the file header and the key derivation, the preparation of a flush, the planner of
-- queries and the projection, the administration of users and roles, the queue of asynchronous
-- hooks, the rebuilding of the graph, the wire messages and commands, and the web administration.
pub mod Prelude
pub mod Log
pub mod Index
pub mod Store
pub mod Access
pub mod Filter
pub mod Graph
pub mod Hooks
pub mod Wire
