-- ===== src/Lib.antt =====
-- The DXAiT runtime: the parts of the repository's C and C++ code that carry its own logic, modelled
-- as functions and proved correct.
--
-- Parts and files
--   Memory (src/core/dx_memory_api.cpp): pools of memory objects, on the host or on a Direct3D 12
--   device. Memory has the data and the creation of pools, Memory/Alloc, Memory/Free and
--   Memory/Transfer the calls that allocate, free and copy; every early return of the code is a branch.
--   An object is known by its address, the table of a pool is an association list.
--   Tensor (src/core/dx_tensor_api.cpp): tensor descriptors, their strides and the bytes that they span.
--   Graph (src/core/dx_graph_api.cpp): a registry of operators, graphs over it, and the depth-first
--   compilation of a graph into a plan.
--   Streaming (src/dxstream/dxstream.cpp, include/dxait/dxstream.hpp): an index of tensors by the hash of
--   their names, and in Streaming/Fetch the ring of slots that holds the tensors used last.
--   Trace (src/core/dx_trace_api.cpp): spans of work and their export as JSON.
--   Events (src/core/dx_stream_api.cpp): streams that number events, and waiting for an event.
--   Kv (src/dxkv/dxkv.cpp): the pages of a key/value cache.
--   Context (src/dxcontext/dxcontext.cpp): the split of a long context between two memories.
--   Db (src/dxdb/dxdb.cpp): the documents of a vector store; Db/Write, Db/Compact and Db/Refines relate
--   it to a map from ids to documents.
--   Io (src/core/dx_io_api.cpp) and Model (src/core/dx_model_api.cpp): ranged reads of files, and model
--   files, which are read through Io.
--   Gguf (src/dxmodel/dxmodel.cpp): the loader of GGUF and safetensors files. Gguf has the bounded reader and
--   the skipping of metadata, Gguf/Load the loader, Gguf/Format an independent description of the format.
--   Device (src/core/dx_device_api.cpp): the list of adapters with the CPU behind it, and opening a device.
--   Log (src/core/dx_log.cpp, src/core/dx_core_api.cpp): component loggers and the environment.
--   Runtime (src/core/dx_runtime_api.cpp): a logger and a device manager, and the backend that is selected.
--   Ops (src/core/dx_ops_api.cpp): the reference operators on F32 memory.
--   CApi (src/core/dx_c_api.cpp): the flat C interface: devices and queues in CApi/Device, buffers in
--   CApi/Buffer, transfers in CApi/Transfer, operators in CApi/Operators.
--   Command (src/dxgraph/dxgraph.cpp): a graph of commands in the order of Kahn's algorithm.
--   Adapter (src/dxadapter/dxadapter.cpp): the adapters of the C++ interface and their classification.
--   Chunk (src/dxchunk/dxchunk.cpp): chunks of a file, streamed through two staging buffers.
--   Base holds what these share: Boolean tests, lists measured by native numbers, tables, bits, texts.
-- A graph holds its registry and asks it at every node that is added; a model asks a file provider; the
-- ring asks an index. The flat C interface makes a device out of a device manager, a pool of Memory and a
-- stream of Events, and its buffers are handles of that pool; a runtime holds a device manager and a logger.
-- The other parts share no state.
--
-- Conventions
--   A function has the name that it has in the code. A status code is a value of ℤ, `minus n` for -n. A
--   handler returns its status with the new state. Unsigned arithmetic is written with its wrap-around;
--   a product or sum that the code tests before it computes is tested in the model.
--   Floats are a parameter (Floats): what is shown of a product holds for any addition and multiplication.
--   The memory behind a pointer is a list where its size is known and a function from indices where not.
--   Memory, Direct3D, the file system, clocks and threads answer from outside: each call takes a record
--   (AllocEnv, CopyEnv, RecordEnv, WaitEnv, FenceEnv, ProviderEnv, File, ...) that says which of them
--   succeed and with what, and the theorems hold for all answers unless they say otherwise.
--   `Platform` is the build, for Windows or for POSIX, where the code has `#ifdef _WIN32`.
--
-- Fuel
--   `visit_node` recurses over dependencies with fuel, `dx_graph_compile` gives it the number of nodes
--   and one; that this is enough is part of what is shown of a graph that a client can build. The client
--   loop `read_all` takes a read for each byte and one more at most.
--   `skip_gguf_val` takes one for each array in which a value stands and one for itself; a file that its
--   description describes needs no more than its depth. `drain`, the loop of the command graph, takes one for
--   each node.
--
-- Not modelled
--   Locks and interleavings of threads (each call is one step), the text and time stamps of log records, null
--   handles where the code refuses them at once, floating-point arithmetic itself and so the dx_la operations,
--   shaders, sockets, completion ports, and the C++ classes that only wrap Direct3D objects.
pub mod Base
pub mod Memory
pub mod Tensor
pub mod Graph
pub mod Ops
pub mod Streaming
pub mod Trace
pub mod Events
pub mod Kv
pub mod Context
pub mod Db
pub mod Adapter
pub mod Log
pub mod Runtime
pub mod Chunk
pub mod CApi
pub mod Command
pub mod Device
pub mod Gguf
pub mod Io
pub mod Model
