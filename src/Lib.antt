-- ===== src/Lib.antt =====
-- QuixiCore XPU: a SYCL backend of GPU operations for Intel devices.
--
-- A caller names an operation of include/quixicore/xpu/ops.hpp. The dispatch layer, src/dispatch,
-- resolves the implementation variant, submits a kernel to the caller's queue and waits if asked.
-- The kernels, kernels/<family>/<operation>/variants, are parallel loops over device memory. The
-- runtime, src/runtime, chooses the device and records command graphs.
--
-- Common: Boolean tests, lists and bits over the native numbers. Common/Launch.antt is the model of a
-- parallel_for: the work-items of a launch are a list in the order in which they happen to run,
-- any order, and each item stores at most one element.
-- Runtime: gpu_devices and make_gpu_queue of src/runtime/runtime.cpp. What SYCL reports of the
-- platforms is the argument.
-- Variants: src/dispatch/variants.cpp. The build flag QUIXICORE_XPU_HAS_ONEDNN is an argument.
-- Graph: CommandGraph of src/runtime/graph.cpp, over a record of what it uses of the oneAPI graph
-- extension: a modifiable graph, the commands recorded in it, its finalized form.
-- Codec: the conversions and the bit packing of
-- kernels/quantization/turboquant/turboquant_codec.hpp and of kernels/common/quant_codecs.hpp.
-- Floats are their bit patterns, below 2 ^ 32; every operation is on integers, as in the source.
-- exact_float doubles at most 24 times, which is enough for the 24 bits of a significand.
-- Serving: the indexed copies and the paged KV cache of kernels/serving/variants/xpu_sycl, and the
-- formats in which a cache is written and read.
-- Collectives: the all-reduce of kernels/collectives/all_reduce. Collectives/Meeting.antt is its
-- rendezvous, one step per work-item for each read of the generation and each flag published or
-- observed; a spin that reaches its cap is a step too, and is remembered. Its steps take whether the
-- items of a rank run in lockstep: item 0 then writes the generation after all of them have read it.
-- The results on the rendezvous and the kernels are for a device that does, but for one that shows
-- what happens without. Collectives.antt has the two-shot kernel as steps of all ranks that
-- wait for each other, Collectives/Joint.antt the same kernel on top of the flags, and
-- Collectives/OneShot.antt the kernel for small payloads. Fences are taken to order memory.
-- Moe: the permutation of kernels/moe/moe_permute, four launches, and the reduction back to tokens,
-- each in any order of its items. Moe/Compose.antt puts both together, Moe/Layer.antt with the
-- grouped GEMM in between.
-- Route: the top-k routing of kernels/moe/moe_route. The float operations of the gates are an
-- argument; the logits are compared by their bits.
-- Grouped: the grouped GEMM of kernels/moe/grouped_qgemm over rows sorted by expert. The walk to the
-- expert of a tile has as much fuel as there are experts, and each round passes one.
-- Argmax: argmax_typed of kernels/sampling/argmax, the two loops of a thread and the tree over the
-- 256 threads of a row. A loop has as much fuel as there are elements, each round takes at least one;
-- the tree has 256 rounds of fuel and needs eight. Common/Float.antt compares floats by their bits.
-- Conv1d: the decode and prefill kernels of kernels/ssm/causal_conv1d. Common/Steps.antt is a launch
-- whose items read and write the memory as they run.
-- Gguf: the decoders of the sixteen block formats of kernels/quantization/gguf_gemv and the loop of a
-- lane, which has as much fuel as there are blocks and passes 32 in a round. The terms that are added are data;
-- what adding one does to the accumulator is an argument, and so are the tables of the i-quants.
-- Gguf/Reference.antt says what each element of a block is, byte by byte.
-- Int4: the packing of kernels/quantization/quantize and the matrix-vector product of
-- kernels/quantization/qgemv. The loops of a lane are those of Gguf; a row has as much fuel as bytes.
-- Dispatch: the operations of src/dispatch, one module per family, as what each does to the queue.
-- One kernel function is one action, but nvfp4_gemm_sycl, whose loop submits one kernel for each row;
-- Dispatch/Collectives.antt also has all_reduce_sum, with the result of a completed collective.
--
-- Not modelled: the rounding of the kernels' float arithmetic, which is an argument where its order
-- matters; the kernels that are nothing else; the generated contract tables; the grids
-- of the i-quants, a copy of another project's tables; oneDNN; the PyTorch
-- bindings, examples and benchmarks; formatting of device descriptions; allocation failure and the
-- exceptions of SYCL itself. Sizes are unbounded numbers: a product of sizes that exceeds 64 bits is
-- outside the model.
pub mod Common
pub mod Runtime
pub mod Variants
pub mod Graph
pub mod Codec
pub mod Serving
pub mod Dispatch
pub mod Collectives
pub mod Moe
pub mod Route
pub mod Grouped
pub mod Argmax
pub mod Conv1d
pub mod Gguf
pub mod Int4
