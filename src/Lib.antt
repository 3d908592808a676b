-- ===== src/Lib.antt =====
-- fortai runs language models behind an HTTP server. Its C code has these parts, each with the
-- files of this library that model it.
--
-- The HTTP server, src/server/fortai_http_server.c, accepts connections, puts them into a ring that
-- worker threads take them from, reads a request, decides whether it may pass, hands it to the
-- native server (Fortran), and sends the response.
--   * Http/Socket: `fortai_send_all` (`send_all`) and `fortai_http_read_request` (`read_request`).
--     What `send` and `recv` do is a list of outcomes, one for each call.
--   * Http/Header: `fortai_copy_header_value` (`copy_header_value`).
--   * Http/Keys: `fortai_cors_origin_allowed`, `fortai_key_equals`, `fortai_api_key_file_matches`,
--     under these names without the prefix.
--   * Http/Access: `fortai_safe_env`, `fortai_copy_request_path`, `fortai_public_path`,
--     `fortai_authorized`. The environment and the files are functions from names to bytes.
--   * Http/Reply: `fortai_http_reason`, `fortai_http_status`, `fortai_dispatch_request`. The native
--     handler `fortai_native_http_handle` is a parameter, with a state of its own.
--   * Http/Queue: `fortai_request_queue`, `fortai_queue_push` (`push`), `fortai_http_worker`
--     (`take_client`, `finish_client`) and the accept loop and shutdown of
--     `fortai_http_transport_run`; Http/Queue/Threads has all their interleavings as a step
--     relation, one step for each critical section, and Http/Queue/Waiting adds which workers sleep
--     on the condition `available` and what wakes them.
--   * Http/Client: `fortai_close_client` (`close_client`), one connection.
--   * Http/Server: `fortai_parse_worker_count`, `fortai_parse_parallel_slots`,
--     `fortai_open_listener`, `fortai_process_accept_loop`, `fortai_run_cpu_process_slots`, under
--     these names without the prefix, and `fortai_http_transport_run` (`transport_run`), as the
--     resources they take, use and give back, in order. What the system's calls return is the
--     parameter `Calls`. Ledger says when such a list is in order.
--   * Libc: what these use of the C library on strings, which are lists of bytes; `strtol` is in
--     Libc/Numbers, the environment in Libc/Environment.
-- The decoder, src/backend/cpu/fortai_llama_fast.c, drives llama.cpp.
--   * Llama: `fortai_argmax_f32` (`argmax`), `fortai_llama_fast_context_decode_greedy`
--     (`decode_greedy`), `fortai_llama_fast_context_decode_speculative` (`decode_speculative`). The
--     functions of libllama are the parameter `Api`; what llama.cpp documents of them is the record
--     `Causal` of Llama/Speculation.
--   * Llama/Settings: `fortai_env3`, `fortai_parse_bool`, `fortai_parse_int`,
--     `fortai_parse_flash_attn`, `fortai_parse_cache_type`, `fortai_path_requests_mtp`, under these
--     names without the prefix.
--   * Llama/Split: `fortai_parse_tensor_split` (`parse_tensor_split`); `strtof` is a parameter.
--   * Llama/Library: `fortai_open_llama` (`open_llama`); the dynamic loader is a parameter.
--   * Llama/Context: `fortai_llama_fast_context_create` (`context_create`) and
--     `fortai_llama_fast_context_destroy` (`context_destroy`), as the resources they take and
--     release, in order. What the calls return is the parameter `Outcomes`.
--   * Llama/Reset: `fortai_llama_fast_context_reset` (`context_reset`); the functions of libllama
--     that it calls are the parameter `Memory`.
-- The quantised dot products, src/backend/cpu/fortai_q8_dot.c, store scales as binary16.
--   * Half: `half_to_float` and `float_to_half`, on bit patterns.
-- The mixed quantised matrices, src/backend/cpu/fortai_ggml_quant.c, are multiplied by libggml.
--   * Ggml: `fortai_dequant_name` (`dequant_name`) and the checks of a call; Ggml/Plan: what
--     `fortai_cpu_plan_make` (`plan_make`) and `fortai_cpu_group_plan_make` (`group_plan_make`) take
--     and give back, over what the calls of libggml return, `Making`; Ggml/Cache: the caches
--     of plans, with `fortai_cpu_plan_cached` and `fortai_cpu_group_plan_cached` (`plan_cached`),
--     `fortai_ggml_quant_matvec` (`quant_matvec`), `fortai_ggml_quant_matvec_group`
--     (`quant_matvec_group`) and `fortai_ggml_quant_cache_clear` (`quant_cache_clear`). What libggml
--     computes is the parameter `product`, the memory of the weights a function of addresses.
--   * Ggml/Row: `fortai_ggml_dequantize_row` (`dequantize_row`) and `fortai_ggml_quant_dot`
--     (`quant_dot`). The arithmetic of `float` is the parameter `Floats`, the functions of libggml
--     are the parameter `Library`.
-- The model file is mapped by src/backend/cpu/fortai_gguf_mmap.c.
--   * Mapping: `fortai_gguf_mmap_file` (`mmap_file`) and `fortai_gguf_munmap_file`
--     (`munmap_file`), over what the system returns, `Opening`; `fortai_gguf_mmap_slice`
--     (`mmap_slice`) and `fortai_gguf_mmap_evict` (`mmap_evict`), on addresses, with the
--     wrap-around of 64 bits. Mapping/Life has a file from its mapping to its unmapping.
-- The CUDA backend, backend/cuda/fortai_cuda_backend.cu, has host code and kernels.
--   * Gpu/Scratch: the scratch buffers of a context and the functions `ensure_*` that grow them
--     (`ensure_aux` for `ensure_aux_scratch`, and so on), over what CUDA returns.
--   * Gpu/Context: `fortai_cuda_q8_context_create` (`context_create`), the functions on a context,
--     under their names without the prefix `fortai_cuda_q8_context_`, in Gpu/Context/Graphs those
--     on the captured graphs, and in Gpu/Context/Rows the streams of the top-k selection
--     (`prepare_rows`), as the resources of CUDA they take, use and give back. Ledger/Track follows
--     one resource through such a list. Gpu/Context/Life has any operations in any order, and
--     Gpu/Context/Borrowed the stream that a context works on.
--   * Gpu/Weights: `fortai_cuda_q8_weights_upload` (`weights_upload`),
--     `fortai_cuda_q8_weights_destroy` (`weights_destroy`), and the upload and the download of
--     a device buffer.
--   * Gpu/Layer: how the layers with a state are created and destroyed, in
--     Gpu/Layer/RecurrentLayer `fortai_cuda_qwen35_recurrent_create` (`recurrent_create`), and
--     in Gpu/Layer/AttentionLayer `fortai_cuda_qwen35_attention_create` (`attention_create`);
--     in Gpu/Layer/Reset how their state is cleared (`recurrent_reset`, `attention_reset`) or put
--     back (`recurrent_restore_first`, `recurrent_restore_second`).
--   * Gpu/Kernel: a launch as its threads in some order; the element by element operations
--     `fortai_cuda_qwen35_add_device` (`add_device`), and so on, with their kernels, in
--     Gpu/Kernel/Arrays and Gpu/Kernel/Columns. The arithmetic of `float` is a parameter.
--   * Gpu/Products: the Q8 products `fortai_cuda_q8_matvec_host` (`matvec_host`), and so on, and
--     `matvec_host_many`, as the scratch they reserve and the work they queue. Gpu/Access says
--     what a kernel or a copy reads and writes, Gpu/Access/Kernels has the kernels so. What such
--     a kernel computes is left out.
-- A build without CUDA links src/backend/cpu/fortai_cuda_stub.c.
--   * Cuda: each function of it as what it returns and which output parameters it clears, in
--     Cuda/Q4, Cuda/Q8 and Cuda/Qwen35; a call is a constructor named as the function is, without
--     the prefix `fortai_cuda_`.
--
-- Bounds. A loop over a string runs on fuel, one more than the bytes of the string, and each round
-- drops a byte at least. The loop of `half_to_float` has ten rounds, since a fraction has ten bits.
-- `handle_loop` runs on the outcomes of `realloc`, one for each round; for a handler that keeps its
-- contract the bodies grow by two bytes a round, so that a bound on them bounds the rounds.
-- `read_loop` and `send_all` run on the list of outcomes; the theorems say how many are enough.
--
-- The loops of the kernels over the blocks of a row run on as many rounds as there are blocks, and
-- each round goes on by one block at least. The loop of `quant_dot` has as much fuel as the row has
-- values, and a block has at least one.
--
-- Not modelled: memory that runs out while a request is read; the options of sockets and the
-- handlers of signals; the acceptor's wait for room in the ring; the AVX2
-- kernels; the loading of libggml; what `madvise` returns; of the CUDA backends the
-- arithmetic of the products, shared memory, what the attention and the recurrent layers compute,
-- the batched products, the selection of the largest logits, and the Q4 backend; the Fortran code.
pub mod Cuda
pub mod Ggml
pub mod Gpu
pub mod Half
pub mod Http
pub mod Ledger
pub mod Libc
pub mod Llama
pub mod Mapping
pub mod Prelude
