-- ===== src/Gpu.antt =====
-- The host code of backend/cuda/fortai_cuda_backend.cu.
pub mod Context
pub mod Weights
pub mod Kernel
pub mod Access
pub mod Products
pub mod Layer
pub mod Scratch
pub mod Tests
