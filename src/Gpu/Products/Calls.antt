-- ===== src/Gpu/Products/Calls.antt =====
-- The calls of the products, and the bytes of the places that they work on.
use fortai.Prelude.{ℕ, zero, suc, ◌*◌, Bool}
use fortai.Gpu.Scratch.{Scratch}
use fortai.Gpu.Access.{Place, raw, activation, output, aux, input, matrix, target}
use fortai.Gpu.Products.{
  Weights, Queued, Reserves, matvec_resident, matvec_device_f32, matvec_device_f32_pair,
  matvec_host, ffn_host, ffn_device,
}
use fortai.Gpu.Products.Fits.{bytes_of}
use fortai.Gpu.Products.Reserved.{held}

-- a call of one of the products, with the sizes it is given
pub data Product : Type 0 where
  resident : Weights → Product
  device : Weights → ℕ → ℕ → Product
  pair : Weights → Weights → ℕ → ℕ → ℕ → Product
  host : Weights → ℕ → ℕ → Product
  host_of_ffn device_of_ffn : Weights → Weights → Weights → ℕ → ℕ → Product

unfoldable pub call : Reserves → (ℕ → Bool) → Scratch → Bool → Product → Queued
call o succeeds s present (resident w) = matvec_resident o succeeds s present w
call o succeeds s present (device w n m) = matvec_device_f32 o succeeds s present w n m
call o succeeds s present (pair v w n m k) = matvec_device_f32_pair o succeeds s present v w n m k
call o succeeds s present (host w n m) = matvec_host o succeeds s present w n m
call o succeeds s present (host_of_ffn gate up down n m) =
    ffn_host o succeeds s present gate up down n m
call o succeeds s present (device_of_ffn gate up down n m) =
    ffn_device o succeeds s present gate up down n m

-- the bytes of the matrices
abbrev pub matrix_bytes : Product → ℕ → ℕ
matrix_bytes (resident w) k = bytes_of w
matrix_bytes (device w n m) k = bytes_of w
matrix_bytes (pair v w n m l) zero = bytes_of v
matrix_bytes (pair v w n m l) (suc k) = bytes_of w
matrix_bytes (host w n m) k = bytes_of w
matrix_bytes (host_of_ffn gate up down n m) zero = bytes_of gate
matrix_bytes (host_of_ffn gate up down n m) (suc zero) = bytes_of up
matrix_bytes (host_of_ffn gate up down n m) (suc (suc k)) = bytes_of down
matrix_bytes (device_of_ffn gate up down n m) zero = bytes_of gate
matrix_bytes (device_of_ffn gate up down n m) (suc zero) = bytes_of up
matrix_bytes (device_of_ffn gate up down n m) (suc (suc k)) = bytes_of down

-- the bytes of the activation of the caller, as the call says; a resident product is given no sizes
abbrev pub input_bytes : Product → ℕ
input_bytes (resident w) = w.blocks * 34
input_bytes (device w n m) = n * 4
input_bytes (pair v w n m k) = n * 4
input_bytes (host w n m) = n
input_bytes (host_of_ffn gate up down n m) = n
input_bytes (device_of_ffn gate up down n m) = n * 4

-- and of its outputs
abbrev pub target_bytes : Product → ℕ → ℕ
target_bytes (resident w) k = w.rows * 4
target_bytes (device w n m) k = m * 4
target_bytes (pair v w n m l) zero = m * 4
target_bytes (pair v w n m l) (suc k) = l * 4
target_bytes (host w n m) k = m
target_bytes (host_of_ffn gate up down n m) k = m
target_bytes (device_of_ffn gate up down n m) k = m * 4

-- the bytes of each place
abbrev pub room : Product → Scratch → Place → ℕ
room p s raw = held s.raw.size
room p s activation = held s.activation.size
room p s output = held s.output.size
room p s aux = held s.aux.size
room p s input = input_bytes p
room p s (matrix k) = matrix_bytes p k
room p s (target k) = target_bytes p k
