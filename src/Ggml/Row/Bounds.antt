-- ===== src/Ggml/Row/Bounds.antt =====
-- The dot product reads only the bytes of its row, and its array holds each block.
use fortai.Prelude.{
  ℕ, zero, suc, ◌+◌, ◌*◌, ◌/◌, ◌%◌, ◌≤◌, ◌<◌, ◌≡◌, ◌∙◌, refl, sym, ap, not, ◌||◌, Option, none,
  some, List, [], ◌∷◌, ltb, ◌==◌, if◌then◌else◌, arith, if_rule,
}
use native.Mathlib.Nat.{lt_of_mul-lt-mul_right, mul-le-mul_right, mod-add-div'}
use mathlib.Core.Path.{subst}
use fortai.Ggml.{Block, dequant_name}
use fortai.Ggml.Row.{Floats, Decoder, Library, Dot, resolve, dot_values, dot_loop, quant_dot}
use fortai.Ggml.Row.Blocks.{width_of, width_of-bounds}

-- each block that is decoded fits the 256 places of the array, and its bytes are those of a row
abbrev AllFit : Block → ℕ → ℕ → List (ℕ × ℕ) → Type 0
AllFit b from end [] = Unit {0}
AllFit b from end ((address, width) ∷ ds) =
    (width ≤ 256) × (from ≤ address) × (address + b.block_bytes ≤ end) × AllFit b from end ds

-- nothing is decoded of a type that is not known
abbrev pub IsWithin : Option Block → ℕ → ℕ → List (ℕ × ℕ) → Type 0
IsWithin none input width ds = ds ≡ []
IsWithin (some b) input width ds = AllFit b input (input + width / b.block_width * b.block_bytes) ds

module _ {F : Type 0} (floats : Floats F) (vector : ℕ → F) (b : Block) (decode : Decoder F)
    (input n : ℕ) (wide : 0 < b.block_width) (small : b.block_width ≤ 256) where
  dot_loop-AllFit :
      (fuel k : ℕ) (result : F)
      → AllFit b input
          (input + n * b.block_bytes)
          (dot_loop floats fuel b decode vector
            (n * b.block_width)
            (k * b.block_width)
            (input + k * b.block_bytes)
            result).decoded
  unfolding dot_loop
  dot_loop-AllFit zero k result = tt
  dot_loop-AllFit (suc fuel) k result =
      let bw = b.block_width in
      let bb = b.block_bytes in
      let after = dot_values floats (decode (input + k * bb) bw) vector (k * bw) bw 0 result in
      let rest =
        dot_loop floats fuel b decode vector (n * bw) (k * bw + bw) (input + k * bb + bb) after in
      let same_rest : rest
          ≡ dot_loop floats fuel b decode vector (n * bw) (suc k * bw) (input + suc k * bb) after =
        ap (λ o. dot_loop floats fuel b decode vector (n * bw) o (input + k * bb + bb) after)
          (omega arith)
        ∙ ap (λ a. dot_loop floats fuel b decode vector (n * bw) (suc k * bw) a after)
            (omega arith) in
      if_rule (λ (d : Dot F). AllFit b input (input + n * bb) d.decoded) (ltb (k * bw) (n * bw)) _ _
        (λ e.
          let less : k < n = lt_of_mul-lt-mul_right bw (ground arith) in
          let inside : suc k * bb ≤ n * bb = mul-le-mul_right bb less in
          (
            small,
            omega arith,
            omega (arith, inside),
            subst (λ (d : Dot F). AllFit b input (input + n * bb) d.decoded) (sym same_rest)
                (dot_loop-AllFit fuel (suc k) after),
          ))
        λ e. tt

  dot_loop-IsWithin :
      (fuel : ℕ) (result : F)
      → AllFit b input
          (input + n * b.block_bytes)
          (dot_loop floats fuel b decode vector (n * b.block_width) 0 input result).decoded
  dot_loop-IsWithin fuel result =
      subst (λ (d : Dot F). AllFit b input (input + n * b.block_bytes) d.decoded)
        (ap
            (λ o.
              dot_loop floats fuel b decode vector (n * b.block_width) o (input + 0 * b.block_bytes)
                result)
            (omega arith)
          ∙ ap (λ a. dot_loop floats fuel b decode vector (n * b.block_width) 0 a result)
              (omega arith))
        (dot_loop-AllFit fuel 0 result)

nothing-IsWithin : (o : Option Block) (input width : ℕ) → IsWithin o input width []
nothing-IsWithin none input width = refl
nothing-IsWithin (some b) input width = tt

-- Each block that `fortai_ggml_quant_dot` decodes lies in the bytes of the row, which are `block_bytes`
-- for each of `width / block_width` blocks, and has no more values than the array of 256. Nothing is
-- decoded of a type that is not known. This holds whatever the library does.
pub quant_dot-IsWithin :
    {F : Type 0} (floats : Floats F) (library : Library F) (type input : ℕ)
    (vector : Option (ℕ → F)) (width : ℕ)
    → IsWithin
        (dequant_name type)
        input
        width
        (quant_dot floats library type input vector width).decoded
unfolding quant_dot resolve
quant_dot-IsWithin floats library type input none width =
    nothing-IsWithin (dequant_name type) input width
quant_dot-IsWithin floats none type input (some vector) width =
    nothing-IsWithin (dequant_name type) input width
quant_dot-IsWithin {F} floats (some symbol) type input (some vector) width =
    by_block (dequant_name type) (width_of-bounds type)
  where
    by_decoder :
        (b : Block)
        → (0 < b.block_width) × (b.block_width ≤ 256)
        → (o : Option (Decoder F))
        → IsWithin
            (some b)
            input
            width
            (elim (elim o as (λ _. Option (Block × Decoder F)) [
              | none ↦ none
              | some decode ↦ some (b, decode)
            ])
              as (λ _. Dot F) [
                | none ↦ record { value = floats.zero_float; decoded = [] }
                | some r ↦
                    if input == 0 || width == 0 || not (width % r.0.block_width == 0)
                    then (record { value = floats.zero_float; decoded = [] })
                    else dot_loop floats width r.0 r.1 vector width 0 input floats.zero_float
              ]).decoded
    by_decoder b w none = tt
    by_decoder b w (some decode) =
        let n = width / b.block_width in
        let end = input + n * b.block_bytes in
        if_rule (λ (d : Dot F). AllFit b input end d.decoded)
          (input == 0 || width == 0 || not (width % b.block_width == 0)) _ _ (λ _. tt)
          λ e.
            let exact : width % b.block_width ≡ 0 = ground arith in
            subst
              (λ m.
                AllFit b input end
                  (dot_loop floats width b decode vector m 0 input floats.zero_float).decoded)
              (omega (arith, mod-add-div' width b.block_width, exact))
              (dot_loop-IsWithin floats vector b decode input n w.0 w.1 width floats.zero_float)

    by_block :
        (o : Option Block)
        → (0 < width_of o) × (width_of o ≤ 256)
        → IsWithin o input width
            (elim (elim o as (λ _. Option (Block × Decoder F)) [
              | none ↦ none
              | some b ↦ elim (symbol b.name) as (λ _. Option (Block × Decoder F)) [
                | none ↦ none
                | some decode ↦ some (b, decode)
              ]
            ])
              as (λ _. Dot F) [
                | none ↦ record { value = floats.zero_float; decoded = [] }
                | some r ↦
                    if input == 0 || width == 0 || not (width % r.0.block_width == 0)
                    then (record { value = floats.zero_float; decoded = [] })
                    else dot_loop floats width r.0 r.1 vector width 0 input floats.zero_float
              ]).decoded
    by_block none w = refl
    by_block (some b) w = by_decoder b w (symbol b.name)
