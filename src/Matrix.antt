-- ===== src/Matrix.antt =====
-- The weights from logical to processing channels: `MatrixConfig` of
-- src/include/speakerman/MatrixConfig.h and src/MatrixConfig.cc. A matrix is its array of 64 weights.
-- `IndexPolicy::method` of src/include/tdap/IndexPolicy.hpp checks indices, as it does by default; an
-- exception is `none`.
pub mod Loops
pub mod Weights
pub mod Throws
mod Examples
use speakerman.Prelude.{
  ℕ, zero, suc, ◌+◌, ◌*◌, ◌-◌, ◌%◌, min, List, ◌==◌, ltb, if◌then◌else◌, get_or, set, replicate,
  Option, none, some,
}
use speakerman.Double.{Double, quiet_nan}
use speakerman.Unset.{
  double_unset, set_config_value_if_unset, set_default_or_boxed_from_source_if_unset,
}

abbrev pub MatrixConfig : Type 0
MatrixConfig = List Double

-- 0, 1 and 10; the number of channels of both kinds is 8.
abbrev pub min_weight : Double
min_weight = 0

abbrev pub unit_weight : Double
unit_weight = 0x3ff0000000000000

abbrev pub max_weight : Double
max_weight = 0x4024000000000000

-- `unsetConfig`, which is what the constructor makes
abbrev pub unset_matrix : MatrixConfig
unset_matrix = replicate 64 quiet_nan

-- `IndexPolicy::method`
unfoldable pub method : ℕ → ℕ → Option ℕ
method index size = if ltb index size then some index else none

-- The index of the first weight that `weightsFor` points to.
unfoldable pub weights_for : ℕ → Option ℕ
unfolding method
weights_for processing_channel = elim (method processing_channel 8) [
  | none ↦ none
  | some c ↦ some (8 * c)
]

-- The index of the weight that `weight` refers to.
unfoldable pub weight : ℕ → ℕ → Option ℕ
unfolding method
weight processing_channel logical_channel = elim (weights_for processing_channel) [
  | none ↦ none
  | some start ↦ elim (method logical_channel 8) [ none ↦ none | some c ↦ some (start + c) ]
]

-- `for (; i < i + left; i++)` with a body that can throw.
unfoldable pub loop :
    (left i : ℕ) → (ℕ → MatrixConfig → Option MatrixConfig) → MatrixConfig → Option MatrixConfig
loop zero i body w = some w
loop (suc left) i body w = elim (body i w) [ none ↦ none | some w' ↦ loop left (i + 1) body w' ]

unfoldable pub default_weight : (min_channels pc lc : ℕ) → Double
default_weight min_channels pc lc =
    if pc % min_channels == lc % min_channels then unit_weight else min_weight

-- The body of the inner loop of `replaceWithDefaultsIfUnset`.
unfoldable pub default_cell : (min_channels pc lc : ℕ) → MatrixConfig → Option MatrixConfig
default_cell min_channels pc lc w = elim (weight pc lc) [
  | none ↦ none
  | some i ↦ some (
      set w i
        (set_config_value_if_unset double_unset (get_or w i quiet_nan)
          (default_weight min_channels pc lc)).0)
]

unfoldable pub replace_with_defaults_if_unset :
    (processing_channels logical_channels : ℕ) → MatrixConfig → Option MatrixConfig
replace_with_defaults_if_unset processing_channels logical_channels w =
    let min_channels = min processing_channels logical_channels in
    loop processing_channels 0 (λ pc. loop logical_channels 0 (default_cell min_channels pc)) w

-- The body of the inner loop of `changeRuntimeValues`; `weights` is the index of the row.
unfoldable pub runtime_cell :
    MatrixConfig → (min_channels pc weights lc : ℕ) → MatrixConfig → Option MatrixConfig
runtime_cell new min_channels pc weights lc w = elim (weight pc lc) [
  | none ↦ none
  | some i ↦ some (
      set w (weights + lc)
        (set_default_or_boxed_from_source_if_unset double_unset (get_or w (weights + lc) quiet_nan)
          (default_weight min_channels pc lc) (get_or new i quiet_nan) min_weight max_weight).0)
]

-- `std::fill` of the row at `weights`, from channel `lc` on, with the unset value.
unfoldable pub unset_cell : (weights lc : ℕ) → MatrixConfig → Option MatrixConfig
unset_cell weights lc w = some (set w (weights + lc) quiet_nan)

unfoldable pub runtime_row :
    MatrixConfig → (min_channels logical_channels pc : ℕ) → MatrixConfig → Option MatrixConfig
runtime_row new min_channels logical_channels pc w = elim (weights_for pc) [
  | none ↦ none
  | some weights ↦ elim (loop logical_channels 0 (runtime_cell new min_channels pc weights) w) [
    | none ↦ none
    | some w' ↦ loop (8 - logical_channels) logical_channels (unset_cell weights) w'
  ]
]

unfoldable pub unset_row : ℕ → MatrixConfig → Option MatrixConfig
unset_row pc w = elim (weights_for pc) [
  | none ↦ none
  | some weights ↦ loop 8 0 (unset_cell weights) w
]

unfoldable pub change_runtime_values :
    MatrixConfig → (processing_channels logical_channels : ℕ) → MatrixConfig → Option MatrixConfig
change_runtime_values new processing_channels logical_channels w =
    let min_channels = min processing_channels logical_channels in
    elim (loop processing_channels 0 (runtime_row new min_channels logical_channels) w) [
      | none ↦ none
      | some w' ↦ loop (8 - processing_channels) processing_channels unset_row w'
    ]
