-- ===== src/Decode.antt =====
-- Dequantization of src/rust/src/read.rs: lookup tables, per-band scale and offset, and the checks of
-- the source's data type. An image directory is what the code reads of it: its sample formats and
-- bits, and its parsed scales and offsets.
pub mod Domain
use a5px.Prelude.{
  ℕ, zero, suc, ◌+◌, ◌-◌, ◌%◌, ◌^◌, List, [], ◌∷◌, Bool, true, false, ◌&&◌, ◌||◌, not, Option, none,
  some, if◌then◌else◌, ltb, ◌==◌, length, get_or, map, Result, ok, err, u64_mod, add_u64, sub_u64,
}
use a5px.Prelude.Int.{ℤ, pos, negsuc, ltb_ℤ}
use a5px.Float.{F64}
use a5px.Stats.{Error, invalid, unsupported, any}

-- `as usize` of an `i64`, and back.
abbrev pub to_u64 : ℤ → ℕ
to_u64 (pos n) = n % u64_mod
to_u64 (negsuc n) = u64_mod - 1 - n % u64_mod

abbrev pub i64_of : ℕ → ℤ
i64_of n = if ltb n (2 ^ 63) then pos n else negsuc (u64_mod - 1 - n)

pub record DequantLut (A : Type 0) : Type 0 where
  pub lut : List A
  pub min : ℤ
  -- whether some code decodes to NaN
  pub has_nan : Bool

pub data Decode (A : Type 0) : Type 0 where
  lut : DequantLut A → Decode A
  affine : List A → List A → Decode A

pub data BandDecode (A : Type 0) : Type 0 where
  lut : DequantLut A → BandDecode A
  affine : A → A → BandDecode A

-- `async_tiff::tags::SampleFormat` and `async_tiff::DataType`, as far as the code tells them apart.
pub data SampleFormat : Type 0 where
  uint int float other : SampleFormat

pub data DataType : Type 0 where
  bool uint8 uint16 uint32 uint64 int8 int16 int32 int64 float32 float64 : DataType

abbrev pub same_format : SampleFormat → SampleFormat → Bool
same_format SampleFormat.uint SampleFormat.uint = true
same_format SampleFormat.int SampleFormat.int = true
same_format SampleFormat.float SampleFormat.float = true
same_format SampleFormat.other SampleFormat.other = true
same_format _ _ = false

-- The `match` at the end of `derive_data_type`.
abbrev pub type_of : SampleFormat → ℕ → Option DataType
type_of SampleFormat.uint bits =
    if bits == 1
    then some bool
    else if bits == 8
    then some uint8
    else if bits == 16
    then some uint16
    else if bits == 32
    then some uint32
    else if bits == 64
    then some uint64
    else none
type_of SampleFormat.int bits =
    if bits == 8
    then some int8
    else if bits == 16
    then some int16
    else if bits == 32
    then some int32
    else if bits == 64
    then some int64
    else none
type_of SampleFormat.float bits =
    if bits == 32 then some float32 else if bits == 64 then some float64 else none
type_of SampleFormat.other bits = none

abbrev pub every {ℓ} : {A : Type ℓ} → (A → Bool) → List A → Bool
every p [] = true
every p (x ∷ xs) = p x && every p xs

-- `derive_data_type` of the sample formats and the bits per sample.
unfoldable pub derive_data_type : List SampleFormat → List ℕ → Option DataType
derive_data_type [] bps = none
derive_data_type (s ∷ sf) [] = none
derive_data_type (s ∷ sf) (b ∷ bps) =
    if not (every (λ x. same_format x s) (s ∷ sf))
    then none
    else if not (every (λ x. x == b) (b ∷ bps))
    then none
    else type_of s b

unfoldable pub integer_code_range : Option DataType → Option (ℤ × ℤ)
integer_code_range (some bool) = some (pos 0, pos 1)
integer_code_range (some uint8) = some (pos 0, pos 255)
integer_code_range (some uint16) = some (pos 0, pos 65535)
integer_code_range (some int8) = some (negsuc 127, pos 127)
integer_code_range (some int16) = some (negsuc 32767, pos 32767)
integer_code_range _ = none

module _ {A : Type 0} ⦃f : F64 A⦄ where
  -- The entry of a code `v`, by the wrapping difference from the least code.
  unfoldable pub apply_lut : DequantLut A → A → A
  apply_lut d v = get_or d.lut (sub_u64 (to_u64 (f.to_i64 v)) (to_u64 d.min)) f.nan

  unfoldable pub apply : BandDecode A → A → A
  unfolding apply_lut
  apply (BandDecode.lut d) v = apply_lut d v
  apply (BandDecode.affine scale offset) v = f.add (f.mul v scale) offset

  unfoldable pub parse_dequant_arg : List A → A → Option (DequantLut A)
  parse_dequant_arg [] min = none
  parse_dequant_arg (x ∷ xs) min =
      some (record { lut = x ∷ xs; min = f.to_i64 min; has_nan = any f.is_nan (x ∷ xs) })

  -- `all[b]` of the selected bands, with a default for NaN.
  abbrev pub pick : List A → A → List ℕ → List A
  pick all default =
      map (λ b. if f.is_nan (get_or all b default) then default else get_or all b default)

  -- `scales` and `offsets` are those of all bands of the image.
  unfoldable pub resolve_decode :
      Option (DequantLut A) → Bool → List A → List A → List ℕ → Result Error (Option (Decode A))
  resolve_decode (some dq) scoff scales offsets selected =
      if scoff then err invalid else ok (some (Decode.lut dq))
  resolve_decode none scoff scales offsets selected =
      let scale = pick scales f.unit selected in
      let offset = pick offsets f.naught selected in
      if not scoff
      then ok none
      else if every (λ s. f.eq s f.unit) scale && every (λ o. f.eq o f.naught) offset
      then ok none
      else ok (some (Decode.affine scale offset))

-- Whether decoding can turn a valid code into NaN.
unfoldable pub may_yield_nan : {A : Type 0} → Decode A → Bool
may_yield_nan (Decode.lut d) = d.has_nan
may_yield_nan (Decode.affine scale offset) = false

-- One output band's decode. A band past the lists, where the code would panic, gives NaN here.
unfoldable pub band : {A : Type 0} → ⦃f : F64 A⦄ → Decode A → ℕ → BandDecode A
band (Decode.lut d) b = BandDecode.lut d
band ⦃f⦄ (Decode.affine scale offset) b =
    BandDecode.affine (get_or scale b f.nan) (get_or offset b f.nan)

-- The highest code that the table covers: `min + len - 1`.
abbrev pub covered_hi : {A : Type 0} → DequantLut A → ℤ
covered_hi dq = i64_of (sub_u64 (add_u64 (to_u64 dq.min) (length dq.lut)) 1)

unfoldable pub validate_dequant_dtype :
    {A : Type 0} → Option DataType → DequantLut A → Result Error (Unit {0})
unfolding integer_code_range
validate_dequant_dtype dtype dq = elim (integer_code_range dtype) [
  | none ↦ err unsupported
  | some (lo, hi) ↦ if ltb_ℤ lo dq.min || ltb_ℤ (covered_hi dq) hi then err invalid else ok tt
]

unfoldable pub validate_categorical_dtype : Option DataType → Result Error (Unit {0})
unfolding integer_code_range
validate_categorical_dtype dtype = elim (integer_code_range dtype) [
  | none ↦ err unsupported
  | some r ↦ ok tt
]
