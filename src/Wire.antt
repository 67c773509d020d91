-- ===== src/Wire.antt =====
-- Messages as sequences of calls: the writes of src/common/buffer_writer.cpp that build one, and the
-- reads of src/common/buffer_reader.cpp that take it apart.
pub mod RoundTrip
use tibia_login_orig.Base.{ℕ, Bool, Option, none, some, List, [], ◌∷◌, replicate, ◌>>=◌}
use tibia_login_orig.Utf8.Latin1.{utf8_of}
use tibia_login_orig.Reader.Texts.{terminated}
use tibia_login_orig.Writer.{BufferWriter}
use tibia_login_orig.Writer
use tibia_login_orig.Reader.{BufferReader}
use tibia_login_orig.Reader

-- A text is a Latin-1 text, with the size of the array that it is read into.
pub data Field : Type 0 where
  flag : Bool → Field
  u8 : ℕ → Field
  u16 : ℕ → Field
  u16_be : ℕ → Field
  u32 : ℕ → Field
  u32_be : ℕ → Field
  text : ℕ → List ℕ → Field

pub data Kind : Type 0 where
  flag_kind u8_kind u16_kind u16_be_kind u32_kind u32_be_kind : Kind
  text_kind : ℕ → Kind

pub data Value : Type 0 where
  truth : Bool → Value
  number : ℕ → Value
  array : List ℕ → Value

abbrev pub kind_of : Field → Kind
kind_of (flag b) = flag_kind
kind_of (u8 v) = u8_kind
kind_of (u16 v) = u16_kind
kind_of (u16_be v) = u16_be_kind
kind_of (u32 v) = u32_kind
kind_of (u32_be v) = u32_be_kind
kind_of (text capacity t) = text_kind capacity

abbrev pub value_of : Field → Value
value_of (flag b) = truth b
value_of (u8 v) = number v
value_of (u16 v) = number v
value_of (u16_be v) = number v
value_of (u32 v) = number v
value_of (u32_be v) = number v
value_of (text capacity t) = array (terminated capacity t)

unfoldable pub write_field : Field → BufferWriter → Option BufferWriter
write_field (flag b) = Writer.write_flag b
write_field (u8 v) = Writer.write_u8 v
write_field (u16 v) = Writer.write_u16 v
write_field (u16_be v) = Writer.write_u16_be v
write_field (u32 v) = Writer.write_u32 v
write_field (u32_be v) = Writer.write_u32_be v
write_field (text capacity t) = Writer.write_string (utf8_of t)

unfoldable pub write_fields : List Field → BufferWriter → Option BufferWriter
write_fields [] w = some w
write_fields (f ∷ fs) w = write_field f w >>= write_fields fs

abbrev number_of : Option (ℕ × BufferReader) → Option (Value × BufferReader)
number_of result = result >>= (λ (v, r). some (number v, r))

unfoldable pub read_value : Kind → BufferReader → Option (Value × BufferReader)
read_value flag_kind r = Reader.read_flag r >>= (λ (b, r'). some (truth b, r'))
read_value u8_kind r = number_of (Reader.read_u8 r)
read_value u16_kind r = number_of (Reader.read_u16 r)
read_value u16_be_kind r = number_of (Reader.read_u16_be r)
read_value u32_kind r = number_of (Reader.read_u32 r)
read_value u32_be_kind r = number_of (Reader.read_u32_be r)
read_value (text_kind capacity) r =
    Reader.read_string (replicate capacity 0) r >>= (λ (dest, r'). some (array dest, r'))

unfoldable pub read_values : List Kind → BufferReader → Option (List Value × BufferReader)
read_values [] r = some ([], r)
read_values (k ∷ ks) r =
    read_value k r >>= (λ (v, r'). read_values ks r' >>= (λ (vs, r''). some (v ∷ vs, r'')))
