-- ===== src/MdType.antt =====
-- The true types of src/PmtCore/PmtMetadata.h and getType of PmtMetadata.cpp, which converts between
-- their names and their enumeration. The names are those of
-- src/PmtInterpreter/PmtDefinitionTypes.h.
use Prim.Native.Nat.{Ordering}
use Prim.Native.String.{String}
use Prim.Native.String
use pmt.Common.{◌≡◌, refl, Bool, true, false, if◌then◌else◌}

-- PmtMDType
pub data MdType : Type 0 where
  unknown : MdType
  composite : MdType
  bool : MdType
  vbool : MdType
  int8 : MdType
  vint8 : MdType
  uint8 : MdType
  vuint8 : MdType
  int16 : MdType
  vint16 : MdType
  uint16 : MdType
  vuint16 : MdType
  int32 : MdType
  vint32 : MdType
  uint32 : MdType
  vuint32 : MdType
  float : MdType
  vfloat : MdType
  double : MdType
  vdouble : MdType
  string : MdType
  vstring : MdType
  wstring : MdType
  vwstring : MdType

abbrev pub same : String → String → Bool
same s t = elim (String.compare s t) [ Ordering.eq ↦ true | _ ↦ false ]

-- getType of a name.
unfoldable pub get_type : String → MdType
get_type true_type =
    if same true_type "char"
    then int8
    else if same true_type "vector<char>"
    then vint8
    else if same true_type "unsigned char"
    then uint8
    else if same true_type "vector<unsigned char>"
    then vuint8
    else if same true_type "short"
    then int16
    else if same true_type "vector<short>"
    then vint16
    else if same true_type "unsigned short"
    then uint16
    else if same true_type "vector<unsigned short>"
    then vuint16
    else if same true_type "long"
    then int32
    else if same true_type "vector<long>"
    then vint32
    else if same true_type "unsigned long"
    then uint32
    else if same true_type "vector<unsigned long>"
    then vuint32
    else if same true_type "float"
    then float
    else if same true_type "vector<float>"
    then vfloat
    else if same true_type "double"
    then double
    else if same true_type "vector<double>"
    then vdouble
    else if same true_type "string"
    then string
    else if same true_type "composite"
    then composite
    else if same true_type "bool"
    then bool
    else if same true_type "vector<bool>"
    then vbool
    else if same true_type "vector<string>"
    then vstring
    else if same true_type "wstring"
    then wstring
    else if same true_type "vector<wstring>"
    then vwstring
    else if same true_type "byte"
    then int8
    else if same true_type "unsignedByte"
    then uint8
    else if same true_type "unsignedShort"
    then uint16
    else if same true_type "int"
    then int32
    else if same true_type "unsignedInt"
    then uint32
    else if same true_type "boolean"
    then bool
    else unknown

-- getType of a member of the enumeration.
unfoldable pub type_name : MdType → String
type_name uint8 = "unsigned char"
type_name vuint8 = "vector<unsigned char>"
type_name uint16 = "unsigned short"
type_name vuint16 = "vector<unsigned short>"
type_name uint32 = "unsigned long"
type_name vuint32 = "vector<unsigned long>"
type_name float = "float"
type_name vfloat = "vector<float>"
type_name string = "string"
type_name composite = "composite"
type_name int8 = "char"
type_name vint8 = "vector<char>"
type_name int16 = "short"
type_name vint16 = "vector<short>"
type_name int32 = "long"
type_name vint32 = "vector<long>"
type_name double = "double"
type_name vdouble = "vector<double>"
type_name bool = "bool"
type_name vbool = "vector<bool>"
type_name vstring = "vector<string>"
type_name wstring = "wstring"
type_name vwstring = "vector<wstring>"
type_name unknown = ""

-- The name that getType gives to a type is one that getType reads as that type; the unknown type
-- has the empty name.
pub get_type-type_name : (t : MdType) → get_type (type_name t) ≡ t
unfolding get_type type_name
get_type-type_name unknown = refl
get_type-type_name composite = refl
get_type-type_name bool = refl
get_type-type_name vbool = refl
get_type-type_name int8 = refl
get_type-type_name vint8 = refl
get_type-type_name uint8 = refl
get_type-type_name vuint8 = refl
get_type-type_name int16 = refl
get_type-type_name vint16 = refl
get_type-type_name uint16 = refl
get_type-type_name vuint16 = refl
get_type-type_name int32 = refl
get_type-type_name vint32 = refl
get_type-type_name uint32 = refl
get_type-type_name vuint32 = refl
get_type-type_name float = refl
get_type-type_name vfloat = refl
get_type-type_name double = refl
get_type-type_name vdouble = refl
get_type-type_name string = refl
get_type-type_name vstring = refl
get_type-type_name wstring = refl
get_type-type_name vwstring = refl
