-- ===== src/Copy.antt =====
-- copy/struct.go: values as `reflect` sees them. `F` is a float64, `T` a `time.Time`.
pub mod Shape
pub mod Std
pub mod Names
pub mod Leaves
pub mod Scalar
pub mod Containers
pub mod Convert
pub mod Typing
pub mod Numbers
pub mod Elements
mod Tests
use go_utility.Base.{ℕ, String, Bool, List}
use go_utility.Base.Int.{ℤ}

-- The kinds of integers, by their number of bits; `int` and `uint` have 64, and are other types
-- than `int64` and `uint64`.
pub data IntKind : Type 0 where
  int int8 int16 int32 int64 : IntKind

pub data FloatKind : Type 0 where
  float32 float64 : FloatKind

-- The name of a field, its `db` and `json` tags, empty where it has none, and whether it is exported
-- and an embedded struct.
pub record Label : Type 0 where
  pub name : List ℕ
  pub db : List ℕ
  pub json : List ℕ
  pub exported : Bool
  pub embedded : Bool

-- Types. `any` is the empty interface; a struct type has its name, and so has a string type, where the
-- empty one is `string` itself. No other type has a name, and
-- the embedded fields are structs.
mutual
  pub data Ty : Type 0 where
    integer : IntKind → Ty
    unsigned : IntKind → Ty
    float : FloatKind → Ty
    str : String → Ty
    bool time any : Ty
    ptr : Ty → Ty
    slice : Ty → Ty
    array : ℕ → Ty → Ty
    map : Ty → Ty → Ty
    struct : String → Fields → Ty

  pub data Fields : Type 0 where
    end : Fields
    field : Label → Ty → Fields → Fields

-- Values, with what their type needs. A nil slice is an empty one, and so for maps.
mutual
  pub data Value (F T : Type 0) : Type 0 where
    integer : IntKind → ℤ → Value F T
    unsigned : IntKind → ℕ → Value F T
    float : FloatKind → F → Value F T
    str : String → List ℕ → Value F T
    bool : Bool → Value F T
    time : T → Value F T
    nil_any : Value F T
    any : Value F T → Value F T
    nil_ptr : Ty → Value F T
    ptr : Value F T → Value F T
    slice : Ty → Items F T → Value F T
    array : Ty → Items F T → Value F T
    map : Ty → Ty → Entries F T → Value F T
    struct : String → Record F T → Value F T

  pub data Items (F T : Type 0) : Type 0 where
    nil : Items F T
    cons : Value F T → Items F T → Items F T

  pub data Entries (F T : Type 0) : Type 0 where
    none : Entries F T
    entry : Value F T → Value F T → Entries F T → Entries F T

  pub data Record (F T : Type 0) : Type 0 where
    end : Record F T
    field : Label → Value F T → Record F T → Record F T
