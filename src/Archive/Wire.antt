-- ===== src/Archive/Wire.antt =====
-- The easyproto library as client and server of the archive use it. The client's calls on a
-- MessageMarshaler are listed as `Items`; what Marshal makes of them and what NextField and the
-- getters of a FieldContext read are parameters.
use go_gedung_peristiwa.Prelude.{ℕ, ◌+◌, ◌≡◌, Option, some, Bool, true, false}
use go_gedung_peristiwa.Prelude.Int.{ℤ}
use go_gedung_peristiwa.Text.{Text}
use go_gedung_peristiwa.Gtfs.Bounds.{Float64}

-- AppendInt64, AppendInt32, AppendDouble, AppendBool, AppendString and AppendMessage.
mutual
  pub data Item : Type 0 where
    int64 int32 : ℤ → Item
    double : Float64 → Item
    boolean : Bool → Item
    string : Text → Item
    message : Items → Item

  pub data Items : Type 0 where
    end : Items
    append : ℕ → Item → Items → Items

-- A field that NextField has read: its number, and what each getter gives.
pub record Field (Bytes : Type 0) : Type 0 where
  pub number : ℕ
  pub as_int64 : Option ℤ
  pub as_int32 : Option ℤ
  pub as_double : Option Float64
  pub as_bool : Option Bool
  pub as_string : Option Text
  pub as_message : Option Bytes

-- `next_field` is `none` for an error, `is_done` is `len(data) == 0`.
pub record EasyProto (Bytes : Type 0) : Type 0 where
  pub marshal : Items → Bytes
  pub is_done : Bytes → Bool
  pub next_field : Bytes → Option (Field Bytes × Bytes)

module _ {Bytes : Type 0} (wire : EasyProto Bytes) where
  -- The getter of the item's kind gives what was appended.
  abbrev pub Holds : Item → Field Bytes → Type 0
  Holds (int64 n) f = f.as_int64 ≡ some n
  Holds (int32 n) f = f.as_int32 ≡ some n
  Holds (double x) f = f.as_double ≡ some x
  Holds (boolean b) f = f.as_bool ≡ some b
  Holds (string s) f = f.as_string ≡ some s
  Holds (message is) f = f.as_message ≡ some (wire.marshal is)

  -- What was marshalled is read back field by field, in the order of the calls.
  pub record Reads : Type 0 where
    pub done : wire.is_done (wire.marshal end) ≡ true
    pub more :
        (n : ℕ) (i : Item) (rest : Items) → wire.is_done (wire.marshal (append n i rest)) ≡ false
    pub field : ℕ → Item → Items → Field Bytes
    pub next :
        (n : ℕ) (i : Item) (rest : Items)
        → wire.next_field (wire.marshal (append n i rest))
          ≡ some (field n i rest, wire.marshal rest)
    pub number : (n : ℕ) (i : Item) (rest : Items) → (field n i rest).number ≡ n
    pub holds : (n : ℕ) (i : Item) (rest : Items) → Holds i (field n i rest)

-- The calls of a message, those in nested messages included.
unfoldable mutual
  pub size : Items → ℕ
  size end = 0
  size (append n i rest) = 1 + size_item i + size rest

  pub size_item : Item → ℕ
  size_item (message is) = 1 + size is
  size_item _ = 0
