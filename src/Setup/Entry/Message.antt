-- ===== src/Setup/Entry/Message.antt =====
-- Custom messages and permissions (src/setup/message.cpp, src/setup/permission.cpp).
use innoextract_wasm.Base.{ℕ, ◌^◌, List, [], none, length, get_or, leb, if◌then◌else◌}
use innoextract_wasm.Setup.Load.{Reader, give, ◌>>=◌, load_u32, binary_string, Conversion}
use innoextract_wasm.Setup.Entry.{Info, text}

pub record MessageEntry : Type 0 where
  pub name : List ℕ
  pub value : List ℕ
  pub language : ℕ

-- The value in the encoding of its language; of one that does not exist it is cleared. The language
-- is a signed number of 32 bits: from `2 ^ 31` on it is negative.
pub decode_message : Conversion → Info → List ℕ → ℕ → List ℕ
decode_message to_utf8 i value language =
    if leb (2 ^ 31) language
    then to_utf8 i.codepage none value
    else if leb (length i.codepages) language
    then []
    else to_utf8 (get_or i.codepages language 0) none value

unfoldable pub load_message : Conversion → Info → Reader MessageEntry
load_message to_utf8 i = do
  name ← text to_utf8 i
  value ← binary_string
  language ← load_u32
  give
      (record { name = name; value = decode_message to_utf8 i value language; language = language })

-- `permission_entry::load`
unfoldable pub load_permission : Reader (List ℕ)
load_permission = binary_string
