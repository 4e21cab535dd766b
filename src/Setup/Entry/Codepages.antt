-- ===== src/Setup/Entry/Codepages.antt =====
-- Windows languages and their codepages (src/setup/language.cpp, src/util/encoding.hpp).
use innoextract_wasm.Base.{ℕ, List, [], ◌∷◌}

-- `windows_language`
pub record Language : Type 0 where
  pub language_id : ℕ
  pub codepage : ℕ

abbrev pub cp_windows1252 : ℕ
cp_windows1252 = 1252

abbrev pub cp_utf16le : ℕ
cp_utf16le = 1200

abbrev lang : ℕ → ℕ → Language
lang id codepage = record { language_id = id; codepage = codepage }

-- Sorted by the identifiers, which are written in hexadecimal in the source.
unfoldable pub languages : List Language
languages =
    lang 1025 1256
    ∷ lang 1026 1251
    ∷ lang 1028 950
    ∷ lang 1029 1250
    ∷ lang 1032 1253
    ∷ lang 1037 1255
    ∷ lang 1038 1250
    ∷ lang 1041 932
    ∷ lang 1042 949
    ∷ lang 1045 1250
    ∷ lang 1048 1250
    ∷ lang 1049 1251
    ∷ lang 1050 1250
    ∷ lang 1051 1250
    ∷ lang 1052 1250
    ∷ lang 1054 874
    ∷ lang 1055 1254
    ∷ lang 1056 1256
    ∷ lang 1058 1251
    ∷ lang 1059 1251
    ∷ lang 1060 1250
    ∷ lang 1061 1257
    ∷ lang 1062 1257
    ∷ lang 1063 1257
    ∷ lang 1065 1256
    ∷ lang 1066 1258
    ∷ lang 1068 1254
    ∷ lang 1071 1251
    ∷ lang 1087 1251
    ∷ lang 1088 1251
    ∷ lang 1091 1254
    ∷ lang 1092 1251
    ∷ lang 1104 1251
    ∷ lang 1170 28604
    ∷ lang 2049 1256
    ∷ lang 2052 936
    ∷ lang 2074 1250
    ∷ lang 2092 1251
    ∷ lang 2115 1251
    ∷ lang 3073 1256
    ∷ lang 3076 950
    ∷ lang 3098 1251
    ∷ lang 4097 1256
    ∷ lang 4100 936
    ∷ lang 5121 1256
    ∷ lang 5124 950
    ∷ lang 6145 1256
    ∷ lang 7169 1256
    ∷ lang 8193 1256
    ∷ lang 9217 1256
    ∷ lang 10241 1256
    ∷ lang 11265 1256
    ∷ lang 12289 1256
    ∷ lang 13313 1256
    ∷ lang 14337 1256
    ∷ lang 15361 1256
    ∷ lang 16385 1256
    ∷ []
