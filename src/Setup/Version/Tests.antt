-- ===== src/Setup/Version/Tests.antt =====
-- The theorem on versions at a concrete one.
use innoextract_wasm.Base.{true}
use innoextract_wasm.Setup.Version.{Version, unicode_only, inno_version, next}
use innoextract_wasm.Setup.Version.Next.{IsNext, next-IsNext}

abbrev unicode_5_5_0 : Version
unicode_5_5_0 = record { value = inno_version 5 5 0; variant = unicode_only; known = true }

next-IsNext_example : IsNext unicode_5_5_0.variant unicode_5_5_0.value (next unicode_5_5_0)
next-IsNext_example = next-IsNext unicode_5_5_0
