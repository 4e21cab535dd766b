-- ===== src/Setup/Entry/Data/Tests.antt =====
-- Timestamps of data entries at concrete inputs.
use innoextract_wasm.Base.{ℕ, ◌+◌, ◌-◌, ◌*◌, ◌/◌, ◌<◌, ◌≡◌, arith}
use innoextract_wasm.Setup.Entry.Data.{filetime_offset, from_filetime}
use innoextract_wasm.Setup.Entry.Data.Times.{from_filetime-exact}

abbrev a_filetime : ℕ
a_filetime = 132000000001234567

from_filetime-exact_example :
    ((from_filetime a_filetime).timestamp * 10000000
        + (from_filetime a_filetime).timestamp_nsec / 100
      ≡ a_filetime - filetime_offset)
    × ((from_filetime a_filetime).timestamp_nsec < 1000000000)
from_filetime-exact_example = from_filetime-exact a_filetime (omega arith) (omega arith)
