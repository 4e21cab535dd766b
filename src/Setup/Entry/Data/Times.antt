-- ===== src/Setup/Entry/Data/Times.antt =====
-- Timestamps of data entries (src/setup/data.cpp).
use innoextract_wasm.Base.{ℕ, ◌+◌, ◌-◌, ◌*◌, ◌/◌, ◌%◌, ◌^◌, ◌≤◌, ◌<◌, ltb, true, ◌≡◌, refl, arith}
use innoextract_wasm.Setup.Entry.Data.{filetime_offset, from_filetime}

exact :
    (t : ℕ)
    → t < 2 ^ 63
    → (t / 10000000 * 10000000 + t % 10000000 * 100 % 2 ^ 32 / 100 ≡ t)
      × (t % 10000000 * 100 % 2 ^ 32 < 1000000000)
exact t h = (omega arith, omega arith)

since_epoch :
    (f : ℕ)
    → filetime_offset ≤ f
    → f < filetime_offset + 2 ^ 63
    → (f + 2 ^ 64 - filetime_offset) % 2 ^ 64 ≡ f - filetime_offset
since_epoch f h k = omega arith

early : (t : ℕ) → t < 2 ^ 63 → ltb t (2 ^ 63) ≡ true
early t h = ground arith

from_filetime_unfolded :
    (f : ℕ)
    → filetime_offset ≤ f
    → f < filetime_offset + 2 ^ 63
    → from_filetime f ≡ record {
      timestamp = (f - filetime_offset) / 10000000;
      timestamp_nsec = (f - filetime_offset) % 10000000 * 100 % 2 ^ 32;
    }
unfolding from_filetime
from_filetime_unfolded f h k =
    rw (since_epoch f h k, early (f - filetime_offset) (omega arith)) refl

-- A time from 1970 on keeps all its digits: its seconds and nanoseconds add up to the units of 100 ns
-- since 1970, and the nanoseconds are less than a second.
pub from_filetime-exact :
    (f : ℕ)
    → filetime_offset ≤ f
    → f < filetime_offset + 2 ^ 63
    → ((from_filetime f).timestamp * 10000000 + (from_filetime f).timestamp_nsec / 100
        ≡ f - filetime_offset)
      × ((from_filetime f).timestamp_nsec < 1000000000)
from_filetime-exact f h k =
    rw (from_filetime_unfolded f h k) (exact (f - filetime_offset) (omega arith))
