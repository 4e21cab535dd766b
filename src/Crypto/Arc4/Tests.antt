-- ===== src/Crypto/Arc4/Tests.antt =====
-- The theorems on the ARC4 cipher at concrete inputs.
use innoextract_wasm.Base.{ℕ, List, [], ◌∷◌, drop, some, length, ◌+◌, ◌≡◌, arith}
use innoextract_wasm.Crypto.Arc4.{Arc4, init, crypt, discard, identity}
use innoextract_wasm.Crypto.Arc4.Schedule.{IsArc4, init-IsArc4, discard-IsArc4, identity-IsArc4}
use innoextract_wasm.Crypto.Arc4.Crypt.{crypt-crypt}
use innoextract_wasm.Crypto.Arc4.Textbook.{key_table, key_stream, combined, crypt-key_stream}

abbrev arc4_key : List ℕ
arc4_key = b'K' ∷ b'e' ∷ b'y' ∷ []

abbrev fresh : Arc4
fresh = record { state = identity 256 0; a = 0; b = 0 }

init-IsArc4_example : (r : Arc4) × (init arc4_key ≡ some r) × IsArc4 r
init-IsArc4_example = init-IsArc4 arc4_key (omega arith)

discard-IsArc4_example : IsArc4 (discard fresh 1000)
discard-IsArc4_example = discard-IsArc4 1000 fresh identity-IsArc4

crypt-crypt_example :
    ((crypt fresh (crypt fresh arc4_key).0).0 ≡ arc4_key)
    × ((crypt fresh arc4_key).1 ≡ discard fresh (length arc4_key))
    × ((crypt fresh (crypt fresh arc4_key).0).1 ≡ discard fresh (length arc4_key))
crypt-crypt_example = crypt-crypt fresh arc4_key

crypt-key_stream_example :
    (r : Arc4) × (init arc4_key ≡ some r)
    × ((crypt (discard r 2) (9 ∷ 8 ∷ [])).0
        ≡ combined
            (drop 2 (key_stream (key_table arc4_key 256 0 0 (λ i. i)) 0 0 (2 + 2)))
            (9 ∷ 8 ∷ []))
crypt-key_stream_example = crypt-key_stream arc4_key 2 (9 ∷ 8 ∷ []) (omega arith)
