-- ===== src/Stream/Block/Supply.antt =====
-- What the filter delivers of the chunks that `read_chunk` finds (src/stream/block.cpp).
use innoextract_wasm.Base.{
  ℕ, zero, suc, ◌+◌, ◌-◌, ◌≤◌, ◌<◌, min, true, false, List, [], ◌∷◌, ◌++◌, append_assoc, Option,
  some, length, take, drop, length-append, length-take, length-drop, take-append-drop, drop-drop,
  nil, leb, ◌==◌, if◌then◌else◌, ◌≡◌, refl, sym, ap, ap₂, ◌∙◌, Bool-cases, inl, inr, arith,
}
use innoextract_wasm.Stream.Block.{
  BlockFilter, BlockError, no_chunk, chunk_error, chunk, Reading, returned, thrown, out_of_fuel,
  count_or_eof, preceded, read_chunk, copy, refilled, read_loop, read,
}

-- How the chunks of a source end.
pub data Ending : Type 0 where
  at_end : Ending
  failing : BlockError → Ending

-- A read without the state that it leaves behind.
pub data Outcome : Type 0 where
  bytes : Option ℕ → List ℕ → Outcome
  failed : BlockError → Outcome
  unfinished : Outcome

abbrev pub outcome : {S : Type 0} → Reading S → Outcome
outcome (returned count data_bytes f src) = bytes count data_bytes
outcome (thrown e) = failed e
outcome out_of_fuel = unfinished

abbrev pub concat : List (List ℕ) → List ℕ
concat [] = []
concat (c ∷ cs) = c ++ concat cs

-- Of the `n` bytes that are asked for, behind `nread` others, where these are all there are.
abbrev pub ended : ℕ → List ℕ → Ending → Outcome
ended nread available at_end = bytes (count_or_eof (nread + length available)) available
ended nread available (failing e) = failed e

abbrev pub expected : ℕ → ℕ → List ℕ → Ending → Outcome
expected nread n available e =
    if leb n (length available)
    then bytes (some (nread + n)) (take n available)
    else ended nread available e

abbrev after : List ℕ → Outcome → Outcome
after before (bytes count data_bytes) = bytes count (before ++ data_bytes)
after before (failed e) = failed e
after before unfinished = unfinished

outcome-preceded :
    {S : Type 0} (before : List ℕ) (r : Reading S)
    → outcome (preceded before r) ≡ after before (outcome r)
outcome-preceded before (returned count data_bytes f src) = refl
outcome-preceded before (thrown e) = refl
outcome-preceded before out_of_fuel = refl

take-piece :
    (piece rest : List ℕ) (n : ℕ)
    → length piece ≤ n
    → take n (piece ++ rest) ≡ piece ++ take (n - length piece) rest
take-piece [] rest n h = ap (λ k. take k rest) {x = n} {y = n - 0} (omega arith)
take-piece (x ∷ piece) rest zero h = absurd (omega arith)
take-piece (x ∷ piece) rest (suc n) h =
    ap (λ l. x ∷ l)
      (take-piece piece rest n (omega arith)
        ∙ ap (λ k. piece ++ take k rest) {x = n - length piece} {y = suc n - suc (length piece)}
            (omega arith))

ended-piece :
    (nread : ℕ) (piece rest : List ℕ) (e : Ending)
    → length (piece ++ rest) ≡ length piece + length rest
    → after piece (ended (nread + length piece) rest e) ≡ ended nread (piece ++ rest) e
ended-piece nread piece rest at_end p =
    ap (λ k. bytes (count_or_eof k) (piece ++ rest)) (omega arith)
ended-piece nread piece rest (failing err) p = refl

-- A piece that was copied, and what is expected behind it.
expected-piece :
    (nread n : ℕ) (piece rest : List ℕ) (e : Ending)
    → length piece ≤ n
    → after piece (expected (nread + length piece) (n - length piece) rest e)
      ≡ expected nread n (piece ++ rest) e
expected-piece nread n piece rest e h =
    let whole = length-append piece rest in
    elim (Bool-cases (leb n (length (piece ++ rest)))) [
      | inl enough ↦
          (let less : leb (n - length piece) (length rest) ≡ true = ground arith in
            rw (enough, less) (ap₂ bytes (ap some (omega arith)) (sym (take-piece piece rest n h))))
      | inr short ↦
          (let less : leb (n - length piece) (length rest) ≡ false = ground arith in
            rw (short, less) (ended-piece nread piece rest e whole))
    ]

module _ {S : Type 0} (fetch : ℕ → S → Option (List ℕ) × S) (address : ℕ) where
  -- The source has these chunks, none of them empty, and ends like this.
  unfoldable pub Supplies : S → List (List ℕ) → Ending → Type 0
  Supplies src [] at_end = (left : S) × (read_chunk fetch address src ≡ no_chunk left)
  Supplies src [] (failing e) = read_chunk fetch address src ≡ chunk_error e
  Supplies src (c ∷ cs) e =
      (next : S) × (0 < length c)
      × (read_chunk fetch address src ≡ chunk c next)
      × Supplies next cs e

  -- From this filter and this source on, the loop delivers what is expected, with this fuel.
  Delivers : ℕ → List (List ℕ) → Ending → S → Type 0
  Delivers fuel cs e src =
      (nread n : ℕ) (f : BlockFilter)
      → n ≤ fuel
      → f.pos ≤ length f.buffer
      → outcome (read_loop fetch address fuel nread n f src)
        ≡ expected nread n (drop f.pos f.buffer ++ concat cs) e

  copy-Delivers :
      (fuel nread n : ℕ) (f : BlockFilter) (cs : List (List ℕ)) (e : Ending) (src : S)
      → n ≤ fuel
      → f.pos < length f.buffer
      → Delivers fuel cs e src
      → outcome (copy fetch address (read_loop fetch address fuel) nread (suc n) f src)
        ≡ expected nread (suc n) (drop f.pos f.buffer ++ concat cs) e
  unfolding Delivers
  copy-Delivers fuel nread n f cs e src h p later =
      let size = min (suc n) (length f.buffer - f.pos) in
      let rest = drop f.pos f.buffer in
      let piece = take size rest in
      let len : size ≡ length piece =
        omega (arith, length-take size rest, length-drop f.pos f.buffer) in
      outcome-preceded piece (
        read_loop fetch address fuel (nread + size) (suc n - size) (record f { pos = f.pos + size })
          src)
      ∙ ap (after piece) (
          later (nread + size) (suc n - size) (record f { pos = f.pos + size }) (omega arith)
            (omega arith))
      ∙ ap₂ (λ k l. after piece (expected (nread + k) (suc n - k) (l ++ concat cs) e)) len
          (sym (drop-drop f.pos size f.buffer))
      ∙ expected-piece nread (suc n) piece (drop size rest ++ concat cs) e (omega (arith, len))
      ∙ ap (λ l. expected nread (suc n) l e)
          (sym (append_assoc piece (drop size rest) (concat cs))
            ∙ ap (λ l. l ++ concat cs) (take-append-drop size rest))

  -- Where the buffer is used up, nothing of it is left.
  used_up : (f : BlockFilter) → f.pos ≡ length f.buffer → drop f.pos f.buffer ≡ []
  used_up f p = nil (drop f.pos f.buffer) (omega (arith, length-drop f.pos f.buffer))

  loop_none :
      (fuel nread : ℕ) (f : BlockFilter) (src : S)
      → read_loop fetch address fuel nread 0 f src ≡ returned (some nread) [] f src
  unfolding read_loop
  loop_none zero nread f src = refl
  loop_none (suc fuel) nread f src = refl

  loop_used :
      (fuel nread n : ℕ) (f : BlockFilter) (src : S)
      → (f.pos == length f.buffer) ≡ true
      → read_loop fetch address (suc fuel) nread (suc n) f src
        ≡ refilled fetch address
            (read_loop fetch address fuel)
            nread
            (suc n)
            f
            (read_chunk fetch address src)
  unfolding read_loop
  loop_used fuel nread n f src h = rw h refl

  loop_more :
      (fuel nread n : ℕ) (f : BlockFilter) (src : S)
      → (f.pos == length f.buffer) ≡ false
      → read_loop fetch address (suc fuel) nread (suc n) f src
        ≡ copy fetch address (read_loop fetch address fuel) nread (suc n) f src
  unfolding read_loop
  loop_more fuel nread n f src h = rw h refl

  expected_none :
      (nread : ℕ) (available : List ℕ) (e : Ending)
      → bytes (some nread) [] ≡ expected nread 0 available e
  expected_none nread available e =
      let enough : leb 0 (length available) ≡ true = ground arith in
      rw enough (ap (λ k. bytes (some k) []) (omega arith))

  ended-expected : (nread n : ℕ) (e : Ending) → ended nread [] e ≡ expected nread (suc n) [] e
  ended-expected nread n e = let short : leb (suc n) 0 ≡ false = ground arith in rw short refl

  refilled-Delivers :
      (fuel nread n : ℕ) (f : BlockFilter) (cs : List (List ℕ)) (e : Ending) (src : S)
      → n ≤ fuel
      → Supplies src cs e
      → ((cs' : List (List ℕ)) (src' : S) → Supplies src' cs' e → Delivers fuel cs' e src')
      → outcome (
          refilled fetch address
            (read_loop fetch address fuel)
            nread
            (suc n)
            f
            (read_chunk fetch address src))
        ≡ expected nread (suc n) (concat cs) e
  unfolding Supplies
  refilled-Delivers fuel nread n f [] at_end src h (left, q) later =
      ap (λ c. outcome (refilled fetch address (read_loop fetch address fuel) nread (suc n) f c)) q
      ∙ ap (λ k. bytes (count_or_eof k) []) {x = nread} {y = nread + 0} (omega arith)
      ∙ ended-expected nread n at_end
  refilled-Delivers fuel nread n f [] (failing err) src h q later =
      ap (λ c. outcome (refilled fetch address (read_loop fetch address fuel) nread (suc n) f c)) q
      ∙ ended-expected nread n (failing err)
  refilled-Delivers fuel nread n f (c ∷ cs) e src h (next, p, q, supply) later =
      ap (λ k. outcome (refilled fetch address (read_loop fetch address fuel) nread (suc n) f k)) q
      ∙ copy-Delivers fuel nread n (record { pos = 0; buffer = c }) cs e next h p
          (later cs next supply)

  read_loop-Delivers :
      (fuel : ℕ) (cs : List (List ℕ)) (e : Ending) (src : S)
      → Supplies src cs e
      → Delivers fuel cs e src
  unfolding Delivers
  read_loop-Delivers fuel cs e src h nread zero f g p =
      ap outcome (loop_none fuel nread f src)
      ∙ expected_none nread (drop f.pos f.buffer ++ concat cs) e
  read_loop-Delivers zero cs e src h nread (suc n) f g p = absurd (omega arith)
  read_loop-Delivers (suc fuel) cs e src h nread (suc n) f g p =
      elim (Bool-cases (f.pos == length f.buffer)) [
        | inl used ↦
            (ap outcome (loop_used fuel nread n f src used)
              ∙ refilled-Delivers fuel nread n f cs e src (omega arith) h
                  (λ cs' src' h'. read_loop-Delivers fuel cs' e src' h')
              ∙ ap (λ l. expected nread (suc n) (l ++ concat cs) e)
                  (sym (used_up f (ground arith))))
        | inr more ↦
            (ap outcome (loop_more fuel nread n f src more)
              ∙ copy-Delivers fuel nread n f cs e src (omega arith) (ground arith)
                  (read_loop-Delivers fuel cs e src h))
      ]

  -- Of a source with these chunks, behind what is left in the buffer, `read` returns the next `n` bytes
  -- where there are as many. Where there are not, and the source ends, it returns all that there are, or
  -- `EOF` for none; and where a bad chunk stands behind them, it throws its error. No chunk is empty, and
  -- the position lies in the buffer.
  pub read-Supplies :
      (n : ℕ) (f : BlockFilter) (src : S) (cs : List (List ℕ)) (e : Ending)
      → f.pos ≤ length f.buffer
      → Supplies src cs e
      → outcome (read fetch address n f src) ≡ expected 0 n (drop f.pos f.buffer ++ concat cs) e
  unfolding read Delivers
  read-Supplies n f src cs e p h = read_loop-Delivers n cs e src h 0 n f (omega arith) p
