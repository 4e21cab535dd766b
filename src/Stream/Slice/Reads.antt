-- ===== src/Stream/Slice/Reads.antt =====
-- Reads across slices (src/stream/slice.cpp), against the data of all slices in one.
use innoextract_wasm.Base.{
  not, some, length-take_le, ℕ, zero, suc, ◌+◌, ◌-◌, ◌^◌, ◌≤◌, ◌<◌, min, Bool, true, false, List,
  [], ◌∷◌, ◌++◌, append_assoc, Option, length, take, drop, length-append, length-take, length-drop,
  drop-drop, ltb, ◌==◌, ==_iff, ◌≡◌, refl, sym, ap, ap₂, ◌∙◌, subst, Bool-cases, inl, inr, arith,
}
use innoextract_wasm.Base.Words.{u32}
use innoextract_wasm.Stream.Block.Supply.{concat}
use innoextract_wasm.Stream.Slice.Places.{
  at_place, advanced, IsPlace, slice_data, take_parts, drop_parts, take_split, not_past, ended,
  not_ended, or_true,
}
use innoextract_wasm.Stream.Slice.{
  SliceReader, ok, open_slice, seek, Outcome, stopped, thrown, past_the_array, out_of_fuel,
  preceded, copied, within, next, read_from, read_loop, read, returned,
}

module _ (file : List ℕ → Option (List ℕ)) (names : List (List ℕ))
    (iequals : List ℕ → List ℕ → Bool) where
  -- The next slices open, and have this data behind their headers.
  abbrev pub Following : SliceReader → List (List ℕ) → Type 0
  Following r [] = Unit {0}
  Following r (p ∷ ps) =
      (size : ℕ) × (content : List ℕ) × (open_slice file names iequals (at_place r [] 0)
          (r.current_slice + 1)
        ≡ ok (at_place (advanced r size) content 12))
      × IsPlace size content 12
      × (slice_data size content 12 ≡ p)
      × Following (advanced r size) ps

  at_any_place :
      (r : SliceReader) (content : List ℕ) (pos : ℕ) (slices : List (List ℕ))
      → Following r slices
      → Following (at_place r content pos) slices
  at_any_place r content pos [] f = tt
  at_any_place r content pos (p ∷ ps) (size, content', e, place, d, f) =
      (size, content', e, place, d, at_any_place (advanced r size) content pos ps f)

  -- The bytes that are still to be read, of this slice and of `k` more.
  pub record Holds (r : SliceReader) (k : ℕ) (bytes : List ℕ) : Type 0 where
    pub content : List ℕ
    pub pos : ℕ
    pub slices : List (List ℕ)
    pub opened : r ≡ at_place r content pos
    pub place : IsPlace r.slice_size content pos
    pub count : length slices ≡ k
    pub following : Following r slices
    pub data_left : slice_data r.slice_size content pos ++ concat slices ≡ bytes
    pub external : r.data_offset ≡ 0

  -- The next `n` bytes are read, and the others are still to be read.
  abbrev pub IsRead : ℕ → ℕ → List ℕ → Outcome → Type 0
  IsRead n k bytes (stopped written left r) =
      (written ≡ take n bytes) × (left ≡ 0) × ((k' : ℕ) × (k' ≤ k) × Holds r k' (drop n bytes))
  IsRead n k bytes (thrown e) = ⊥
  IsRead n k bytes past_the_array = ⊥
  IsRead n k bytes out_of_fuel = ⊥

  abbrev ReadsAll : (ℕ → SliceReader → Outcome) → ℕ → Type 0
  ReadsAll later fuel =
      (n k : ℕ) (r : SliceReader) (bytes : List ℕ)
      → Holds r k bytes
      → n ≤ length bytes
      → n + k ≤ fuel
      → IsRead n k bytes (later n r)

  preceded-IsRead :
      (m n k : ℕ) (first bytes more : List ℕ) (o : Outcome)
      → bytes ≡ first ++ more
      → length first ≡ m
      → m ≤ n
      → IsRead (n - m) k more o
      → IsRead n k bytes (preceded first o)
  preceded-IsRead m n k first bytes more (stopped written left r) e h le (p, q, (k', j, s)) = (
    ap (λ l. first ++ l) p ∙ take_parts m n first bytes more e h le,
    q,
    (k', j, subst (Holds r k') (drop_parts m n first bytes more e h le) s),
  )
  preceded-IsRead m n k first bytes more (thrown x) e h le p = absurd p
  preceded-IsRead m n k first bytes more past_the_array e h le p = absurd p
  preceded-IsRead m n k first bytes more out_of_fuel e h le p = absurd p

  module _ (later : ℕ → SliceReader → Outcome) (n k fuel : ℕ) (r : SliceReader) (content : List ℕ)
      (pos : ℕ) (go : ReadsAll later fuel) where
    abbrev after_copy : ℕ → Outcome
    after_copy place = preceded (take (min (r.slice_size - place) n) (drop pos content)) (
        later (n - min (r.slice_size - place) n)
          (at_place r content (pos + min (r.slice_size - place) n)))

    copied_at :
        ltb (length content) (pos + min (r.slice_size - u32 pos) n) ≡ false
        → copied later n (at_place r content pos) (at_place r content pos).stream
          ≡ after_copy (u32 pos)
    unfolding copied
    copied_at fits = rw (copied, fits) refl

    copied_some :
        pos < 2 ^ 32
        → pos + min (r.slice_size - pos) n ≤ length content
        → copied later n (at_place r content pos) (at_place r content pos).stream ≡ after_copy pos
    copied_some small inside =
        let same : u32 pos ≡ pos = omega arith in
        let fits : ltb (length content) (pos + min (r.slice_size - pos) n) ≡ false = ground arith in
        copied_at
          (ap (λ place. ltb (length content) (pos + min (r.slice_size - place) n)) same ∙ fits)
        ∙ ap after_copy same

    copied-IsRead :
        (slices : List (List ℕ)) (all : List ℕ)
        → IsPlace r.slice_size content pos
        → length slices ≡ k
        → Following r slices
        → slice_data r.slice_size content pos ++ concat slices ≡ all
        → r.data_offset ≡ 0
        → n ≤ length all
        → n - min (r.slice_size - pos) n + k ≤ fuel
        → IsRead n k all (copied later n (at_place r content pos) (at_place r content pos).stream)
    copied-IsRead slices all place count following data_left external enough fueled =
        let m = min (r.slice_size - pos) n in
        let size = r.slice_size in
        let first = take m (drop pos content) in
        let more = slice_data size content (pos + m) ++ concat slices in
        let len : length first ≡ m = omega (
          arith,
          length-take m (drop pos content),
          length-drop pos content,
          place.inside,
          place.before,
        ) in
        let split : slice_data size content pos ≡ first ++ slice_data size content (pos + m) =
          sym (take_split m (size - pos) (drop pos content) (omega arith))
          ∙ ap₂ (λ j l. first ++ take j l) {x = size - pos - m} {y = size - (pos + m)} (omega arith)
              (drop-drop pos m content) in
        let whole : all ≡ first ++ more =
          sym data_left
          ∙ ap (λ l. l ++ concat slices) split
          ∙ append_assoc first (slice_data size content (pos + m)) (concat slices) in
        let o = later (n - m) (at_place r content (pos + m)) in
        subst (IsRead n k all)
          (sym (
            copied_some (omega (arith, place.before, place.small))
              (omega (arith, place.inside, place.before))))
          (preceded-IsRead m n k first all more o whole len (omega arith) (
            go (n - m) k (at_place r content (pos + m)) more
              (record {
                content = content;
                pos = pos + m;
                slices = slices;
                opened = refl;
                place = record {
                  before = omega (arith, place.before);
                  inside = place.inside;
                  small = place.small;
                };
                count = count;
                following = at_any_place r content (pos + m) slices following;
                data_left = refl;
                external = external;
              })
              (omega (arith, len, ap length whole, length-append first more, enough)) fueled))

  seek_next :
      (r : SliceReader) (content : List ℕ) (pos : ℕ)
      → r.data_offset ≡ 0
      → seek file names iequals (at_place r content pos) (r.current_slice + 1)
        ≡ open_slice file names iequals (at_place r [] 0) (r.current_slice + 1)
  unfolding seek open_slice
  seek_next r content pos zero_offset =
      let other : (r.current_slice + 1 == r.current_slice) ≡ false = ground arith in
      let first : (r.data_offset == 0) ≡ true = (==_iff r.data_offset 0).1 zero_offset in
      rw (other, first) refl

  IsRead-mono :
      (n k k' : ℕ) (bytes : List ℕ) (o : Outcome)
      → k' ≤ k
      → IsRead n k' bytes o
      → IsRead n k bytes o
  IsRead-mono n k k' bytes (stopped written left r) h (p, q, (j, le, s)) =
      (p, q, (j, omega arith, s))
  IsRead-mono n k k' bytes (thrown e) h p = absurd p
  IsRead-mono n k k' bytes past_the_array h p = absurd p
  IsRead-mono n k k' bytes out_of_fuel h p = absurd p

  within_place :
      (later : ℕ → SliceReader → Outcome) (n : ℕ) (r : SliceReader) (content : List ℕ) (pos : ℕ)
      → ltb r.slice_size (u32 pos) ≡ false
      → within later n (at_place r content pos)
        ≡ copied later n (at_place r content pos) (at_place r content pos).stream
  unfolding within
  within_place later n r content pos h = rw (within, h) refl

  module _ (fuel n : ℕ) (go : ReadsAll (read_loop file names iequals fuel) fuel) where
    abbrev later : ℕ → SliceReader → Outcome
    later = read_loop file names iequals fuel

    round_within :
        (r : SliceReader) (content : List ℕ) (pos : ℕ)
        → (r.slice_size == u32 pos) ≡ false
        → read_loop file names iequals (suc fuel) (suc n) (at_place r content pos)
          ≡ within later (suc n) (at_place r content pos)
    unfolding read_loop
    round_within r content pos h = rw (read_loop, h) refl

    round_next :
        (r : SliceReader) (content : List ℕ) (pos : ℕ)
        → (r.slice_size == u32 pos) ≡ true
        → read_loop file names iequals (suc fuel) (suc n) (at_place r content pos)
          ≡ next later
              (suc n)
              (seek file names iequals (at_place r content pos) (r.current_slice + 1))
    unfolding read_loop
    round_next r content pos h = rw (read_loop, h) refl

    within-IsRead :
        (k : ℕ) (r : SliceReader) (content : List ℕ) (pos : ℕ) (slices : List (List ℕ))
        (all : List ℕ)
        → IsPlace r.slice_size content pos
        → length slices ≡ k
        → Following r slices
        → slice_data r.slice_size content pos ++ concat slices ≡ all
        → r.data_offset ≡ 0
        → suc n ≤ length all
        → suc n - min (r.slice_size - pos) (suc n) + k ≤ fuel
        → IsRead (suc n) k all (within later (suc n) (at_place r content pos))
    within-IsRead k r content pos slices all place count following data_left external enough
          fueled =
        subst (IsRead (suc n) k all)
          (sym (
            within_place later (suc n) r content pos
              (not_past r.slice_size pos place.before place.small)))
          (copied-IsRead later (suc n) k fuel r content pos go slices all place count following
            data_left external enough fueled)

    -- The slice is at its end, and the data is in the next ones.
    next-IsRead :
        (k : ℕ) (r : SliceReader) (slices : List (List ℕ)) (all : List ℕ)
        → length slices ≡ k
        → Following r slices
        → concat slices ≡ all
        → r.data_offset ≡ 0
        → suc n ≤ length all
        → suc n + k ≤ suc fuel
        → IsRead (suc n) k all (
            next later
              (suc n)
              (open_slice file names iequals (at_place r [] 0) (r.current_slice + 1)))
    unfolding next
    next-IsRead k r [] all count following data_left external enough fueled =
        absurd (omega (arith, ap length data_left, enough))
    next-IsRead k r (p ∷ ps) all count (size, content, e, place, d, f) data_left external enough
          fueled =
        subst (λ o. IsRead (suc n) k all (next later (suc n) o)) (sym e)
          (IsRead-mono (suc n) k (length ps) all
            (within later (suc n) (at_place (advanced r size) content 12)) (omega (arith, count))
            (within-IsRead (length ps) (advanced r size) content 12 ps all place refl f
              (ap (λ l. l ++ concat ps) d ∙ data_left) external enough
              (omega (arith, count, fueled))))

    round-IsRead :
        (k : ℕ) (r : SliceReader) (content : List ℕ) (pos : ℕ) (slices : List (List ℕ))
        (all : List ℕ)
        → IsPlace r.slice_size content pos
        → length slices ≡ k
        → Following r slices
        → slice_data r.slice_size content pos ++ concat slices ≡ all
        → r.data_offset ≡ 0
        → suc n ≤ length all
        → suc n + k ≤ suc fuel
        → IsRead
            (suc n)
            k
            all
            (read_loop file names iequals (suc fuel) (suc n) (at_place r content pos))
    round-IsRead k r content pos slices all place count following data_left external enough fueled =
        elim (Bool-cases (r.slice_size == u32 pos)) [
          | inl at_end ↦
              (let same = ended r.slice_size pos place.before place.small at_end in
                subst (IsRead (suc n) k all)
                  (sym (
                    round_next r content pos at_end
                    ∙ ap (next later (suc n)) (seek_next r content pos external)))
                  (next-IsRead k r slices all count following
                    (ap (λ j. take j (drop pos content) ++ concat slices) {x = 0}
                        {y = r.slice_size - pos} (omega (arith, same))
                      ∙ data_left)
                    external enough fueled))
          | inr more ↦
              (let short = not_ended r.slice_size pos place.before place.small more in
                subst (IsRead (suc n) k all) (sym (round_within r content pos more)) (
                  within-IsRead k r content pos slices all place count following data_left external
                    enough (omega (arith, short, fueled))))
        ]

  loop : (fuel : ℕ) → ReadsAll (read_loop file names iequals fuel) fuel
  unfolding read_loop
  loop fuel zero k r bytes h enough fueled = (refl, refl, (k, omega arith, h))
  loop zero (suc n) k r bytes h enough fueled = absurd (omega arith)
  loop (suc fuel) (suc n) k r bytes h enough fueled =
      subst (λ x. IsRead (suc n) k bytes (read_loop file names iequals (suc fuel) (suc n) x))
        (sym h.opened)
        (round-IsRead fuel n (loop fuel) k r h.content h.pos h.slices bytes h.place h.count
          h.following h.data_left h.external enough fueled)

  seek_same :
      (r : SliceReader) (content : List ℕ) (pos : ℕ)
      → seek file names iequals (at_place r content pos) r.current_slice
        ≡ ok (at_place r content pos)
  unfolding seek
  seek_same r content pos =
      let same : (r.current_slice == r.current_slice) ≡ true = ground arith in
      rw (same, or_true r.embedded) refl

  -- The number of bytes that were asked for is returned.
  abbrev pub Returns : ℕ → Outcome → Type 0
  Returns n (stopped written left r) = returned written left ≡ some n
  Returns n (thrown e) = ⊥
  Returns n past_the_array = ⊥
  Returns n out_of_fuel = ⊥

  IsRead-Returns :
      (n k : ℕ) (bytes : List ℕ) (o : Outcome) → n ≤ length bytes → IsRead n k bytes o → Returns n o
  unfolding returned
  IsRead-Returns n k bytes (stopped written left r) h (p, q, s) =
      let len : length written ≡ n = ap length p ∙ length-take_le n bytes h in
      let none_left : (left == 0) ≡ true = (==_iff left 0).1 q in
      rw none_left (rw (or_true (not (length written == 0))) (ap some len))
  IsRead-Returns n k bytes (thrown e) h p = absurd p
  IsRead-Returns n k bytes past_the_array h p = absurd p
  IsRead-Returns n k bytes out_of_fuel h p = absurd p

  read-IsRead :
      (fuel n k : ℕ) (r : SliceReader) (bytes : List ℕ)
      → Holds r k bytes
      → n ≤ length bytes
      → n + k ≤ fuel
      → IsRead n k bytes (read file names iequals fuel n r)
  unfolding read
  read-IsRead fuel n k r bytes h enough fueled =
      subst (λ x. IsRead n k bytes (read_from file names iequals fuel n x))
        (sym (
          ap (λ x. seek file names iequals x r.current_slice) h.opened
          ∙ seek_same r h.content h.pos
          ∙ ap ok (sym h.opened)))
        (loop fuel n k r bytes h enough fueled)

  -- A reader of slices in files of their own, with the bytes of its slice and of the k slices behind it
  -- still to be read: reading `n` of them, where there are as many, writes the next `n` and returns their number, across the ends
  -- of slices and over empty ones, and leaves a reader with the others still to be read. The loop takes
  -- at most n + k rounds.
  pub read-Holds :
      (fuel n k : ℕ) (r : SliceReader) (bytes : List ℕ)
      → Holds r k bytes
      → n ≤ length bytes
      → n + k ≤ fuel
      → IsRead n k bytes (read file names iequals fuel n r)
        × Returns n (read file names iequals fuel n r)
  read-Holds fuel n k r bytes h enough fueled =
      let o = read file names iequals fuel n r in
      let done = read-IsRead fuel n k r bytes h enough fueled in
      (done, IsRead-Returns n k bytes o enough done)
