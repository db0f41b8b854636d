-- ===== src/Dashboard/Camera/Chunks.antt =====
-- The frames do not depend on how the bytes were cut into chunks.
use mathlib.Core.List.{append-nil, append_assoc}
use progress_claw_machine.Shared.{
  ℕ, zero, suc, ◌+◌, ◌-◌, ◌≤◌, ◌<◌, ◌≡◌, refl, ap, sym, ◌∙◌, inl, inr, Option-cases, none, some,
  List, [], ◌∷◌, ◌++◌, length, take, length-append, arith,
}
use progress_claw_machine.Dashboard.Camera.{
  drop, find, cut, extract, max_buffer, trim, feed, feed_all,
}

length-drop : (k : ℕ) (s : List ℕ) → length (drop k s) ≡ length s - k
length-drop zero s = omega arith
length-drop (suc k) [] = omega arith
length-drop (suc k) (c ∷ s) = omega (arith, length-drop k s)

drop-append : (k : ℕ) (s t : List ℕ) → k ≤ length s → drop k (s ++ t) ≡ drop k s ++ t
drop-append zero s t h = refl
drop-append (suc k) [] t h = absurd (omega arith)
drop-append (suc k) (c ∷ s) t h = drop-append k s t (omega arith)

take-append : (k : ℕ) (s t : List ℕ) → k ≤ length s → take k (s ++ t) ≡ take k s
take-append zero s t h = refl
take-append (suc k) [] t h = absurd (omega arith)
take-append (suc k) (c ∷ s) t h = ap (λ r. c ∷ r) (take-append k s t (omega arith))

find_bound : (x y : ℕ) (s : List ℕ) (i : ℕ) → find x y s ≡ some i → i + 2 ≤ length s
unfolding find
find_bound x y [] i e = cc
find_bound x y (c ∷ []) i e = cc
find_bound x y (c ∷ d ∷ s) i e = elim (Option-cases (find x y (d ∷ s))) [
  | inl off ↦ ground arith
  | inr (j, on) ↦ ground (arith, find_bound x y (d ∷ s) j on)
]

find-append : (x y : ℕ) (s t : List ℕ) (i : ℕ) → find x y s ≡ some i → find x y (s ++ t) ≡ some i
unfolding find
find-append x y [] t i e = cc
find-append x y (c ∷ []) t i e = cc
find-append x y (c ∷ d ∷ s) t i e = elim (Option-cases (find x y (d ∷ s))) [
  | inl off ↦ ground arith
  | inr (j, on) ↦ ground (arith, find-append x y (d ∷ s) t j on)
]

-- Where a cut is made: the two markers, inside the bytes.
record IsCut (s f r : List ℕ) : Type 0 where
  start : ℕ
  gap : ℕ
  starts : find 255 216 s ≡ some start
  ends : find 255 217 (drop (start + 2) s) ≡ some gap
  frame : f ≡ drop start (take (start + 2 + gap + 2) s)
  rest : r ≡ drop (start + 2 + gap + 2) s

cut-IsCut : (s f r : List ℕ) → cut s ≡ some (f, r) → IsCut s f r
unfolding cut
cut-IsCut s f r e = elim (Option-cases (find 255 216 s)) [
  | inl off ↦ absurd (ground arith)
  | inr (i, on) ↦ elim (Option-cases (find 255 217 (drop (i + 2) s))) [
    | inl off ↦ absurd (ground arith)
    | inr (j, on') ↦ record {
      start = i;
      gap = j;
      starts = on;
      ends = on';
      frame = ground arith;
      rest = ground arith;
    }
  ]
]

IsCut-cut : (s f r : List ℕ) → IsCut s f r → cut s ≡ some (f, r)
unfolding cut
IsCut-cut s f r k = ground arith

IsCut-bound : (s f r : List ℕ) (k : IsCut s f r) → k.start + 2 + k.gap + 2 ≤ length s
IsCut-bound s f r k =
    omega
      (arith, find_bound 255 217 (drop (k.start + 2) s) k.gap k.ends, length-drop (k.start + 2) s)

length-cut : (s f r : List ℕ) → cut s ≡ some (f, r) → length r < length s
length-cut s f r e =
    let k = cut-IsCut s f r e in
    omega (arith, IsCut-bound s f r k, length-drop (k.start + 2 + k.gap + 2) s, ap length k.rest)

cut-append : (s t f r : List ℕ) → cut s ≡ some (f, r) → cut (s ++ t) ≡ some (f, r ++ t)
cut-append s t f r e =
    let k = cut-IsCut s f r e in
    let b = IsCut-bound s f r k in
    let n = k.start + 2 + k.gap + 2 in
    IsCut-cut (s ++ t) f (r ++ t) (record {
      start = k.start;
      gap = k.gap;
      starts = find-append 255 216 s t k.start k.starts;
      ends =
          rw (drop-append (k.start + 2) s t (omega arith))
            (find-append 255 217 (drop (k.start + 2) s) t k.gap k.ends);
      frame = k.frame ∙ ap (drop k.start) (sym (take-append n s t b));
      rest = ap (λ q. q ++ t) k.rest ∙ sym (drop-append n s t b);
    })

extract_stop : (n : ℕ) (s : List ℕ) → cut s ≡ none → extract (suc n) s ≡ ([], s)
unfolding extract
extract_stop n s e = rw (e, extract) refl

extract_more :
    (n : ℕ) (s f r : List ℕ)
    → cut s ≡ some (f, r)
    → extract (suc n) s ≡ (f ∷ (extract n r).0, (extract n r).1)
unfolding extract
extract_more n s f r e = rw (e, extract) refl

-- More fuel than bytes changes nothing.
extract_fuel : (n m : ℕ) (s : List ℕ) → length s < n → length s < m → extract n s ≡ extract m s
extract_fuel zero m s h k = absurd (omega arith)
extract_fuel (suc n) zero s h k = absurd (omega arith)
extract_fuel (suc n) (suc m) s h k = elim (Option-cases (cut s)) [
  | inl done ↦ extract_stop n s done ∙ sym (extract_stop m s done)
  | inr ((f, r), more) ↦
      let shorter = length-cut s f r more in
      extract_more n s f r more
      ∙ ap (λ (e : List (List ℕ) × List ℕ). (f ∷ e.0, e.1))
          (extract_fuel n m r (omega arith) (omega arith))
      ∙ sym (extract_more m s f r more)
]

-- With more fuel than bytes the loop ends because nothing is left to cut, and the buffer is no longer
-- than it was.
pub extract_ends :
    (n : ℕ) (s : List ℕ)
    → length s < n
    → (cut (extract n s).1 ≡ none) × (length (extract n s).1 ≤ length s)
extract_ends zero s h = absurd (omega arith)
extract_ends (suc n) s h = elim (Option-cases (cut s)) [
  | inl done ↦ rw (extract_stop n s done) (done, omega arith)
  | inr ((f, r), more) ↦
      let shorter = length-cut s f r more in
      let (ends, le) = extract_ends n r (omega arith) in
      rw (extract_more n s f r more) (ends, omega arith)
]

-- The frames of the first bytes come first, and what they leave goes before the later bytes.
extract-append :
    (n m : ℕ) (s t : List ℕ)
    → length s < n
    → length (s ++ t) < m
    → let (fs, r) = extract n s in
      extract m (s ++ t) ≡ (let (gs, q) = extract m (r ++ t) in (fs ++ gs, q))
extract-append zero m s t h k = absurd (omega arith)
extract-append (suc n) zero s t h k = absurd (omega arith)
extract-append (suc n) (suc m) s t h k = elim (Option-cases (cut s)) [
  | inl done ↦ rw (extract_stop n s done) refl
  | inr ((f, r), more) ↦
      let shorter = length-cut s f r more in
      let whole = length-append s t in
      let rest = length-append r t in
      let left = length-append (extract n r).1 t in
      let (ends, le) = extract_ends n r (omega arith) in
      rw (extract_more n s f r more) (
        extract_more m (s ++ t) f (r ++ t) (cut-append s t f r more)
        ∙ ap (λ (e : List (List ℕ) × List ℕ). (f ∷ e.0, e.1))
            (extract-append n m r t (omega arith) (omega arith))
        ∙ ap (λ (e : List (List ℕ) × List ℕ). (f ∷ ((extract n r).0 ++ e.0), e.1))
            (extract_fuel m (suc m) ((extract n r).1 ++ t) (omega arith) (omega arith)))
]

-- The bytes of all the chunks.
unfoldable pub bytes_of : List (List ℕ) → List ℕ
bytes_of [] = []
bytes_of (chunk ∷ chunks) = chunk ++ bytes_of chunks

cut-nil : cut [] ≡ none
unfolding cut find
cut-nil = refl

trim_short : (s : List ℕ) → length s ≤ max_buffer → trim s ≡ s
unfolding trim
trim_short s h = ground arith

feed_all_from :
    (n : ℕ) (chunks : List (List ℕ)) (buffer : List ℕ)
    → cut buffer ≡ none
    → length (buffer ++ bytes_of chunks) ≤ max_buffer
    → length (buffer ++ bytes_of chunks) < n
    → feed_all chunks buffer ≡ extract n (buffer ++ bytes_of chunks)
unfolding feed_all feed bytes_of
feed_all_from zero chunks buffer e h k = absurd (omega arith)
feed_all_from (suc n) [] buffer e h k = rw (append-nil buffer) (sym (extract_stop n buffer e))
feed_all_from (suc n) (chunk ∷ chunks) buffer e h k =
    let s = buffer ++ chunk in
    let t = bytes_of chunks in
    let same : buffer ++ (chunk ++ t) ≡ s ++ t = sym (append_assoc buffer chunk t) in
    let r = (extract (suc (length s)) s).1 in
    let (ends, le) = extract_ends (suc (length s)) s (omega arith) in
    let sizes = ap length same in
    let whole = length-append s t in
    let rest = length-append r t in
    let kept = trim_short r (omega arith) in
    rw kept (
      ap (λ (e : List (List ℕ) × List ℕ). ((extract (suc (length s)) s).0 ++ e.0, e.1))
        (feed_all_from (suc n) chunks r ends (omega arith) (omega arith))
      ∙ sym (extract-append (suc (length s)) (suc n) s t (omega arith) (omega arith))
      ∙ ap (extract (suc n)) (sym same))

-- While no more than 4 MiB have come, the frames that are published and the buffer that is left depend
-- only on the bytes, not on how they were cut into chunks: they are those of one pass over all the
-- bytes, after which no whole frame is left.
pub feed_all-extract :
    (chunks : List (List ℕ))
    → length (bytes_of chunks) ≤ max_buffer
    → (feed_all chunks [] ≡ extract (suc (length (bytes_of chunks))) (bytes_of chunks))
      × (cut (feed_all chunks []).1 ≡ none)
feed_all-extract chunks h =
    let s = bytes_of chunks in
    let same = feed_all_from (suc (length s)) chunks [] cut-nil h (omega arith) in
    (
      same,
      ap (λ (e : List (List ℕ) × List ℕ). cut e.1) same
          ∙ (extract_ends (suc (length s)) s (omega arith)).0,
    )

-- Whatever comes, the buffer that is kept after a chunk is at most 4 MiB long.
pub feed_bound : (chunk buffer : List ℕ) → length (feed chunk buffer).1 ≤ max_buffer
unfolding feed trim
feed_bound chunk buffer =
    let r = (extract (suc (length (buffer ++ chunk))) (buffer ++ chunk)).1 in
    ground (arith, length-drop (length r - 2) r)
