-- ===== src/Client/Blobs.antt =====
-- The rows that SaveGameData keeps in a table of saved games (src/client/client.cpp).
use free_kill.Base.{
  ltb, nat_beq_iff, Bool-cases, ◌==◌, int_eq, nat_eq, string_eq, ℕ, suc, ◌+◌, ◌≤◌, ◌<◌, ◌≡◌, refl,
  ◌∙◌, inl, inr, Bool, true, none, some, [], ◌∷◌, ◌++◌, arith,
}
use free_kill.ClientSocket.{Bytes}
use free_kill.Client.Records.{Blobs, find_blob, newer, keep_rows, delete_old, insert_blob}

abbrev pub IdsBelow : ℕ → Blobs → Type 0
IdsBelow n [] = Unit {0}
IdsBelow n ((j, b) ∷ t) = (j < n) × IdsBelow n t

IdsBelow-append :
    (n : ℕ) (t : Blobs) (b : Bytes) → IdsBelow n t → IdsBelow (suc n) (t ++ (n, b) ∷ [])
IdsBelow-append n [] b h = (omega arith, tt)
IdsBelow-append n ((j, c) ∷ t) b h = (omega (arith, h.0), IdsBelow-append n t b h.1)

IdsBelow-keep_rows : (n : ℕ) (f : ℕ → Bool) (t : Blobs) → IdsBelow n t → IdsBelow n (keep_rows f t)
unfolding keep_rows
IdsBelow-keep_rows n f [] h = tt
IdsBelow-keep_rows n f ((j, b) ∷ t) h = elim (Bool-cases (f j)) [
  | inl e ↦ rw e (h.0, IdsBelow-keep_rows n f t h.1)
  | inr e ↦ rw e (IdsBelow-keep_rows n f t h.1)
]

find_blob_new : (n : ℕ) (t : Blobs) → IdsBelow n t → find_blob t n ≡ none
unfolding find_blob
find_blob_new n [] h = refl
find_blob_new n ((j, b) ∷ t) h = ground (arith, h.0, find_blob_new n t h.1)

find_blob-append :
    (t : Blobs) (n : ℕ) (b : Bytes) → find_blob t n ≡ none → find_blob (t ++ (n, b) ∷ []) n ≡ some b
unfolding find_blob
find_blob-append [] n b h = ground arith
find_blob-append ((j, c) ∷ t) n b h = ground (arith, find_blob-append t n b)

find_blob-append_left :
    (t s : Blobs) (i : ℕ) (b : Bytes) → find_blob t i ≡ some b → find_blob (t ++ s) i ≡ some b
unfolding find_blob
find_blob-append_left [] s i b h = cc
find_blob-append_left ((j, c) ∷ t) s i b h = ground (arith, find_blob-append_left t s i b)

find_blob-keep_rows :
    (f : ℕ → Bool) (t : Blobs) (i : ℕ) → f i ≡ true → find_blob (keep_rows f t) i ≡ find_blob t i
unfolding find_blob keep_rows
find_blob-keep_rows f [] i h = refl
find_blob-keep_rows f ((j, b) ∷ t) i h = elim (Bool-cases (j == i)) [
  | inl e ↦ let same : j ≡ i = (nat_beq_iff j i).0 e in rw (same, h) (ground arith)
  | inr e ↦ elim (Bool-cases (f j)) [
    | inl k ↦ rw k (rw e (find_blob-keep_rows f t i h))
    | inr k ↦ rw k (rw e (find_blob-keep_rows f t i h))
  ]
]

newer-append : (t s : Blobs) (i : ℕ) → newer (t ++ s) i ≡ newer t i + newer s i
unfolding newer
newer-append [] s i = omega arith
newer-append ((j, b) ∷ t) s i = omega (arith, newer-append t s i)

newer-keep_rows-le : (f : ℕ → Bool) (t : Blobs) (i : ℕ) → newer (keep_rows f t) i ≤ newer t i
unfolding newer keep_rows
newer-keep_rows-le f [] i = omega arith
newer-keep_rows-le f ((j, b) ∷ t) i = ground (arith, newer-keep_rows-le f t i)

newer-IdsBelow : (n : ℕ) (t : Blobs) → IdsBelow n t → newer t n ≡ 0
unfolding newer
newer-IdsBelow n [] h = refl
newer-IdsBelow n ((j, b) ∷ t) h = ground (arith, h.0, newer-IdsBelow n t h.1)

newer-one : (n i : ℕ) (c : Bytes) → newer ((n, c) ∷ []) i ≤ 1
unfolding newer
newer-one n i c = ground arith

newer_self : (n : ℕ) (c : Bytes) → newer ((n, c) ∷ []) n ≡ 0
unfolding newer
newer_self n c = ground arith

-- A blob stands under `i`, at most `k` rows are newer, and `n` and all above are free.
pub record Holds (t : Blobs) (n i : ℕ) (b : Bytes) (k : ℕ) : Type 0 where
  pub found : find_blob t i ≡ some b
  few_newer : newer t i ≤ k
  free : IdsBelow n t

delete_old-Holds :
    (limit : ℕ) (t : Blobs) (n i : ℕ) (b : Bytes) (k : ℕ)
    → k < limit
    → Holds t n i b k
    → Holds (delete_old limit t) n i b k
unfolding delete_old
delete_old-Holds limit t n i b k lt h =
    let stays : ltb (newer t i) limit ≡ true = ground (arith, h.few_newer) in
    record {
      found = find_blob-keep_rows (λ j. ltb (newer t j) limit) t i stays ∙ h.found;
      few_newer = omega (arith, newer-keep_rows-le (λ j. ltb (newer t j) limit) t i, h.few_newer);
      free = IdsBelow-keep_rows n (λ j. ltb (newer t j) limit) t h.free;
    }

pub insert_blob-Holds :
    (limit : ℕ) (t : Blobs) (n i : ℕ) (b c : Bytes) (k : ℕ)
    → suc k < limit
    → Holds t n i b k
    → Holds (insert_blob limit t n c) (suc n) i b (suc k)
unfolding insert_blob
insert_blob-Holds limit t n i b c k lt h = rw (find_blob_new n t h.free) (
    delete_old-Holds limit (t ++ (n, c) ∷ []) (suc n) i b (suc k) lt (record {
      found = find_blob-append_left t ((n, c) ∷ []) i b h.found;
      few_newer = omega (arith, newer-append t ((n, c) ∷ []) i, h.few_newer, newer-one n i c);
      free = IdsBelow-append n t c h.free;
    }))

pub insert_blob-new :
    (limit : ℕ) (t : Blobs) (n : ℕ) (c : Bytes)
    → 0 < limit
    → IdsBelow n t
    → Holds (insert_blob limit t n c) (suc n) n c 0
unfolding insert_blob
insert_blob-new limit t n c lt h =
    let none_yet = find_blob_new n t h in
    rw none_yet (
      delete_old-Holds limit (t ++ (n, c) ∷ []) (suc n) n c 0 lt (record {
        found = find_blob-append t n c none_yet;
        few_newer =
            omega (arith, newer-append t ((n, c) ∷ []) n, newer-IdsBelow n t h, newer_self n c);
        free = IdsBelow-append n t c h;
      }))
