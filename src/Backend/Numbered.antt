-- ===== src/Backend/Numbered.antt =====
-- QmlBackend::playSound (src/ui/qmlbackend.cpp) on sounds that come in numbered variants.
use native.Mathlib.Decide.{dec_lt}
use free_kill.Base.{
  Bool-cases, length, ◌==◌, int_eq, nat_eq, string_eq, contains, remove_one, length-remove_one,
  contains-remove_one_ne, ℕ, zero, suc, ◌+◌, ◌%◌, ◌≤◌, ◌<◌, String, ◌≡◌, refl, ap, ◌∙◌, inl, inr,
  true, false, Option, some, List, arith, eq_iff,
}
use free_kill.Backend.{count_files, chosen, sound_file, play_file, play_sound, BackendEnv}
use free_kill.Base.Int.{pos, negsuc}

module _ (f : ℕ → String) (inj : (i j : ℕ) → f i ≡ f j → i ≡ j) where
  ne_of_lt : (i j : ℕ) → i < j → (f i == f j) ≡ false
  ne_of_lt i j lt = elim (Bool-cases (f i == f j)) [
    | inl e ↦ absurd (omega (arith, inj i j ((eq_iff (f i) (f j)).0 e)))
    | inr e ↦ e
  ]

  -- So many different names need as long a list.
  le_of_contains :
      (n : ℕ) (files : List String)
      → ((i : ℕ) → i < n → contains files (f (suc i)) ≡ true)
      → n ≤ length files
  le_of_contains zero files h = omega arith
  le_of_contains (suc n) files h = omega (
    arith,
    length-remove_one files (f (suc n)) (h n (omega arith)),
    le_of_contains n (remove_one files (f (suc n))) (λ i lt.
        contains-remove_one_ne files (f (suc n)) (f (suc i))
          (ne_of_lt (suc i) (suc n) (omega arith)) (h i (omega arith))),
  )

  grown :
      (k : ℕ) (files : List String)
      → ((i : ℕ) → i < k → contains files (f (suc i)) ≡ true)
      → contains files (f (suc k)) ≡ true
      → (i : ℕ) → i < suc k
      → contains files (f (suc i)) ≡ true
  grown k files h e i l = elim (dec_lt i k) [
    | yes p ↦ h i p
    | no p ↦ let last : i ≡ k = omega arith in rw last e
  ]

  count_files_lem :
      (fuel k : ℕ) (files : List String)
      → ((i : ℕ) → i < k → contains files (f (suc i)) ≡ true)
      → length files < fuel + k
      → (n : ℕ) × (count_files fuel (λ i. contains files (f i)) (suc k) ≡ some n)
        × ((i : ℕ) → i < n → contains files (f (suc i)) ≡ true)
        × (contains files (f (suc n)) ≡ false)
  unfolding count_files
  count_files_lem zero k files h lt = absurd (omega (arith, le_of_contains k files h))
  count_files_lem (suc fuel) k files h lt = elim (Bool-cases (contains files (f (suc k)))) [
    | inl e ↦ rw e (count_files_lem fuel (suc k) files (λ i l. grown k files h e i l) (omega arith))
    | inr e ↦ rw e (k, ap some (omega arith), h, e)
  ]

-- Which of `n` variants a random number picks, and the plain file if there is none.
abbrev pub pick : BackendEnv → List String → String → ℕ → ℕ → Option String
pick env files name zero generated = play_file files (env.plain_name name)
pick env files name (suc n) generated = some (env.file_name name (pos (suc (generated % suc n))))

sound_file-suc :
    (env : BackendEnv) (name : String) (m : ℕ)
    → sound_file env name (pos (suc m)) ≡ env.file_name name (pos (suc m))
sound_file-suc env name m = ground arith

picked :
    (env : BackendEnv) (files : List String) (name : String) (generated n : ℕ)
    → ((i : ℕ) → i < n → contains files (env.file_name name (pos (suc i))) ≡ true)
    → play_file files (sound_file env name (pos (chosen n generated)))
      ≡ pick env files name n generated
picked env files name generated zero h = refl
picked env files name generated (suc n) h =
    ap (play_file files) (sound_file-suc env name (generated % suc n))
    ∙ rw (h (generated % suc n) (grind arith)) refl

-- The index -1 stands for a random variant. If different numbers make different names, one round
-- more than there are files ends the loop of playSound: it has found the number of variants before
-- the first gap. A variant is played whenever there is one, and the file without a number only if
-- there is none.
pub play_sound-pick :
    (env : BackendEnv) (files : List String) (name : String) (generated fuel : ℕ)
    → ((i j : ℕ) → env.file_name name (pos i) ≡ env.file_name name (pos j) → i ≡ j)
    → length files < fuel
    → (n : ℕ) × (play_sound fuel env files name (negsuc 0) generated
        ≡ some (pick env files name n generated))
      × ((i : ℕ) → i < n → contains files (env.file_name name (pos (suc i))) ≡ true)
      × (contains files (env.file_name name (pos (suc n))) ≡ false)
unfolding play_sound
play_sound-pick env files name generated fuel inj lt =
    let counted =
      count_files_lem (λ i. env.file_name name (pos i)) inj fuel 0 files
        (λ i l. absurd (omega arith)) (omega arith) in
    (
      counted.0,
      rw counted.1 (ap some (picked env files name generated counted.0 counted.2)),
      counted.2,
      counted.3,
    )
