-- ===== src/Shell/Matching.antt =====
-- What completion (src/server/shell.cpp) answers: the names with the prefix.
use free_kill.Base.{
  ltb, if◌then◌else◌, Bool-cases, length, drop, ◌==◌, nat_eq, string_eq, ℕ, zero, suc, ◌+◌, ◌≤◌,
  String, ◌≡◌, refl, ap, ◌∙◌, Bool, true, false, ◌||◌, Option, none, some, List, [], ◌∷◌, map, inl,
  inr, ◌⊎◌, arith,
}
use free_kill.PackMan.{Package}
use free_kill.World.{World}
use free_kill.Shell.Completion.{
  Reading, has_prefix, Generator, scan, generate, generate_command, recommend_repos, repo_generator,
  package_generator, user_generator, banned_names, banned_user_generator, collect, fk_completion,
}

-- What is copied for the names where something that begins with the text is compared.
unfoldable pub matching : (String → Reading) → String → List String → List String
matching read text [] = []
matching read text (name ∷ names) =
    let rest = matching read text names in
    if has_prefix (read name).compared text then (read name).copied ∷ rest else rest

-- Which names a line is completed with, by where the text begins in the line and by the words of
-- the line.
unfoldable pub names_for : List String → List Package → World → ℕ → List String → List String
unfolding has_prefix banned_names
names_for keys ps w zero words = keys
names_for keys ps w (suc start) [] = []
names_for keys ps w (suc start) (command ∷ words) =
    if ltb 1 (length words)
    then []
    else if command == "install"
    then recommend_repos
    else if command == "remove"
        || (command == "upgrade" || (command == "enable" || command == "disable"))
    then map (λ p. p.name) ps
    else if has_prefix command "ban" || (command == "resetpassword" || command == "rp")
    then map (λ u. u.name) w.db.userinfo
    else if has_prefix command "unban"
    then banned_names w.db.userinfo
    else []

drop-drop :
    (m : ℕ) (xs : List String) (x : String) (ys : List String)
    → drop m xs ≡ x ∷ ys
    → drop (suc m) xs ≡ ys
drop-drop zero [] x ys h = ground arith
drop-drop zero (z ∷ xs) x ys h = ground arith
drop-drop (suc m) [] x ys h = ground arith
drop-drop (suc m) (z ∷ xs) x ys h = drop-drop m xs x ys h

-- What the loop finds from a place in the list on: nothing, or the first match.
record Found (read : String → Reading) (text : String) (arr xs : List String)
    (r : Option String × ℕ) (name : String) (ys : List String) : Type 0 where
  answer : r.0 ≡ some name
  first : matching read text xs ≡ name ∷ matching read text ys
  place : drop r.1 arr ≡ ys
  shorter : length ys + 1 ≤ length xs

abbrev Result : (String → Reading) → String → List String → List String → Option String × ℕ → Type 0
Result read text arr xs r =
    ((r.0 ≡ none) × (matching read text xs ≡ []))
    ⊎ ((name : String) × (ys : List String) × Found read text arr xs r name ys)

scan-Result :
    (read : String → Reading) (text : String) (arr xs : List String) (i : ℕ)
    → drop i arr ≡ xs
    → Result read text arr xs (scan read text xs i)
unfolding scan matching
scan-Result read text arr [] i h = inl (refl, refl)
scan-Result read text arr (x ∷ xs) i h = elim (Bool-cases (has_prefix (read x).compared text)) [
  | inl e ↦ inr (
    (read x).copied,
    xs,
    record {
      answer = rw e refl;
      first = rw e refl;
      place = rw e (drop-drop i arr x xs h);
      shorter = omega arith;
    },
  )
  | inr e ↦ elim (scan-Result read text arr xs (suc i) (drop-drop i arr x xs h)) [
    | inl (n, m) ↦ inl (rw e n, rw e m)
    | inr (name, ys, f) ↦ inr (
      name,
      ys,
      record {
        answer = rw e f.answer;
        first = rw e f.first;
        place = rw e f.place;
        shorter = omega (arith, f.shorter);
      },
    )
  ]
]

-- From a place in the list on, the calls answer the matching names of what is left.
collect-matching :
    (read : String → Reading) (fuel : ℕ) (names : List String) (text : String) (g : Generator)
    → length (drop g.list_index g.arr) + 1 ≤ fuel
    → collect fuel (generate read names text) 1 g ≡ matching read text (drop g.list_index g.arr)
unfolding collect generate
collect-matching read zero names text g e = ground arith
collect-matching read (suc fuel) names text g e =
    let left = drop g.list_index g.arr in
    elim (scan-Result read text g.arr left g.list_index refl) [
      | inl (n, m) ↦ rw (collect, generate, n, m) refl
      | inr (name, ys, f) ↦
          let next : Generator = record g { list_index = (scan read text left g.list_index).1 } in
          let short : length (drop next.list_index next.arr) + 1 ≤ fuel =
            omega (arith, e, f.shorter, ap length f.place) in
          rw (collect, generate, f.answer, f.first)
            (ap (◌∷◌ name)
              (collect-matching read fuel names text next short ∙ ap (matching read text) f.place))
    ]

-- From the first call on.
collect-matching_all :
    (read : String → Reading) (fuel : ℕ) (names : List String) (text : String) (g : Generator)
    → length names + 1 ≤ fuel
    → collect fuel (generate read names text) 0 g ≡ matching read text names
unfolding collect generate
collect-matching_all read zero names text g e = ground arith
collect-matching_all read (suc fuel) names text g e =
    collect-matching read (suc fuel) names text (record { arr = names; list_index = 0 }) e

if-matching :
    (read : String → Reading) (fuel : ℕ) (text : String) (t : Bool) (xs ys ms bs : List String)
    → (length ms + 1 ≤ fuel → xs ≡ matching read text ms)
    → (length bs + 1 ≤ fuel → ys ≡ matching read text bs)
    → length (if t then ms else bs) + 1 ≤ fuel
    → (if t then xs else ys) ≡ matching read text (if t then ms else bs)
if-matching read fuel text true xs ys ms bs h k e = h e
if-matching read fuel text false xs ys ms bs h k e = k e

-- Whatever is read where the bytes of the names have been freed, fk_completion comes to an end with one
-- call more than there are names for the line. For each of these names, in their order, it answers what
-- strdup finds there, if what strncmp finds begins with the text; whatever list the generator stopped
-- in before.
pub fk_completion-matching :
    (read : String → Reading) (fuel : ℕ) (keys : List String) (ps : List Package) (w : World)
    (g : Generator) (start : ℕ) (words : List String) (text : String)
    → length (names_for keys ps w start words) + 1 ≤ fuel
    → fk_completion read fuel keys ps w g start words text
      ≡ matching read text (names_for keys ps w start words)
unfolding fk_completion names_for matching generate_command repo_generator package_generator
    user_generator banned_user_generator
fk_completion-matching read fuel keys ps w g zero words text =
    collect-matching_all read fuel keys text g
fk_completion-matching read fuel keys ps w g (suc start) [] text = λ e. refl
fk_completion-matching read fuel keys ps w g (suc start) (command ∷ words) text =
    let all = λ (names : List String). collect-matching_all read fuel names text g in
    if-matching read fuel text (ltb 1 (length words)) _ _ _ _ (λ e. refl)
      (if-matching read fuel text (command == "install") _ _ _ _ (all recommend_repos) (
        if-matching read fuel text
          (command == "remove"
            || (command == "upgrade" || (command == "enable" || command == "disable")))
          _ _ _ _ (all (map (λ p. p.name) ps))
          (if-matching read fuel text
            (has_prefix command "ban" || (command == "resetpassword" || command == "rp")) _ _ _ _
            (all (map (λ u. u.name) w.db.userinfo))
            (if-matching read fuel text (has_prefix command "unban") _ _ _ _
              (all (banned_names w.db.userinfo)) (λ e. refl)))))
