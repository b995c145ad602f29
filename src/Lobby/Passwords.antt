-- ===== src/Lobby/Passwords.antt =====
-- Changing the password: Lobby::updatePassword (src/server/lobby.cpp) against checkPassword
-- (src/server/auth.cpp).
use mathlib.Core.Option.{map}
use free_kill.Lobby.Commands.{salted, update_password}
use free_kill.World.{World, Env}
use free_kill.World.Notify.{do_notify}
use free_kill.Json.{at, to_string, as_array}
use free_kill.Base.{
  true, ltb, ◌+◌, ◌/◌, ◌%◌, ◌++◌, Bool, beq_refl, ap, if◌then◌else◌, Bool-cases, ◌==◌, int_eq,
  nat_eq, string_eq, ℕ, String, ◌≡◌, refl, inl, inr, false, ◌&&◌, none, some, List, [], ◌∷◌, arith,
}
use free_kill.Base.Int.{int_beq_iff, ℤ}
use free_kill.Database.{find_user_id, update_user, UserInfo}
use free_kill.SqlText.{latin1}
use Prim.Native.Char.{code}
use free_kill.Server.Auth.{account_error}

-- UPDATE and then SELECT, if the id is not what is changed.
find_user_id-update_user :
    (us : List UserInfo) (i : ℤ) (f : UserInfo → UserInfo)
    → ((u : UserInfo) → (f u).id ≡ u.id)
    → (j : ℤ)
    → find_user_id (update_user us i f) j
      ≡ (if j == i then map f (find_user_id us j) else find_user_id us j)
unfolding find_user_id update_user
find_user_id-update_user [] i f keep j = ground arith
find_user_id-update_user (u ∷ us) i f keep j =
    let ih = find_user_id-update_user us i f keep j in
    ground (arith, keep u, int_beq_iff u.id i, int_beq_iff u.id j, int_beq_iff j i)

-- A row with a new password.
abbrev pub changed_row : Env → UserInfo → String → UserInfo
changed_row env u newpw = record u { password = salted env newpw u.salt }

-- Every character is one of ASCII.
unfoldable pub is_ascii : String → Bool
is_ascii String.[] = true
is_ascii (String.◌∷◌ c s) = ltb (code c) 128 && is_ascii s

-- QString::toUtf8, as the client sends a password
abbrev utf8_of : ℕ → List ℕ
utf8_of n =
    if ltb n 0x80
    then n ∷ []
    else if ltb n 0x800
    then (0xc0 + n / 64) ∷ (0x80 + n % 64) ∷ []
    else if ltb n 0x10000
    then (0xe0 + n / 4096) ∷ (0x80 + n / 64 % 64) ∷ (0x80 + n % 64) ∷ []
    else (0xf0 + n / 262144) ∷ (0x80 + n / 4096 % 64) ∷ (0x80 + n / 64 % 64) ∷ (0x80 + n % 64) ∷ []

unfoldable pub utf8 : String → List ℕ
utf8 String.[] = []
utf8 (String.◌∷◌ c s) = utf8_of (code c) ++ utf8 s

utf8_ascii : (s : String) → is_ascii s ≡ true → utf8 s ≡ latin1 s
unfolding utf8 latin1 is_ascii
utf8_ascii String.[] h = refl
utf8_ascii (String.◌∷◌ c s) h =
    let small : ltb (code c) 128 ≡ true = ground arith in
    let fits : ltb (code c) 256 ≡ true = ground arith in
    rw (small, fits) (ap (◌∷◌ (code c)) (utf8_ascii s (ground arith)))

-- If the sender has a row and it is not banned, and the new password is ASCII, then after
-- updatePassword every row is found under its id as before, but for the sender's if the old password
-- is right: that one has the salted hash of the new password, and checkPassword has nothing against
-- it with the UTF-8 bytes of the new password, which the client sends.
pub update_password_opens :
    (env : Env) (w : World) (p : ℕ) (msg : String) (u : UserInfo)
    → find_user_id w.db.userinfo (w.player p).id ≡ some u
    → u.banned ≡ false
    → is_ascii (to_string (at (as_array (env.from_json msg)) 1)) ≡ true
    → let args = as_array (env.from_json msg) in
      let changed = changed_row env u (to_string (at args 1)) in
      ((j : ℤ)
        → find_user_id (update_password env w p msg).db.userinfo j ≡ (
            if j == (w.player p).id && u.password == salted env (to_string (at args 0)) u.salt
            then some changed
            else find_user_id w.db.userinfo j))
      × (account_error env changed (utf8 (to_string (at args 1))) ≡ none)
unfolding update_password account_error do_notify
update_password_opens env w p msg u found open_ plain =
    let args = as_array (env.from_json msg) in
    let i = (w.player p).id in
    let newpw = to_string (at args 1) in
    let hash = salted env newpw u.salt in
    (
      λ j. elim (Bool-cases (u.password == salted env (to_string (at args 0)) u.salt)) [
        | inr wrong ↦ rw (found, update_password, wrong) (ground arith)
        | inl right ↦
            rw
              (
                found,
                update_password,
                right,
                find_user_id-update_user w.db.userinfo i (λ v. record v { password = hash })
                    (λ v. refl) j,
              )
              (elim (Bool-cases (j == i)) [
                | inr e ↦ rw e refl
                | inl e ↦ let same : j ≡ i = (int_beq_iff j i).0 e in rw (e, same, found) refl
              ])
      ],
      rw (utf8_ascii newpw plain, open_, beq_refl hash) refl,
    )
