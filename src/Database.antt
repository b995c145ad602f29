-- ===== src/Database.antt =====
-- The tables of server/init.sql that the server's statements use, and the statements, one function
-- for each. SQLite itself is not modelled: a select is a search, an update a map, in row order.
use free_kill.Base.{
  if◌then◌else◌, ◌==◌, nat_eq, string_eq, int_eq, Eq, ℕ, ◌+◌, String, Bool, ◌&&◌, Option, none,
  some, List, [], ◌∷◌,
}
use free_kill.Base.Int.{ℤ}

pub record UserInfo : Type 0 where
  pub id : ℤ
  pub name : String
  pub password : String
  pub salt : String
  pub avatar : String
  pub last_login_ip : String
  pub banned : Bool

pub record RunRate : Type 0 where
  pub id : ℤ
  pub mode : String
  pub run : ℕ

pub record WinRate (K : Type 0) : Type 0 where
  pub key : K  -- the player's id, or the general's name
  pub mode : String
  pub role : String
  pub win : ℕ
  pub lose : ℕ
  pub draw : ℕ

pub record Database : Type 0 where
  pub userinfo : List UserInfo
  pub banip : List String
  pub uuidinfo : List (ℤ × String)
  pub banuuid : List String
  pub game_time : List (ℤ × ℕ)  -- usergameinfo: id, totalGameTime
  pub run_rate : List RunRate
  pub p_win_rate : List (WinRate ℤ)
  pub g_win_rate : List (WinRate String)

-- SELECT * FROM userinfo WHERE name='%1'; the first row
unfoldable pub find_user : List UserInfo → String → Option UserInfo
find_user [] n = none
find_user (u ∷ us) n = if u.name == n then some u else find_user us n

-- SELECT * FROM userinfo WHERE id=%1; the first row
unfoldable pub find_user_id : List UserInfo → ℤ → Option UserInfo
find_user_id [] i = none
find_user_id (u ∷ us) i = if u.id == i then some u else find_user_id us i

-- UPDATE userinfo SET ... WHERE id=%1
unfoldable pub update_user : List UserInfo → ℤ → (UserInfo → UserInfo) → List UserInfo
update_user [] i f = []
update_user (u ∷ us) i f = (if u.id == i then f u else u) ∷ update_user us i f

-- SELECT value WHERE id=%1 over a table of an id and one column
unfoldable pub find_column {ℓ} : {V : Type ℓ} → List (ℤ × V) → ℤ → Option V
find_column [] i = none
find_column ((j, v) ∷ rows) i = if j == i then some v else find_column rows i

unfoldable pub find_run : List RunRate → ℤ → String → Option ℕ
find_run [] i m = none
find_run (r ∷ rows) i m = if r.id == i && r.mode == m then some r.run else find_run rows i m

unfoldable pub update_run : List RunRate → ℤ → String → ℕ → List RunRate
update_run [] i m n = []
update_run (r ∷ rows) i m n =
    (if r.id == i && r.mode == m then record r { run = n } else r) ∷ update_run rows i m n

module _ {K : Type 0} ⦃e : Eq K⦄ where
  abbrev is_row : WinRate K → K → String → String → Bool
  is_row r k m role = r.key == k && (r.mode == m && r.role == role)

  unfoldable pub find_rate : List (WinRate K) → K → String → String → Option (WinRate K)
  find_rate [] k m role = none
  find_rate (r ∷ rows) k m role = if is_row r k m role then some r else find_rate rows k m role

  unfoldable pub update_rate : List (WinRate K) → K → String → String → ℕ → ℕ → ℕ → List (WinRate K)
  update_rate [] k m role w l d = []
  update_rate (r ∷ rows) k m role w l d =
      (if is_row r k m role then record r { win = w; lose = l; draw = d } else r)
      ∷ update_rate rows k m role w l d

abbrev add_row : WinRate ℤ → Option (ℕ × ℕ) → ℕ × ℕ
add_row r none = (r.win + r.lose + r.draw, r.win)
add_row r (some (total, win)) = (total + (r.win + r.lose + r.draw), win + r.win)

-- The view pWinRateView at one player and mode: the total of games and of wins. No row of the
-- group means no row of the view.
pub mode_rate : List (WinRate ℤ) → ℤ → String → Option (ℕ × ℕ)
mode_rate [] i m = none
mode_rate (r ∷ rows) i m =
    let rest = mode_rate rows i m in
    if r.key == i && r.mode == m then some (add_row r rest) else rest
