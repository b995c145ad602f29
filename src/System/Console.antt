-- ===== src/System/Console.antt =====
-- The console's commands (src/server/shell.cpp) and the calls from Lua (room.cpp) fill no seat.
use free_kill.System.Steps.{
  Order, LuaCall, bans, bans_ip, bans_uuid, kicks, says, resets, reloads, over, player_rate,
  general_rate, delays_room, holds, releases, thinks, kicks_out, tells, sets_state, sets_fields,
  asks_thread, starts_timer, ends_timer,
}
use free_kill.World.Notify.{do_notify}
use free_kill.System.Creation.{thread_is_outdated-Shrinks}
use free_kill.Shell.{
  kick_found, known_user, set_banned, ban_account, ban_ip_by_name, set_uuid_ban, ban_uuid_by_name,
  for_each, ban_ip_command, ban_uuid_command, ban_command, reset_password_command, kick_command,
  msg_command,
}
use free_kill.System.Refresh.{refresh_md5-Shrinks}
use free_kill.Base.{
  if◌then◌else◌, Option-cases, ◌==◌, int_eq, nat_eq, string_eq, contains, ℕ, String, refl, inl, inr,
  Bool, not, ◌&&◌, Option, none, some, List, [], ◌∷◌, ◌++◌, arith,
}
use free_kill.Base.Int.{pred, ℤ, pos}
use free_kill.World.{World, Env}
use free_kill.SqlText.{check_string}
use free_kill.Room.Basics.{delay, decrease_ref_count}
use free_kill.Room.Stats.{
  count_game, add_run_rate, update_player_game_data, set_last_mode, update_player_win_rate,
  update_general_win_rate,
}
use free_kill.System.Shrinks.{
  set_state-Shrinks, Shrinks-refl, Shrinks-trans, still, set_room-Shrinks, if-Shrinks,
  broadcast-Shrinks, game_data-Shrinks, Shrinks,
}
use free_kill.System.Leaving.{kick-Shrinks}
use free_kill.System.Games.{game_over-Shrinks}

kick_found-Shrinks : (env : Env) (w : World) (o : Option ℕ) → Shrinks w (kick_found env w o)
kick_found-Shrinks env w none = Shrinks-refl w
kick_found-Shrinks env w (some p) = kick-Shrinks env w p

set_banned-Shrinks : (w : World) (i : ℤ) (b : Bool) → Shrinks w (set_banned w i b)
unfolding set_banned
set_banned-Shrinks w i b = still refl

ban_account-Shrinks :
    (env : Env) (w : World) (name : String) (b : Bool) → Shrinks w (ban_account env w name b)
unfolding ban_account
ban_account-Shrinks env w name b = elim (Option-cases (known_user w name)) [
  | inl e ↦ rw (e, ban_account) (Shrinks-refl w)
  | inr (u, e) ↦
      rw (e, ban_account)
        (if-Shrinks b (Shrinks-trans (set_banned-Shrinks w u.id b) (kick_found-Shrinks env _ _))
          (set_banned-Shrinks w u.id b))
]

ban_ip_by_name-Shrinks :
    (env : Env) (w : World) (name : String) (b : Bool) → Shrinks w (ban_ip_by_name env w name b)
unfolding ban_ip_by_name
ban_ip_by_name-Shrinks env w name b = elim (Option-cases (known_user w name)) [
  | inl e ↦ rw (e, ban_ip_by_name) (Shrinks-refl w)
  | inr (u, e) ↦
      let w₁ = record w { db = record w.db { banip = w.db.banip ++ u.last_login_ip ∷ [] } } in
      let a : Shrinks w w₁ = still refl in
      rw (e, ban_ip_by_name)
        (if-Shrinks b (Shrinks-trans a (kick_found-Shrinks env w₁ _)) (still refl))
]

set_uuid_ban-Shrinks :
    (env : Env) (w : World) (i : ℤ) (o : Option String) (b : Bool)
    → Shrinks w (set_uuid_ban env w i o b)
set_uuid_ban-Shrinks env w i none b = Shrinks-refl w
set_uuid_ban-Shrinks env w i (some uuid) b =
    let w₁ = record w { db = record w.db { banuuid = w.db.banuuid ++ uuid ∷ [] } } in
    let a : Shrinks w w₁ = still refl in
    if-Shrinks b (Shrinks-trans a (kick_found-Shrinks env w₁ _)) (still refl)

ban_uuid_by_name-Shrinks :
    (env : Env) (w : World) (name : String) (b : Bool) → Shrinks w (ban_uuid_by_name env w name b)
unfolding ban_uuid_by_name
ban_uuid_by_name-Shrinks env w name b = elim (Option-cases (known_user w name)) [
  | inl e ↦ rw (e, ban_uuid_by_name) (Shrinks-refl w)
  | inr (u, e) ↦ rw (e, ban_uuid_by_name) (set_uuid_ban-Shrinks env w u.id _ b)
]

for_each-Shrinks :
    (f : World → String → World)
    → ((w : World) (n : String) → Shrinks w (f w n))
    → (ns : List String) (w : World) → Shrinks w (for_each f w ns)
unfolding for_each
for_each-Shrinks f ok [] w = Shrinks-refl w
for_each-Shrinks f ok (n ∷ ns) w = Shrinks-trans (ok w n) (for_each-Shrinks f ok ns (f w n))

uuid_command-Shrinks :
    (env : Env) (w : World) (ns : List String) (b : Bool) → Shrinks w (ban_uuid_command env w ns b)
unfolding ban_uuid_command
uuid_command-Shrinks env w ns b =
    for_each-Shrinks _ (λ v n. ban_uuid_by_name-Shrinks env v n b) ns w

kick_command-Shrinks : (env : Env) (w : World) (i : Option ℤ) → Shrinks w (kick_command env w i)
unfolding kick_command
kick_command-Shrinks env w none = Shrinks-refl w
kick_command-Shrinks env w (some i) = kick_found-Shrinks env w _

msg_command-Shrinks : (w : World) (m : Option String) → Shrinks w (msg_command w m)
unfolding msg_command
msg_command-Shrinks w none = Shrinks-refl w
msg_command-Shrinks w (some m) = broadcast-Shrinks w _ _

pub Order-Shrinks : {env : Env} {w w' : World} → Order env w w' → Shrinks w w'
unfolding ban_command ban_ip_command reset_password_command
Order-Shrinks {env} {w} (bans names b) =
    Shrinks-trans (for_each-Shrinks _ (λ v n. ban_account-Shrinks env v n b) names w)
      (uuid_command-Shrinks env _ names b)
Order-Shrinks {env} {w} (bans_ip names b) =
    for_each-Shrinks _ (λ v n. ban_ip_by_name-Shrinks env v n b) names w
Order-Shrinks {env} {w} (bans_uuid names b) = uuid_command-Shrinks env w names b
Order-Shrinks {env} {w} (kicks i) = kick_command-Shrinks env w i
Order-Shrinks {env} {w} (says m) = msg_command-Shrinks w m
Order-Shrinks {env} {w} (resets names) = for_each-Shrinks _ (λ v n. still refl) names w
Order-Shrinks {env} {w} (reloads sum) = refresh_md5-Shrinks env w sum

-- The calls from Lua.
count-Shrinks : (w : World) (r : ℕ) → Shrinks w (decrease_ref_count w r)
unfolding decrease_ref_count
count-Shrinks w r =
    let count = pred (w.room r).lua_ref_count in
    let v = record (w.room r) { lua_ref_count = count } in
    let a = set_room-Shrinks w r v refl (omega arith) in
    if-Shrinks (count == pos 0 && (w.room r).abandoned) (Shrinks-trans a (still refl)) a

general_rate-Shrinks :
    (w : World) (g m role : String) (n : ℕ) → Shrinks w (update_general_win_rate w g m role n)
unfolding update_general_win_rate
general_rate-Shrinks w g m role n =
    if-Shrinks (not (check_string g)) (Shrinks-refl w)
      (if-Shrinks (not (check_string m)) (Shrinks-refl w) (still refl))

-- updatePlayerWinRate once the database has its row.
shown-Shrinks :
    (w : World) (seated : ℕ → Bool) (i : ℤ) (m : String) (o : Option ℕ)
    → Shrinks w (elim o [
      | none ↦ w
      | some p ↦ if seated p then update_player_game_data (set_last_mode w p m) i m else w
    ])
shown-Shrinks w seated i m none = Shrinks-refl w
shown-Shrinks w seated i m (some p) =
    let w₁ = set_last_mode w p m in
    let a : Shrinks w w₁ = still refl in
    if-Shrinks (seated p) (Shrinks-trans a (game_data-Shrinks w₁ i m)) (Shrinks-refl w)

player_rate-Shrinks :
    (w : World) (r : ℕ) (i : ℤ) (m role : String) (n : ℕ)
    → Shrinks w (update_player_win_rate w r i m role n)
unfolding update_player_win_rate add_run_rate
player_rate-Shrinks w r i m role n =
    let w₁ = record w { db = record w.db { p_win_rate = count_game w.db.p_win_rate i m role n } } in
    let a : Shrinks w w₁ = still refl in
    if-Shrinks (not (check_string m)) (Shrinks-refl w) (
      Shrinks-trans
        (Shrinks-trans a
          (if-Shrinks (contains (w.room r).runned_players i) (still refl) (Shrinks-refl w₁)))
        (shown-Shrinks _ (contains (w.room r).players) i m _))

pub LuaCall-Shrinks : {env : Env} {w w' : World} → LuaCall env w w' → Shrinks w w'
unfolding delay do_notify
LuaCall-Shrinks {env} {w} (over r) = game_over-Shrinks env w r
LuaCall-Shrinks {env} {w} (player_rate r i m role n) = player_rate-Shrinks w r i m role n
LuaCall-Shrinks {env} {w} (general_rate g m role n) = general_rate-Shrinks w g m role n
LuaCall-Shrinks {env} {w} (delays_room r ms) = still refl
LuaCall-Shrinks {env} {w} (holds r) = set_room-Shrinks w r _ refl (omega arith)
LuaCall-Shrinks {env} {w} (releases r) = count-Shrinks w r
LuaCall-Shrinks {env} {w} (kicks_out p) = kick-Shrinks env w p
LuaCall-Shrinks {env} {w} (tells p c b) = still refl
LuaCall-Shrinks {env} {w} (sets_state p s) = set_state-Shrinks w p s
LuaCall-Shrinks {env} {w} (sets_fields p b) = still refl
LuaCall-Shrinks {env} {w} (asks_thread t) = thread_is_outdated-Shrinks w t
LuaCall-Shrinks {env} {w} (starts_timer r ms) = set_room-Shrinks w r _ refl (omega arith)
LuaCall-Shrinks {env} {w} (ends_timer r) = set_room-Shrinks w r _ refl (omega arith)
LuaCall-Shrinks {env} {w} (thinks p b) = still refl
