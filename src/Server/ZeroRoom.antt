-- ===== src/Server/ZeroRoom.antt =====
-- Server::createRoom (src/server/server.cpp) with the capacity 0, which Lobby::createRoom
-- (lobby.cpp) takes from the client as it takes any other number.
use mathlib.Core.Path.{subst}
use free_kill.Server.Ban
use free_kill.Base.{
  if◌then◌else◌, Bool-cases, ◌==◌, nat_eq, int_eq, string_eq, inl, inr, contains, beq_refl, ℕ,
  String, ◌≡◌, refl, sym, ap, ◌∙◌, Bool, true, false, Option, none, some, List, [], ◌∷◌, ◌++◌,
  contains-append, arith,
}
use free_kill.Base.Int.{ℤ, pos}
use free_kill.World.{Place, Room, World, Env}
use free_kill.World.Notify.{do_broadcast_notify}
use free_kill.Room.Basics.{is_full, set_owner, thread_is_full, thread_is_outdated}
use free_kill.Room.Joining.{add_player}
use free_kill.Room.Seating.{is_welcome, add_player_refused}
use free_kill.Server.Rooms.{new_thread, find_thread, insert_room, with_thread, create_room}

-- Looking for a thread changes threads only.
record SameButThreads (w w' : World) : Type 0 where
  same_rooms : w'.rooms ≡ w.rooms
  same_next : w'.next_room_id ≡ w.next_room_id
  same_room : w'.room ≡ w.room
  same_player : w'.player ≡ w.player
  same_lobby : w'.lobby_players ≡ w.lobby_players

same_trans : {u v w : World} → SameButThreads u v → SameButThreads v w → SameButThreads u w
same_trans a b = record {
  same_rooms = b.same_rooms ∙ a.same_rooms;
  same_next = b.same_next ∙ a.same_next;
  same_room = b.same_room ∙ a.same_room;
  same_player = b.same_player ∙ a.same_player;
  same_lobby = b.same_lobby ∙ a.same_lobby;
}

same_refl : (w : World) → SameButThreads w w
same_refl w = record {
  same_rooms = refl;
  same_next = refl;
  same_room = refl;
  same_player = refl;
  same_lobby = refl;
}

outdated-SameButThreads : (w : World) (t : ℕ) → SameButThreads w (thread_is_outdated w t).1
unfolding thread_is_outdated
outdated-SameButThreads w t = elim (Bool-cases ((w.thread t).md5 == w.md5)) [
  | inl e ↦ rw e (same_refl w)
  | inr e ↦ rw e record {
    same_rooms = refl;
    same_next = refl;
    same_room = refl;
    same_player = refl;
    same_lobby = refl;
  }
]

if_pair :
    {w : World} (t : Bool) (a b : Option ℕ × World)
    → SameButThreads w a.1
    → SameButThreads w b.1
    → SameButThreads w (if t then a else b).1
if_pair true a b x y = x
if_pair false a b x y = y

find_thread-SameButThreads : (ts : List ℕ) (w : World) → SameButThreads w (find_thread w ts).1
unfolding find_thread
find_thread-SameButThreads [] w = same_refl w
find_thread-SameButThreads (t ∷ ts) w =
    let found = thread_is_outdated w t in
    let a = outdated-SameButThreads w t in
    if_pair (thread_is_full (w.thread t)) _ _ (find_thread-SameButThreads ts w)
      (if_pair found.0 _ _ (same_trans a (find_thread-SameButThreads ts found.1)) a)

with_thread-SameButThreads :
    {w : World} (found : Option ℕ × World)
    → SameButThreads w found.1
    → SameButThreads w (with_thread found).1
unfolding new_thread
with_thread-SameButThreads (some t, w₁) s = s
with_thread-SameButThreads (none, w₁) s = record {
  same_rooms = s.same_rooms;
  same_next = s.same_next;
  same_room = s.same_room;
  same_player = s.same_player;
  same_lobby = s.same_lobby;
}

-- A room of capacity 0 with nobody in it lets nobody in.
refuses_all :
    (w : World) (r p : ℕ)
    → (w.room r).capacity ≡ pos 0
    → (w.room r).players ≡ []
    → is_welcome w r p ≡ false
unfolding is_full
refuses_all w r p c e = rw (c, e) (ground arith)

-- What becomes of a new room of capacity 0 and its owner.
pub record Stranded (env : Env) (r p : ℕ) (place : Place) (w : World) : Type 0 where
  pub listed : contains w.rooms r ≡ true
  pub nobody_inside : (w.room r).players ≡ []
  pub owner_outside : (w.player p).room ≡ place
  pub owner_is : (w.room r).owner ≡ some p
  pub not_abandoned : (w.room r).abandoned ≡ false
  pub nobody_enters : (q : ℕ) → ((add_player env w r (some q)).room r).players ≡ []

-- The room as it is when it gets its owner.
record Empty (r : ℕ) (v : Room) : Type 0 where
  no_capacity : v.capacity ≡ pos 0
  no_players : v.players ≡ []
  in_use : v.abandoned ≡ false

owned :
    (v : World) (r p : ℕ) → (set_owner v r (some p)).room r ≡ record (v.room r) { owner = some p }
unfolding set_owner do_broadcast_notify
owned v r p = rw (beq_refl r) refl

contains-last : (rs : List ℕ) (r : ℕ) → contains (rs ++ r ∷ []) r ≡ true
unfolding contains
contains-last rs r = ground (arith, contains-append rs (r ∷ []) r, beq_refl r)

set_owner-Stranded :
    (env : Env) (v : World) (r p : ℕ) (place : Place) (rooms : List ℕ)
    → v.rooms ≡ rooms ++ r ∷ []
    → Empty r (v.room r)
    → (v.player p).room ≡ place
    → Stranded env r p place (set_owner v r (some p))
unfolding set_owner do_broadcast_notify
set_owner-Stranded env v r p place rooms listed bare outside =
    let w = set_owner v r (some p) in
    let now = owned v r p in
    let inside : (w.room r).players ≡ [] = ap (λ x. x.players) now ∙ bare.no_players in
    let none_fits : (w.room r).capacity ≡ pos 0 = ap (λ x. x.capacity) now ∙ bare.no_capacity in
    record {
      listed = ap (λ l. contains l r) listed ∙ contains-last rooms r;
      nobody_inside = inside;
      owner_outside = outside;
      owner_is = ap (λ x. x.owner) now;
      not_abandoned = ap (λ x. x.abandoned) now ∙ bare.in_use;
      nobody_enters = λ q.
          ap (λ u. (u.room r).players)
            (add_player_refused env w r q (refuses_all w r q none_fits inside))
          ∙ inside;
    }

insert-Empty :
    (w : World) (t : ℕ) (name : String) (timeout : ℤ) (settings : String)
    → Empty w.next_room_id ((insert_room w t name (pos 0) timeout settings).room w.next_room_id)
unfolding insert_room
insert-Empty w t name timeout settings =
    rw (beq_refl w.next_room_id) record { no_capacity = refl; no_players = refl; in_use = refl }

-- From the world in which the thread is found.
made-Stranded :
    (env : Env) (w : World) (t p : ℕ) (name : String) (timeout : ℤ) (settings : String)
    → let r = w.next_room_id in
      let made = insert_room w t name (pos 0) timeout settings in
      Stranded env r p (w.player p).room (set_owner (add_player env made r (some p)) r (some p))
unfolding insert_room
made-Stranded env w t p name timeout settings =
    let r = w.next_room_id in
    let made = insert_room w t name (pos 0) timeout settings in
    let bare = insert-Empty w t name timeout settings in
    let same =
      add_player_refused env made r p (refuses_all made r p bare.no_capacity bare.no_players) in
    set_owner-Stranded env (add_player env made r (some p)) r p (w.player p).room w.rooms
      (ap (λ v. v.rooms) same) (subst (λ v. Empty r (v.room r)) (sym same) bare)
      (ap (λ v. (v.player p).room) same)

-- With the capacity 0 and a name without banned words, createRoom makes a room that is in the
-- server's list and has an owner, while the owner stays where he is; nobody is inside, and addPlayer
-- lets nobody in.
pub create_room-Stranded :
    (env : Env) (w : World) (p : ℕ) (name : String) (timeout : ℤ) (settings : String)
    → Ban.check_ban_word w name ≡ true
    → Stranded env w.next_room_id p
        (w.player p).room
        (create_room env w (some p) name (pos 0) timeout settings)
unfolding create_room
create_room-Stranded env w p name timeout settings free =
    let found = with_thread (find_thread w w.threads) in
    let same =
      with_thread-SameButThreads (find_thread w w.threads)
        (find_thread-SameButThreads w.threads w) in
    let made = made-Stranded env found.1 found.0 p name timeout settings in
    let r = found.1.next_room_id in
    let inside = insert_room found.1 found.0 name (pos 0) timeout settings in
    let done = set_owner (add_player env inside r (some p)) r (some p) in
    rw free (
      subst (λ r. Stranded env r p (w.player p).room done) same.same_next
        (subst (λ f. Stranded env found.1.next_room_id p (f p).room done) same.same_player made))
