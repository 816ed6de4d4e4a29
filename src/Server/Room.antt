-- ===== src/Server/Room.antt =====
-- internal/wxserver/room/hub.go: the hub of a room. A goroutine's work is cut where the hub's lock
-- is taken, into tasks; what follows a locked part and reads nothing of the hub belongs to its task.
pub mod Steps
pub mod OneMatch
pub mod Leave
pub mod Again
pub mod Ends
pub mod Manager
use mr1v.Base.{
  ℕ, ◌≡◌, Bool, true, false, not, ◌&&◌, Option, none, some, List, [], ◌∷◌, ◌++◌, String, ◌==◌,
  if◌then◌else◌,
}

pub data Role : Type 0 where
  creator joiner : Role

-- What `Connect` is given; `conn` is the connection, and stands for the slot object too, since every
-- call of `Connect` makes one slot for its connection.
pub record Client : Type 0 where
  pub conn : ℕ
  pub openid : String
  pub name : String
  pub avatar : String
  pub steam_id : String
  pub role : Role

pub record Slot : Type 0 where
  pub client : Client
  pub confirmed : Bool

pub record Chat : Type 0 where
  pub role : Role
  pub name : String
  pub content : String

-- The event "state" that a client is sent when it connects.
pub record Known : Type 0 where
  pub other_online : Bool
  pub other_confirmed : Bool
  pub my_confirmed : Bool
  pub score_creator : ℕ
  pub score_joiner : ℕ
  pub other_name : String
  pub other_avatar : String

-- `Event`, by its `Type`.
pub data Event : Type 0 where
  history : List Chat → Event
  state : Known → Event
  matched player_joined : String → String → Event
  chat : Chat → Event
  confirmed : Role → String → String → Event
  cancelled player_left : Role → String → Event
  score_update : ℕ → ℕ → Event
  room_closed kicked error : Event
  match_ended : String → Event

pub record Hub : Type 0 where
  pub slot_0 : Option Slot
  pub slot_1 : Option Slot
  pub chats : List Chat
  pub matching : Bool
  pub is_matched : Bool
  pub match_id : String
  pub server_addr : String
  pub score_creator : ℕ
  pub score_joiner : ℕ

abbrev pub new_hub : Hub
new_hub = record {
  slot_0 = none;
  slot_1 = none;
  chats = [];
  matching = false;
  is_matched = false;
  match_id = "";
  server_addr = "";
  score_creator = 0;
  score_joiner = 0;
}

-- What the hub does to the rest of the program: connections, the store, the backend, the manager.
pub data Effect : Type 0 where
  send : ℕ → Event → Effect
  close : ℕ → Effect
  delete_room on_empty : Effect
  leave_room : String → Effect
  set_room_matched post_match : String → String → Effect

-- What a client sends; `other_message` is one that does not parse or has another type.
pub data Message : Type 0 where
  chat_message : String → Message
  confirm cancel_confirm close_room kick_joiner other_message : Message

pub data Task : Type 0 where
  connect : Client → Task
  read : Client → Message → Task
  broadcast : Event → Task
  create_match store_matched match_ready : String → String → Task
  reset_confirms check_empty close_by_creator : Task
  detach : Client → Bool → Task
  leave : Client → Bool → Option Slot → Task
  clear_confirm : Client → Option Slot → Task
  notify_score_update : ℕ → ℕ → Task
  notify_match_ended : String → Task

-- The hub after a task, the tasks that the goroutine has next, and what was done, in order.
pub record Outcome : Type 0 where
  pub hub : Hub
  pub rest : List Task
  pub done : List Effect

abbrev pub outcome : Hub → List Task → List Effect → Outcome
outcome h ts es = record { hub = h; rest = ts; done = es }

abbrev pub slot_of : Role → Hub → Option Slot
slot_of creator h = h.slot_0
slot_of joiner h = h.slot_1

abbrev pub other : Role → Role
other creator = joiner
other joiner = creator

abbrev pub set_slot : Role → Option Slot → Hub → Hub
set_slot creator s h = record h { slot_0 = s }
set_slot joiner s h = record h { slot_1 = s }

abbrev pub with_confirmed : Bool → Option Slot → Option Slot
with_confirmed b none = none
with_confirmed b (some s) = some (record s { confirmed = b })

abbrev pub send_to : Option Slot → Event → List Effect
send_to none e = []
send_to (some s) e = send s.client.conn e ∷ []

-- `h.send` and `conn.Close` on a slot that is there.
abbrev pub dismiss : Option Slot → Event → List Effect
dismiss none e = []
dismiss (some s) e = send s.client.conn e ∷ close s.client.conn ∷ []

-- The rest of `Connect` before its read loop.
abbrev known : Option Slot → Hub → Known
known none h = record {
  other_online = false;
  other_confirmed = false;
  my_confirmed = false;
  score_creator = h.score_creator;
  score_joiner = h.score_joiner;
  other_name = "";
  other_avatar = "";
}
known (some s) h = record {
  other_online = true;
  other_confirmed = s.confirmed;
  my_confirmed = false;
  score_creator = h.score_creator;
  score_joiner = h.score_joiner;
  other_name = s.client.name;
  other_avatar = s.client.avatar;
}

abbrev past : ℕ → List Chat → List Effect
past conn [] = []
past conn (c ∷ cs) = send conn (history (c ∷ cs)) ∷ []

abbrev announce : Client → Role → Option Slot → List Effect
announce c creator o = []
announce c joiner o = send_to o (player_joined c.name c.avatar)

unfoldable pub connect_client : Client → Hub → Outcome
connect_client c h =
    let o = slot_of (other c.role) h in
    outcome (set_slot c.role (some (record { client = c; confirmed = false })) h) [] (
      past c.conn h.chats
      ++ (send c.conn (state (known o h))
          ∷ (if h.is_matched then send c.conn (matched h.server_addr h.match_id) ∷ [] else []))
      ++ announce c c.role o)
