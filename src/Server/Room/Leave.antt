-- ===== src/Server/Room/Leave.antt =====
-- internal/wxserver/room/hub.go: connections that were replaced, and joiners that leave or are
-- kicked.
use mr1v.Base.{
  ℕ, ◌+◌, ◌≡◌, ◌≢◌, refl, subst, Bool, false, Option, none, some, List, [], ◌∷◌, ◌++◌, String,
  ==_iff, arith,
}
use mr1v.Server.Room.{
  Role, creator, joiner, Client, Slot, player_left, Hub, Effect, leave_room, on_empty, detach,
  outcome, slot_of, set_slot, with_confirmed, send_to, connect_client,
}
use mr1v.Server.Room.Steps.{
  handle_confirm, handle_kick_joiner, detach_client, leave_client, run, alone,
}
use mr1v.Server.Room.OneMatch.{matches_made}

abbrev pub as_creator : Client → Client
as_creator c = record c { role = creator }

abbrev pub as_joiner : Client → Client
as_joiner c = record c { role = joiner }

slot_of-set_slot : (r : Role) (s : Option Slot) (h : Hub) → slot_of r (set_slot r s h) ≡ s
slot_of-set_slot creator s h = refl
slot_of-set_slot joiner s h = refl

detach_client-other :
    (old : Client) (explicit : Bool) (h : Hub) (s : Slot)
    → slot_of old.role h ≡ some s
    → s.client.conn ≢ old.conn
    → detach_client old explicit h ≡ outcome h [] []
unfolding detach_client
detach_client-other old explicit h s e apart = rw e (ground arith)

-- When a connection has taken the place of another one of the same role, the end of the older one,
-- however late, changes nothing and tells nobody.
pub stale_detach :
    (old new : Client) (explicit : Bool) (h : Hub)
    → new.role ≡ old.role
    → new.conn ≢ old.conn
    → detach_client old explicit (connect_client new h).hub
      ≡ outcome (connect_client new h).hub [] []
unfolding connect_client
stale_detach old new explicit h same apart =
    let s : Slot = record { client = new; confirmed = false } in
    detach_client-other old explicit (connect_client new h).hub s
      (subst (λ r. slot_of r (set_slot new.role (some s) h) ≡ some s) same
        (slot_of-set_slot new.role (some s) h))
      apart

-- The hub without its joiner; what the creator confirmed of the joiner is gone.
abbrev pub vacated : Hub → Hub
vacated h = record h { slot_0 = with_confirmed false h.slot_0; slot_1 = none }

abbrev pub emptied : Option Slot → List Effect
emptied none = on_empty ∷ []
emptied (some s) = []

abbrev pub with_joiner : Client → Bool → Hub → Hub
with_joiner j b h = record h {
  slot_1 = some (record { client = as_joiner j; confirmed = b });
  is_matched = false;
}

-- A joiner whose connection ends before the match, whether by closing or by a broken line, leaves
-- the room in the store; the creator's confirmation is cleared, the creator is told, and with no
-- creator connected the hub is given up.
pub detach_joiner :
    (j : Client) (b explicit : Bool) (reply : Option (String × String)) (h : Hub) (n : ℕ)
    → alone (5 + n) reply (detach (as_joiner j) explicit ∷ []) (with_joiner j b h)
      ≡ some (
        vacated (with_joiner j b h),
        leave_room j.openid ∷ send_to h.slot_0 (player_left joiner j.name) ++ emptied h.slot_0,
      )
unfolding alone run detach_client leave_client
detach_joiner j b explicit reply h n = ground (arith, ==_iff j.conn j.conn)

-- Kicking a joiner before the match leaves the same hub, and in it the next joiner's confirmation
-- starts no match, whatever was confirmed of the one before.
pub vacated-handle_confirm :
    (c : Client) (h : Hub)
    → h.is_matched ≡ false
    → ((handle_kick_joiner h).hub ≡ vacated h)
      × (matches_made
            (handle_confirm (as_joiner c) (connect_client (as_joiner c) (vacated h)).hub).rest
          ≡ 0)
unfolding handle_kick_joiner handle_confirm connect_client
vacated-handle_confirm c h early = (rw early refl, ground arith)
