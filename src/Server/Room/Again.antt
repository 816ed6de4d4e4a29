-- ===== src/Server/Room/Again.antt =====
-- internal/wxserver/room/hub.go: confirmations after a match was made, after one failed, and a joiner
-- kicked while one is being made.
use mr1v.Base.{ℕ, ◌+◌, ◌≡◌, refl, Bool, true, false, none, some, List, [], ◌∷◌, ◌++◌, String, arith}
use mr1v.Server.Room.{
  creator, Client, matched, confirmed, error, Hub, Effect, send, set_room_matched, post_match,
  confirm, read, create_match,
}
use mr1v.Server.Room.Steps.{handle_confirm, handle_kick_joiner, read_message, run, alone}
use mr1v.Server.Room.OneMatch.{matches_made}
use mr1v.Server.Room.Leave.{as_creator, as_joiner}

-- A hub with both players in it, and what they confirmed.
abbrev pub paired : Client → Client → Bool → Bool → Hub → Hub
paired c j by_c by_j h = record h {
  slot_0 = some (record { client = as_creator c; confirmed = by_c });
  slot_1 = some (record { client = as_joiner j; confirmed = by_j });
  matching = false;
}

abbrev pub to_both : Client → Client → (ℕ → Effect) → List Effect
to_both c j e = e c.conn ∷ e j.conn ∷ []

abbrev pub asked : Client → Client → List Effect
asked c j =
    to_both c j (λ k. send k (confirmed creator c.name c.avatar))
    ++ (post_match c.steam_id j.steam_id ∷ [])

abbrev pub made : Client → Client → String → String → List Effect
made c j id addr =
    asked c j ++ (set_room_matched id addr ∷ to_both c j (λ k. send k (matched addr id)))

-- When the joiner has confirmed, the creator's confirmation makes a match, and a second one of the
-- same creator, once that match stands, makes another one: the backend is asked again, and the new
-- match takes the place of the first in the hub, in the store and on the players' screens.
pub confirm-confirm :
    (c j : Client) (b : Bool) (id addr id' addr' : String) (h : Hub) (n : ℕ)
    → (alone (7 + n) (some (id, addr)) (read (as_creator c) confirm ∷ []) (paired c j b true h)
        ≡ some (
          record (paired c j true true h) { is_matched = true; match_id = id; server_addr = addr },
          made c j id addr,
        ))
      × (alone
            (7 + n)
            (some (id', addr'))
            (read (as_creator c) confirm ∷ [])
            (record (paired c j true true h) {
              is_matched = true;
              match_id = id;
              server_addr = addr;
            })
          ≡ some (
            record (paired c j true true h) {
              is_matched = true;
              match_id = id';
              server_addr = addr';
            },
            made c j id' addr',
          ))
unfolding alone run read_message handle_confirm
confirm-confirm c j b id addr id' addr' h n = (ground arith, ground arith)

-- When the backend makes no match, both players are told, both confirmations are cleared and the
-- flag is off; then the confirmation of either player alone starts nothing, so that both have to
-- confirm again.
pub confirm-failed :
    (c j : Client) (b : Bool) (h : Hub) (n : ℕ)
    → (alone (6 + n) none (read (as_creator c) confirm ∷ []) (paired c j b true h)
        ≡ some (paired c j false false h, asked c j ++ to_both c j (λ k. send k error)))
      × (matches_made (handle_confirm (as_creator c) (paired c j false false h)).rest ≡ 0)
      × (matches_made (handle_confirm (as_joiner j) (paired c j false false h)).rest ≡ 0)
unfolding alone run read_message handle_confirm
confirm-failed c j b h n = (ground arith, refl, refl)

-- The creator can kick the joiner while the match for both is being made. The room is then matched
-- without a joiner, and only the creator is sent the match.
pub kick-matching :
    (c j : Client) (id addr : String) (h : Hub) (n : ℕ)
    → h.is_matched ≡ false
    → let made_for_both = record (paired c j true true h) { matching = true } in
      alone
        (5 + n)
        none
        (run (some (id, addr)) (create_match c.steam_id j.steam_id) made_for_both).rest
        (handle_kick_joiner made_for_both).hub
      ≡ some (
        record (paired c j false false h) {
          slot_1 = none;
          is_matched = true;
          match_id = id;
          server_addr = addr;
        },
        set_room_matched id addr ∷ send c.conn (matched addr id) ∷ [],
      )
unfolding alone run handle_kick_joiner
kick-matching c j id addr h n early = rw early (ground arith)
